-- ===== src/Fec/Sender/Control.antt =====
-- Control packets and time: sendPing, handlePong, handleStats, onPacketReceived and tick of
-- libs/frame_protoc/src/sender.cpp.
use tj_rtc.Prelude.{
  ℕ, ◌+◌, ◌-◌, ◌*◌, ◌/◌, ◌%◌, ◌^◌, Bool, true, ◌&&◌, ◌||◌, Option, none, some, List, [], ◌∷◌, ◌++◌,
  ltb, leb, ◌==◌, if◌then◌else◌, length,
}
use tj_rtc.Bytes.{Outcome, ok, reject, fault, write_be16, write_be64, read_be32, read_be64}
use tj_rtc.Fec.Seq.{compute_seq_len}
use tj_rtc.Fec.Header.{serialize_common, deserialize_common}
use tj_rtc.Fec.Payload.{TlvItem, deserialize_tlv}
use tj_rtc.Fec.Sender.State.{
  MathOps, SenderConfig, ProtocolStats, FrameSender, sub_word, send_packet,
}
use tj_rtc.Fec.Sender.Cache.{cleanup_cache, cleanup_expired_cache}
use tj_rtc.Fec.Sender.Retransmit.{handle_nack}

-- MsgType and TlvType
abbrev pub msg_data : ℕ
msg_data = 1

abbrev pub msg_nack : ℕ
msg_nack = 2

abbrev pub msg_stats : ℕ
msg_stats = 3

abbrev pub msg_ping : ℕ
msg_ping = 4

abbrev pub msg_pong : ℕ
msg_pong = 5

abbrev pub msg_pli : ℕ
msg_pli = 6

abbrev pub tlv_rtt : ℕ
tlv_rtt = 1

abbrev pub tlv_loss_rate : ℕ
tlv_loss_rate = 2

abbrev pub tlv_fec_recovery_rate : ℕ
tlv_fec_recovery_rate = 3

abbrev pub tlv_nack_recovery_rate : ℕ
tlv_nack_recovery_rate = 4

abbrev pub tlv_bandwidth_estimate : ℕ
tlv_bandwidth_estimate = 5

abbrev pub tlv_completed_seq : ℕ
tlv_completed_seq = 6

abbrev pub tlv_goodput : ℕ
tlv_goodput = 0x12

abbrev pub tlv_timestamp : ℕ
tlv_timestamp = 0x10

abbrev pub tlv_echo_timestamp : ℕ
tlv_echo_timestamp = 0x11

-- A header into the buffer that the caller has sized for it; where it does not fit, nothing.
abbrev pub written : Option (List ℕ) → List ℕ
written none = []
written (some bytes) = bytes

-- The bytes of a control packet: a common header with kProtocolVersion, and what follows it.
unfoldable pub control_packet : ℕ → ℕ → ℕ → List ℕ → List ℕ
unfolding serialize_common
control_packet kind seq seq_len payload =
    written (
      serialize_common (record { version = 1; seq_len = seq_len; msg_type = kind; seq_num = seq })
        (2 + seq_len + length payload))
    ++ payload

-- `readBE..(item.value.data())` of a value whose size has been tested.
abbrev pub value_of : Outcome (ℕ × List ℕ) → ℕ
value_of (ok (v, rest)) = v
value_of reject = 0
value_of fault = 0

abbrev pub first_of : List ℕ → ℕ
first_of [] = 0
first_of (b ∷ bytes) = b

module _ {F : Type 0} where
  -- The payload of a PING: its length, the time, and the round trip time where it is known.
  unfoldable pub ping_payload : ProtocolStats F → ℕ → List ℕ
  ping_payload stats now_us =
      let has_rtt = ltb 0 stats.rtt_ms in
      write_be16 (if has_rtt then 14 else 10)
      ++ (tlv_timestamp
          ∷ (8
              ∷ (write_be64 now_us
                  ++ (if has_rtt
                      then (tlv_rtt ∷ (2 ∷ write_be16 (stats.rtt_ms % 2 ^ 16)))
                      else []))))

  unfoldable pub send_ping : FrameSender F → ℕ → FrameSender F
  unfolding control_packet ping_payload send_packet compute_seq_len
  send_ping s now_us =
      let seq = s.cmd_seq + 1 in
      send_packet
        (record s { cmd_seq = seq; last_ping_time_us = now_us; last_ping_timestamp = now_us })
        (control_packet msg_ping seq (compute_seq_len seq) (ping_payload s.stats now_us))

  unfoldable pub pong_item : ProtocolStats F → TlvItem → ℕ → ProtocolStats F
  pong_item stats item now_us =
      let echo_ts = value_of (read_be64 item.value) in
      if item.kind == tlv_echo_timestamp && length item.value == 8
      then (if ltb echo_ts now_us
          then (record stats { rtt_ms = (now_us - echo_ts) / 1000 % 2 ^ 32 })
          else stats)
      else stats

  unfoldable pub pong_items : ProtocolStats F → List TlvItem → ℕ → ProtocolStats F
  unfolding pong_item
  pong_items stats [] now_us = stats
  pong_items stats (item ∷ items) now_us = pong_items (pong_item stats item now_us) items now_us

  unfoldable pub handle_pong : FrameSender F → List ℕ → ℕ → FrameSender F
  unfolding pong_items
  handle_pong s payload now_us =
      let seen = record s { last_pong_time_us = now_us } in
      elim (deserialize_tlv payload) [
        | ok (items, rest) ↦ record seen { stats = pong_items seen.stats items now_us }
        | reject ↦ seen
        | fault ↦ seen
      ]

  unfoldable pub report_stats : FrameSender F → FrameSender F
  report_stats s = if s.stats_cb then (record s { reported = s.reported ++ (s.stats ∷ []) }) else s

  unfoldable pub handle_pli : FrameSender F → FrameSender F
  handle_pli s = if s.key_frame_request_cb then (record s { key_frames = s.key_frames + 1 }) else s

  -- The `completed seq` of the peer: only a larger one counts.
  unfoldable pub completed_item : FrameSender F → ℕ → FrameSender F
  completed_item s completed =
      if ltb s.peer_completed_seq completed
      then (record s { peer_completed_seq = completed; cache = cleanup_cache s.cache completed })
      else s

module _ {F : Type 0} (ops : MathOps F) (cfg : SenderConfig F) where
  open ops use {float}

  unfoldable pub rate_of : List ℕ → F
  rate_of value = float.div (float.of_uint (first_of value)) (float.of_uint 255)

  -- One item of a STATS packet. The adaptive ratio is switched on whatever the size of the rate.
  unfoldable pub stats_item : FrameSender F → TlvItem → FrameSender F
  unfolding completed_item rate_of
  stats_item s item =
      let size = length item.value in
      if item.kind == tlv_loss_rate
      then (record s {
        stats = if size == 1 then (record s.stats { loss_rate = rate_of item.value }) else s.stats;
        fec_adaptive_active = true;
      })
      else if item.kind == tlv_fec_recovery_rate
      then (if size == 1
          then (record s { stats = record s.stats { fec_recovery_rate = rate_of item.value } })
          else s)
      else if item.kind == tlv_nack_recovery_rate
      then (if size == 1
          then (record s { stats = record s.stats { nack_recovery_rate = rate_of item.value } })
          else s)
      else if item.kind == tlv_bandwidth_estimate
      then (if size == 4
          then (record s {
            stats = record s.stats { bandwidth_bps = value_of (read_be32 item.value) };
          })
          else s)
      else if item.kind == tlv_goodput
      then (if size == 4
          then (record s {
            stats = record s.stats { goodput_bps = value_of (read_be32 item.value) };
          })
          else s)
      else if item.kind == tlv_completed_seq
      then (if size == 8 then completed_item s (value_of (read_be64 item.value)) else s)
      else s

  unfoldable pub stats_items : FrameSender F → List TlvItem → FrameSender F
  unfolding stats_item
  stats_items s [] = s
  stats_items s (item ∷ items) = stats_items (stats_item s item) items

  unfoldable pub handle_stats : FrameSender F → List ℕ → FrameSender F
  unfolding stats_items report_stats
  handle_stats s payload = elim (deserialize_tlv payload) [
    | ok (items, rest) ↦ report_stats (stats_items s items)
    | reject ↦ s
    | fault ↦ s
  ]

  unfoldable pub sender_dispatch : FrameSender F → ℕ → List ℕ → ℕ → FrameSender F
  unfolding handle_pli handle_stats handle_pong
  sender_dispatch s msg_type payload now_us =
      if msg_type == msg_nack
      then handle_nack ops cfg s payload now_us
      else if msg_type == msg_pong
      then handle_pong s payload now_us
      else if msg_type == msg_stats
      then handle_stats s payload
      else if msg_type == msg_pli
      then handle_pli s
      else s

  -- FrameSender::onPacketReceived.
  unfoldable pub on_control_packet : FrameSender F → List ℕ → ℕ → FrameSender F
  unfolding sender_dispatch
  on_control_packet s packet now_us = elim (deserialize_common packet) [
    | ok (hdr, payload) ↦
        sender_dispatch s hdr.msg_type payload (if now_us == 0 then s.last_ping_time_us else now_us)
    | reject ↦ s
    | fault ↦ s
  ]

  -- 250ms
  abbrev pub fec_adj_interval_us : ℕ
  fec_adj_interval_us = 250000

  -- The new ratio that `tick` finds, or the -1 that is none, and the time of the adjustment.
  unfoldable pub new_ratio : FrameSender F → ℕ → F × ℕ
  new_ratio s now_us = elim s.fec_adjust_cb [
    | some adjust ↦
        let ratio = adjust s.stats in
        (
          if float.at_most (float.of_uint 0) ratio && float.at_most ratio (float.of_uint 1)
              then ratio
              else ops.minus_one,
          s.last_fec_adjust_us,
        )
    | none ↦
        if s.fec_adaptive_active
        then (if leb fec_adj_interval_us (sub_word now_us s.last_fec_adjust_us)
            then (float.mul s.stats.loss_rate cfg.fec_loss_factor, now_us)
            else (ops.minus_one, s.last_fec_adjust_us))
        else (ops.minus_one, s.last_fec_adjust_us)
  ]

  abbrev pub raise_to : F → F → F
  raise_to low x = if float.less x low then low else x

  abbrev pub lower_to : F → F → F
  lower_to high x = if float.less high x then high else x

  -- To the configured range, then at most one step away from the current ratio.
  unfoldable pub next_ratio : F → F → F
  next_ratio current ratio =
      let clamped = lower_to cfg.fec_ratio_max (raise_to cfg.fec_ratio_min ratio) in
      raise_to (float.sub current ops.max_step) (lower_to (float.add current ops.max_step) clamped)

  unfoldable pub adjust_ratio : FrameSender F → ℕ → FrameSender F
  unfolding new_ratio next_ratio
  adjust_ratio s now_us =
      let (ratio, adjusted) = new_ratio s now_us in
      let timed = record s { last_fec_adjust_us = adjusted } in
      if float.at_most (float.of_uint 0) ratio
      then (record timed { current_fec_ratio = next_ratio timed.current_fec_ratio ratio })
      else timed

  unfoldable pub ping_due : FrameSender F → ℕ → Bool
  ping_due s now_us =
      leb (cfg.ping_interval_ms * 1000) (sub_word now_us s.last_ping_time_us)
      || s.last_ping_timestamp == 0

  -- FrameSender::tick.
  unfoldable pub sender_tick : FrameSender F → ℕ → FrameSender F
  unfolding ping_due adjust_ratio send_ping
  sender_tick s now_us =
      let pinged = if ping_due s now_us then send_ping s now_us else s in
      let kept = record pinged {
        cache = cleanup_expired_cache pinged.cache now_us (cfg.cache_timeout_ms * 1000);
      } in
      adjust_ratio kept now_us
