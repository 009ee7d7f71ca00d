-- ===== src/Fec/Receiver/Time.antt =====
-- Control packets and time: handlePing, sendStats, checkFrameTimeouts, updateStats, resetWindow,
-- onPacketReceived, tick and requestKeyFrame of libs/frame_protoc/src/receiver.cpp.
use tj_rtc.Prelude.{
  ℕ, ◌+◌, ◌-◌, ◌*◌, ◌/◌, ◌%◌, ◌^◌, Bool, true, false, not, ◌&&◌, ◌||◌, List, [], ◌∷◌, ◌++◌, ltb,
  leb, ◌==◌, if◌then◌else◌, length,
}
use tj_rtc.Bytes.{ok, reject, fault, write_be16, write_be32, write_be64, read_be16, read_be64}
use tj_rtc.Prelude.{Assoc}
use tj_rtc.Fec.Bitrate.{FloatOps}
use tj_rtc.Fec.Seq.{compute_seq_len}
use tj_rtc.Fec.Header.{CommonHeader, deserialize_common}
use tj_rtc.Fec.Payload.{TlvItem, serialize_tlv, deserialize_tlv, tlv_size}
use tj_rtc.Fec.Sender.State.{sub_word}
use tj_rtc.Fec.Sender.Control.{
  control_packet, value_of, written, msg_data, msg_ping, msg_pong, msg_stats, tlv_rtt,
  tlv_loss_rate, tlv_fec_recovery_rate, tlv_nack_recovery_rate, tlv_completed_seq, tlv_goodput,
  tlv_timestamp, tlv_echo_timestamp,
}
use tj_rtc.Fec.Sender.Frames.{at_least_one}
use tj_rtc.Fec.Receiver.State.{
  Decoder, ReceiverConfig, PendingFrame, GroupLayout, FrameReceiver, send_from_receiver,
}
use tj_rtc.Fec.Receiver.Nacks.{generate_nacks}
use tj_rtc.Fec.Receiver.Deliver.{try_deliver_in_order}
use tj_rtc.Fec.Receiver.Packets.{report_dropped, send_pli_packet, handle_data}

-- The first item of a kind and a size, `or` where there is none.
unfoldable pub first_item : ℕ → ℕ → List TlvItem → List ℕ → List ℕ
first_item kind size [] or = or
first_item kind size (item ∷ items) or =
    let rest = first_item kind size items or in
    if item.kind == kind && length item.value == size then item.value else rest

abbrev pub has_item : List ℕ → Bool
has_item [] = false
has_item (b ∷ bytes) = true

-- The layouts whose numbers all lie below the cursor go.
unfoldable pub prune_group_layouts : Assoc ℕ GroupLayout → ℕ → Assoc ℕ GroupLayout
prune_group_layouts [] expected = []
prune_group_layouts ((key, l) ∷ layouts) expected =
    let rest = prune_group_layouts layouts expected in
    if leb (l.start_seq + l.total_count) expected then rest else ((key, l) ∷ rest)

module _ {F : Type 0} where
  -- The answer to a PING: its time, 0 where it has none.
  unfoldable pub answer_ping : FrameReceiver F → List TlvItem → FrameReceiver F
  unfolding first_item control_packet send_from_receiver compute_seq_len
  answer_ping r items =
      let stamp = first_item tlv_timestamp 8 items [] in
      let rtt = first_item tlv_rtt 2 items [] in
      let ping_ts = if has_item stamp then value_of (read_be64 stamp) else 0 in
      let seq = r.cmd_seq + 1 in
      send_from_receiver
        (record r {
          rtt_ms = if has_item rtt then value_of (read_be16 rtt) else r.rtt_ms;
          cmd_seq = seq;
        })
        (control_packet msg_pong seq (at_least_one (compute_seq_len seq))
          (write_be16 10 ++ (tlv_echo_timestamp ∷ (8 ∷ write_be64 ping_ts))))

  unfoldable pub handle_ping : FrameReceiver F → List ℕ → FrameReceiver F
  handle_ping r payload = elim (deserialize_tlv payload) [
    | ok (items, rest) ↦ answer_ping r items
    | reject ↦ r
    | fault ↦ r
  ]

  unfoldable pub reset_window : FrameReceiver F → FrameReceiver F
  reset_window r = record r {
    counters = record r.counters {
      window_blocks_received = 0;
      window_blocks_lost = 0;
      window_blocks_recovered_fec = 0;
      window_blocks_recovered_nack = 0;
      window_packets = 0;
      goodput_window_bytes = 0;
    };
  }

  -- requestKeyFrame
  unfoldable pub request_key_frame : FrameReceiver F → ℕ → FrameReceiver F
  unfolding send_pli_packet
  request_key_frame r now_us =
      let asked = send_pli_packet r in
      if now_us == 0 then asked else (record asked { last_pli_sent_us = now_us })

module _ {F : Type 0} (float : FloatOps F) (cfg : ReceiverConfig) where
  -- `static_cast<uint8_t>(rate * 255.0f)`
  abbrev pub rate_byte : F → ℕ
  rate_byte rate = float.to_uint (float.mul rate (float.of_uint 255)) % 256

  unfoldable pub stats_report : FrameReceiver F → List TlvItem
  stats_report r =
      record { kind = tlv_loss_rate; value = rate_byte r.rates.loss_rate ∷ [] }
      ∷ (record { kind = tlv_fec_recovery_rate; value = rate_byte r.rates.fec_recovery_rate ∷ [] }
          ∷ (record {
            kind = tlv_nack_recovery_rate;
            value = rate_byte r.rates.nack_recovery_rate ∷ [];
          }
              ∷ (record { kind = tlv_completed_seq; value = write_be64 r.completed_seq }
                  ∷ (record { kind = tlv_goodput; value = write_be32 r.rates.goodput_bps } ∷ []))))

  unfoldable pub send_stats : FrameReceiver F → ℕ → FrameReceiver F
  unfolding stats_report control_packet send_from_receiver compute_seq_len
  send_stats r now_us =
      let items = stats_report r in
      let seq = r.cmd_seq + 1 in
      let payload = written (serialize_tlv items (2 + tlv_size items)) in
      let next = record r { cmd_seq = seq } in
      let sent =
        if ltb 0 (length payload)
        then send_from_receiver next
            (control_packet msg_stats seq (at_least_one (compute_seq_len seq)) payload)
        else next in
      record sent { last_stats_time_us = now_us }

  abbrev pub ratio_of : ℕ → ℕ → F
  ratio_of part whole =
      if ltb 0 whole then float.div (float.of_uint part) (float.of_uint whole) else float.of_uint 0

  unfoldable pub update_stats : FrameReceiver F → FrameReceiver F
  update_stats r =
      let c = r.counters in
      record r {
        rates = record r.rates {
          loss_rate =
              ratio_of c.window_blocks_lost (c.window_blocks_received + c.window_blocks_lost);
          fec_recovery_rate = ratio_of c.window_blocks_recovered_fec c.window_blocks_lost;
          nack_recovery_rate = ratio_of c.window_blocks_recovered_nack c.window_blocks_lost;
          stats_window_packets = c.window_packets;
        };
      }

  -- A frame that has waited too long is marked, reported, and stays until the cursor passes it.
  abbrev pub timed_out : PendingFrame → ℕ → Bool
  timed_out f now_us =
      not f.complete
      && (not f.discarded
          && ltb (cfg.frame_timeout_ms * 1000) (sub_word now_us f.first_block_time_us))

  -- The walk over the table: the frames as they are left, with what the reports change.
  unfoldable pub timeout_walk :
      FrameReceiver F → Assoc ℕ PendingFrame → ℕ → FrameReceiver F × Assoc ℕ PendingFrame
  timeout_walk r [] now_us = (r, [])
  timeout_walk r ((id, f) ∷ frames) now_us =
      let late = timed_out f now_us in
      let (t, rest) =
        timeout_walk (if late then report_dropped cfg r f now_us else r) frames now_us in
      (t, (id, (if late then (record f { discarded = true }) else f)) ∷ rest)

  unfoldable pub check_frame_timeouts : FrameReceiver F → ℕ → FrameReceiver F
  unfolding timeout_walk try_deliver_in_order
  check_frame_timeouts r now_us =
      let (t, frames) = timeout_walk r r.pending_frames now_us in
      try_deliver_in_order (record t { pending_frames = frames })

  abbrev pub stats_interval_us : ℕ
  stats_interval_us = cfg.stats_interval_ms * 1000

  -- The STATS report of a tick: rates and goodput, the packet, and a new window. Where `elapsed_us` is
  -- 0, which takes an interval of 0, the code divides by zero; the quotient here is then 0.
  unfoldable pub report_window : FrameReceiver F → ℕ → FrameReceiver F
  unfolding update_stats send_stats reset_window
  report_window r now_us =
      let updated = update_stats r in
      let elapsed_us =
        if ltb 0 updated.last_stats_send_us && ltb updated.last_stats_send_us now_us
        then now_us - updated.last_stats_send_us
        else stats_interval_us in
      let measured = record updated {
        rates = record updated.rates {
          goodput_bps = updated.counters.goodput_window_bytes * 8 * 1000000 / elapsed_us % 2 ^ 32;
        };
        last_stats_send_us = now_us;
      } in
      record (reset_window (send_stats measured now_us)) {
        next_stats_send_us = (now_us + stats_interval_us) % 2 ^ 64;
      }

  -- FrameReceiver::tick.
  unfoldable pub receiver_tick : FrameReceiver F → ℕ → FrameReceiver F
  unfolding check_frame_timeouts generate_nacks prune_group_layouts report_window
  receiver_tick r now_us =
      let checked = check_frame_timeouts r now_us in
      let asked = generate_nacks cfg checked now_us in
      let pruned = record asked {
        group_layouts = prune_group_layouts asked.group_layouts asked.expected_data_seq;
      } in
      let reported =
        if pruned.next_stats_send_us == 0 || leb pruned.next_stats_send_us now_us
        then report_window pruned now_us
        else pruned in
      record reported { last_stats_time_us = now_us }

module _ {F : Type 0} (codec : Decoder) (cfg : ReceiverConfig) where
  unfoldable pub receiver_dispatch : FrameReceiver F → CommonHeader → List ℕ → ℕ → FrameReceiver F
  receiver_dispatch r hdr payload now_us =
      if hdr.msg_type == msg_data
      then handle_data codec cfg r hdr.seq_num payload now_us
      else if hdr.msg_type == msg_ping
      then handle_ping r payload
      else r

  -- FrameReceiver::onPacketReceived.
  unfoldable pub on_packet_received : FrameReceiver F → List ℕ → ℕ → FrameReceiver F
  on_packet_received r packet now_us = elim (deserialize_common packet) [
    | ok (hdr, payload) ↦
        receiver_dispatch r hdr payload (if now_us == 0 then r.last_stats_time_us else now_us)
    | reject ↦ r
    | fault ↦ r
  ]
