-- ===== src/Fec/Sender/Kept.antt =====
-- Control packets and time leave the cache well formed (libs/frame_protoc/src/sender.cpp).
use tj_rtc.Prelude.{ℕ, ◌*◌, List, [], ◌∷◌, ltb, ◌==◌, if◌then◌else◌, both_branches, length}
use tj_rtc.Bytes.{ok, reject, fault, read_be64}
use tj_rtc.Prelude.Int.{ℤ}
use tj_rtc.Fec.Header.{deserialize_common}
use tj_rtc.Fec.Payload.{TlvItem, deserialize_nack, deserialize_tlv}
use tj_rtc.Fec.Sender.State.{MathOps, SenderConfig, FrameSender, send_packet, set_fec_ratio}
use tj_rtc.Fec.Sender.Cache.{cleanup_expired_cache}
use tj_rtc.Fec.Sender.Retransmit.{
  handle_nack, retransmit_loop, retransmit_block, requested_seqs, spend, exhausted,
}
use tj_rtc.Fec.Sender.Control.{
  send_ping, pong_items, handle_pong, completed_item, stats_item, stats_items, report_stats,
  handle_stats, handle_pli, sender_dispatch, on_control_packet, new_ratio, adjust_ratio, ping_due,
  sender_tick, value_of,
}
use tj_rtc.Fec.Sender.Cached.{cleanup_cache-IsCached, cleanup_expired_cache-IsCached}
use tj_rtc.Fec.Sender.Resent.{IsSender, retransmit_block-IsSender}

module _ {F : Type 0} where
  completed_item-IsSender :
      (s : FrameSender F) (completed : ℕ) → IsSender s → IsSender (completed_item s completed)
  unfolding completed_item
  completed_item-IsSender s completed (id, v) =
      both_branches IsSender (ltb s.peer_completed_seq completed)
        (id, cleanup_cache-IsCached s.cache completed v) (id, v)

  send_ping-IsSender : (s : FrameSender F) (now : ℕ) → IsSender s → IsSender (send_ping s now)
  unfolding send_ping send_packet
  send_ping-IsSender s now v = both_branches IsSender (s.send_cb) v v

  handle_pong-IsSender :
      (s : FrameSender F) (payload : List ℕ) (now : ℕ)
      → IsSender s
      → IsSender (handle_pong s payload now)
  unfolding handle_pong
  handle_pong-IsSender s payload now v =
      elim (deserialize_tlv payload)
        as (λ o. IsSender (elim o [
          | ok (items, rest) ↦ record s {
            last_pong_time_us = now;
            stats = pong_items s.stats items now;
          }
          | reject ↦ record s { last_pong_time_us = now }
          | fault ↦ record s { last_pong_time_us = now }
        ])) [ ok (items, rest) ↦ v | reject ↦ v | fault ↦ v ]

  report_stats-IsSender : (s : FrameSender F) → IsSender s → IsSender (report_stats s)
  unfolding report_stats
  report_stats-IsSender s v = both_branches IsSender (s.stats_cb) v v

  handle_pli-IsSender : (s : FrameSender F) → IsSender s → IsSender (handle_pli s)
  unfolding handle_pli
  handle_pli-IsSender s v = both_branches IsSender (s.key_frame_request_cb) v v

module _ {F : Type 0} (ops : MathOps F) (cfg : SenderConfig F) where
  stats_item-IsSender :
      (s : FrameSender F) (item : TlvItem) → IsSender s → IsSender (stats_item ops cfg s item)
  unfolding stats_item
  stats_item-IsSender s item v =
      let size = length item.value in
      let kind = item.kind in
      both_branches IsSender (kind == 2) v (
        both_branches IsSender (kind == 3) (both_branches IsSender (size == 1) v v) (
          both_branches IsSender (kind == 4) (both_branches IsSender (size == 1) v v) (
            both_branches IsSender (kind == 5) (both_branches IsSender (size == 4) v v) (
              both_branches IsSender (kind == 0x12) (both_branches IsSender (size == 4) v v) (
                both_branches IsSender (kind == 6)
                  (both_branches IsSender (size == 8)
                    (completed_item-IsSender s (value_of (read_be64 item.value)) v) v)
                  v)))))

  stats_items-IsSender :
      (s : FrameSender F) (items : List TlvItem)
      → IsSender s
      → IsSender (stats_items ops cfg s items)
  unfolding stats_items
  stats_items-IsSender s [] v = v
  stats_items-IsSender s (item ∷ items) v =
      stats_items-IsSender (stats_item ops cfg s item) items (stats_item-IsSender s item v)

  handle_stats-IsSender :
      (s : FrameSender F) (payload : List ℕ)
      → IsSender s
      → IsSender (handle_stats ops cfg s payload)
  unfolding handle_stats
  handle_stats-IsSender s payload v =
      elim (deserialize_tlv payload)
        as (λ o. IsSender (elim o [
          | ok (items, rest) ↦ report_stats (stats_items ops cfg s items)
          | reject ↦ s
          | fault ↦ s
        ])) [
          | ok (items, rest) ↦
              report_stats-IsSender (stats_items ops cfg s items) (stats_items-IsSender s items v)
          | reject ↦ v
          | fault ↦ v
        ]

  retransmit_loop-IsSender :
      (budget : ℤ) (seqs : List ℕ) (s : FrameSender F) (now : ℕ)
      → IsSender s
      → IsSender (retransmit_loop ops cfg budget seqs s now)
  unfolding retransmit_loop
  retransmit_loop-IsSender budget [] s now v = v
  retransmit_loop-IsSender budget (seq ∷ seqs) s now v =
      let next = retransmit_block ops cfg s seq now in
      both_branches IsSender (exhausted budget) v (
        retransmit_loop-IsSender (spend budget next.1) seqs next.0 now
          (retransmit_block-IsSender ops cfg s seq now v))

  handle_nack-IsSender :
      (s : FrameSender F) (payload : List ℕ) (now : ℕ)
      → IsSender s
      → IsSender (handle_nack ops cfg s payload now)
  unfolding handle_nack
  handle_nack-IsSender s payload now v =
      elim (deserialize_nack payload)
        as (λ o. IsSender (elim o [
          | ok (entries, rest) ↦
              retransmit_loop ops cfg cfg.max_nack_retransmit (requested_seqs entries) s now
          | reject ↦ s
          | fault ↦ s
        ])) [
          | ok (entries, rest) ↦
              retransmit_loop-IsSender cfg.max_nack_retransmit (requested_seqs entries) s now v
          | reject ↦ v
          | fault ↦ v
        ]

  sender_dispatch-IsSender :
      (s : FrameSender F) (kind : ℕ) (payload : List ℕ) (now : ℕ)
      → IsSender s
      → IsSender (sender_dispatch ops cfg s kind payload now)
  unfolding sender_dispatch
  sender_dispatch-IsSender s kind payload now v =
      both_branches IsSender (kind == 2) (handle_nack-IsSender s payload now v) (
        both_branches IsSender (kind == 5) (handle_pong-IsSender s payload now v) (
          both_branches IsSender (kind == 3) (handle_stats-IsSender s payload v)
            (both_branches IsSender (kind == 6) (handle_pli-IsSender s v) v)))

  pub on_control_packet-IsSender :
      (s : FrameSender F) (packet : List ℕ) (now : ℕ)
      → IsSender s
      → IsSender (on_control_packet ops cfg s packet now)
  unfolding on_control_packet
  on_control_packet-IsSender s packet now v =
      elim (deserialize_common packet)
        as (λ o. IsSender (elim o [
          | ok (hdr, payload) ↦
              sender_dispatch ops cfg s hdr.msg_type payload
                (if now == 0 then s.last_ping_time_us else now)
          | reject ↦ s
          | fault ↦ s
        ])) [
          | ok (hdr, payload) ↦
              sender_dispatch-IsSender s hdr.msg_type payload
                (if now == 0 then s.last_ping_time_us else now) v
          | reject ↦ v
          | fault ↦ v
        ]

  adjust_ratio-IsSender :
      (s : FrameSender F) (now : ℕ) → IsSender s → IsSender (adjust_ratio ops cfg s now)
  unfolding adjust_ratio
  adjust_ratio-IsSender s now v =
      both_branches IsSender (ops.float.at_most (ops.float.of_uint 0) (new_ratio ops cfg s now).0) v
        v

  pub sender_tick-IsSender :
      (s : FrameSender F) (now : ℕ) → IsSender s → IsSender (sender_tick ops cfg s now)
  unfolding sender_tick
  sender_tick-IsSender s now v =
      let pinged = if ping_due ops cfg s now then send_ping s now else s in
      let ok_pinged : IsSender pinged =
        both_branches IsSender (ping_due ops cfg s now) (send_ping-IsSender s now v) v in
      let timeout = cfg.cache_timeout_ms * 1000 in
      adjust_ratio-IsSender
        (record pinged { cache = cleanup_expired_cache pinged.cache now timeout }) now
        (ok_pinged.0, cleanup_expired_cache-IsCached pinged.cache now timeout ok_pinged.1)

-- What happens to a sender besides the frames that it is given.
pub data SenderEvent (F : Type 0) : Type 0 where
  control : (packet : List ℕ) (now : ℕ) → SenderEvent F
  tick : (now : ℕ) → SenderEvent F
  ratio : (value : F) → SenderEvent F

abbrev pub apply_event :
    {F : Type 0} → MathOps F → SenderConfig F → FrameSender F → SenderEvent F → FrameSender F
apply_event ops cfg s (control packet now) = on_control_packet ops cfg s packet now
apply_event ops cfg s (tick now) = sender_tick ops cfg s now
apply_event ops cfg s (ratio value) = set_fec_ratio ops.float s value

abbrev pub run_events :
    {F : Type 0} → MathOps F → SenderConfig F → FrameSender F → List (SenderEvent F) → FrameSender F
run_events ops cfg s [] = s
run_events ops cfg s (e ∷ events) = run_events ops cfg (apply_event ops cfg s e) events
