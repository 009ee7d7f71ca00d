-- ===== src/Fec/Receiver/Stalled.antt =====
-- A frame of which nothing has come holds back all later ones (libs/frame_protoc/src/receiver.cpp).
use tj_rtc.Prelude.{
  ℕ, zero, suc, ◌+◌, ◌-◌, ◌*◌, ◌/◌, ◌%◌, ◌^◌, ◌≡◌, refl, sym, ap, subst, ◌∙◌, inl, inr, ◌&&◌, ◌||◌,
  none, some, List, [], ◌∷◌, ◌++◌, arith, ltb, leb, ◌==◌, if◌then◌else◌, Bool-cases, both_branches,
  length, take, drop,
}
use tj_rtc.Prelude.{Assoc, find, number_key}
use tj_rtc.Fec.Bitrate.{FloatOps}
use tj_rtc.Fec.Payload.{NackEntry, serialize_tlv, tlv_size}
use tj_rtc.Fec.Seq.{compute_seq_len}
use tj_rtc.Fec.Sender.Control.{control_packet, msg_stats, written}
use tj_rtc.Fec.Sender.Frames.{at_least_one}
use tj_rtc.Fec.Receiver.State.{
  ReceiverConfig, PendingFrame, FrameReceiver, send_from_receiver, frame_before,
}
use tj_rtc.Fec.Receiver.Nacks.{
  send_nack_chunk, send_nack_packets, generate_nacks, batch, due_seqs, drop_expired, mark_sent,
  max_entries_per_packet,
}
use tj_rtc.Fec.Receiver.Deliver.{drop_stale, deliver_loop, try_deliver_in_order}
use tj_rtc.Fec.Receiver.Packets.{send_pli_packet, maybe_send_pli, report_dropped}
use tj_rtc.Fec.Receiver.Time.{
  reset_window, stats_report, send_stats, update_stats, timed_out, timeout_walk,
  check_frame_timeouts, prune_group_layouts, report_window, receiver_tick,
}
use tj_rtc.Fec.Receiver.InOrder.{at_cursor}

module _ {F : Type 0} where
  -- What decides on delivery, and what has been delivered, are the same.
  abbrev Same : FrameReceiver F → FrameReceiver F → Type 0
  Same r t =
      (t.pending_frames ≡ r.pending_frames)
      × (t.next_deliver_frame_id ≡ r.next_deliver_frame_id)
      × (t.delivered ≡ r.delivered)

  Same-chain : (r t u : FrameReceiver F) → Same r t → Same t u → Same r u
  Same-chain r t u (a, b, c) (a2, b2, c2) = (a2 ∙ a, b2 ∙ b, c2 ∙ c)

  send_from_receiver-Same :
      (r : FrameReceiver F) (packet : List ℕ) → Same r (send_from_receiver r packet)
  unfolding send_from_receiver
  send_from_receiver-Same r packet =
      both_branches (Same r) r.send_cb (refl, refl, refl) (refl, refl, refl)

  send_pli_packet-Same : (r : FrameReceiver F) → Same r (send_pli_packet r)
  unfolding send_pli_packet
  send_pli_packet-Same r = send_from_receiver-Same (record r { cmd_seq = r.cmd_seq + 1 }) _

  maybe_send_pli-Same :
      (cfg : ReceiverConfig) (r : FrameReceiver F) (now type : ℕ)
      → Same r (maybe_send_pli cfg r now type)
  unfolding maybe_send_pli
  maybe_send_pli-Same cfg r now type =
      both_branches (Same r) _ (refl, refl, refl)
        (send_pli_packet-Same (record r { last_pli_sent_us = now }))

  report_dropped-Same :
      (cfg : ReceiverConfig) (r : FrameReceiver F) (f : PendingFrame) (now : ℕ)
      → Same r (report_dropped cfg r f now)
  unfolding report_dropped
  report_dropped-Same cfg r f now =
      let told =
        if r.frame_dropped_cb
        then (record r { dropped = r.dropped ++ ((f.frame_type, f.frame_size) ∷ []) })
        else r in
      let counted = record told {
        counters = record told.counters { frames_dropped = told.counters.frames_dropped + 1 };
      } in
      let first : Same r told =
        both_branches (Same r) r.frame_dropped_cb (refl, refl, refl) (refl, refl, refl) in
      Same-chain r counted (maybe_send_pli cfg counted now f.frame_type) first
        (maybe_send_pli-Same cfg counted now f.frame_type)

  send_nack_chunk-Same :
      (r : FrameReceiver F) (chunk : List NackEntry) → Same r (send_nack_chunk r chunk)
  unfolding send_nack_chunk
  send_nack_chunk-Same r chunk =
      let next = record r { cmd_seq = r.cmd_seq + 1 } in
      both_branches (Same r) _ (send_from_receiver-Same next _) (refl, refl, refl)

  send_nack_packets-Same :
      (rounds : ℕ) (r : FrameReceiver F) (entries : List NackEntry)
      → Same r (send_nack_packets rounds r entries)
  unfolding send_nack_packets
  send_nack_packets-Same zero r [] = (refl, refl, refl)
  send_nack_packets-Same (suc rounds) r [] = (refl, refl, refl)
  send_nack_packets-Same zero r (e ∷ entries) = (refl, refl, refl)
  send_nack_packets-Same (suc rounds) r (e ∷ entries) =
      let chunk = take max_entries_per_packet (e ∷ entries) in
      let rest = drop max_entries_per_packet (e ∷ entries) in
      let next = send_nack_chunk r chunk in
      Same-chain r next (send_nack_packets rounds next rest) (send_nack_chunk-Same r chunk)
        (send_nack_packets-Same rounds next rest)

  generate_nacks-Same :
      (cfg : ReceiverConfig) (r : FrameReceiver F) (now : ℕ) → Same r (generate_nacks cfg r now)
  unfolding generate_nacks
  generate_nacks-Same cfg r now =
      let kept = drop_expired cfg r.nack_states now in
      let due = due_seqs cfg r.rtt_ms kept now in
      send_nack_packets-Same (length (batch due))
        (record r { nack_states = mark_sent kept due now }) (batch due)

  -- The frame under the cursor is not in the table.
  abbrev pub IsStalled : FrameReceiver F → Type 0
  IsStalled r = at_cursor r ≡ none

drop_stale-none :
    (frames : Assoc ℕ PendingFrame) (cursor id : ℕ)
    → find number_key frames id ≡ none
    → find number_key (drop_stale frames cursor) id ≡ none
unfolding find drop_stale
drop_stale-none [] cursor id e = refl
drop_stale-none ((k, f) ∷ frames) cursor id e = elim (Bool-cases (k == id)) [
  | inl hit ↦ absurd (let wrong : some f ≡ none = (rw hit at e) in cc)
  | inr miss ↦
      let rest = drop_stale-none frames cursor id (rw miss at e) in
      elim (Bool-cases (frame_before k cursor)) [
        | inl stale ↦ rw stale rest
        | inr fresh ↦ rw fresh (rw miss rest)
      ]
]

module _ {F : Type 0} (float : FloatOps F) (cfg : ReceiverConfig) where
  timeout_walk_lem :
      (r : FrameReceiver F) (frames : Assoc ℕ PendingFrame) (now id : ℕ)
      → find number_key frames id ≡ none
      → Same r (timeout_walk float cfg r frames now).0
        × (find number_key (timeout_walk float cfg r frames now).1 id ≡ none)
  unfolding find timeout_walk
  timeout_walk_lem r [] now id e = ((refl, refl, refl), refl)
  timeout_walk_lem r ((k, f) ∷ frames) now id e = elim (Bool-cases (k == id)) [
    | inl hit ↦ absurd (let wrong : some f ≡ none = (rw hit at e) in cc)
    | inr miss ↦
        let late = timed_out float cfg f now in
        let next = if late then report_dropped cfg r f now else r in
        let same : Same r next =
          both_branches (Same r) late (report_dropped-Same cfg r f now) (refl, refl, refl) in
        let (more, gone) = timeout_walk_lem next frames now id (rw miss at e) in
        (Same-chain r next (timeout_walk float cfg next frames now).0 same more, rw miss gone)
  ]

  try_deliver_in_order-IsStalled :
      (r : FrameReceiver F)
      → IsStalled r
      → IsStalled (try_deliver_in_order r)
        × ((try_deliver_in_order r).delivered ≡ r.delivered)
        × ((try_deliver_in_order r).next_deliver_frame_id ≡ r.next_deliver_frame_id)
  unfolding try_deliver_in_order
  try_deliver_in_order-IsStalled r e =
      let fresh = record r {
        pending_frames = drop_stale r.pending_frames r.next_deliver_frame_id;
      } in
      let gone : at_cursor fresh ≡ none =
        drop_stale-none r.pending_frames r.next_deliver_frame_id r.next_deliver_frame_id e in
      let P : FrameReceiver F → Type 0 = λ t.
        IsStalled t
        × (t.delivered ≡ r.delivered)
        × (t.next_deliver_frame_id ≡ r.next_deliver_frame_id) in
      both_branches P r.has_delivery_cursor
        (subst P (sym (nothing_found (length fresh.pending_frames) fresh gone)) (gone, refl, refl))
        (e, refl, refl)
    where
      nothing_found :
          (fuel : ℕ) (r : FrameReceiver F) → at_cursor r ≡ none → deliver_loop (fuel + 1) r ≡ r
      nothing_found fuel r e =
          unfold deliver_loop in
          let one_more : fuel + 1 ≡ suc fuel = omega arith in
          ap (λ n. deliver_loop n r) one_more ∙ rw (e, deliver_loop) refl

  send_stats-Same : (r : FrameReceiver F) (now : ℕ) → Same r (send_stats float cfg r now)
  unfolding send_stats
  send_stats-Same r now =
      let items = stats_report float cfg r in
      let seq = r.cmd_seq + 1 in
      let payload = written (serialize_tlv items (2 + tlv_size items)) in
      let next = record r { cmd_seq = seq } in
      let packet = control_packet msg_stats seq (at_least_one (compute_seq_len seq)) payload in
      let sent = if ltb 0 (length payload) then send_from_receiver next packet else next in
      let same : Same r sent =
        both_branches (Same r) (ltb 0 (length payload)) (send_from_receiver-Same next packet)
          (refl, refl, refl) in
      (same.0, same.1, same.2)

  report_window-Same : (r : FrameReceiver F) (now : ℕ) → Same r (report_window float cfg r now)
  unfolding report_window reset_window update_stats
  report_window-Same r now =
      let updated = update_stats float cfg r in
      let elapsed_us =
        if ltb 0 updated.last_stats_send_us && ltb updated.last_stats_send_us now
        then now - updated.last_stats_send_us
        else cfg.stats_interval_ms * 1000 in
      let measured = record updated {
        rates = record updated.rates {
          goodput_bps = updated.counters.goodput_window_bytes * 8 * 1000000 / elapsed_us % 2 ^ 32;
        };
        last_stats_send_us = now;
      } in
      let same = send_stats-Same measured now in (same.0, same.1, same.2)

  -- A tick at any time: nothing is delivered, and the cursor stays.
  pub receiver_tick-IsStalled :
      (r : FrameReceiver F) (now : ℕ)
      → IsStalled r
      → let t = receiver_tick float cfg r now in
        IsStalled t
        × (t.delivered ≡ r.delivered)
        × (t.next_deliver_frame_id ≡ r.next_deliver_frame_id)
  unfolding receiver_tick check_frame_timeouts
  receiver_tick-IsStalled r now e =
      let walk = timeout_walk float cfg r r.pending_frames now in
      let ((pending, next, out), gone) =
        timeout_walk_lem r r.pending_frames now r.next_deliver_frame_id e in
      let timed = record walk.0 { pending_frames = walk.1 } in
      let still : IsStalled timed = ap (find number_key walk.1) next ∙ gone in
      let (stalled, out2, next2) = try_deliver_in_order-IsStalled timed still in
      let checked = try_deliver_in_order timed in
      let (pending3, next3, out3) = generate_nacks-Same cfg checked now in
      let asked = generate_nacks cfg checked now in
      let pruned = record asked {
        group_layouts = prune_group_layouts asked.group_layouts asked.expected_data_seq;
      } in
      let due = pruned.next_stats_send_us == 0 || leb pruned.next_stats_send_us now in
      let (pending4, next4, out4) =
        both_branches (Same pruned) due (report_window-Same pruned now) (refl, refl, refl) in
      (
        ap
              (λ frames.
                find number_key frames
                  (if due
                    then report_window float cfg pruned now
                    else pruned).next_deliver_frame_id)
              (pending4 ∙ pending3)
            ∙ ap (find number_key checked.pending_frames) (next4 ∙ next3)
            ∙ stalled,
        out4 ∙ out3 ∙ out2 ∙ out,
        next4 ∙ next3 ∙ next2 ∙ next,
      )

-- Ticks at the given times.
abbrev pub run_ticks :
    {F : Type 0} → FloatOps F → ReceiverConfig → FrameReceiver F → List ℕ → FrameReceiver F
run_ticks float cfg r [] = r
run_ticks float cfg r (now ∷ times) = run_ticks float cfg (receiver_tick float cfg r now) times

-- However much time passes, a receiver whose next frame is not in its table delivers nothing, and waits
-- for the same frame: the timeout only ends frames of which a packet has come.
pub run_ticks-IsStalled :
    {F : Type 0} (float : FloatOps F) (cfg : ReceiverConfig) (r : FrameReceiver F) (times : List ℕ)
    → IsStalled r
    → let t = run_ticks float cfg r times in
      IsStalled t
      × (t.delivered ≡ r.delivered)
      × (t.next_deliver_frame_id ≡ r.next_deliver_frame_id)
run_ticks-IsStalled float cfg r [] e = (e, refl, refl)
run_ticks-IsStalled float cfg r (now ∷ times) e =
    let (stalled, out, next) = receiver_tick-IsStalled float cfg r now e in
    let (stalled2, out2, next2) =
      run_ticks-IsStalled float cfg (receiver_tick float cfg r now) times stalled in
    (stalled2, out2 ∙ out, next2 ∙ next)
