-- ===== src/Fec/Receiver/Nacks.antt =====
-- Requests of lost blocks: isFecSeq, detectGaps, eraseGroupNacks, generateNacks and sendNackPacket of
-- libs/frame_protoc/src/receiver.cpp.
use tj_rtc.Prelude.{
  ℕ, zero, suc, ◌+◌, ◌-◌, ◌*◌, ◌%◌, ◌^◌, bit_or, Bool, true, false, ◌&&◌, ◌||◌, Option, none, some,
  List, [], ◌∷◌, ltb, leb, ◌==◌, if◌then◌else◌, length, take, drop, ◌<<<◌,
}
use tj_rtc.Prelude.{Assoc, find, put, number_key}
use tj_rtc.Fec.Seq.{compute_seq_len}
use tj_rtc.Fec.Payload.{NackEntry, serialize_nack, nack_entry_size}
use tj_rtc.Fec.Sender.State.{sub_word}
use tj_rtc.Fec.Sender.Control.{control_packet, msg_nack, written}
use tj_rtc.Fec.Sender.Frames.{at_least_one}
use tj_rtc.Fec.Receiver.State.{
  ReceiverConfig, NackState, GroupLayout, FrameReceiver, send_from_receiver,
}

-- isFecSeq: the first layout that covers `seq` decides; a number that none covers is data.
unfoldable pub is_fec_seq : Assoc ℕ GroupLayout → ℕ → Bool
is_fec_seq [] seq = false
is_fec_seq ((k, l) ∷ layouts) seq =
    let rest = is_fec_seq layouts seq in
    if leb l.start_seq seq && ltb seq (l.start_seq + l.total_count)
    then leb l.data_count (seq - l.start_seq)
    else rest

-- `nack_states.find(seq) != nack_states.end()`.
abbrev pub is_tracked : Option NackState → Bool
is_tracked none = false
is_tracked (some state) = true

abbrev pub fresh_nack : ℕ → NackState
fresh_nack now_us = record { first_detected_us = now_us; last_nack_sent_us = 0; nack_count = 0 }

-- The entries whose number is not in a range.
unfoldable pub erase_range : Assoc ℕ NackState → ℕ → ℕ → Assoc ℕ NackState
erase_range [] low high = []
erase_range ((seq, s) ∷ states) low high =
    let rest = erase_range states low high in
    if leb low seq && ltb seq high then rest else ((seq, s) ∷ rest)

-- What is left after the checks of lifetime and retries in generateNacks, and who is due.
abbrev pub nack_expired : ReceiverConfig → NackState → ℕ → Bool
nack_expired cfg state now_us =
    leb (cfg.frame_timeout_ms * 1000) (sub_word now_us state.first_detected_us)
    || leb cfg.max_nack_retries state.nack_count

unfoldable pub nack_due : ReceiverConfig → ℕ → NackState → ℕ → Bool
nack_due cfg rtt_ms state now_us =
    let delay_us = cfg.nack_delay_ms * 1000 in
    let wanted = if ltb 0 rtt_ms then rtt_ms * 1000 else cfg.nack_interval_ms * 1000 in
    let interval_us =
      if ltb wanted (cfg.nack_interval_ms * 1000) then cfg.nack_interval_ms * 1000 else wanted in
    if state.last_nack_sent_us == 0
    then leb delay_us (sub_word now_us state.first_detected_us)
    else leb interval_us (sub_word now_us state.last_nack_sent_us)

unfoldable pub drop_expired : ReceiverConfig → Assoc ℕ NackState → ℕ → Assoc ℕ NackState
drop_expired cfg [] now_us = []
drop_expired cfg ((seq, state) ∷ states) now_us =
    let rest = drop_expired cfg states now_us in
    if nack_expired cfg state now_us then rest else ((seq, state) ∷ rest)

-- `std::sort` of the numbers that are due.
unfoldable pub insert_seq : ℕ → List ℕ → List ℕ
insert_seq seq [] = seq ∷ []
insert_seq seq (x ∷ xs) =
    let rest = insert_seq seq xs in if leb seq x then (seq ∷ (x ∷ xs)) else (x ∷ rest)

unfoldable pub due_seqs : ReceiverConfig → ℕ → Assoc ℕ NackState → ℕ → List ℕ
unfolding insert_seq nack_due
due_seqs cfg rtt_ms [] now_us = []
due_seqs cfg rtt_ms ((seq, state) ∷ states) now_us =
    let rest = due_seqs cfg rtt_ms states now_us in
    if nack_due cfg rtt_ms state now_us then insert_seq seq rest else rest

-- The loop over the sorted numbers. An entry takes the numbers up to 32 above its start; those that it
-- covers are the ones that follow on it in the list, so `covered` is where the list has come to.
unfoldable pub batch_from : ℕ → ℕ → List ℕ → List NackEntry
batch_from start mask [] = record { lost_start_seq = start; bitmask = mask } ∷ []
batch_from start mask (seq ∷ due) = elim (ltb 32 (seq - start)) [
  | true ↦ record { lost_start_seq = start; bitmask = mask } ∷ batch_from seq 0 due
  | false ↦ batch_from start (bit_or mask (1 <<< (seq - start - 1))) due
]

unfoldable pub batch : List ℕ → List NackEntry
unfolding batch_from
batch [] = []
batch (seq ∷ due) = batch_from seq 0 due

abbrev pub marked_state : Option NackState → Assoc ℕ NackState → ℕ → ℕ → Assoc ℕ NackState
marked_state none states seq now_us = states
marked_state (some s) states seq now_us =
    put number_key states seq
      (record s { last_nack_sent_us = now_us; nack_count = (s.nack_count + 1) % 2 ^ 32 })

-- markNackSent for each number that is due.
unfoldable pub mark_sent : Assoc ℕ NackState → List ℕ → ℕ → Assoc ℕ NackState
mark_sent states [] now_us = states
mark_sent states (seq ∷ due) now_us =
    mark_sent (marked_state (find number_key states seq) states seq now_us) due now_us

-- kMaxEntriesPerPacket
abbrev pub max_entries_per_packet : ℕ
max_entries_per_packet = 100

module _ {F : Type 0} where
  -- One round of the loop of sendNackPacket.
  unfoldable pub send_nack_chunk : FrameReceiver F → List NackEntry → FrameReceiver F
  unfolding compute_seq_len control_packet serialize_nack send_from_receiver
  send_nack_chunk r chunk =
      let seq = r.cmd_seq + 1 in
      let payload = written (serialize_nack chunk (2 + length chunk * nack_entry_size)) in
      let next = record r { cmd_seq = seq } in
      if ltb 0 (length payload)
      then send_from_receiver next
          (control_packet msg_nack seq (at_least_one (compute_seq_len seq)) payload)
      else next

  -- sendNackPacket: `length entries` rounds are enough, since each takes an entry at least.
  unfoldable pub send_nack_packets : ℕ → FrameReceiver F → List NackEntry → FrameReceiver F
  unfolding send_nack_chunk
  send_nack_packets rounds r [] = r
  send_nack_packets zero r (e ∷ entries) = r
  send_nack_packets (suc rounds) r (e ∷ entries) =
      send_nack_packets rounds (send_nack_chunk r (take max_entries_per_packet (e ∷ entries)))
        (drop max_entries_per_packet (e ∷ entries))

  unfoldable pub generate_nacks : ReceiverConfig → FrameReceiver F → ℕ → FrameReceiver F
  unfolding drop_expired due_seqs batch mark_sent send_nack_packets
  generate_nacks cfg r now_us =
      let kept = drop_expired cfg r.nack_states now_us in
      let due = due_seqs cfg r.rtt_ms kept now_us in
      let entries = batch due in
      send_nack_packets (length entries) (record r { nack_states = mark_sent kept due now_us })
        entries

  -- A block that is missing and not tracked yet: data is asked for, redundancy is not.
  unfoldable pub track_missing : FrameReceiver F → ℕ → ℕ → FrameReceiver F
  unfolding is_fec_seq
  track_missing r seq now_us =
      if is_tracked (find number_key r.nack_states seq) || is_fec_seq r.group_layouts seq
      then r
      else (record r {
        nack_states = put number_key r.nack_states seq (fresh_nack now_us);
        counters = record r.counters {
          blocks_lost = r.counters.blocks_lost + 1;
          window_blocks_lost = r.counters.window_blocks_lost + 1;
        };
      })

  -- `while (missing < received_seq)`, with the rounds that it makes.
  unfoldable pub track_range : ℕ → FrameReceiver F → ℕ → ℕ → FrameReceiver F
  unfolding track_missing
  track_range zero r missing now_us = r
  track_range (suc rounds) r missing now_us =
      track_range rounds (track_missing r missing now_us) (missing + 1) now_us

  unfoldable pub detect_gaps : FrameReceiver F → ℕ → ℕ → FrameReceiver F
  unfolding track_range
  detect_gaps r received_seq now_us =
      let from = if r.expected_data_seq == 0 then received_seq else r.expected_data_seq in
      let base = record r { expected_data_seq = from } in
      if ltb from received_seq && ltb 512 (received_seq - from)
      then (record base { expected_data_seq = received_seq + 1 })
      else let tracked = track_range (received_seq - from) base from now_us in
        if leb from received_seq
        then (record tracked { expected_data_seq = received_seq + 1 })
        else tracked
