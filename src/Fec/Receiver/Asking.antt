-- ===== src/Fec/Receiver/Asking.antt =====
-- The NACK packets of a receiver, and what the sender makes of them.
use tj_rtc.Prelude.{
  ℕ, zero, suc, ◌+◌, ◌-◌, ◌*◌, ◌^◌, ◌≤◌, ◌<◌, bit_or, ◌≡◌, refl, sym, ap, ◌∙◌, inl, inr, true, List,
  [], ◌∷◌, ◌++◌, append-nil, arith, ltb, ◌==◌, if◌then◌else◌, lt→ltb, Bool-cases, length, take,
  drop, All, ◌<<<◌, or_high_bit,
}
use tj_rtc.Bytes.{ok}
use native.Mathlib.Nat.{pow-suc, pow-le-pow_right}
use tj_rtc.Fec.Seq.{compute_seq_len}
use tj_rtc.Fec.Header.{CommonHeader, deserialize_common}
use tj_rtc.Fec.Header.RoundTrip.{deserialize_common-bytes}
use tj_rtc.Fec.Payload.{NackEntry, serialize_nack, deserialize_nack, nack_entry_size}
use tj_rtc.Fec.Payload.RoundTrip.{IsEntry, deserialize_nack-serialize_nack}
use tj_rtc.Fec.Sender.State.{MathOps, SenderConfig, FrameSender}
use tj_rtc.Fec.Sender.Retransmit.{requested_seqs, retransmit_loop, handle_nack}
use tj_rtc.Fec.Sender.Control.{
  control_packet, written, msg_nack, sender_dispatch, on_control_packet,
}
use tj_rtc.Fec.Sender.Frames.{at_least_one}
use tj_rtc.Fec.Sender.Sending.{IsSeq, seq_len_lem, serialize_common_fits}
use tj_rtc.Fec.Receiver.State.{FrameReceiver, send_from_receiver}
use tj_rtc.Fec.Receiver.Nacks.{batch_from, batch, send_nack_chunk, send_nack_packets}
use tj_rtc.Fec.Receiver.Batch.{Ascends, requested_seqs-batch}

abbrev pub control_header : ℕ → ℕ → CommonHeader
control_header kind seq = record {
  version = 1;
  seq_len = at_least_one (compute_seq_len seq);
  msg_type = kind;
  seq_num = seq;
}

-- A control packet is read back.
pub deserialize_common-control_packet :
    (kind seq : ℕ) (payload : List ℕ)
    → IsSeq seq
    → deserialize_common (control_packet kind seq (at_least_one (compute_seq_len seq)) payload)
      ≡ ok (control_header kind seq, payload)
unfolding control_packet
deserialize_common-control_packet kind seq payload v =
    let h = control_header kind seq in
    let (low, high, fits, least) = seq_len_lem seq v in
    rw (serialize_common_fits h (2 + h.seq_len + length payload) (omega arith)) (
      deserialize_common-bytes h payload (record {
        version_fits = omega arith;
        seq_len_min = low;
        seq_len_max = high;
        seq_num_fits = fits;
        seq_num_word = v.1;
      }))

record Writable (limit : ℕ) (entries : List NackEntry) : Type 0 where
  fit : All IsEntry entries
  few : length entries ≤ limit
  some_entry : 0 < length entries

-- The entries are written with fields that fit, and there are no more of them than numbers.
batch_from_lem :
    (start mask j : ℕ) (due : List ℕ)
    → start < 2 ^ 64
    → mask < 2 ^ j
    → j ≤ 32
    → Ascends (start + j) due
    → Writable (suc (length due)) (batch_from start mask due)
unfolding batch_from
batch_from_lem start mask j [] word below few up =
    let power : 2 ^ j ≤ 2 ^ 32 = pow-le-pow_right (omega arith) few in
    record { fit = ((word, omega arith), tt); few = omega arith; some_entry = omega arith }
batch_from_lem start mask j (seq ∷ due) word below few (low, seq_word, up) =
    elim (Bool-cases (ltb 32 (seq - start))) [
      | inl far ↦
          let zero_start : seq + 0 ≡ seq = omega arith in
          let up_from : Ascends (seq + 0) due = (rw zero_start up) in
          let power : 2 ^ j ≤ 2 ^ 32 = pow-le-pow_right (omega arith) few in
          let rest = batch_from_lem seq 0 0 due seq_word (omega arith) (omega arith) up_from in
          rw (far, batch_from)
            record {
              fit = ((word, omega arith), rest.fit);
              few = omega (arith, rest.few);
              some_entry = omega arith;
            }
      | inr near ↦
          let k = seq - start - 1 in
          let above : 2 ^ j ≤ 2 ^ k = pow-le-pow_right (omega arith) (omega arith) in
          let next : start + suc k ≡ seq = omega arith in
          let small : k < 32 = ground arith in
          let fits : mask < 2 ^ k = omega arith in
          let sum = or_high_bit k mask fits in
          let up_from : Ascends (start + suc k) due = (rw next up) in
          let rest =
            batch_from_lem start (bit_or mask (1 <<< k)) (suc k) due word
              (omega (arith, pow-suc 2 k)) (omega arith) up_from in
          rw (near, batch_from)
            record { fit = rest.fit; few = omega (arith, rest.few); some_entry = rest.some_entry }
    ]

-- The payload that a chunk has.
nack_payload :
    (entries : List NackEntry)
    → All IsEntry entries
    → length entries ≤ 5461
    → let payload = written (serialize_nack entries (2 + length entries * nack_entry_size)) in
      (0 < length payload) × (deserialize_nack payload ≡ ok (entries, []))
nack_payload entries fit few =
    let size = 2 + length entries * nack_entry_size in
    let (bytes, serialized, count, read) =
      deserialize_nack-serialize_nack entries size [] fit few (omega arith) in
    let payload : written (serialize_nack entries size) ≡ bytes = ap written serialized in
    rw payload (omega arith, ap deserialize_nack (sym (append-nil bytes)) ∙ read)

one_chunk :
    {F : Type 0} (rounds : ℕ) (r : FrameReceiver F) (entries : List NackEntry)
    → 0 < length entries
    → length entries ≤ 100
    → 0 < rounds
    → send_nack_packets rounds r entries ≡ send_nack_chunk r entries
unfolding send_nack_packets
one_chunk rounds r [] h few k = absurd (omega arith)
one_chunk zero r (e ∷ entries) h few k = absurd (omega arith)
one_chunk (suc rounds) r (e ∷ entries) h few k =
    let all_taken : take 100 (e ∷ entries) ≡ e ∷ entries = take_all 100 (e ∷ entries) few in
    let none_left : drop 100 (e ∷ entries) ≡ [] = drop_all 100 (e ∷ entries) few in
    ap (λ t. send_nack_packets rounds (send_nack_chunk r t) (drop 100 (e ∷ entries))) all_taken
    ∙ ap (λ t. send_nack_packets rounds (send_nack_chunk r (e ∷ entries)) t) none_left
    ∙ nothing rounds (send_nack_chunk r (e ∷ entries))
  where
    take_all : (n : ℕ) (xs : List NackEntry) → length xs ≤ n → take n xs ≡ xs
    take_all zero [] h = refl
    take_all zero (x ∷ xs) h = absurd (omega arith)
    take_all (suc n) [] h = refl
    take_all (suc n) (x ∷ xs) h = ap (λ t. x ∷ t) (take_all n xs (omega arith))

    drop_all : (n : ℕ) (xs : List NackEntry) → length xs ≤ n → drop n xs ≡ []
    drop_all zero [] h = refl
    drop_all zero (x ∷ xs) h = absurd (omega arith)
    drop_all (suc n) [] h = refl
    drop_all (suc n) (x ∷ xs) h = drop_all n xs (omega arith)

    nothing : {F : Type 0} (rounds : ℕ) (r : FrameReceiver F) → send_nack_packets rounds r [] ≡ r
    nothing zero r = refl
    nothing (suc rounds) r = refl

module _ {F G : Type 0} (ops : MathOps F) (cfg : SenderConfig F) where
  -- Through a callback for packets, 1 to 100 numbers that ascend, from 1 to 2 ^ 64 - 1, go out in one NACK
  -- packet, and a sender that gets it retransmits by exactly these numbers, in their order.
  pub on_control_packet-batch :
      (r : FrameReceiver G) (due : List ℕ)
      → Ascends 0 due
      → 0 < length due
      → length due ≤ 100
      → r.send_cb ≡ true
      → r.cmd_seq + 1 < 2 ^ 64
      → (packet : List ℕ) × ((send_nack_packets (length (batch due)) r (batch due)).sent
          ≡ r.sent ++ (packet ∷ []))
        × ((s : FrameSender F) (now : ℕ)
            → on_control_packet ops cfg s packet now
              ≡ retransmit_loop ops cfg cfg.max_nack_retransmit due s
                  (if now == 0 then s.last_ping_time_us else now))
  unfolding batch
  on_control_packet-batch r [] up h few on word = absurd (omega arith)
  on_control_packet-batch r (seq ∷ due) (above, seq_word, up) h few on word =
      let entries = batch_from seq 0 due in
      let zero_start : seq + 0 ≡ seq = omega arith in
      let up_from : Ascends (seq + 0) due = (rw zero_start up) in
      let w = batch_from_lem seq 0 0 due seq_word (omega arith) (omega arith) up_from in
      let next = r.cmd_seq + 1 in
      let is_seq : IsSeq next = (omega arith, word) in
      let payload = written (serialize_nack entries (2 + length entries * nack_entry_size)) in
      let (some_bytes, read) = nack_payload entries w.fit (omega (arith, w.few)) in
      let packet = control_packet msg_nack next (at_least_one (compute_seq_len next)) payload in
      (
        packet,
        ap (λ (t : FrameReceiver G). t.sent)
              (one_chunk (length entries) r entries w.some_entry (omega (arith, w.few))
                w.some_entry)
            ∙ chunk_sent r entries on some_bytes,
        λ s now.
            asked s now packet entries payload
              (deserialize_common-control_packet msg_nack next payload is_seq) read
            ∙ ap
                (λ seqs.
                  retransmit_loop ops cfg cfg.max_nack_retransmit seqs s
                    (if now == 0 then s.last_ping_time_us else now))
                (requested_seqs-batch 0 (seq ∷ due) (above, seq_word, up)),
      )
    where
      chunk_sent :
          (r : FrameReceiver G) (entries : List NackEntry)
          → r.send_cb ≡ true
          → let payload = written (serialize_nack entries (2 + length entries * nack_entry_size)) in
            0 < length payload
            → (send_nack_chunk r entries).sent
              ≡ r.sent
                ++ (control_packet msg_nack
                      (r.cmd_seq + 1)
                      (at_least_one (compute_seq_len (r.cmd_seq + 1)))
                      payload
                    ∷ [])
      chunk_sent r entries on some_bytes =
          unfold send_nack_chunk send_from_receiver in
          let payload = written (serialize_nack entries (2 + length entries * nack_entry_size)) in
          rw (lt→ltb 0 (length payload) some_bytes) (rw on refl)

      asked :
          (s : FrameSender F) (now : ℕ) (packet : List ℕ) (entries : List NackEntry)
          (payload : List ℕ)
          → deserialize_common packet ≡ ok (control_header msg_nack (r.cmd_seq + 1), payload)
          → deserialize_nack payload ≡ ok (entries, [])
          → on_control_packet ops cfg s packet now
            ≡ retransmit_loop ops cfg cfg.max_nack_retransmit
                (requested_seqs entries)
                s
                (if now == 0 then s.last_ping_time_us else now)
      asked s now packet entries payload e d =
          unfold on_control_packet sender_dispatch handle_nack in
          rw (e, on_control_packet) (rw (d, handle_nack) refl)
