-- ===== src/Fec/Payload/Bounds.antt =====
-- The payload parsers read no byte past the end of the buffer, and their loops end.
use tj_rtc.Prelude.{
  ℕ, zero, suc, ◌-◌, ◌*◌, ◌/◌, ◌≤◌, ◌<◌, ◌≡◌, refl, ◌≢◌, ◌⊎◌, inl, inr, List, [], ◌∷◌, arith, ltb,
  Bool-cases, length, take, drop, length-drop,
}
use tj_rtc.Bytes.{
  Outcome, ok, reject, fault, need, read_u8, result, read_bytes-split, Reads, bind-Reads,
  return-Reads, next_need, next_check, next_bytes, next_be16, next_be32, next_be64, result-ne-fault,
}
use tj_rtc.Fec.Payload.{
  TlvItem, read_entries, deserialize_nack, read_item, read_items, deserialize_tlv, emit,
}

read_entries-Reads : (count k : ℕ) → count * 12 ≤ k → Reads k 0 (read_entries count)
unfolding read_entries
read_entries-Reads zero k h = return-Reads k 0 (omega arith)
read_entries-Reads (suc count) k h = next_be64 k 0 _ (omega arith) λ start.
    next_be32 (k - 8) 0 _ (omega arith) λ mask.
      bind-Reads (k - 8 - 4) 0 0 _ _ (read_entries-Reads count (k - 8 - 4) (omega arith))
        λ entries. return-Reads 0 0 (omega arith)

deserialize_nack-Reads : Reads 0 0 deserialize_nack
unfolding deserialize_nack
deserialize_nack-Reads = next_need 0 0 2 _ λ _. next_be16 2 0 _ (omega arith) λ len.
    next_need 0 0 len _
      λ _. next_check len 0 _ _ λ _. read_entries-Reads (len / 12) len (omega arith)

read_item_cases :
    (bytes : List ℕ)
    → (read_item bytes ≡ reject)
      ⊎ ((i : TlvItem) × (rest : List ℕ) × (read_item bytes ≡ ok (i, rest))
          × (length rest < length bytes))
unfolding read_item read_u8 need
read_item_cases [] = inl (ground arith)
read_item_cases (a ∷ []) = inl (ground arith)
read_item_cases (a ∷ n ∷ bytes) = elim (Bool-cases (ltb (length bytes) n)) [
  | inl short ↦ inl (ground arith)
  | inr enough ↦ inr (
    record { kind = a; value = take n bytes },
    drop n bytes,
    ground (arith, read_bytes-split n bytes (ground arith)),
    omega (arith, length-drop n bytes),
  )
]

read_items-ne-fault :
    (fuel : ℕ) (bytes : List ℕ) → length bytes ≤ fuel → read_items fuel bytes ≢ fault
unfolding read_items
read_items-ne-fault zero [] h e = cc
read_items-ne-fault (suc fuel) [] h e = cc
read_items-ne-fault zero (b ∷ bytes) h e = absurd (omega arith)
read_items-ne-fault (suc fuel) (b ∷ bytes) h e = elim (read_item_cases (b ∷ bytes)) [
  | inl r ↦ ground (arith, r)
  | inr (i, rest, r, shorter) ↦ ground (arith, r, read_items-ne-fault fuel rest)
]

emit-Reads {ℓ} : {A : Type ℓ} (o : Outcome A) → o ≢ fault → Reads 0 0 (emit o)
emit-Reads (ok a) h bytes le = le
emit-Reads reject h bytes le = tt
emit-Reads fault h bytes le = h refl

deserialize_tlv-Reads : Reads 0 0 deserialize_tlv
unfolding deserialize_tlv
deserialize_tlv-Reads = next_need 0 0 2 _ λ _. next_be16 2 0 _ (omega arith) λ len.
    next_need 0 0 len _ λ _. next_bytes len 0 len _ (omega arith) λ payload bytes le.
      emit-Reads _ (read_items-ne-fault (length payload) payload (omega arith)) bytes (omega arith)

-- On every input, well formed or not, neither payload parser reads past the end of the buffer, and
-- the loop over the TLV items ends.
pub deserialize_payload-ne-fault :
    (bytes : List ℕ)
    → (result (deserialize_nack bytes) ≢ fault) × (result (deserialize_tlv bytes) ≢ fault)
deserialize_payload-ne-fault bytes = (
  result-ne-fault deserialize_nack deserialize_nack-Reads bytes,
  result-ne-fault deserialize_tlv deserialize_tlv-Reads bytes,
)
