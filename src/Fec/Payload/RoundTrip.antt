-- ===== src/Fec/Payload/RoundTrip.antt =====
-- NACK and TLV payloads are read back as they were written.
use tj_rtc.Prelude.{
  ℕ, zero, suc, ◌+◌, ◌*◌, ◌%◌, ◌^◌, ◌≤◌, ◌<◌, ◌≡◌, refl, sym, ap, ◌∙◌, some, List, [], ◌∷◌, ◌++◌,
  append_assoc, arith, length, All, length-append,
}
use tj_rtc.Bytes.{
  ok, read_u8, write_be16, write_be32, write_be64, step_need, step_check, step_be16, step_be32,
  step_be64, step_bytes,
}
use native.Mathlib.Nat.{mod-eq_of_lt}
use tj_rtc.Fec.Payload.{
  NackEntry, TlvItem, nack_bytes, serialize_nack, read_entries, deserialize_nack, tlv_size,
  tlv_bytes, serialize_tlv, read_item, read_items, deserialize_tlv,
}

abbrev pub IsEntry : NackEntry → Type 0
IsEntry e = (e.lost_start_seq < 2 ^ 64) × (e.bitmask < 2 ^ 32)

read_entries-nack_bytes :
    (entries : List NackEntry) (rest : List ℕ)
    → All IsEntry entries
    → read_entries (length entries) (nack_bytes entries ++ rest) ≡ ok (entries, rest)
unfolding read_entries nack_bytes
read_entries-nack_bytes [] rest h = refl
read_entries-nack_bytes (e ∷ entries) rest (fits, h) =
    simp append_assoc (
      step_be64 _ _ _ fits.0 (step_be32 _ _ _ fits.1 (rw (read_entries-nack_bytes entries rest h))))

length-nack_bytes : (entries : List NackEntry) → length (nack_bytes entries) ≡ length entries * 12
unfolding nack_bytes write_be64 write_be32
length-nack_bytes [] = refl
length-nack_bytes (e ∷ entries) = omega (arith, length-nack_bytes entries)

deserialize_nack-bytes :
    (entries : List NackEntry) (rest : List ℕ)
    → All IsEntry entries
    → length entries ≤ 5461
    → deserialize_nack (write_be16 (length entries * 12) ++ (nack_bytes entries ++ rest))
      ≡ ok (entries, rest)
unfolding deserialize_nack
deserialize_nack-bytes entries rest fits few =
    let size = length-append {0} (nack_bytes entries) rest in
    step_need 2 _ _ (unfold write_be16 in omega arith) (
      step_be16 _ _ _ (omega arith) (
        step_need _ _ _ (omega (arith, length-nack_bytes entries, size)) (
          step_check _ _ _ (ground arith) (
            ap (λ n. read_entries n (nack_bytes entries ++ rest)) (omega arith)
            ∙ read_entries-nack_bytes entries rest fits))))

-- A NACK of at most 5461 entries is written into every buffer that is large enough, and is read
-- back unchanged, whatever follows it.
pub deserialize_nack-serialize_nack :
    (entries : List NackEntry) (buf_len : ℕ) (rest : List ℕ)
    → All IsEntry entries
    → length entries ≤ 5461
    → 2 + length entries * 12 ≤ buf_len
    → (bytes : List ℕ) × (serialize_nack entries buf_len ≡ some bytes)
      × (length bytes ≡ 2 + length entries * 12)
      × (deserialize_nack (bytes ++ rest) ≡ ok (entries, rest))
unfolding serialize_nack
deserialize_nack-serialize_nack entries buf_len rest fits few le =
    let fits16 : length entries * 12 < 2 ^ 16 = omega arith in
    (
      write_be16 (length entries * 12 % 2 ^ 16) ++ nack_bytes entries,
      ground arith,
      unfold write_be16 in omega (arith, length-nack_bytes entries),
      rw (mod-eq_of_lt fits16, append_assoc) (deserialize_nack-bytes entries rest fits few),
    )

length-tlv_bytes : (items : List TlvItem) → length (tlv_bytes items) ≡ tlv_size items
unfolding tlv_bytes tlv_size
length-tlv_bytes [] = refl
length-tlv_bytes (i ∷ items) =
    omega (arith, length-append {0} i.value (tlv_bytes items), length-tlv_bytes items)

abbrev IsItem : TlvItem → Type 0
IsItem i = length i.value < 256

read_item-tlv_bytes :
    (i : TlvItem) (rest : List ℕ)
    → IsItem i
    → read_item (i.kind ∷ (length i.value % 256 ∷ (i.value ++ rest))) ≡ ok (i, rest)
unfolding read_item read_u8
read_item-tlv_bytes i rest h = step_need 2 _ _ (omega arith) (
    step_need _ _ _ (omega (arith, length-append {0} i.value rest))
      (step_bytes i.value rest _ _ (omega arith) refl))

read_items-tlv_bytes :
    (items : List TlvItem) (fuel : ℕ)
    → All IsItem items
    → tlv_size items ≤ fuel
    → read_items fuel (tlv_bytes items) ≡ ok items
unfolding read_items tlv_bytes tlv_size
read_items-tlv_bytes [] zero h le = refl
read_items-tlv_bytes [] (suc fuel) h le = refl
read_items-tlv_bytes (i ∷ items) zero h le = absurd (omega arith)
read_items-tlv_bytes (i ∷ items) (suc fuel) (fits, h) le =
    rw (read_item-tlv_bytes i (tlv_bytes items) fits, read_items)
      (rw (read_items-tlv_bytes items fuel h (omega arith)))

deserialize_tlv-bytes :
    (items : List TlvItem) (rest : List ℕ)
    → All IsItem items
    → tlv_size items < 2 ^ 16
    → deserialize_tlv (write_be16 (tlv_size items) ++ (tlv_bytes items ++ rest)) ≡ ok (items, rest)
unfolding deserialize_tlv
deserialize_tlv-bytes items rest fits small =
    let size = length-append {0} (tlv_bytes items) rest in
    let len = length-tlv_bytes items in
    step_need 2 _ _ (unfold write_be16 in omega arith) (
      step_be16 _ _ _ small (
        step_need _ _ _ (omega arith) (
          step_bytes (tlv_bytes items) rest _ _ (sym len)
            (rw (read_items-tlv_bytes items (length (tlv_bytes items)) fits (omega arith))))))

-- A TLV payload of less than 65536 bytes, whose values have less than 256 bytes each, is written
-- into every buffer that is large enough, and is read back unchanged, whatever follows it.
pub deserialize_tlv-serialize_tlv :
    (items : List TlvItem) (buf_len : ℕ) (rest : List ℕ)
    → All IsItem items
    → tlv_size items < 2 ^ 16
    → 2 + tlv_size items ≤ buf_len
    → (bytes : List ℕ) × (serialize_tlv items buf_len ≡ some bytes)
      × (length bytes ≡ 2 + tlv_size items)
      × (deserialize_tlv (bytes ++ rest) ≡ ok (items, rest))
unfolding serialize_tlv
deserialize_tlv-serialize_tlv items buf_len rest fits small le = (
  write_be16 (tlv_size items % 2 ^ 16) ++ tlv_bytes items,
  ground arith,
  unfold write_be16 in omega (arith, length-tlv_bytes items),
  rw (mod-eq_of_lt small, append_assoc) (deserialize_tlv-bytes items rest fits small),
)
