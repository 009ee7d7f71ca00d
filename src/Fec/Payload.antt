-- ===== src/Fec/Payload.antt =====
-- NACK and TLV payloads: serializeNackPayload to deserializeTlvPayload of
-- libs/frame_protoc/src/protocol.cpp. A payload is its 16-bit length and so many bytes.
pub mod RoundTrip
pub mod Bounds
use tj_rtc.Prelude.{
  ℕ, zero, suc, ◌+◌, ◌-◌, ◌*◌, ◌/◌, ◌%◌, ◌^◌, ◌≤◌, ◌<◌, min, max, bit_and, bit_or, bit_xor, ◌≡◌,
  refl, sym, ap, subst, ◌∙◌, fun_ext, ◌≢◌, ◌↔◌, ◌⊎◌, inl, inr, Bool, true, false, not, ◌&&◌, ◌||◌,
  Option, none, some, List, [], ◌∷◌, ◌++◌, map, append-nil, append_assoc, arith, dec_lt, dec_le,
  ℕ_discrete, ltb, leb, ◌==◌, if◌then◌else◌, ltb→lt, lt→ltb, leb→le, ==_iff, tests, Bool-cases,
  Option-cases, length, get_elem?, set, take, drop, replicate, All, length-append, length-take,
  length-drop, take-append-drop, take-length_append, drop-length_append, ◌<<<◌, ◌>>>◌, shift_or,
  low_mask, disjoint_or, lt_wf,
}
use tj_rtc.Bytes.{
  Outcome, ok, reject, fault, Cursor, ◌>>=◌, ◌>>◌, return, need, check, read_u8, read_bytes,
  read_rest, result, push, IsByte, write_be16, write_be32, write_be64, join16, join32, join64,
  read_be16, read_be32, read_be64, write_seq_num, read_seq_num, read_seq_loop, join16-sum,
  join32-sum, read_be16-write_be16, read_be32-write_be32, read_be64-write_be64, read_bytes-append,
  read_bytes-split, length-write_be16, length-write_be32, length-write_be64, length-write_seq_num,
  read_seq_num-write_seq_num, Leaves, Reads, bind-Reads, return-Reads, next_u8, next_need,
  next_check, next_bytes, next_rest, next_be16, next_be32, next_be64, next_seq_num, result-ne-fault,
  need-enough, check-passed, step_need, step_check, step_be16, step_be32, step_be64, step_bytes,
  step_seq_num,
}

-- kNackEntrySize
abbrev pub nack_entry_size : ℕ
nack_entry_size = 12

pub record NackEntry : Type 0 where
  pub lost_start_seq : ℕ
  pub bitmask : ℕ

unfoldable pub nack_bytes : List NackEntry → List ℕ
nack_bytes [] = []
nack_bytes (e ∷ entries) =
    write_be64 e.lost_start_seq ++ (write_be32 e.bitmask ++ nack_bytes entries)

-- `none` where the code returns 0. The length field is cut to 16 bits by the cast.
unfoldable pub serialize_nack : List NackEntry → ℕ → Option (List ℕ)
serialize_nack entries buf_len =
    let payload_len = length entries * nack_entry_size in
    if ltb buf_len (2 + payload_len)
    then none
    else some (write_be16 (payload_len % 2 ^ 16) ++ nack_bytes entries)

unfoldable pub read_entries : ℕ → Cursor (List NackEntry)
read_entries zero = return []
read_entries (suc count) = do
  start ← read_be64
  mask ← read_be32
  entries ← read_entries count
  return (record { lost_start_seq = start; bitmask = mask } ∷ entries)

unfoldable pub deserialize_nack : Cursor (List NackEntry)
deserialize_nack = do
  need 2
  payload_len ← read_be16
  need payload_len
  check (payload_len % nack_entry_size == 0)
  read_entries (payload_len / nack_entry_size)

pub record TlvItem : Type 0 where
  pub kind : ℕ
  pub value : List ℕ

-- type(1) + len(1) + value(N)
unfoldable pub tlv_size : List TlvItem → ℕ
tlv_size [] = 0
tlv_size (i ∷ items) = 2 + length i.value + tlv_size items

unfoldable pub tlv_bytes : List TlvItem → List ℕ
tlv_bytes [] = []
tlv_bytes (i ∷ items) = i.kind ∷ (length i.value % 256 ∷ (i.value ++ tlv_bytes items))

unfoldable pub serialize_tlv : List TlvItem → ℕ → Option (List ℕ)
unfolding tlv_size tlv_bytes
serialize_tlv items buf_len =
    if ltb buf_len (2 + tlv_size items)
    then none
    else some (write_be16 (tlv_size items % 2 ^ 16) ++ tlv_bytes items)

unfoldable pub read_item : Cursor TlvItem
read_item = do
  need 2
  type ← read_u8
  len ← read_u8
  need len
  value ← read_bytes len
  return (record { kind = type; value = value })

abbrev pub add_item : TlvItem → Outcome (List TlvItem) → Outcome (List TlvItem)
add_item i (ok items) = ok (i ∷ items)
add_item i reject = reject
add_item i fault = fault

-- `while (offset < end)` over the payload. An item takes two bytes at least, so `length bytes`
-- rounds are enough; a round without fuel is a `fault`, and there is none.
unfoldable pub read_items : ℕ → List ℕ → Outcome (List TlvItem)
read_items fuel [] = ok []
read_items zero (b ∷ bytes) = fault
read_items (suc fuel) (b ∷ bytes) = elim (read_item (b ∷ bytes)) [
  | ok (i, rest) ↦ add_item i (read_items fuel rest)
  | reject ↦ reject
  | fault ↦ fault
]

-- An inner result, with the position of the outer parser.
abbrev pub emit {ℓ} : {A : Type ℓ} → Outcome A → Cursor A
emit (ok a) bytes = ok (a, bytes)
emit reject bytes = reject
emit fault bytes = fault

unfoldable pub deserialize_tlv : Cursor (List TlvItem)
deserialize_tlv = do
  need 2
  payload_len ← read_be16
  need payload_len
  payload ← read_bytes payload_len
  emit (read_items (length payload) payload)
