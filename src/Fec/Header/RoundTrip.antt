-- ===== src/Fec/Header/RoundTrip.antt =====
-- The headers are read back as they were written.
use tj_rtc.Prelude.{
  ℕ, ◌/◌, ◌%◌, ◌^◌, ◌≤◌, ◌<◌, bit_and, bit_or, ◌≡◌, refl, some, List, ◌∷◌, ◌++◌, append_assoc,
  arith, length, length-append, ◌<<<◌, ◌>>>◌, shift_or, low_mask,
}
use tj_rtc.Bytes.{
  ok, read_u8, write_be16, write_be32, write_seq_num, length-write_seq_num, step_need, step_check,
  step_be16, step_be32, step_seq_num, pack_nibbles, high_nibble, low_nibble,
  high_nibble-pack_nibbles, low_nibble-pack_nibbles,
}
use tj_rtc.Fec.Header.{
  CommonHeader, DataHeader, serialize_common, deserialize_common, serialize_data, deserialize_data,
  data_bytes, data_size, common_size,
}

-- The ranges that the fields of a header have on the wire.
pub record IsCommon (h : CommonHeader) : Type 0 where
  pub version_fits : h.version < 16
  pub seq_len_min : 1 ≤ h.seq_len
  pub seq_len_max : h.seq_len ≤ 8
  pub seq_num_fits : h.seq_num < 256 ^ h.seq_len
  pub seq_num_word : h.seq_num < 2 ^ 64

abbrev pub common_bytes : CommonHeader → List ℕ
common_bytes h = pack_nibbles h.version h.seq_len ∷ (h.msg_type ∷ write_seq_num h.seq_num h.seq_len)

pub deserialize_common-bytes :
    (h : CommonHeader) (rest : List ℕ)
    → IsCommon h
    → deserialize_common (common_bytes h ++ rest) ≡ ok (h, rest)
unfolding deserialize_common read_u8
deserialize_common-bytes h rest v =
    let high : high_nibble (pack_nibbles h.version h.seq_len) ≡ h.version =
      omega (arith, high_nibble-pack_nibbles h.version h.seq_len) in
    let low : low_nibble (pack_nibbles h.version h.seq_len) ≡ h.seq_len =
      omega (arith, low_nibble-pack_nibbles h.version h.seq_len) in
    let written = write_seq_num h.seq_num h.seq_len ++ rest in
    let there : h.seq_len ≤ length written = omega (
      arith,
      length-append {0} (write_seq_num h.seq_num h.seq_len) rest,
      length-write_seq_num h.seq_num h.seq_len,
    ) in
    step_need 2 _ _ (omega arith) (
      rw (low, high)
        (step_check _ _ _ (ground arith)
          (step_need _ _ _ there (step_seq_num _ _ _ _ v.seq_num_fits v.seq_num_word refl))))

-- A common header whose fields fit the wire is written into every buffer of `common_size h` bytes
-- or more, as exactly that many bytes, and is read back unchanged, whatever follows it.
pub deserialize_common-serialize_common :
    (h : CommonHeader) (buf_len : ℕ) (rest : List ℕ)
    → IsCommon h
    → common_size h ≤ buf_len
    → (bytes : List ℕ) × (serialize_common h buf_len ≡ some bytes)
      × (length bytes ≡ common_size h)
      × (deserialize_common (bytes ++ rest) ≡ ok (h, rest))
unfolding serialize_common
deserialize_common-serialize_common h buf_len rest v le = (
  common_bytes h,
  ground arith,
  omega (arith, length-write_seq_num h.seq_num h.seq_len),
  deserialize_common-bytes h rest v,
)

-- The two length bytes of a data header.
joined_length :
    (retry len : ℕ)
    → bit_or (low_nibble (pack_nibbles retry (len >>> 8)) <<< 8) (bit_and len 0xff) ≡ len % 4096
joined_length retry len = omega (
  arith,
  low_nibble-pack_nibbles retry (len / 2 ^ 8),
  low_mask 8 len,
  shift_or 8 (low_nibble (pack_nibbles retry (len / 2 ^ 8))) (bit_and len 0xff)
      (omega (arith, low_mask 8 len)),
)

-- What the wire keeps of a data header: 4 bits of the retry count, 12 of the payload's length.
abbrev pub on_wire : DataHeader → DataHeader
on_wire h = record h { retry_count = h.retry_count % 16; payload_length = h.payload_length % 4096 }

pub deserialize_data-bytes :
    (h : DataHeader) (rest : List ℕ)
    → h.frame_id < 2 ^ 16
    → h.frame_size < 2 ^ 32
    → deserialize_data (data_bytes h ++ rest) ≡ ok (on_wire h, rest)
unfolding deserialize_data data_bytes read_u8
deserialize_data-bytes h rest id size = simp append_assoc (
    step_need 14 _ _ (unfold write_be16 write_be32 in omega arith) (
      step_be16 _ _ _ id (
        step_be32 _ _ _ size (
          rw (
            high_nibble-pack_nibbles h.retry_count (h.payload_length >>> 8),
            joined_length h.retry_count h.payload_length,
          )))))

-- Every buffer of 14 bytes or more gets exactly 14 bytes, and these are read back as the header
-- with its retry count modulo 16 and its payload length modulo 4096, whatever follows them.
pub deserialize_data-serialize_data :
    (h : DataHeader) (buf_len : ℕ) (rest : List ℕ)
    → h.frame_id < 2 ^ 16
    → h.frame_size < 2 ^ 32
    → data_size ≤ buf_len
    → (bytes : List ℕ) × (serialize_data h buf_len ≡ some bytes)
      × (length bytes ≡ data_size)
      × (deserialize_data (bytes ++ rest) ≡ ok (on_wire h, rest))
unfolding serialize_data
deserialize_data-serialize_data h buf_len rest id size le = (
  data_bytes h,
  ground arith,
  unfold write_be16 write_be32 in omega arith,
  deserialize_data-bytes h rest id size,
)
