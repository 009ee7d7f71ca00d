-- ===== src/Fec/Header.antt =====
-- CommonHeader and DataHeader of libs/frame_protoc/src/protocol.h and protocol.cpp.
-- Enumerations keep their byte, as `static_cast<MsgType>(buf[1])` does. A `serialize` returns the
-- bytes that it wrote, and `none` where the code returns 0.
pub mod RoundTrip
pub mod Bounds
use tj_rtc.Prelude.{
  ℕ, zero, suc, ◌+◌, ◌-◌, ◌*◌, ◌/◌, ◌%◌, ◌^◌, ◌≤◌, ◌<◌, min, max, bit_and, bit_or, bit_xor, ◌≡◌,
  refl, sym, ap, subst, ◌∙◌, fun_ext, ◌≢◌, ◌↔◌, ◌⊎◌, inl, inr, Bool, true, false, not, ◌&&◌, ◌||◌,
  Option, none, some, List, [], ◌∷◌, ◌++◌, map, append-nil, append_assoc, arith, dec_lt, dec_le,
  ℕ_discrete, ltb, leb, ◌==◌, if◌then◌else◌, ltb→lt, lt→ltb, leb→le, ==_iff, tests, Bool-cases,
  Option-cases, length, get_elem?, set, take, drop, replicate, All, length-append, length-take,
  length-drop, take-append-drop, take-length_append, drop-length_append, ◌<<<◌, ◌>>>◌, shift_or,
  low_mask, disjoint_or, lt_wf,
}
use tj_rtc.Bytes.{
  Outcome, ok, reject, fault, Cursor, ◌>>=◌, ◌>>◌, return, need, check, read_u8, read_bytes,
  read_rest, result, push, IsByte, write_be16, write_be32, write_be64, join16, join32, join64,
  read_be16, read_be32, read_be64, write_seq_num, read_seq_num, read_seq_loop, join16-sum,
  join32-sum, read_be16-write_be16, read_be32-write_be32, read_be64-write_be64, read_bytes-append,
  read_bytes-split, length-write_be16, length-write_be32, length-write_be64, length-write_seq_num,
  read_seq_num-write_seq_num, Leaves, Reads, bind-Reads, return-Reads, next_u8, next_need,
  next_check, next_bytes, next_rest, next_be16, next_be32, next_be64, next_seq_num, result-ne-fault,
  need-enough, check-passed, step_need, step_check, step_be16, step_be32, step_be64, step_bytes,
  step_seq_num, pack_nibbles, high_nibble, low_nibble, pack_nibbles-sum, high_nibble-pack_nibbles,
  low_nibble-pack_nibbles, bit_one, bit_two, or_flags,
}

-- kMaxSeqLen
abbrev pub max_seq_len : ℕ
max_seq_len = 8

pub record CommonHeader : Type 0 where
  pub version : ℕ
  pub seq_len : ℕ
  pub msg_type : ℕ
  pub seq_num : ℕ

unfoldable pub common_size : CommonHeader → ℕ
common_size h = 2 + h.seq_len

unfoldable pub serialize_common : CommonHeader → ℕ → Option (List ℕ)
unfolding common_size
serialize_common h buf_len =
    if ltb buf_len (common_size h)
    then none
    else some (pack_nibbles h.version h.seq_len ∷ (h.msg_type ∷ write_seq_num h.seq_num h.seq_len))

-- The parser's position is `bytes_consumed`.
unfoldable pub deserialize_common : Cursor CommonHeader
deserialize_common = do
  need 2
  first ← read_u8
  kind ← read_u8
  check (leb 1 (low_nibble first) && leb (low_nibble first) max_seq_len)
  need (low_nibble first)
  seq ← read_seq_num (low_nibble first)
  return (record {
    version = high_nibble first;
    seq_len = low_nibble first;
    msg_type = kind;
    seq_num = seq;
  })

pub record DataHeader : Type 0 where
  pub frame_id : ℕ
  pub data_block_count : ℕ
  pub fec_block_count : ℕ
  pub block_index : ℕ
  pub fec_group_index : ℕ
  pub fec_group_count : ℕ
  pub frame_type : ℕ
  pub frame_size : ℕ
  pub retry_count : ℕ
  pub payload_length : ℕ

abbrev pub data_size : ℕ
data_size = 14

-- Byte 12 is the retry count and the high 4 bits of the length, byte 13 the low 8 bits.
unfoldable pub data_bytes : DataHeader → List ℕ
data_bytes h =
    write_be16 h.frame_id
    ++ (h.data_block_count
        ∷ (h.fec_block_count
            ∷ (h.block_index
                ∷ (h.fec_group_index
                    ∷ (h.fec_group_count
                        ∷ (h.frame_type
                            ∷ (write_be32 h.frame_size
                                ++ (pack_nibbles h.retry_count (h.payload_length >>> 8)
                                    ∷ (bit_and h.payload_length 0xff ∷ [])))))))))

unfoldable pub serialize_data : DataHeader → ℕ → Option (List ℕ)
unfolding data_bytes
serialize_data h buf_len = if ltb buf_len data_size then none else some (data_bytes h)

unfoldable pub deserialize_data : Cursor DataHeader
deserialize_data = do
  need data_size
  id ← read_be16
  data_blocks ← read_u8
  fec_blocks ← read_u8
  index ← read_u8
  group ← read_u8
  groups ← read_u8
  kind ← read_u8
  size ← read_be32
  mixed ← read_u8
  low ← read_u8
  return (record {
    frame_id = id;
    data_block_count = data_blocks;
    fec_block_count = fec_blocks;
    block_index = index;
    fec_group_index = group;
    fec_group_count = groups;
    frame_type = kind;
    frame_size = size;
    retry_count = high_nibble mixed;
    payload_length = bit_or (low_nibble mixed <<< 8) low;
  })
