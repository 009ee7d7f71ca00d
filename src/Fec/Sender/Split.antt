-- ===== src/Fec/Sender/Split.antt =====
-- How sendFrame of libs/frame_protoc/src/sender.cpp splits a frame into blocks and groups.
use tj_rtc.Prelude.{
  ℕ, zero, suc, ◌+◌, ◌-◌, ◌*◌, ◌/◌, ◌%◌, min, ◌&&◌, List, [], ◌∷◌, ◌++◌, ltb, leb, ◌==◌,
  if◌then◌else◌, length, take, drop, replicate,
}
use tj_rtc.Fec.Sender.State.{MathOps, sub_word}

-- kMaxPayloadLength
abbrev pub max_payload_length : ℕ
max_payload_length = 1450

-- DataHeader::serializedSize and the common header.
abbrev pub data_packet_header_size : ℕ → ℕ
data_packet_header_size seq_len = 2 + seq_len + 14

unfoldable pub max_payload_per_block : ℕ → ℕ → ℕ
max_payload_per_block mtu seq_len =
    let hdr = data_packet_header_size seq_len in
    if leb mtu hdr then 0 else min (mtu - hdr) max_payload_length

pub record Layout : Type 0 where
  pub total_data_blocks : ℕ
  pub block_bytes : ℕ

unfoldable pub block_layout : ℕ → ℕ → Layout
block_layout len max_payload =
    let count = (len + max_payload - 1) / max_payload in
    if leb len max_payload
    then record { total_data_blocks = 1; block_bytes = len }
    else record { total_data_blocks = count; block_bytes = (len + count - 1) / count }

-- `fec_group_count`, a uint8_t.
unfoldable pub group_count : ℕ → ℕ → ℕ
group_count total_data_blocks max_group_size =
    let count = (total_data_blocks + max_group_size - 1) / max_group_size % 256 in
    if count == 0 then 1 else count

-- The data blocks of group `g`.
unfoldable pub group_data_blocks : ℕ → ℕ → ℕ → ℕ
group_data_blocks total_data_blocks max_group_size g =
    min max_group_size (sub_word total_data_blocks (g * max_group_size)) % 256

-- `block_data[i]`: the next `block_bytes` of the frame, filled up with zeros.
unfoldable pub pad_block : ℕ → List ℕ → List ℕ
pad_block block_bytes chunk = chunk ++ replicate (block_bytes - length chunk) 0

-- The data blocks of a group from what is left of the frame, and what is left after them.
unfoldable pub cut_blocks : ℕ → ℕ → List ℕ → List (List ℕ) × List ℕ
unfolding pad_block
cut_blocks zero block_bytes rest = ([], rest)
cut_blocks (suc n) block_bytes rest =
    let (blocks, left) = cut_blocks n block_bytes (drop block_bytes rest) in
    (pad_block block_bytes (take block_bytes rest) ∷ blocks, left)

module _ {F : Type 0} (ops : MathOps F) where
  open ops use {float}

  -- `static_cast<uint8_t>(255.0f * (1.0f - ratio))`, 1 at least.
  unfoldable pub max_group_size : F → ℕ
  max_group_size ratio =
      let size =
        float.to_uint (float.mul (float.of_uint 255) (float.sub (float.of_uint 1) ratio)) % 256 in
      if size == 0 then 1 else size

  unfoldable pub fec_block_count : F → ℕ → ℕ
  fec_block_count ratio data_blocks =
      let count = float.to_uint (ops.ceil (float.mul (float.of_uint data_blocks) ratio)) % 256 in
      let some_blocks = if count == 0 && float.less (float.of_uint 0) ratio then 1 else count in
      if ltb 255 (data_blocks + some_blocks) then 255 - data_blocks else some_blocks

  -- `est_total_blocks` of the groups from `g` on.
  unfoldable pub estimate_blocks : F → ℕ → ℕ → ℕ → ℕ → ℕ
  unfolding group_data_blocks fec_block_count
  estimate_blocks ratio total size zero g = 0
  estimate_blocks ratio total size (suc groups) g =
      let blocks = group_data_blocks total size g in
      blocks + fec_block_count ratio blocks + estimate_blocks ratio total size groups (g + 1)
