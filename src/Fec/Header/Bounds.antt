-- ===== src/Fec/Header/Bounds.antt =====
-- The headers' parsers read no byte past the end of the buffer.
use tj_rtc.Prelude.{ℕ, ◌≢◌, List, arith}
use tj_rtc.Bytes.{
  fault, result, Reads, return-Reads, next_u8, next_need, next_check, next_be16, next_be32,
  next_seq_num, result-ne-fault, low_nibble,
}
use tj_rtc.Fec.Header.{deserialize_common, deserialize_data}

deserialize_common-Reads : Reads 0 0 deserialize_common
unfolding deserialize_common
deserialize_common-Reads = next_need 0 0 2 _ λ _. next_u8 2 0 _ (omega arith) λ first.
    next_u8 1 0 _ (omega arith) λ kind. next_check 0 0 _ _ λ _.
      next_need 0 0 (low_nibble first) _ λ _.
        next_seq_num (low_nibble first) 0 (low_nibble first) _ (omega arith)
          λ seq. return-Reads _ 0 (omega arith)

deserialize_data-Reads : Reads 0 0 deserialize_data
unfolding deserialize_data
deserialize_data-Reads = next_need 0 0 14 _ λ _. next_be16 14 0 _ (omega arith) λ id.
    next_u8 12 0 _ (omega arith) λ data_blocks. next_u8 11 0 _ (omega arith) λ fec_blocks.
      next_u8 10 0 _ (omega arith) λ index. next_u8 9 0 _ (omega arith) λ group.
        next_u8 8 0 _ (omega arith) λ groups. next_u8 7 0 _ (omega arith) λ kind.
          next_be32 6 0 _ (omega arith) λ size.
            next_u8 2 0 _ (omega arith)
              λ mixed. next_u8 1 0 _ (omega arith) λ low. return-Reads 0 0 (omega arith)

-- On every input, well formed or not, neither header parser reads past the end of the buffer.
deserialize_header-ne-fault :
    (bytes : List ℕ)
    → (result (deserialize_common bytes) ≢ fault) × (result (deserialize_data bytes) ≢ fault)
deserialize_header-ne-fault bytes = (
  result-ne-fault deserialize_common deserialize_common-Reads bytes,
  result-ne-fault deserialize_data deserialize_data-Reads bytes,
)
