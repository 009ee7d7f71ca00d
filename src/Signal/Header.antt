-- ===== src/Signal/Header.antt =====
-- common/sfu_protocol/SfuProtocol.h: the header byte, the TCP length prefix and the checksum.
-- On a uint32_t `(x >> k) & 0xFF` is written `(x >>> k) % 256`, as in `write_be32`.
use tj_rtc.Prelude.{
  ℕ, ◌+◌, ◌*◌, ◌%◌, ◌^◌, ◌<◌, bit_and, ◌≡◌, Bool, ◌&&◌, List, [], ◌∷◌, arith, leb, low_mask,
}
use tj_rtc.Bytes.{
  join32, pack_nibbles, high_nibble, low_nibble, pack_nibbles-sum, high_nibble-pack_nibbles,
  low_nibble-pack_nibbles,
}

-- PROTOCOL_VERSION and MsgType::kCmd
abbrev pub protocol_version : ℕ
protocol_version = 1

abbrev pub cmd_type : ℕ
cmd_type = 0x05

unfoldable pub make_header : ℕ → ℕ → ℕ
make_header version msg_type = pack_nibbles version msg_type

unfoldable pub get_header_version : ℕ → ℕ
get_header_version header = high_nibble header

unfoldable pub get_header_msg_type : ℕ → ℕ
get_header_msg_type header = low_nibble header

abbrev pub min_tcp_frame_bytes : ℕ
min_tcp_frame_bytes = 1

abbrev pub max_tcp_frame_bytes : ℕ
max_tcp_frame_bytes = 1024 * 1024

-- The four bytes of `buf`.
unfoldable pub read_tcp_frame_len : ℕ → ℕ → ℕ → ℕ → ℕ
unfolding join32
read_tcp_frame_len a b c d = join32 a b c d

unfoldable pub is_valid_tcp_frame_len : ℕ → Bool
is_valid_tcp_frame_len len = leb min_tcp_frame_bytes len && leb len max_tcp_frame_bytes

-- `sum += data[i]` on a uint32_t.
unfoldable pub checksum_loop : ℕ → List ℕ → ℕ
checksum_loop sum [] = bit_and sum 0xffff % 2 ^ 16
checksum_loop sum (b ∷ bytes) = checksum_loop ((sum + b) % 2 ^ 32) bytes

unfoldable pub compute_checksum : List ℕ → ℕ
unfolding checksum_loop
compute_checksum bytes = checksum_loop 0 bytes

-- The header byte keeps the low four bits of its two fields, and gives them back.
pub header_fields :
    (version msg_type : ℕ)
    → (get_header_version (make_header version msg_type) ≡ version % 16)
      × (get_header_msg_type (make_header version msg_type) ≡ msg_type % 16)
      × (make_header version msg_type < 256)
unfolding make_header get_header_version get_header_msg_type
header_fields version msg_type = (
  high_nibble-pack_nibbles version msg_type,
  low_nibble-pack_nibbles version msg_type,
  omega (arith, pack_nibbles-sum version msg_type),
)

abbrev pub sum : List ℕ → ℕ
sum [] = 0
sum (b ∷ bytes) = b + sum bytes

checksum_loop-sum :
    (acc : ℕ) (bytes : List ℕ) → checksum_loop acc bytes ≡ (acc + sum bytes) % 2 ^ 16
unfolding checksum_loop
checksum_loop-sum acc [] = omega (arith, low_mask 16 acc)
checksum_loop-sum acc (b ∷ bytes) = omega (arith, checksum_loop-sum ((acc + b) % 2 ^ 32) bytes)

-- The checksum is the sum of the bytes modulo 65536 for data of every length: the wrap of the
-- 32-bit accumulator does not show.
pub compute_checksum-sum : (bytes : List ℕ) → compute_checksum bytes ≡ sum bytes % 2 ^ 16
unfolding compute_checksum
compute_checksum-sum bytes = omega (arith, checksum_loop-sum 0 bytes)
