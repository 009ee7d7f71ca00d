-- ===== src/Bytes/Endian.antt =====
-- Big-endian fields: libs/frame_protoc/src/protocol.cpp (writeBE16 to readSeqNum), and the same
-- shifts where common/sfu_protocol writes and reads them in place.
use tj_rtc.Prelude.{ℕ, zero, suc, ◌%◌, ◌^◌, ◌<◌, List, [], ◌∷◌, ◌++◌, bit_or, bit_and, ◌<<<◌, ◌>>>◌}
use tj_rtc.Bytes.Reading.{Cursor, ◌>>=◌, return, read_u8}

abbrev pub IsByte : ℕ → Type 0
IsByte b = b < 256

unfoldable pub write_be16 : ℕ → List ℕ
write_be16 v = ((v >>> 8) % 256) ∷ (v % 256) ∷ []

unfoldable pub write_be32 : ℕ → List ℕ
write_be32 v = ((v >>> 24) % 256) ∷ ((v >>> 16) % 256) ∷ ((v >>> 8) % 256) ∷ (v % 256) ∷ []

unfoldable pub write_be64 : ℕ → List ℕ
write_be64 v =
    ((v >>> 56) % 256)
    ∷ ((v >>> 48) % 256)
    ∷ ((v >>> 40) % 256)
    ∷ ((v >>> 32) % 256)
    ∷ ((v >>> 24) % 256)
    ∷ ((v >>> 16) % 256)
    ∷ ((v >>> 8) % 256)
    ∷ (v % 256)
    ∷ []

-- `(a << 8) | b`
unfoldable pub join16 : ℕ → ℕ → ℕ
join16 a b = bit_or (a <<< 8) b

-- `(a << 24) | (b << 16) | (c << 8) | d`
unfoldable pub join32 : ℕ → ℕ → ℕ → ℕ → ℕ
join32 a b c d = bit_or (bit_or (bit_or (a <<< 24) (b <<< 16)) (c <<< 8)) d

unfoldable pub read_be16 : Cursor ℕ
unfolding join16
read_be16 = do a ← read_u8; b ← read_u8; return (join16 a b)

unfoldable pub read_be32 : Cursor ℕ
unfolding join32
read_be32 = do a ← read_u8; b ← read_u8; c ← read_u8; d ← read_u8; return (join32 a b c d)

unfoldable pub join64 : ℕ → ℕ → ℕ → ℕ → ℕ → ℕ → ℕ → ℕ → ℕ
join64 a b c d e f g h =
    bit_or
      (bit_or
        (bit_or
          (bit_or (bit_or (bit_or (bit_or (a <<< 56) (b <<< 48)) (c <<< 40)) (d <<< 32)) (e <<< 24))
          (f <<< 16))
        (g <<< 8))
      h

unfoldable pub read_be64 : Cursor ℕ
unfolding join64
read_be64 = do
  a ← read_u8
  b ← read_u8
  c ← read_u8
  d ← read_u8
  e ← read_u8
  f ← read_u8
  g ← read_u8
  h ← read_u8
  return (join64 a b c d e f g h)

-- `for (i = seq_len - 1; i >= 0; --i) { buf[i] = val & 0xFF; val >>= 8; }`: the last byte first.
unfoldable pub write_seq_num : ℕ → ℕ → List ℕ
write_seq_num val zero = []
write_seq_num val (suc n) = write_seq_num (val >>> 8) n ++ (bit_and val 0xff % 256 ∷ [])

-- `val = (val << 8) | buf[i]` on a uint64_t.
unfoldable pub read_seq_loop : ℕ → ℕ → Cursor ℕ
read_seq_loop val zero = return val
read_seq_loop val (suc n) = do b ← read_u8; read_seq_loop (bit_or ((val <<< 8) % 2 ^ 64) b) n

unfoldable pub read_seq_num : ℕ → Cursor ℕ
unfolding read_seq_loop
read_seq_num seq_len = read_seq_loop 0 seq_len
