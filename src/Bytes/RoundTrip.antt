-- ===== src/Bytes/RoundTrip.antt =====
-- Big-endian fields are read back as they were written.
use tj_rtc.Prelude.{
  ◌≤◌, take, drop, ℕ, zero, suc, ◌+◌, ◌*◌, ◌/◌, ◌%◌, ◌^◌, ◌<◌, ◌≡◌, refl, ap, ◌∙◌, List, [], ◌∷◌,
  ◌++◌, arith, bit_or, bit_and, ◌<<<◌, shift_or, disjoint_or, low_mask, length, append_assoc,
  length-append, All,
}
use native.Mathlib.Nat.{pow-suc}
use tj_rtc.Bytes.Reading.{ok, read_u8, read_bytes}
use tj_rtc.Bytes.Endian.{
  IsByte, write_be16, write_be32, write_be64, join16, join32, join64, read_be16, read_be32,
  read_be64, write_seq_num, read_seq_loop, read_seq_num,
}

pub join16-sum : (a b : ℕ) → b < 256 → join16 a b ≡ a * 2 ^ 8 + b
unfolding join16
join16-sum a b h = shift_or 8 a b h

pub join32-sum :
    (a b c d : ℕ)
    → b < 256
    → c < 256
    → d < 256
    → join32 a b c d ≡ a * 2 ^ 24 + b * 2 ^ 16 + c * 2 ^ 8 + d
unfolding join32
join32-sum a b c d hb hc hd =
    rw (disjoint_or 24 (a <<< 24) (b <<< 16) (omega arith) (omega arith)) (
      rw (disjoint_or 16 (a * 2 ^ 24 + b * 2 ^ 16) (c <<< 8) (omega arith) (omega arith))
        (disjoint_or 8 (a * 2 ^ 24 + b * 2 ^ 16 + c * 2 ^ 8) d (omega arith) (omega arith)))

pub join64-sum :
    (a b c d e f g h : ℕ)
    → All IsByte (b ∷ c ∷ d ∷ e ∷ f ∷ g ∷ h ∷ [])
    → join64 a b c d e f g h
      ≡ a * 2 ^ 56 + b * 2 ^ 48 + c * 2 ^ 40 + d * 2 ^ 32 + e * 2 ^ 24 + f * 2 ^ 16 + g * 2 ^ 8 + h
unfolding join64
join64-sum a b c d e f g h k =
    let x2 = a <<< 56 + b <<< 48 in
    let x3 = x2 + c <<< 40 in
    let x4 = x3 + d <<< 32 in
    let x5 = x4 + e <<< 24 in
    let x6 = x5 + f <<< 16 in
    let x7 = x6 + g <<< 8 in
    rw (
      disjoint_or 56 (a <<< 56) (b <<< 48) (omega arith) (omega arith),
      disjoint_or 48 x2 (c <<< 40) (omega arith) (omega arith),
      disjoint_or 40 x3 (d <<< 32) (omega arith) (omega arith),
      disjoint_or 32 x4 (e <<< 24) (omega arith) (omega arith),
      disjoint_or 24 x5 (f <<< 16) (omega arith) (omega arith),
      disjoint_or 16 x6 (g <<< 8) (omega arith) (omega arith),
      disjoint_or 8 x7 h (omega arith) (omega arith),
    )

-- What was written is read back, and the cursor stands behind it.
pub read_be16-write_be16 :
    (v : ℕ) (rest : List ℕ) → v < 2 ^ 16 → read_be16 (write_be16 v ++ rest) ≡ ok (v, rest)
unfolding read_be16 write_be16 read_u8
read_be16-write_be16 v rest h =
    ap (λ t. ok (t, rest)) (omega (arith, join16-sum (v / 256 % 256) (v % 256) (omega arith)))

pub read_be32-write_be32 :
    (v : ℕ) (rest : List ℕ) → v < 2 ^ 32 → read_be32 (write_be32 v ++ rest) ≡ ok (v, rest)
unfolding read_be32 write_be32 read_u8
read_be32-write_be32 v rest h =
    ap (λ t. ok (t, rest))
      (omega (
        arith,
        join32-sum (v / 2 ^ 24 % 256) (v / 2 ^ 16 % 256) (v / 256 % 256) (v % 256) (omega arith)
            (omega arith) (omega arith),
      ))

pub read_be64-write_be64 :
    (v : ℕ) (rest : List ℕ) → v < 2 ^ 64 → read_be64 (write_be64 v ++ rest) ≡ ok (v, rest)
unfolding read_be64 write_be64 read_u8
read_be64-write_be64 v rest h =
    ap (λ t. ok (t, rest))
      (omega (
        arith,
        join64-sum (v / 2 ^ 56 % 256) (v / 2 ^ 48 % 256) (v / 2 ^ 40 % 256) (v / 2 ^ 32 % 256)
            (v / 2 ^ 24 % 256) (v / 2 ^ 16 % 256) (v / 256 % 256) (v % 256) (omega arith),
      ))

pub read_bytes-append :
    (taken rest : List ℕ) → read_bytes (length taken) (taken ++ rest) ≡ ok (taken, rest)
unfolding read_bytes
read_bytes-append [] rest = refl
read_bytes-append (b ∷ taken) rest = rw (read_bytes-append taken rest)

pub length-write_be64 : (v : ℕ) → length (write_be64 v) ≡ 8
unfolding write_be64
length-write_be64 v = refl

pub length-write_be32 : (v : ℕ) → length (write_be32 v) ≡ 4
unfolding write_be32
length-write_be32 v = refl

pub length-write_be16 : (v : ℕ) → length (write_be16 v) ≡ 2
unfolding write_be16
length-write_be16 v = refl

pub length-write_seq_num : (val n : ℕ) → length (write_seq_num val n) ≡ n
unfolding write_seq_num
length-write_seq_num val zero = refl
length-write_seq_num val (suc n) = omega (
  arith,
  length-append {0} (write_seq_num (val / 2 ^ 8) n) (bit_and val 0xff % 256 ∷ []),
  length-write_seq_num (val / 2 ^ 8) n,
)

-- One byte more: the loop from its end.
read_seq_loop_last :
    (n val : ℕ) (bytes : List ℕ) (w b : ℕ) (rest : List ℕ)
    → read_seq_loop val n bytes ≡ ok (w, b ∷ rest)
    → read_seq_loop val (suc n) bytes ≡ ok (bit_or ((w <<< 8) % 2 ^ 64) b, rest)
unfolding read_seq_loop read_u8
read_seq_loop_last zero val bytes w b rest e = ground arith
read_seq_loop_last (suc n) val [] w b rest e = cc
read_seq_loop_last (suc n) val (c ∷ bytes) w b rest e =
    read_seq_loop_last n (bit_or ((val <<< 8) % 2 ^ 64) c) bytes w b rest e

pow_bytes : (x n : ℕ) → x * 256 ^ suc n ≡ 256 * (x * 256 ^ n)
pow_bytes x n = omega (arith, ap (λ (t : ℕ). x * t) (pow-suc 256 n))

byte_join : (w b : ℕ) → b < 256 → w * 256 + b < 2 ^ 64 → bit_or ((w <<< 8) % 2 ^ 64) b ≡ w * 256 + b
byte_join w b h k = omega (arith, disjoint_or 8 ((w <<< 8) % 2 ^ 64) b (omega arith) h)

read_seq_loop-write_seq_num :
    (n val v : ℕ) (rest : List ℕ)
    → v < 256 ^ n
    → val * 256 ^ n + v < 2 ^ 64
    → read_seq_loop val n (write_seq_num v n ++ rest) ≡ ok (val * 256 ^ n + v, rest)
unfolding write_seq_num
read_seq_loop-write_seq_num zero val v rest h k = unfold read_seq_loop in ground arith
read_seq_loop-write_seq_num (suc n) val v rest h k =
    let w = val * 256 ^ n + v / 256 in
    let b = bit_and v 0xff % 256 in
    rw append_assoc (
      read_seq_loop_last n val (write_seq_num (v / 256) n ++ (b ∷ rest)) w b rest (
        read_seq_loop-write_seq_num n val (v / 256) (b ∷ rest) (omega (arith, pow-suc 256 n))
          (omega (arith, pow_bytes val n)))
      ∙ ap (λ t. ok (t, rest))
          (omega (
            arith,
            pow_bytes val n,
            low_mask 8 v,
            byte_join w b (omega arith) (omega (arith, low_mask 8 v, pow_bytes val n)),
          )))

-- A sequence number that fits its `seq_len` bytes, at most 8, is read back.
pub read_seq_num-write_seq_num :
    (n v : ℕ) (rest : List ℕ)
    → v < 256 ^ n
    → v < 2 ^ 64
    → read_seq_num n (write_seq_num v n ++ rest) ≡ ok (v, rest)
unfolding read_seq_num
read_seq_num-write_seq_num n v rest h k =
    read_seq_loop-write_seq_num n 0 v rest h (omega arith) ∙ ap (λ t. ok (t, rest)) (omega arith)

-- A read inside the buffer splits it.
pub read_bytes-split :
    (n : ℕ) (bytes : List ℕ)
    → n ≤ length bytes
    → read_bytes n bytes ≡ ok (take n bytes, drop n bytes)
unfolding read_bytes
read_bytes-split zero bytes h = refl
read_bytes-split (suc n) [] h = absurd (omega arith)
read_bytes-split (suc n) (b ∷ bytes) h = rw (read_bytes-split n bytes (omega arith))
