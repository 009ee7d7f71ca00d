-- ===== src/Bytes/Nibbles.antt =====
-- Bytes of two four-bit fields, and single bits of a byte, by tables.
use tj_rtc.Prelude.{
  ℕ, zero, suc, ◌+◌, ◌*◌, ◌/◌, ◌%◌, ◌≤◌, ◌<◌, bit_and, bit_or, ◌≡◌, refl, Bool, true, ◌&&◌, arith,
  ◌==◌, ==_iff, ◌<<<◌, ◌>>>◌, shift_or, low_mask,
}

-- Two fields of four bits in one byte.
abbrev pub pack_nibbles : ℕ → ℕ → ℕ
pack_nibbles hi lo = bit_or (bit_and hi 0x0f <<< 4) (bit_and lo 0x0f)

abbrev pub high_nibble : ℕ → ℕ
high_nibble b = bit_and (b >>> 4) 0x0f

abbrev pub low_nibble : ℕ → ℕ
low_nibble b = bit_and b 0x0f

pub pack_nibbles-sum : (hi lo : ℕ) → pack_nibbles hi lo ≡ hi % 16 * 16 + lo % 16
pack_nibbles-sum hi lo =
    rw (low_mask 4 hi, low_mask 4 lo) (shift_or 4 (hi % 16) (lo % 16) (omega arith))

pub high_nibble-pack_nibbles : (hi lo : ℕ) → high_nibble (pack_nibbles hi lo) ≡ hi % 16
high_nibble-pack_nibbles hi lo =
    rw (low_mask 4 (pack_nibbles hi lo / 16)) (omega (arith, pack_nibbles-sum hi lo))

pub low_nibble-pack_nibbles : (hi lo : ℕ) → low_nibble (pack_nibbles hi lo) ≡ lo % 16
low_nibble-pack_nibbles hi lo =
    rw (low_mask 4 (pack_nibbles hi lo)) (omega (arith, pack_nibbles-sum hi lo))

-- Every value below a bound, by evaluation.
holds_below : ℕ → (ℕ → Bool) → Bool
holds_below zero test = true
holds_below (suc n) test = test n && holds_below n test

holds_below-each :
    (n : ℕ) (test : ℕ → Bool) (x : ℕ) → holds_below n test ≡ true → x < n → test x ≡ true
unfolding holds_below
holds_below-each zero test x e h = absurd (omega arith)
holds_below-each (suc n) test x e h = ground (arith, holds_below-each n test x)

-- Two functions that agree on the bytes below `n`.
equal_below : (f g : ℕ → ℕ) (n x : ℕ) → holds_below n (λ y. f y == g y) ≡ true → x < n → f x ≡ g x
equal_below f g n x e h = (==_iff (f x) (g x)).0 (holds_below-each n (λ y. f y == g y) x e h)

pub bit_one : (b : ℕ) → b < 256 → bit_and b 2 ≡ b / 2 % 2 * 2
unfolding holds_below
bit_one b h = equal_below (λ y. bit_and y 2) (λ y. y / 2 % 2 * 2) 256 b refl h

pub bit_two : (b : ℕ) → b < 256 → bit_and b 4 ≡ b / 4 % 2 * 4
unfolding holds_below
bit_two b h = equal_below (λ y. bit_and y 4) (λ y. y / 4 % 2 * 4) 256 b refl h

split_flags :
    (x : ℕ)
    → x < 256
    → bit_or (bit_or (bit_or (x % 2) (x / 2 % 2 * 2)) (x / 4 % 2 * 4)) ((x / 8) <<< 3) ≡ x
unfolding holds_below
split_flags x h =
    equal_below
      (λ y. bit_or (bit_or (bit_or (y % 2) (y / 2 % 2 * 2)) (y / 4 % 2 * 4)) ((y / 8) <<< 3))
      (λ y. y) 256 x refl h

-- Three flag bits under a field of five.
pub or_flags :
    (a v d r : ℕ)
    → a ≤ 1
    → v ≤ 1
    → d ≤ 1
    → r < 32
    → bit_or (bit_or (bit_or a (v * 2)) (d * 4)) (r <<< 3) ≡ a + v * 2 + d * 4 + r * 8
or_flags a v d r ha hv hd hr =
    let x = a + v * 2 + d * 4 + r * 8 in
    let ea : x % 2 ≡ a = omega arith in
    let ev : x / 2 % 2 ≡ v = omega arith in
    let ed : x / 4 % 2 ≡ d = omega arith in
    let er : x / 8 ≡ r = omega arith in rw (ea, ev, ed, er) at (split_flags x (omega arith))
