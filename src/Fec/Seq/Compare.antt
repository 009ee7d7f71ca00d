-- ===== src/Fec/Seq/Compare.antt =====
-- seqCompare tells what seqAdd has added, also where the number has wrapped round.
use tj_rtc.Prelude.{
  ℕ, zero, suc, ◌+◌, ◌-◌, ◌*◌, ◌/◌, ◌%◌, ◌^◌, ◌≤◌, ◌<◌, ◌≡◌, sym, ◌∙◌, ◌≢◌, arith, bit_and, ◌>>>◌,
  low_mask, ltb, ◌==◌, if◌then◌else◌,
}
use tj_rtc.Prelude.Int.{ℤ, pos, negsuc}
use tj_rtc.Fec.Seq.{seq_mask, seq_compare, seq_add}

-- A statement for every seq_len that a packet can carry.
by_width {ℓ} :
    (P : ℕ → Type ℓ) → P 1 → P 2 → P 3 → P 4 → P 5 → P 6 → P 7 → P 8 → (n : ℕ) → 1 ≤ n → n ≤ 8 → P n
by_width P a b c d e f g h zero l u = absurd (omega arith)
by_width P a b c d e f g h (suc zero) l u = a
by_width P a b c d e f g h (suc (suc zero)) l u = b
by_width P a b c d e f g h (suc (suc (suc zero))) l u = c
by_width P a b c d e f g h (suc (suc (suc (suc zero)))) l u = d
by_width P a b c d e f g h (suc (suc (suc (suc (suc zero))))) l u = e
by_width P a b c d e f g h (suc (suc (suc (suc (suc (suc zero)))))) l u = f
by_width P a b c d e f g h (suc (suc (suc (suc (suc (suc (suc zero))))))) l u = g
by_width P a b c d e f g h (suc (suc (suc (suc (suc (suc (suc (suc zero)))))))) l u = h
by_width P a b c d e f g h (suc (suc (suc (suc (suc (suc (suc (suc (suc n))))))))) l u =
    absurd (omega arith)

-- The mask of a width as a remainder.
seq_mask-mod : (x n : ℕ) → 1 ≤ n → n ≤ 8 → bit_and x (seq_mask n) ≡ x % 256 ^ n
unfolding seq_mask
seq_mask-mod x =
    by_width (λ n. bit_and x (seq_mask n) ≡ x % 256 ^ n) (low_mask 8 x) (low_mask 16 x)
      (low_mask 24 x) (low_mask 32 x) (low_mask 40 x) (low_mask 48 x) (low_mask 56 x)
      (low_mask 64 x)

seq_add-mod : (a d n : ℕ) → 1 ≤ n → n ≤ 8 → seq_add a d n ≡ (a + d) % 2 ^ 64 % 256 ^ n
unfolding seq_add
seq_add-mod a d n l u = seq_mask-mod ((a + d) % 2 ^ 64) n l u

seq_mask-pow : (n : ℕ) → 1 ≤ n → n ≤ 8 → seq_mask n ≡ 256 ^ n - 1
unfolding seq_mask
seq_mask-pow =
    by_width (λ n. seq_mask n ≡ 256 ^ n - 1) (omega arith) (omega arith) (omega arith) (omega arith)
      (omega arith) (omega arith) (omega arith) (omega arith)

pow_even : (n : ℕ) → 1 ≤ n → n ≤ 8 → 256 ^ n ≡ 2 * (256 ^ n / 2)
pow_even =
    by_width (λ n. 256 ^ n ≡ 2 * (256 ^ n / 2)) (omega arith) (omega arith) (omega arith)
      (omega arith) (omega arith) (omega arith) (omega arith) (omega arith)

-- The distance of two numbers, `d` apart, forwards and backwards.
module _ (a d : ℕ) where
  forward :
      (n : ℕ)
      → 1 ≤ n
      → n ≤ 8
      → a < 256 ^ n
      → d < 256 ^ n
      → ((a + d) % 2 ^ 64 % 256 ^ n + 2 ^ 64 - a) % 2 ^ 64 % 256 ^ n ≡ d
  forward =
      by_width
        (λ n.
          a < 256 ^ n
          → d < 256 ^ n
          → ((a + d) % 2 ^ 64 % 256 ^ n + 2 ^ 64 - a) % 2 ^ 64 % 256 ^ n ≡ d)
        (λ p q. omega arith) (λ p q. omega arith) (λ p q. omega arith) (λ p q. omega arith)
        (λ p q. omega arith) (λ p q. omega arith) (λ p q. omega arith) (λ p q. omega arith)

  backward :
      (n : ℕ)
      → 1 ≤ n
      → n ≤ 8
      → a < 256 ^ n
      → (0 < d) × (d < 256 ^ n)
      → (a + 2 ^ 64 - (a + d) % 2 ^ 64 % 256 ^ n) % 2 ^ 64 % 256 ^ n ≡ 256 ^ n - d
  backward =
      by_width
        (λ n.
          a < 256 ^ n
          → (0 < d) × (d < 256 ^ n)
          → (a + 2 ^ 64 - (a + d) % 2 ^ 64 % 256 ^ n) % 2 ^ 64 % 256 ^ n ≡ 256 ^ n - d)
        (λ p q. omega arith) (λ p q. omega arith) (λ p q. omega arith) (λ p q. omega arith)
        (λ p q. omega arith) (λ p q. omega arith) (λ p q. omega arith) (λ p q. omega arith)

  moves :
      (n : ℕ)
      → 1 ≤ n
      → n ≤ 8
      → a < 256 ^ n
      → (0 < d) × (d < 256 ^ n)
      → (a + d) % 2 ^ 64 % 256 ^ n ≢ a
  moves =
      by_width (λ n. a < 256 ^ n → (0 < d) × (d < 256 ^ n) → (a + d) % 2 ^ 64 % 256 ^ n ≢ a)
        (λ p q. omega arith) (λ p q. omega arith) (λ p q. omega arith) (λ p q. omega arith)
        (λ p q. omega arith) (λ p q. omega arith) (λ p q. omega arith) (λ p q. omega arith)

-- The order that a distance stands for.
abbrev order_of : ℕ → ℕ → ℤ
order_of diff mask =
    if diff == 0 then pos 0 else if ltb diff ((mask >>> 1) + 1) then pos 1 else negsuc 0

seq_compare-order_of :
    (a b n : ℕ)
    → 1 ≤ n
    → n ≤ 8
    → a ≢ b
    → seq_compare a b n ≡ order_of ((a + 2 ^ 64 - b) % 2 ^ 64 % 256 ^ n) (256 ^ n - 1)
unfolding seq_compare
seq_compare-order_of a b n l u h =
    ground (arith, seq_mask-pow n l u, seq_mask-mod ((a + 2 ^ 64 - b) % 2 ^ 64) n l u)

-- Within half of the number space, `seq_compare` finds the order in which the numbers were
-- given out, also where the later one has wrapped round.
pub seq_compare-seq_add :
    (n a d : ℕ)
    → 1 ≤ n
    → n ≤ 8
    → a < 256 ^ n
    → 0 < d
    → 2 * d < 256 ^ n
    → (seq_compare (seq_add a d n) a n ≡ pos 1) × (seq_compare a (seq_add a d n) n ≡ negsuc 0)
seq_compare-seq_add n a d l u ha hd h =
    let even = pow_even n l u in
    let moved = moves a d n l u ha (hd, omega arith) in
    rw (seq_add-mod a d n l u) (
      seq_compare-order_of _ a n l u moved ∙ rw (forward a d n l u ha (omega arith)) (ground arith),
      seq_compare-order_of a _ n l u (λ e. moved (sym e))
          ∙ rw (backward a d n l u ha (hd, omega arith)) (ground arith),
    )
