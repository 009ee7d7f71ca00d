-- ===== src/Prelude/Bits.antt =====
-- Masks and shifts of machine words as arithmetic, at every width.
use Prim.Native.Nat.{
  ℕ, zero, suc, ◌+◌, ◌-◌, ◌*◌, ◌/◌, ◌%◌, ◌^◌, ◌≤◌, ◌<◌, min, max, digits, bit_and, bit_or,
  bit_and-bitwise, bit_or-bitwise, bit_xor, bit_xor-bitwise, differ,
}
use mathlib.Core.Path.{◌≡◌, refl, ap, ◌∙◌}
use native.Mathlib.Nat.{pow-suc, one-le-pow, div-add-mod, div-div-eq-div-mul}
use native.Mathlib.Omega.{arith}

infixl 68 ◌<<<◌ ◌>>>◌
abbrev pub ◌<<<◌ : ℕ → ℕ → ℕ
a <<< k = a * 2 ^ k

abbrev pub ◌>>>◌ : ℕ → ℕ → ℕ
a >>> k = a / 2 ^ k

-- A walk over the digits gives the same for every count that is large enough.
module _ (z : ℕ → ℕ) (f : ℕ → ℕ → ℕ) where
  digits_enough : (n m a b : ℕ) → a ≤ n → a ≤ m → digits z f n a b ≡ digits z f m a b
  digits_enough zero zero a b p q = refl
  digits_enough zero (suc m) zero b p q = refl
  digits_enough zero (suc m) (suc a) b p q = absurd (omega arith)
  digits_enough (suc n) zero zero b p q = refl
  digits_enough (suc n) zero (suc a) b p q = absurd (omega arith)
  digits_enough (suc n) (suc m) zero b p q = refl
  digits_enough (suc n) (suc m) (suc a) b p q =
      ap (λ t. t * 2 + f (suc a % 2) (b % 2))
        (digits_enough n m (suc a / 2) (b / 2) (omega arith) (omega arith))

-- One digit at a time.
bit_or_step : (a b : ℕ) → bit_or a b ≡ bit_or (a / 2) (b / 2) * 2 + max (a % 2) (b % 2)
bit_or_step zero b = omega (arith, bit_or-bitwise 0 b, bit_or-bitwise 0 (b / 2))
bit_or_step (suc a) b = omega (
  arith,
  bit_or-bitwise (suc a) b,
  bit_or-bitwise (suc a / 2) (b / 2),
  digits_enough (λ b. b) max a (suc a / 2) (suc a / 2) (b / 2) (omega arith) (omega arith),
)

bit_and_step : (a b : ℕ) → bit_and a b ≡ bit_and (a / 2) (b / 2) * 2 + min (a % 2) (b % 2)
bit_and_step zero b = omega (arith, bit_and-bitwise 0 b, bit_and-bitwise 0 (b / 2))
bit_and_step (suc a) b = omega (
  arith,
  bit_and-bitwise (suc a) b,
  bit_and-bitwise (suc a / 2) (b / 2),
  digits_enough (λ b. zero) min a (suc a / 2) (suc a / 2) (b / 2) (omega arith) (omega arith),
)

bit_or-zero_below : (n a : ℕ) → a ≤ n → bit_or a 0 ≡ a
bit_or-zero_below n zero h = refl
bit_or-zero_below zero (suc a) h = absurd (omega arith)
bit_or-zero_below (suc n) (suc a) h =
    omega (arith, bit_or_step (suc a) 0, bit_or-zero_below n (suc a / 2) (omega arith))

bit_and-zero_below : (n a : ℕ) → a ≤ n → bit_and a 0 ≡ 0
bit_and-zero_below n zero h = refl
bit_and-zero_below zero (suc a) h = absurd (omega arith)
bit_and-zero_below (suc n) (suc a) h =
    omega (arith, bit_and_step (suc a) 0, bit_and-zero_below n (suc a / 2) (omega arith))

double_shift : (q k : ℕ) → q * 2 ^ suc k ≡ 2 * (q * 2 ^ k)
double_shift q k = omega (arith, ap (λ (t : ℕ). q * t) (pow-suc 2 k))

-- `(q << k) | r` is a sum where `r` has at most `k` bits.
pub shift_or : (k q r : ℕ) → r < 2 ^ k → bit_or (q <<< k) r ≡ q * 2 ^ k + r
shift_or zero q r h = ground (arith, bit_or-zero_below q q (omega arith))
shift_or (suc k) q r h = ground (
  arith,
  bit_or_step (q * 2 ^ suc k) r,
  double_shift q k,
  pow-suc 2 k,
  shift_or k q (r / 2) (omega (arith, pow-suc 2 k)),
)

-- A mask of the `k` low bits is the remainder by `2 ^ k`.
mask_step : (k q r : ℕ) → r < 2 ^ k → bit_and (q * 2 ^ k + r) (2 ^ k - 1) ≡ r
mask_step zero q r h = ground (arith, bit_and-zero_below (q * 1 + r) (q * 1 + r) (omega arith))
mask_step (suc k) q r h = ground (
  arith,
  bit_and_step (q * 2 ^ suc k + r) (2 ^ suc k - 1),
  double_shift q k,
  pow-suc 2 k,
  one-le-pow k 2,
  mask_step k q (r / 2) (omega (arith, pow-suc 2 k)),
)

pub low_mask : (k a : ℕ) → bit_and a (2 ^ k - 1) ≡ a % 2 ^ k
low_mask k a = ground (arith, one-le-pow k 2, mask_step k (a / 2 ^ k) (a % 2 ^ k))

-- `x | r` is a sum where `x` has no bit below `k` and `r` none from `k` on.
pub disjoint_or : (k x r : ℕ) → x % 2 ^ k ≡ 0 → r < 2 ^ k → bit_or x r ≡ x + r
disjoint_or k x r e h = ground (arith, shift_or k (x / 2 ^ k) r, div-add-mod x (2 ^ k))

bit_xor_step : (a b : ℕ) → bit_xor a b ≡ bit_xor (a / 2) (b / 2) * 2 + differ (a % 2) (b % 2)
bit_xor_step zero b = omega (arith, bit_xor-bitwise 0 b, bit_xor-bitwise 0 (b / 2))
bit_xor_step (suc a) b = omega (
  arith,
  bit_xor-bitwise (suc a) b,
  bit_xor-bitwise (suc a / 2) (b / 2),
  digits_enough (λ b. b) differ a (suc a / 2) (suc a / 2) (b / 2) (omega arith) (omega arith),
)

differ_twice : (x y : ℕ) → x < 2 → y < 2 → (differ (differ x y) y ≡ x) × (differ x y < 2)
differ_twice zero zero p q = omega arith
differ_twice zero (suc zero) p q = omega arith
differ_twice (suc zero) zero p q = omega arith
differ_twice (suc zero) (suc zero) p q = omega arith
differ_twice zero (suc (suc y)) p q = absurd (omega arith)
differ_twice (suc zero) (suc (suc y)) p q = absurd (omega arith)
differ_twice (suc (suc x)) y p q = absurd (omega arith)

-- Words keep their width under exclusive or, and a second one with the same word undoes the first.
pub bit_xor_twice :
    (k a b : ℕ) → a < 2 ^ k → b < 2 ^ k → (bit_xor (bit_xor a b) b ≡ a) × (bit_xor a b < 2 ^ k)
bit_xor_twice zero zero zero ha hb = omega arith
bit_xor_twice zero zero (suc b) ha hb = absurd (omega arith)
bit_xor_twice zero (suc a) b ha hb = absurd (omega arith)
bit_xor_twice (suc k) a b ha hb = ground (
  arith,
  pow-suc 2 k,
  bit_xor_step a b,
  bit_xor_step (bit_xor a b) b,
  bit_xor_twice k (a / 2) (b / 2),
  differ_twice (a % 2) (b % 2),
)

or_comm_below : (n a b : ℕ) → a ≤ n → b ≤ n → bit_or a b ≡ bit_or b a
or_comm_below zero zero zero p q = refl
or_comm_below zero zero (suc b) p q = absurd (omega arith)
or_comm_below zero (suc a) b p q = absurd (omega arith)
or_comm_below (suc n) a b p q = omega (
  arith,
  bit_or_step a b,
  bit_or_step b a,
  or_comm_below n (a / 2) (b / 2) (omega arith) (omega arith),
)

pub bit_or_comm : (a b : ℕ) → bit_or a b ≡ bit_or b a
bit_or_comm a b = or_comm_below (a + b) a b (omega arith) (omega arith)

-- A test of one bit.
pub bit_test : (b m : ℕ) → bit_and m (1 <<< b) ≡ m / 2 ^ b % 2 * 2 ^ b
bit_test zero m = ground (arith, bit_and_step m 1, bit_and-zero_below (m / 2) (m / 2) (omega arith))
bit_test (suc b) m =
    let half : 1 * 2 ^ suc b / 2 ≡ 1 * 2 ^ b = omega (arith, pow-suc 2 b) in
    let twice : 2 * 2 ^ b ≡ 2 ^ suc b = omega (arith, pow-suc 2 b) in
    let shorter : bit_and m (1 * 2 ^ suc b) ≡ bit_and (m / 2) (1 * 2 ^ suc b / 2) * 2 =
      omega (arith, bit_and_step m (1 * 2 ^ suc b), pow-suc 2 b) in
    let quotient : m / 2 / 2 ^ b ≡ m / 2 ^ suc b =
      div-div-eq-div-mul m 2 (2 ^ b) ∙ ap (λ (n : ℕ). m / n) twice in
    let digit = m / 2 ^ suc b % 2 in
    let regroup : digit * 2 ^ b * 2 ≡ digit * 2 ^ suc b = omega (arith, double_shift digit b) in
    shorter
    ∙ ap (λ (n : ℕ). bit_and (m / 2) n * 2) half
    ∙ ap (λ (n : ℕ). n * 2) (bit_test b (m / 2))
    ∙ ap (λ (q : ℕ). q % 2 * 2 ^ b * 2) quotient
    ∙ regroup

-- One bit more, above all others.
pub or_high_bit : (k m : ℕ) → m < 2 ^ k → bit_or m (1 <<< k) ≡ m + 2 ^ k
or_high_bit k m h = bit_or_comm m (1 <<< k) ∙ omega (arith, shift_or k 1 m h)
