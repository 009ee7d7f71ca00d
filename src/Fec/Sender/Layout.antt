-- ===== src/Fec/Sender/Layout.antt =====
-- The numbers by which sendFrame splits a frame: blocks that hold all of it, and groups that hold all
-- of the blocks.
use tj_rtc.Prelude.{
  ℕ, zero, suc, ◌+◌, ◌-◌, ◌*◌, ◌/◌, ◌%◌, ◌^◌, ◌≤◌, ◌<◌, min, ◌≡◌, subst, inl, inr, arith, leb, ◌==◌,
  leb→le, ==_iff, Bool-cases,
}
use native.Mathlib.Nat.{mul_comm, lt-mul-div-succ, div-lt_iff_lt-mul, add-mul, mod-eq_of_lt}
use tj_rtc.Fec.Sender.State.{MathOps}
use tj_rtc.Fec.Sender.Split.{
  Layout, block_layout, group_count, group_data_blocks, max_group_size, fec_block_count,
  estimate_blocks,
}

-- `(a + n - 1) / n` parts of `n` hold `a`.
pub ceil_holds : (a n : ℕ) → 0 < n → a ≤ (a + n - 1) / n * n
ceil_holds a n h =
    let q = (a + n - 1) / n in
    omega (arith, lt-mul-div-succ (a + n - 1) h, mul_comm n (q + 1), add-mul q 1 n)

-- No part more than there has to be.
pub ceil_least : (a n k : ℕ) → 0 < n → a ≤ k * n → (a + n - 1) / n ≤ k
ceil_least a n k h le =
    let (bound, other) = div-lt_iff_lt-mul {k = n} {x = a + n - 1} {y = k + 1} h in
    let small : a + n - 1 < (k + 1) * n = omega (arith, add-mul k 1 n) in
    let lt : (a + n - 1) / n < k + 1 = other small in omega arith

pub record HoldsFrame (len max_payload : ℕ) (l : Layout) : Type 0 where
  pub some_bytes : 0 < l.block_bytes
  pub some_blocks : 0 < l.total_data_blocks
  pub room : l.block_bytes ≤ max_payload
  pub whole : len ≤ l.total_data_blocks * l.block_bytes

pub block_layout-HoldsFrame :
    (len max_payload : ℕ)
    → 0 < len
    → 0 < max_payload
    → HoldsFrame len max_payload (block_layout len max_payload)
unfolding block_layout
block_layout-HoldsFrame len mp some_len room = elim (Bool-cases (leb len mp)) [
  | inl one ↦ rw one record {
    some_bytes = some_len;
    some_blocks = omega arith;
    room = leb→le len mp one;
    whole = omega arith;
  }
  | inr many ↦
      let count = (len + mp - 1) / mp in
      let holds : len ≤ count * mp = ceil_holds len mp room in
      let some_blocks : 0 < count = positive count mp len holds some_len in
      let whole : len ≤ (len + count - 1) / count * count = ceil_holds len count some_blocks in
      rw many record {
        some_bytes = positive ((len + count - 1) / count) count len whole some_len;
        some_blocks = some_blocks;
        room = ceil_least len count mp some_blocks (omega (arith, mul_comm count mp));
        whole = omega (arith, mul_comm ((len + count - 1) / count) count);
      }
]
  where
    positive : (a b c : ℕ) → c ≤ a * b → 0 < c → 0 < a
    positive zero b c h k = absurd (omega arith)
    positive (suc a) b c h k = omega arith

-- The groups hold all blocks, where a uint8_t can count them.
pub group_count_holds :
    (total size : ℕ) → 0 < size → total ≤ 255 * size → total ≤ group_count total size * size
unfolding group_count
group_count_holds total size h few =
    let count = (total + size - 1) / size in
    let least : count ≤ 255 = ceil_least total size 255 h few in
    let small : count % 256 ≡ count = omega arith in
    rw small (elim (Bool-cases (count == 0)) [
      | inl none_needed ↦
          let (eq, test) = ==_iff count 0 in
          let zero_count : count ≡ 0 = eq none_needed in
          let holds : total ≤ 0 * size =
            subst (λ k. total ≤ k * size) zero_count (ceil_holds total size h) in
          rw none_needed (omega arith)
      | inr needed ↦ rw needed (ceil_holds total size h)
    ])

pub group_data_blocks_lem :
    (total size i : ℕ)
    → size < 256
    → i * size ≤ total
    → total < 2 ^ 64
    → group_data_blocks total size i ≡ min size (total - i * size)
unfolding group_data_blocks
group_data_blocks_lem total size i s h t =
    let left : (total + 2 ^ 64 - i * size) % 2 ^ 64 ≡ total - i * size = omega arith in
    rw left (mod-eq_of_lt (omega arith))

module _ {F : Type 0} (ops : MathOps F) where
  -- A group has at most 255 blocks.
  pub max_group_size_bounds :
      (ratio : F) → (0 < max_group_size ops ratio) × (max_group_size ops ratio < 256)
  unfolding max_group_size
  max_group_size_bounds ratio = ground arith

  pub fec_block_count-le :
      (ratio : F) (blocks : ℕ) → blocks < 256 → blocks + fec_block_count ops ratio blocks ≤ 255
  unfolding fec_block_count
  fec_block_count-le ratio blocks h = ground arith

  pub estimate_blocks-le :
      (ratio : F) (total size rounds index : ℕ)
      → estimate_blocks ops ratio total size rounds index ≤ 255 * rounds
  unfolding estimate_blocks group_data_blocks
  estimate_blocks-le ratio total size zero index = omega arith
  estimate_blocks-le ratio total size (suc rounds) index =
      let blocks = group_data_blocks total size index in
      omega (
        arith,
        fec_block_count-le ratio blocks (omega arith),
        estimate_blocks-le ratio total size rounds (index + 1),
      )
