-- ===== src/Libs/MemPool/Blocks.antt =====
-- The blocks of a pool, counted in its list.
use tj_rtc.Prelude.{
  ℕ, zero, suc, ◌+◌, ◌*◌, ◌≤◌, ◌<◌, ◌≡◌, refl, ◌∙◌, inl, inr, List, [], ◌∷◌, arith, ◌==◌,
  if◌then◌else◌, ==_iff, Bool-cases, length,
}
use tj_rtc.Libs.MemPool.{block_size, slice, or_else}

-- How often a block stands in a list.
abbrev pub occurs : ℕ → List ℕ → ℕ
occurs x [] = 0
occurs x (y ∷ ys) = let rest = occurs x ys in if x == y then suc rest else rest

-- The blocks that the loop adds from block `i` on are those of the chunk.
pub slice-occurs :
    (chunk i n : ℕ) (free_list : List ℕ) (x : ℕ)
    → (occurs x (slice chunk i n free_list) ≤ occurs x free_list + 1)
      × (x < chunk + i * block_size → occurs x (slice chunk i n free_list) ≡ occurs x free_list)
      × (chunk + (i + n) * block_size ≤ x
          → occurs x (slice chunk i n free_list) ≡ occurs x free_list)
unfolding slice
slice-occurs chunk i zero free_list x = (omega arith, λ h. refl, λ h. refl)
slice-occurs chunk i (suc n) free_list x =
    let (most, below, above) =
      slice-occurs chunk (i + 1) n ((chunk + i * block_size) ∷ free_list) x in
    let (eq, test) = ==_iff x (chunk + i * block_size) in
    elim (Bool-cases (x == chunk + i * block_size)) [
      | inl here ↦
          let at = eq here in
          let same = below (omega (arith, at)) in
          let count : occurs x ((chunk + i * block_size) ∷ free_list) ≡ suc (occurs x free_list) =
            rw here refl in
          (
            omega (arith, same, count),
            λ h. absurd (omega (arith, at, h)),
            λ h. absurd (omega (arith, at, h)),
          )
      | inr other ↦
          let count : occurs x ((chunk + i * block_size) ∷ free_list) ≡ occurs x free_list =
            rw other refl in
          (
            omega (arith, most, count),
            λ h. below (omega (arith, h)) ∙ count,
            λ h. above (omega (arith, h)) ∙ count,
          )
    ]

pub length-slice :
    (chunk i n : ℕ) (free_list : List ℕ) → length (slice chunk i n free_list) ≡ length free_list + n
unfolding slice
length-slice chunk i zero free_list = omega arith
length-slice chunk i (suc n) free_list =
    omega (arith, length-slice chunk (i + 1) n ((chunk + i * block_size) ∷ free_list))

pub occurs-cons : (x y : ℕ) (ys : List ℕ) → occurs x (y ∷ ys) ≡ occurs x (y ∷ []) + occurs x ys
occurs-cons x y ys = elim (Bool-cases (x == y)) [
  | inl hit ↦ rw hit (omega arith)
  | inr miss ↦ rw miss (omega arith)
]

pub occurs_self : (x : ℕ) → occurs x (x ∷ []) ≡ 1
occurs_self x = let (eq, test) = ==_iff x x in rw (test refl) (omega arith)

pub occurs_not_null : (x : ℕ) → occurs 0 (x ∷ []) ≡ 0 → 0 < x
occurs_not_null zero h = absurd (omega (arith, h, occurs_self 0))
occurs_not_null (suc x) h = omega arith

pub or_else-positive : (n default_value : ℕ) → 0 < default_value → 0 < or_else n default_value
or_else-positive n default_value h = ground (arith, h)
