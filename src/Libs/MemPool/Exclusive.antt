-- ===== src/Libs/MemPool/Exclusive.antt =====
-- No block is given out twice, and the counts are those of the blocks.
use tj_rtc.Prelude.{
  ℕ, zero, suc, ◌+◌, ◌*◌, ◌≤◌, ◌<◌, ◌≡◌, refl, sym, ap, ◌∙◌, inl, inr, List, [], ◌∷◌, arith, ltb,
  ◌==◌, if◌then◌else◌, ==_iff, Bool-cases, length,
}
use tj_rtc.Libs.MemPool.{block_size, FixedMemoryPool, grow, deallocate, new_pool, or_else}
use tj_rtc.Libs.MemPool.Blocks.{occurs, slice-occurs, length-slice, occurs-cons, or_else-positive}

-- `used` lists the blocks that are given out. No block is null or stands twice, free or used.
pub record IsPool (p : FixedMemoryPool) (used : List ℕ) : Type 0 where
  pub once : (x : ℕ) → occurs x p.free_list + occurs x used ≤ 1
  pub not_null : occurs 0 p.free_list + occurs 0 used ≡ 0
  pub free_count : p.free_blocks ≡ length p.free_list
  pub total_count : p.total_blocks ≡ length p.free_list + length used
  pub grows : 0 < p.grow_blocks

-- What `operator new[]` promises: the chunk is not null, and none of its bytes is the start of a block
-- that the pool has.
pub record IsFresh (p : FixedMemoryPool) (used : List ℕ) (chunk : ℕ) : Type 0 where
  pub real : 0 < chunk
  pub apart :
      (x : ℕ)
      → chunk ≤ x
      → x < chunk + p.grow_blocks * block_size
      → occurs x p.free_list + occurs x used ≡ 0

grow-IsPool :
    (p : FixedMemoryPool) (used : List ℕ) (chunk : ℕ)
    → IsPool p used
    → IsFresh p used chunk
    → IsPool (grow p chunk) used × (0 < length (grow p chunk).free_list)
unfolding grow
grow-IsPool p used chunk h fresh =
    let size = length-slice chunk 0 p.grow_blocks p.free_list in
    (
      record {
        once = λ x.
            let (most, below, above) = slice-occurs chunk 0 p.grow_blocks p.free_list x in
            elim (Bool-cases (ltb x chunk)) [
              | inl low ↦ omega (arith, below (ground (arith, low)), h.once x)
              | inr not_low ↦ elim (Bool-cases (ltb x (chunk + p.grow_blocks * block_size))) [
                | inl inside ↦
                    omega (
                      arith,
                      most,
                      fresh.apart x (ground (arith, not_low)) (ground (arith, inside)),
                    )
                | inr past ↦ omega (arith, above (ground (arith, past)), h.once x)
              ]
            ];
        not_null =
            let (most, below, above) = slice-occurs chunk 0 p.grow_blocks p.free_list 0 in
            omega (arith, below (omega (arith, fresh.real)), h.not_null);
        free_count = omega (arith, size, h.free_count);
        total_count = omega (arith, size, h.total_count);
        grows = h.grows;
      },
      omega (arith, size, h.grows),
    )

-- The blocks that are given out, without one that is given back.
abbrev pub without : ℕ → List ℕ → List ℕ
without x [] = []
without x (y ∷ ys) = let rest = without x ys in if x == y then ys else (y ∷ rest)

without-occurs :
    (x : ℕ) (ys : List ℕ)
    → 0 < occurs x ys
    → ((z : ℕ) → occurs z (x ∷ []) + occurs z (without x ys) ≡ occurs z ys)
      × (suc (length (without x ys)) ≡ length ys)
without-occurs x [] h = absurd (omega (arith, h))
without-occurs x (y ∷ ys) h = elim (Bool-cases (x == y)) [
  | inl hit ↦
      let (eq, test) = ==_iff x y in
      rw hit
        (λ z. ap (λ w. occurs z (w ∷ []) + occurs z ys) (eq hit) ∙ sym (occurs-cons z y ys), refl)
  | inr miss ↦
      let (counts, size) = without-occurs x ys (rw miss at h) in
      rw miss (
        λ z. omega (arith, counts z, occurs-cons z y ys, occurs-cons z y (without x ys)),
        omega (arith, size),
      )
]

-- deallocate takes back a block that is given out: it is free again, once, and the counts follow.
deallocate-IsPool :
    (p : FixedMemoryPool) (used : List ℕ) (block : ℕ)
    → IsPool p used
    → 0 < occurs block used
    → IsPool (deallocate p block) (without block used)
unfolding deallocate
deallocate-IsPool p used zero h given = absurd (omega (arith, h.not_null, given))
deallocate-IsPool p used (suc block) h given =
    let (counts, size) = without-occurs (suc block) used given in
    record {
      once = λ x. omega (arith, counts x, occurs-cons x (suc block) p.free_list, h.once x);
      not_null = omega (arith, counts 0, occurs-cons 0 (suc block) p.free_list, h.not_null);
      free_count = omega (arith, h.free_count);
      total_count = omega (arith, size, h.total_count);
      grows = h.grows;
    }

-- A new pool has as many blocks as it is asked for, or 256, all of them free.
pub new_pool-IsPool :
    (initial_blocks grow_blocks chunk : ℕ)
    → 0 < chunk
    → IsPool (new_pool initial_blocks grow_blocks chunk) []
      × (length (new_pool initial_blocks grow_blocks chunk).free_list ≡ or_else initial_blocks 256)
unfolding new_pool grow
new_pool-IsPool initial_blocks grow_blocks chunk real =
    let initial = or_else initial_blocks 256 in
    let empty : FixedMemoryPool = record {
      free_list = [];
      chunks = [];
      grow_blocks = initial;
      total_blocks = 0;
      free_blocks = 0;
    } in
    let some_blocks : 0 < initial = or_else-positive initial_blocks 256 (omega arith) in
    let start : IsPool empty [] = record {
      once = λ x. omega arith;
      not_null = omega arith;
      free_count = omega arith;
      total_count = omega arith;
      grows = some_blocks;
    } in
    let (grown, any) =
      grow-IsPool empty [] chunk start
        (record { real = real; apart = λ x low high. omega arith }) in
    (
      record {
        once = grown.once;
        not_null = grown.not_null;
        free_count = grown.free_count;
        total_count = grown.total_count;
        grows = or_else-positive grow_blocks initial some_blocks;
      },
      omega (arith, length-slice chunk 0 initial []),
    )
