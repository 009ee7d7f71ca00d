-- ===== src/Libs/MemPool.antt =====
-- The pool of blocks of libs/mem_pool/MemPool.cpp. A block is its address. What `operator new[]`
-- returns is an argument of each operation that may grow the pool; a failure of it ends the operation
-- by an exception and is not modelled.
pub mod Blocks
pub mod Exclusive
use tj_rtc.Prelude.{ℕ, zero, suc, ◌+◌, ◌-◌, ◌*◌, ◌==◌, Bool, List, [], ◌∷◌, ◌++◌, if◌then◌else◌}

abbrev pub block_size : ℕ
block_size = 1500

-- The list behind `m_free_list`, its head first.
pub record FixedMemoryPool : Type 0 where
  pub free_list : List ℕ
  pub chunks : List ℕ
  pub grow_blocks : ℕ
  pub total_blocks : ℕ
  pub free_blocks : ℕ

-- The loop of grow, from block `i` on: each block goes to the head of the list.
unfoldable pub slice : ℕ → ℕ → ℕ → List ℕ → List ℕ
slice chunk i zero free_list = free_list
slice chunk i (suc n) free_list = slice chunk (i + 1) n ((chunk + i * block_size) ∷ free_list)

unfoldable pub grow : FixedMemoryPool → ℕ → FixedMemoryPool
unfolding slice
grow p chunk = record p {
  free_list = slice chunk 0 p.grow_blocks p.free_list;
  chunks = p.chunks ++ (chunk ∷ []);
  total_blocks = p.total_blocks + p.grow_blocks;
  free_blocks = p.free_blocks + p.grow_blocks;
}

-- The head of the list, and 0 for the null pointer of an empty one.
abbrev pub pop : FixedMemoryPool → List ℕ → FixedMemoryPool × ℕ
pop p [] = (p, 0)
pop p (node ∷ free_list) =
    (record p { free_list = free_list; free_blocks = p.free_blocks - 1 }, node)

abbrev pub grown_if_empty : FixedMemoryPool → ℕ → List ℕ → FixedMemoryPool
grown_if_empty p chunk [] = grow p chunk
grown_if_empty p chunk (node ∷ free_list) = p

unfoldable pub allocate : FixedMemoryPool → ℕ → FixedMemoryPool × ℕ
allocate p chunk = let q = grown_if_empty p chunk p.free_list in pop q q.free_list

unfoldable pub deallocate : FixedMemoryPool → ℕ → FixedMemoryPool
deallocate p zero = p
deallocate p (suc address) = record p {
  free_list = suc address ∷ p.free_list;
  free_blocks = p.free_blocks + 1;
}

-- The constructor: the first chunk has `initial_blocks`, or 256, the later ones `grow_blocks`, or as
-- many as the first.
abbrev pub or_else : ℕ → ℕ → ℕ
or_else n default_value = if n == 0 then default_value else n

unfoldable pub new_pool : ℕ → ℕ → ℕ → FixedMemoryPool
unfolding grow
new_pool initial_blocks grow_blocks chunk =
    let initial = or_else initial_blocks 256 in
    let grown =
      grow
        (record {
          free_list = [];
          chunks = [];
          grow_blocks = initial;
          total_blocks = 0;
          free_blocks = 0;
        })
        chunk in
    record grown { grow_blocks = or_else grow_blocks initial }
