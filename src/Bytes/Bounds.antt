-- ===== src/Bytes/Bounds.antt =====
-- Reads stay inside the buffer: how many unread bytes a parser asks for, and how many it leaves.
use tj_rtc.Prelude.{
  ◌⊎◌, ◌<◌, ℕ, zero, suc, ◌≡◌, ◌+◌, ◌-◌, ◌≤◌, ◌≢◌, inl, inr, Bool-cases, Bool, true, false, List,
  [], ◌∷◌, arith, ltb, length,
}
use tj_rtc.Bytes.Reading.{
  Cursor, Outcome, ok, reject, fault, ◌>>=◌, read_u8, read_bytes, read_rest, need, check, continue,
  result, push,
}
use tj_rtc.Bytes.Endian.{read_be16, read_be32, read_be64, read_seq_num, read_seq_loop}

abbrev pub Leaves {ℓ} : {A : Type ℓ} → ℕ → Outcome (A × List ℕ) → Type 0
Leaves j (ok (a, rest)) = j ≤ length rest
Leaves j reject = Unit
Leaves j fault = ⊥

-- With `k` unread bytes at least, `m` makes no read past the end, and leaves `j` bytes at least.
abbrev pub Reads {ℓ} : {A : Type ℓ} → ℕ → ℕ → Cursor A → Type 0
Reads k j m = (bytes : List ℕ) → k ≤ length bytes → Leaves j (m bytes)

continue-Leaves {ℓ κ} :
    {A : Type ℓ} {B : Type κ} (j i : ℕ) (f : A → Cursor B) (o : Outcome (A × List ℕ))
    → ((a : A) → Reads j i (f a))
    → Leaves j o
    → Leaves i (continue f o)
continue-Leaves j i f (ok (a, rest)) g h = g a rest h
continue-Leaves j i f reject g h = tt
continue-Leaves j i f fault g h = h

pub bind-Reads {ℓ κ} :
    {A : Type ℓ} {B : Type κ} (k j i : ℕ) (m : Cursor A) (f : A → Cursor B)
    → Reads k j m
    → ((a : A) → Reads j i (f a))
    → Reads k i (m >>= f)
bind-Reads k j i m f h g bytes le = continue-Leaves j i f (m bytes) g (h bytes le)

-- The end of a parser.
pub return-Reads : (k j : ℕ) → j ≤ k → (bytes : List ℕ) → k ≤ length bytes → j ≤ length bytes
return-Reads k j h bytes le = omega arith

take_u8 : (k c : ℕ) → c + 1 ≤ k → Reads k c read_u8
unfolding read_u8
take_u8 k c h [] le = absurd (omega arith)
take_u8 k c h (b ∷ bytes) le = omega arith

take_need : (k n : ℕ) → Reads k n (need n)
unfolding need
take_need k n bytes le = elim (Bool-cases (ltb (length bytes) n)) [
  | inl short ↦ rw short tt
  | inr enough ↦ rw enough (ground arith)
]

take_check : (k : ℕ) (test : Bool) → Reads k k (check test)
unfolding check
take_check k true bytes le = le
take_check k false bytes le = tt

push-Leaves {ℓ} :
    {A : Type ℓ} (k : ℕ) (a : A) (o : Outcome (List A × List ℕ)) → Leaves k o → Leaves k (push a o)
push-Leaves k a (ok (taken, rest)) h = h
push-Leaves k a reject h = h
push-Leaves k a fault h = h

take_bytes : (n k j : ℕ) → n + j ≤ k → Reads k j (read_bytes n)
unfolding read_bytes
take_bytes zero k j h bytes le = omega arith
take_bytes (suc n) k j h [] le = absurd (omega arith)
take_bytes (suc n) k j h (b ∷ bytes) le =
    push-Leaves j b (read_bytes n bytes) (take_bytes n (n + j) j (omega arith) bytes (omega arith))

take_seq_loop : (n val k j : ℕ) → n + j ≤ k → Reads k j (read_seq_loop val n)
unfolding read_seq_loop read_u8
take_seq_loop zero val k j h bytes le = omega arith
take_seq_loop (suc n) val k j h [] le = absurd (omega arith)
take_seq_loop (suc n) val k j h (b ∷ bytes) le =
    take_seq_loop n _ (n + j) j (omega arith) bytes (omega arith)

take_be16 : (k : ℕ) → 2 ≤ k → Reads k (k - 2) read_be16
unfolding read_be16 read_u8
take_be16 k h [] le = absurd (omega arith)
take_be16 k h (a ∷ []) le = absurd (omega arith)
take_be16 k h (a ∷ b ∷ bytes) le = omega arith

take_be32 : (k : ℕ) → 4 ≤ k → Reads k (k - 4) read_be32
unfolding read_be32 read_u8
take_be32 k h [] le = absurd (omega arith)
take_be32 k h (a ∷ []) le = absurd (omega arith)
take_be32 k h (a ∷ b ∷ []) le = absurd (omega arith)
take_be32 k h (a ∷ b ∷ c ∷ []) le = absurd (omega arith)
take_be32 k h (a ∷ b ∷ c ∷ d ∷ bytes) le = omega arith

take_be64 : (k : ℕ) → 8 ≤ k → Reads k (k - 8) read_be64
unfolding read_be64 read_u8
take_be64 k enough [] le = absurd (omega arith)
take_be64 k enough (a ∷ []) le = absurd (omega arith)
take_be64 k enough (a ∷ b ∷ []) le = absurd (omega arith)
take_be64 k enough (a ∷ b ∷ c ∷ []) le = absurd (omega arith)
take_be64 k enough (a ∷ b ∷ c ∷ d ∷ []) le = absurd (omega arith)
take_be64 k enough (a ∷ b ∷ c ∷ d ∷ e ∷ []) le = absurd (omega arith)
take_be64 k enough (a ∷ b ∷ c ∷ d ∷ e ∷ f ∷ []) le = absurd (omega arith)
take_be64 k enough (a ∷ b ∷ c ∷ d ∷ e ∷ f ∷ g ∷ []) le = absurd (omega arith)
take_be64 k enough (a ∷ b ∷ c ∷ d ∷ e ∷ f ∷ g ∷ h ∷ bytes) le = omega arith

-- One rule for each step of a parser. `k` bytes are known to be unread before the step.
module _ {ℓ} {B : Type ℓ} (k i : ℕ) where
  pub next_u8 :
      (f : ℕ → Cursor B) → 1 ≤ k → ((a : ℕ) → Reads (k - 1) i (f a)) → Reads k i (read_u8 >>= f)
  next_u8 f h g = bind-Reads k (k - 1) i read_u8 f (take_u8 k (k - 1) (omega arith)) g

  -- A passed test gives the bytes that the reads behind it need.
  pub next_need :
      (n : ℕ) (f : Unit {0} → Cursor B)
      → ((a : Unit {0}) → Reads n i (f a))
      → Reads k i (need n >>= f)
  next_need n f g = bind-Reads k n i (need n) f (take_need k n) g

  pub next_check :
      (test : Bool) (f : Unit {0} → Cursor B)
      → ((a : Unit {0}) → Reads k i (f a))
      → Reads k i (check test >>= f)
  next_check test f g = bind-Reads k k i (check test) f (take_check k test) g

  pub next_bytes :
      (n : ℕ) (f : List ℕ → Cursor B)
      → n ≤ k
      → ((a : List ℕ) → Reads (k - n) i (f a))
      → Reads k i (read_bytes n >>= f)
  next_bytes n f h g =
      bind-Reads k (k - n) i (read_bytes n) f (take_bytes n k (k - n) (omega arith)) g

  pub next_rest :
      (f : List ℕ → Cursor B) → ((a : List ℕ) → Reads 0 i (f a)) → Reads k i (read_rest >>= f)
  unfolding read_rest
  next_rest f g bytes le = g bytes [] (omega arith)

  pub next_be16 :
      (f : ℕ → Cursor B) → 2 ≤ k → ((a : ℕ) → Reads (k - 2) i (f a)) → Reads k i (read_be16 >>= f)
  next_be16 f h g = bind-Reads k (k - 2) i read_be16 f (take_be16 k h) g

  pub next_be32 :
      (f : ℕ → Cursor B) → 4 ≤ k → ((a : ℕ) → Reads (k - 4) i (f a)) → Reads k i (read_be32 >>= f)
  next_be32 f h g = bind-Reads k (k - 4) i read_be32 f (take_be32 k h) g

  pub next_be64 :
      (f : ℕ → Cursor B) → 8 ≤ k → ((a : ℕ) → Reads (k - 8) i (f a)) → Reads k i (read_be64 >>= f)
  next_be64 f h g = bind-Reads k (k - 8) i read_be64 f (take_be64 k h) g

  pub next_seq_num :
      (n : ℕ) (f : ℕ → Cursor B)
      → n ≤ k
      → ((a : ℕ) → Reads (k - n) i (f a))
      → Reads k i (read_seq_num n >>= f)
  unfolding read_seq_num
  next_seq_num n f h g =
      bind-Reads k (k - n) i (read_seq_loop 0 n) f (take_seq_loop n 0 k (k - n) (omega arith)) g

result-ne-fault_outcome {ℓ} :
    {A : Type ℓ} (o : Outcome (A × List ℕ)) → Leaves 0 o → result o ≢ fault
result-ne-fault_outcome (ok (a, rest)) l e = cc
result-ne-fault_outcome reject l e = cc
result-ne-fault_outcome fault l e = l

-- A parser that asks for nothing never reads past the end.
pub result-ne-fault {ℓ} :
    {A : Type ℓ} (m : Cursor A) → Reads 0 0 m → (bytes : List ℕ) → result (m bytes) ≢ fault
result-ne-fault m h bytes = result-ne-fault_outcome (m bytes) (h bytes (omega arith))

-- A test for bytes that are there is passed.
pub need-enough : (n : ℕ) (bytes : List ℕ) → n ≤ length bytes → need n bytes ≡ ok (tt, bytes)
unfolding need
need-enough n bytes h = ground arith

pub check-passed : (test : Bool) (bytes : List ℕ) → test ≡ true → check test bytes ≡ ok (tt, bytes)
unfolding check
check-passed test bytes h = rw h

pub need-cases :
    (n : ℕ) (bytes : List ℕ)
    → ((need n bytes ≡ reject) × (length bytes < n))
      ⊎ ((need n bytes ≡ ok (tt, bytes)) × (n ≤ length bytes))
unfolding need
need-cases n bytes = elim (Bool-cases (ltb (length bytes) n)) [
  | inl short ↦ inl (rw short, ground arith)
  | inr enough ↦ inr (rw enough, ground arith)
]
