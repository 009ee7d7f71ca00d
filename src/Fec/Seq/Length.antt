-- ===== src/Fec/Seq/Length.antt =====
-- computeSeqLen finds the least length.
use mathlib.Core.WellFounded.{Acc}
use mathlib.Core.Logic.{dif_pos}
use tj_rtc.Prelude.{
  ℕ, zero, suc, ◌+◌, ◌*◌, ◌/◌, ◌%◌, ◌^◌, ◌≤◌, ◌<◌, ◌≡◌, refl, ◌⊎◌, inl, inr, arith, lt_wf,
}
use native.Mathlib.Nat.{pow-suc}
use native.Mathlib.Bridge.{le_prop}
use tj_rtc.Fec.Seq.{shift_shrinks, seq_len_loop, compute_seq_len}

-- The loop counts the bytes of `tmp`.
seq_len_loop_lem :
    (k tmp len : ℕ) (w : Acc ◌<◌ tmp)
    → tmp < 256 ^ k
    → len + k < 256
    → (j : ℕ) × (seq_len_loop tmp len w ≡ len + j)
      × (j ≤ k)
      × (tmp < 256 ^ j)
      × (((tmp ≡ 0) × (j ≡ 0)) ⊎ (256 ^ j ≤ 256 * tmp))
unfolding seq_len_loop
seq_len_loop_lem zero tmp len (Acc.intro _ smaller) h k =
    (0, ground arith, omega arith, omega arith, inl (omega arith, refl))
seq_len_loop_lem (suc n) zero len (Acc.intro _ smaller) h k =
    (0, ground arith, omega arith, omega arith, inl (refl, refl))
seq_len_loop_lem (suc n) (suc t) len (Acc.intro _ smaller) h k =
    let more : 0 < suc t = omega arith in
    let (j, e, le, lt, low) =
      seq_len_loop_lem n (suc t / 256) ((len + 1) % 256)
        (smaller (suc t / 256) (shift_shrinks (suc t) more)) (omega (arith, pow-suc 256 n))
        (omega arith) in
    (
      suc j,
      rw (dif_pos _ le_prop more) (omega (arith, e)),
      omega arith,
      omega (arith, pow-suc 256 j),
      inr (ground (arith, pow-suc 256 j)),
    )

-- The length is the least number of bytes that hold the sequence number: it holds `seq` in
-- `n` bytes, and `n - 1` bytes would not do. It is 1 to 8 for every uint64 but 0.
pub compute_seq_len_least :
    (seq : ℕ)
    → 0 < seq
    → seq < 2 ^ 64
    → let n = compute_seq_len seq in (1 ≤ n) × (n ≤ 8) × (seq < 256 ^ n) × (256 ^ n ≤ 256 * seq)
unfolding compute_seq_len
compute_seq_len_least zero h k = absurd (omega arith)
compute_seq_len_least (suc s) h k =
    let (j, e, le, lt, low) =
      seq_len_loop_lem 8 (suc s) 0 (lt_wf.apply (suc s)) (omega arith) (omega arith) in
    rw e (ground arith)
