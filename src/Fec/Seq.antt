-- ===== src/Fec/Seq.antt =====
-- Sequence numbers: computeSeqLen, seqMask, seqCompare and seqAdd of
-- libs/frame_protoc/src/protocol.cpp. A SeqNum is a uint64_t, a seq_len a uint8_t.
pub mod Length
pub mod Compare
use mathlib.Core.WellFounded.{Acc}
use mathlib.Core.Logic.{dite, dif_pos}
use tj_rtc.Prelude.{
  ℕ, zero, suc, ◌+◌, ◌-◌, ◌*◌, ◌/◌, ◌%◌, ◌^◌, ◌≤◌, ◌<◌, ◌≡◌, refl, sym, ◌∙◌, ◌≢◌, ◌⊎◌, inl, inr,
  arith, bit_and, ◌<<<◌, ◌>>>◌, low_mask, ltb, leb, ◌==◌, if◌then◌else◌, dec_lt, lt_wf,
}
use tj_rtc.Prelude.Int.{ℤ, pos, negsuc}
use native.Mathlib.Nat.{pow-suc}
use native.Mathlib.Bridge.{le_prop}

pub shift_shrinks : (v : ℕ) → 0 < v → v >>> 8 < v
shift_shrinks v h = omega arith

-- `while (tmp > 0) { len++; tmp >>= 8; }`, with `len` a uint8_t.
unfoldable pub seq_len_loop : (tmp len : ℕ) → Acc ◌<◌ tmp → ℕ
seq_len_loop tmp len (Acc.intro _ smaller) =
    dite (dec_lt 0 tmp)
      (λ more.
        seq_len_loop (tmp >>> 8) ((len + 1) % 256) (smaller (tmp >>> 8) (shift_shrinks tmp more)))
      (λ _. len)

unfoldable pub compute_seq_len : ℕ → ℕ
compute_seq_len seq = if seq == 0 then 0 else seq_len_loop seq 0 (lt_wf.apply seq)

unfoldable pub seq_mask : ℕ → ℕ
seq_mask seq_len = if leb 8 seq_len then 2 ^ 64 - 1 else (1 <<< (seq_len * 8)) - 1

-- `(a - b) & mask` on uint64_t.
abbrev pub seq_diff : ℕ → ℕ → ℕ → ℕ
seq_diff a b mask = bit_and ((a + 2 ^ 64 - b) % 2 ^ 64) mask

unfoldable pub seq_compare : ℕ → ℕ → ℕ → ℤ
unfolding seq_mask
seq_compare a b seq_len =
    let mask = seq_mask seq_len in
    let half = (mask >>> 1) + 1 in
    let diff = seq_diff a b mask in
    if a == b then pos 0 else if diff == 0 then pos 0 else if ltb diff half then pos 1 else negsuc 0

unfoldable pub seq_add : ℕ → ℕ → ℕ → ℕ
unfolding seq_mask
seq_add a offset seq_len = bit_and ((a + offset) % 2 ^ 64) (seq_mask seq_len)
