-- ===== src/Libs/Pacer/Budget.antt =====
-- What a pacer lets out in a time: its bucket, and its bandwidth times the time.
use tj_rtc.Prelude.{ℕ, ◌+◌, ◌*◌, ◌≤◌, ◌≡◌, Bool, true, false, List, [], ◌∷◌}
use tj_rtc.Prelude.Int.{pos_part, neg_part}
use tj_rtc.Libs.Pacer.{
  Pacer, before_send, after_send, time_until_available, try_consume, get_available_tokens,
}

-- The calls of a client, with the time that the clock shows in each.
pub data Op : Type 0 where
  before : ℕ → ℕ → Op
  after : ℕ → Op
  until : ℕ → ℕ → Op
  try_take : ℕ → ℕ → Op
  available : ℕ → Op

-- The bytes that a call lets out.
abbrev pub allowed : ℕ → Bool → ℕ
allowed bytes true = bytes
allowed bytes false = 0

unfoldable pub step : Op → Pacer → Pacer × ℕ
unfolding before_send after_send time_until_available try_consume get_available_tokens
step (before now bytes) p = ((before_send now p bytes).0, bytes)
step (after bytes) p = (after_send p bytes, 0)
step (until now bytes) p = ((time_until_available now p bytes).0, 0)
step (try_take now bytes) p = let (q, taken) = try_consume now p bytes in (q, allowed bytes taken)
step (available now) p = ((get_available_tokens now p).0, 0)

-- A million times the bytes let out and the tokens left is at most what the bucket and the time since
-- `start` have given; an overdraft is bytes let out before their time.
pub record Within (rate bucket start sent : ℕ) (p : Pacer) : Type 0 where
  pub same_rate : p.bandwidth_bytes_per_sec ≡ rate
  pub same_bucket : p.bucket_size_bytes ≡ bucket
  pub not_full : pos_part p.current_tokens ≤ bucket
  pub budget :
      1000000 * (sent + pos_part p.current_tokens) + rate * start
      ≤ 1000000 * bucket + rate * p.last_refill_time + 1000000 * neg_part p.current_tokens

unfoldable pub run_ops : List Op → Pacer → Pacer × ℕ
unfolding step
run_ops [] p = (p, 0)
run_ops (op ∷ ops) p =
    let (q, sent) = step op p in let (r, rest) = run_ops ops q in (r, sent + rest)
