-- ===== src/Libs/Pacer.antt =====
-- The token bucket of libs/pacer/Pacer.cpp. Each operation that reads the clock takes `now`, the
-- microseconds of the steady clock; a token is a byte, and their number is an int64_t that may be
-- negative, written here as an integer without the bounds of 64 bits.
pub mod Budget
pub mod Waiting
use tj_rtc.Prelude.{
  ℕ, ◌+◌, ◌-◌, ◌*◌, ◌/◌, ◌%◌, ◌^◌, ◌≤◌, ◌<◌, Bool, true, false, ltb, ◌==◌, if◌then◌else◌,
}
use tj_rtc.Prelude.Int.{ℤ, pos, negsuc, pos_part, neg_part, ◌+ℤ◌, ◌-ℤ◌, ltb_ℤ}

pub record Pacer : Type 0 where
  pub bandwidth_bps : ℕ
  pub bandwidth_bytes_per_sec : ℕ
  pub bucket_size_bytes : ℕ
  pub current_tokens : ℤ
  pub last_refill_time : ℕ
  pub total_bytes_sent : ℕ
  pub total_wait_count : ℕ
  pub total_wait_us : ℕ

-- `bucket` is what the product of doubles gives in the constructor.
unfoldable pub new_pacer : ℕ → ℕ → ℕ → Pacer
new_pacer bandwidth_bps bucket now = record {
  bandwidth_bps = bandwidth_bps;
  bandwidth_bytes_per_sec = bandwidth_bps / 8;
  bucket_size_bytes = bucket;
  current_tokens = pos bucket;
  last_refill_time = now;
  total_bytes_sent = 0;
  total_wait_count = 0;
  total_wait_us = 0;
}

abbrev pub min_ℤ : ℤ → ℤ → ℤ
min_ℤ a b = if ltb_ℤ b a then b else a

-- A time that has not passed gives no tokens: `now - last` is 0 then, as `elapsed_us > 0` fails.
unfoldable pub refill_tokens : ℕ → Pacer → Pacer
refill_tokens now p =
    let new_tokens = p.bandwidth_bytes_per_sec * (now - p.last_refill_time) % 2 ^ 64 / 1000000 in
    if ltb 0 new_tokens
    then (record p {
      current_tokens = min_ℤ (p.current_tokens +ℤ pos new_tokens) (pos p.bucket_size_bytes);
      last_refill_time = now;
    })
    else p

-- The tokens that `bytes` lacks, 0 where there are enough.
abbrev pub deficit : Pacer → ℕ → ℕ
deficit p bytes = pos_part (pos bytes -ℤ p.current_tokens)

abbrev pub wait_for : Pacer → ℕ → ℕ
wait_for p lacking =
    if ltb 0 p.bandwidth_bytes_per_sec then lacking * 1000000 / p.bandwidth_bytes_per_sec else 0

abbrev pub take_tokens : Pacer → ℕ → Pacer
take_tokens p bytes = record p { current_tokens = p.current_tokens -ℤ pos bytes }

-- consumeTokens: the pacer, whether to wait, and `wait_us`.
unfoldable pub consume_tokens : Pacer → ℕ → Pacer × Bool × ℕ
consume_tokens p bytes =
    if ltb_ℤ p.current_tokens (pos bytes)
    then (take_tokens p bytes, true, wait_for p (deficit p bytes))
    else (take_tokens p bytes, false, 0)

unfoldable pub before_send : ℕ → Pacer → ℕ → Pacer × ℕ
before_send now p bytes =
    let (q, need_wait, wait_us) = consume_tokens (refill_tokens now p) bytes in
    if need_wait
    then (
      record q {
        total_wait_count = (q.total_wait_count + 1) % 2 ^ 64;
        total_wait_us = q.total_wait_us + wait_us;
      },
      wait_us,
    )
    else (q, wait_us)

unfoldable pub after_send : Pacer → ℕ → Pacer
after_send p bytes = record p { total_bytes_sent = (p.total_bytes_sent + bytes) % 2 ^ 64 }

unfoldable pub time_until_available : ℕ → Pacer → ℕ → Pacer × ℕ
time_until_available now p bytes =
    let q = refill_tokens now p in
    (q, if deficit q bytes == 0 then 0 else wait_for q (deficit q bytes))

unfoldable pub try_consume : ℕ → Pacer → ℕ → Pacer × Bool
try_consume now p bytes =
    let q = refill_tokens now p in
    if ltb_ℤ q.current_tokens (pos bytes) then (q, false) else (take_tokens q bytes, true)

-- `rescale` is the bucket that the arithmetic on doubles gives for a bandwidth and an old bucket.
unfoldable pub set_bandwidth : (ℕ → ℕ → ℕ) → Pacer → ℕ → Pacer
set_bandwidth rescale p bandwidth_bps =
    let bucket = rescale (bandwidth_bps / 8) p.bucket_size_bytes in
    record p {
      bandwidth_bps = bandwidth_bps;
      bandwidth_bytes_per_sec = bandwidth_bps / 8;
      bucket_size_bytes = bucket;
      current_tokens = min_ℤ p.current_tokens (pos bucket);
    }

unfoldable pub get_available_tokens : ℕ → Pacer → Pacer × ℕ
get_available_tokens now p = let q = refill_tokens now p in (q, pos_part q.current_tokens)

unfoldable pub reset_pacer : ℕ → Pacer → Pacer
reset_pacer now p = record p {
  current_tokens = pos p.bucket_size_bytes;
  last_refill_time = now;
  total_bytes_sent = 0;
  total_wait_count = 0;
  total_wait_us = 0;
}
