-- ===== src/RateLimit/Bucket.antt =====
-- The Lua script of internal/ratelimit/token_bucket.go, over integers: times are milliseconds and
-- tokens are thousandths of a token, in which the rate (tokens per second, a whole number) is so
-- many thousandths per millisecond. The script has float64, and rounds: that is not modelled, so
-- that a call near the bound may be decided otherwise, and a suggested wait may be a millisecond
-- off.
use emailservice_worker.Prelude.{
  ℕ, ◌+◌, ◌-◌, ◌*◌, ◌/◌, min, Bool, true, false, Option, none, some, ltb, leb, if◌then◌else◌,
}

-- The hash {tokens, ts} at a key, and when Redis drops it.
pub record Bucket : Type 0 where
  pub tokens : ℕ
  pub ts : ℕ
  pub expires_at : ℕ

-- The script's answer {allowed, wait_ms}.
pub record Answer : Type 0 where
  pub allowed : Bool
  pub wait_ms : ℕ

-- `EXPIRE key 3600`
abbrev pub bucket_ttl : ℕ
bucket_ttl = 3600 * 1000

-- `HMGET`: a key that has expired is not there.
unfoldable pub stored : ℕ → Option Bucket → Option Bucket
stored now none = none
stored now (some b) = if leb b.expires_at now then none else some b

-- The tokens after the refill: a full bucket where there is none, and no refill where the clock of
-- the caller is behind `ts` (`-` stops at 0, as `elapsed` does).
unfoldable pub refill : ℕ → ℕ → ℕ → Option Bucket → ℕ
refill rate capacity now none = capacity
refill rate capacity now (some b) = min capacity (b.tokens + (now - b.ts) * rate)

-- `math.ceil((cost - tokens) / rate * 1000)`, for a positive rate
unfoldable pub wait_for : ℕ → ℕ → ℕ → ℕ
wait_for rate cost tokens = (cost - tokens + (rate - 1)) / rate

unfoldable pub run_script : ℕ → ℕ → ℕ → ℕ → Option Bucket → Bucket × Answer
unfolding stored refill wait_for
run_script rate capacity now cost b =
    let tokens = refill rate capacity now (stored now b) in
    if ltb tokens cost
    then (
      record { tokens = tokens; ts = now; expires_at = now + bucket_ttl },
      record { allowed = false; wait_ms = wait_for rate cost tokens },
    )
    else (
      record { tokens = tokens - cost; ts = now; expires_at = now + bucket_ttl },
      record { allowed = true; wait_ms = 0 },
    )

-- The limiter: rate and capacity in whole tokens per second and whole tokens.
pub record TokenBucket : Type 0 where
  pub rate : ℕ
  pub capacity : ℕ

unfoldable pub new_token_bucket : ℕ → TokenBucket
new_token_bucket rate_per_sec =
    let rate = if ltb rate_per_sec 1 then 1 else rate_per_sec in
    record { rate = rate; capacity = rate }

-- One token, in thousandths.
abbrev pub one_token : ℕ
one_token = 1000

-- One run of the script by `TryAcquire` at the caller's time `now`.
unfoldable pub try_bucket : TokenBucket → ℕ → Option Bucket → Bucket × Answer
unfolding run_script
try_bucket l now b = run_script l.rate (l.capacity * 1000) now one_token b
