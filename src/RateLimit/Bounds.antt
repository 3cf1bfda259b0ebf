-- ===== src/RateLimit/Bounds.antt =====
-- What the token bucket of internal/ratelimit/token_bucket.go admits, over any calls in order of
-- time.
use emailservice_worker.Prelude.{
  ℕ, ◌+◌, ◌-◌, ◌*◌, ◌≤◌, ◌≡◌, Option, none, some, List, [], ◌∷◌, arith, if◌then◌else◌,
}
use emailservice_worker.RateLimit.Bucket.{
  Bucket, TokenBucket, bucket_ttl, stored, refill, new_token_bucket, try_bucket,
}

-- What the script has left in Redis: no more than the capacity, and the expiry that it has set.
abbrev pub IsKept : ℕ → Option Bucket → Type 0
IsKept capacity none = Unit
IsKept capacity (some b) = (b.tokens ≤ capacity) × (b.expires_at ≡ b.ts + bucket_ttl)

-- Times in order, from `t` to `until`.
abbrev pub Within : ℕ → List ℕ → ℕ → Type 0
Within t [] until = t ≤ until
Within t (now ∷ rest) until = (t ≤ now) × Within now rest until

-- How many of the calls at these times are admitted.
unfoldable pub admitted : TokenBucket → List ℕ → Option Bucket → ℕ
admitted l [] b = 0
admitted l (now ∷ rest) b =
    let (b', a) = try_bucket l now b in (if a.allowed then 1 else 0) + admitted l rest (some b')

mul_mono : (a b r : ℕ) → a ≤ b → a * r ≤ b * r
mul_mono a b r h = grind arith

add_mul : (a b r : ℕ) → (a + b) * r ≡ a * r + b * r
add_mul a b r = grind arith

module _ (rate capacity : ℕ) (refills : capacity ≤ bucket_ttl * rate) where
  expired_full :
      (now : ℕ) (b : Bucket)
      → IsKept capacity (some b)
      → b.expires_at ≤ now
      → capacity ≤ (now - b.ts) * rate
  expired_full now b k h = omega (arith, mul_mono bucket_ttl (now - b.ts) rate (omega arith))

  -- By the time a bucket expires it is full, so that its absence is no different.
  pub refill-stored :
      (now : ℕ) (b : Option Bucket)
      → IsKept capacity b
      → refill rate capacity now (stored now b) ≡ refill rate capacity now b
  unfolding refill stored
  refill-stored now none k = ground arith
  refill-stored now (some b) k = ground (arith, expired_full now b k)

  pub refill_growth :
      (t now : ℕ) (b : Option Bucket)
      → IsKept capacity b
      → t ≤ now
      → refill rate capacity now b ≤ refill rate capacity t b + (now - t) * rate
  unfolding refill
  refill_growth t now none k h = omega arith
  refill_growth t now (some b) k h = omega (
    arith,
    mul_mono (now - b.ts) (t - b.ts + (now - t)) rate (omega arith),
    add_mul (t - b.ts) (now - t) rate,
  )

abbrev pub IsLimiter : TokenBucket → Type 0
IsLimiter l = (1 ≤ l.rate) × (l.capacity ≡ l.rate)

-- `NewTokenBucket` never makes a limiter with a rate of zero.
pub new_token_bucket-IsLimiter : (n : ℕ) → IsLimiter (new_token_bucket n)
unfolding new_token_bucket
new_token_bucket-IsLimiter n = ground arith

abbrev pub level : TokenBucket → ℕ → Option Bucket → ℕ
level l now b = refill l.rate (l.capacity * 1000) now b

-- One call takes a token's worth from the level exactly if it is admitted, and keeps the bucket.
pub try_bucket-level :
    (l : TokenBucket) (now : ℕ) (b : Option Bucket)
    → IsLimiter l
    → IsKept (l.capacity * 1000) b
    → let (b', a) = try_bucket l now b in
      (level l now (some b') + (if a.allowed then 1000 else 0) ≡ level l now b)
      × IsKept (l.capacity * 1000) (some b')
unfolding try_bucket
try_bucket-level l now b i k =
    ground (arith, refill-stored l.rate (l.capacity * 1000) (omega arith) now b k)

Within-le : (t : ℕ) (ts : List ℕ) (until : ℕ) → Within t ts until → t ≤ until
Within-le t [] until w = w
Within-le t (now ∷ ts) until w = omega (arith, Within-le now ts until w.1)

-- From a bucket that the script has left, the calls admit no more than the bucket holds and what
-- is refilled until the last.
pub admitted-level :
    (l : TokenBucket) (ts : List ℕ) (t until : ℕ) (b : Option Bucket)
    → IsLimiter l
    → IsKept (l.capacity * 1000) b
    → Within t ts until
    → admitted l ts b * 1000 ≤ level l t b + (until - t) * l.rate
unfolding admitted
admitted-level l [] t until b i k w = omega arith
admitted-level l (now ∷ ts) t until b i k w =
    let b' = (try_bucket l now b).0 in
    ground (
      arith,
      admitted-level l ts now until (some b') i (try_bucket-level l now b i k).1 w.1,
      try_bucket-level l now b i k,
      refill_growth l.rate (l.capacity * 1000) (omega arith) t now b k w.0,
      add_mul (now - t) (until - now) l.rate,
      mul_mono (now - t + (until - now)) (until - t) l.rate
          (omega (arith, Within-le now ts until w.1)),
    )

level-le : (l : TokenBucket) (t : ℕ) (b : Option Bucket) → level l t b ≤ l.capacity * 1000
unfolding refill
level-le l t none = omega arith
level-le l t (some b) = omega arith

-- The rate limit. Calls whose times are in order from `t` to `until`, the first on a bucket that
-- the script has left or on none, are admitted at most `r * (1 + (until - t) / 1000)` times, where
-- `r` is the limiter's rate per second: one second's burst and the refill. (Scaled by 1000, and
-- without the rounding of float64.)
pub rate_limit :
    (n : ℕ) (ts : List ℕ) (t until : ℕ) (b : Option Bucket)
    → IsKept ((new_token_bucket n).capacity * 1000) b
    → Within t ts until
    → admitted (new_token_bucket n) ts b * 1000
      ≤ (new_token_bucket n).rate * 1000 + (until - t) * (new_token_bucket n).rate
rate_limit n ts t until b k w =
    let l = new_token_bucket n in
    let i = new_token_bucket-IsLimiter n in
    omega (arith, admitted-level l ts t until b i k w, level-le l t b)
