-- ===== src/Examples/RateLimits.antt =====
-- Runs of the token bucket.
use emailservice_worker.Prelude.{ℕ, ◌+◌, ◌*◌, ◌≤◌, ◌≡◌, refl, none, List, [], ◌∷◌, arith}
use emailservice_worker.RateLimit.Bucket.{
  TokenBucket, new_token_bucket, try_bucket, run_script, stored, refill, wait_for,
}
use emailservice_worker.RateLimit.Bounds.{admitted, rate_limit}
use emailservice_worker.RateLimit.Acquire.{acquire}
use emailservice_worker.RateLimit.AcquireBounds.{InBudget, acquire-InBudget}
use emailservice_worker.Schema.{empty_database}
use emailservice_worker.Examples.{throttled, world_with}

abbrev limiter : TokenBucket
limiter = new_token_bucket 2

-- Of five calls in a second and a half, a limiter of two per second admits four.
abbrev times : List ℕ
times = 1000 ∷ 1001 ∷ 1002 ∷ 1600 ∷ 2500 ∷ []

admitted-times : admitted limiter times none ≡ 4
unfolding admitted try_bucket run_script stored refill new_token_bucket wait_for
admitted-times = refl

rate_limit_example : admitted limiter times none * 1000 ≤ 2 * 1000 + 1500 * 2
unfolding new_token_bucket
rate_limit_example =
    rate_limit 2 times 1000 2500 none tt
      (omega arith, (omega arith, (omega arith, (omega arith, (omega arith, omega arith)))))

acquire-InBudget_example :
    InBudget 5000 (acquire limiter "ratelimit:ses:w1" 5000 throttled (world_with empty_database)).0
acquire-InBudget_example =
    acquire-InBudget limiter "ratelimit:ses:w1" 5000 throttled (world_with empty_database)
