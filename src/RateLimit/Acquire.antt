-- ===== src/RateLimit/Acquire.antt =====
-- `TryAcquire` and `Acquire` of internal/ratelimit/token_bucket.go. A `time.Duration` is a number
-- of milliseconds.
use emailservice_worker.Prelude.{ℕ, zero, suc, ◌+◌, String, some, ◌=ₛ◌, ltb, ◌==◌, if◌then◌else◌}
use emailservice_worker.Effect.{
  M, World, pure, ◌>>=◌, ◌>>◌, try, case_option, branch, now, ctx_err, sleep, redis,
}
use emailservice_worker.Effect.Errors.{
  Result, ok, err, text, wrap, rate_limit_exceeded, out_of_fuel,
}
use emailservice_worker.RateLimit.Bucket.{Answer, TokenBucket, try_bucket}

-- The script at a key: its answer, and the world with the bucket written.
unfoldable pub eval_script : TokenBucket → String → ℕ → World → Answer × World
eval_script l key t w =
    let (b, a) = try_bucket l t (w.buckets key) in
    (a, record w { buckets = λ k. if k =ₛ key then some b else w.buckets k })

unfoldable pub try_acquire : TokenBucket → String → M (Result Answer)
try_acquire l key = do
  t ← now
  try (redis (eval_script l key t)) (λ x. pure (err (wrap "token bucket" x))) λ a. pure (ok a)

-- `if wait <= 0 { wait = 10 * time.Millisecond }`
abbrev pub at_least_10ms : ℕ → ℕ
at_least_10ms wait = if wait == 0 then 10 else wait

-- `fmt.Errorf("%w: would wait %v", …)`
unfoldable pub wait_refused : ℕ → M (Result ℕ)
wait_refused wait e w = (err (rate_limit_exceeded (e.duration_text wait)), w)

-- A round after the script has denied the call: give up at the deadline, or wait and go on.
unfoldable pub denied_round : ℕ → ℕ → M (Result ℕ) → M (Result ℕ)
denied_round deadline wait next = do
  t ← now
  branch (ltb deadline (t + wait)) (wait_refused wait)
      (do c ← ctx_err; case_option c (do sleep wait; next) (λ s. pure (err (text s))))

-- The loop, with fuel. The time already waited that Go returns beside an error is dropped, as every
-- caller drops it.
unfoldable pub acquire_loop : ℕ → TokenBucket → String → ℕ → ℕ → M (Result ℕ)
acquire_loop zero l key deadline total = pure (err out_of_fuel)
acquire_loop (suc fuel) l key deadline total =
    try (try_acquire l key) (λ x. pure (err x))
      λ a.
        let wait = at_least_10ms a.wait_ms in
        branch a.allowed (pure (ok total))
          (denied_round deadline wait (acquire_loop fuel l key deadline (total + wait)))

-- Each round that goes on waits for a millisecond at least, within `max_wait`.
unfoldable pub acquire : TokenBucket → String → ℕ → M (Result ℕ)
acquire l key max_wait = do t ← now; acquire_loop (suc max_wait) l key (t + max_wait) 0
