-- ===== src/RateLimit/AcquireBounds.antt =====
-- The budget of `Acquire` of internal/ratelimit/token_bucket.go.
use emailservice_worker.Prelude.{
  ℕ, zero, suc, ◌+◌, ◌≤◌, ◌<◌, ◌≢◌, String, inl, inr, arith, Bool-cases,
}
use emailservice_worker.Effect.{
  M, Env, World, pure, ◌>>=◌, ◌>>◌, try, case_result, case_option, branch, now, ctx_err, sleep,
  redis, step,
}
use emailservice_worker.Effect.Errors.{Result, ok, err, out_of_fuel}
use emailservice_worker.RateLimit.Bucket.{Answer, TokenBucket}
use emailservice_worker.RateLimit.Acquire.{
  eval_script, try_acquire, at_least_10ms, wait_refused, denied_round, acquire_loop, acquire,
}

-- What `Acquire` may return: not for want of fuel, and no more than the budget.
abbrev pub InBudget : ℕ → Result ℕ → Type 0
InBudget max_wait (ok waited) = waited ≤ max_wait
InBudget max_wait (err x) = x ≢ out_of_fuel

try_acquire-clock :
    (l : TokenBucket) (key : String) (e : Env) (w : World)
    → (w.clock ≤ (try_acquire l key e w).1.clock)
unfolding try_acquire eval_script try redis now pure ◌>>=◌
try_acquire-clock l key e w = ground arith

try_acquire-error :
    (l : TokenBucket) (key : String) (e : Env) (w : World)
    → (try_acquire l key e w).0 ≢ err out_of_fuel
unfolding try_acquire eval_script try redis now pure ◌>>=◌
try_acquire-error l key e w = ground arith

abbrev slept : Env → World → ℕ → World
slept e w wait = (sleep wait e (step e w)).1

denied_round-InBudget :
    (start max_wait wait : ℕ) (next : M (Result ℕ)) (e : Env) (w : World)
    → (w.clock + wait ≤ start + max_wait → InBudget max_wait (next e (slept e w wait)).0)
    → InBudget max_wait (denied_round (start + max_wait) wait next e w).0
unfolding denied_round branch ◌>>=◌ ◌>>◌ now ctx_err case_option wait_refused
denied_round-InBudget start max_wait wait next e w h = ground arith

round-InBudget :
    (start max_wait total : ℕ) (next : ℕ → M (Result ℕ)) (r : Result Answer) (e : Env) (w : World)
    → r ≢ err out_of_fuel
    → total ≤ max_wait
    → ((wait : ℕ)
        → 1 ≤ wait
        → w.clock + wait ≤ start + max_wait
        → InBudget max_wait (next (total + wait) e (slept e w wait)).0)
    → InBudget max_wait
        (case_result r
          (λ x. pure (err x))
          (λ a.
            let wait = at_least_10ms a.wait_ms in
            branch a.allowed
              (pure (ok total))
              (denied_round (start + max_wait) wait (next (total + wait))))
          e
          w).0
unfolding case_result branch pure
round-InBudget start max_wait total next (err x) e w r b h = ground arith
round-InBudget start max_wait total next (ok a) e w r b h = elim (Bool-cases a.allowed) [
  | inl yes_allowed ↦ rw yes_allowed b
  | inr denied ↦
      let wait = at_least_10ms a.wait_ms in
      rw denied (
        denied_round-InBudget start max_wait wait (next (total + wait)) e w (h wait (ground arith)))
]

acquire_loop-InBudget :
    (fuel : ℕ) (l : TokenBucket) (key : String) (start max_wait total : ℕ) (e : Env) (w : World)
    → start + total ≤ w.clock
    → total ≤ max_wait
    → 1 ≤ fuel
    → start + max_wait < w.clock + fuel
    → InBudget max_wait (acquire_loop fuel l key (start + max_wait) total e w).0
unfolding acquire_loop try sleep
acquire_loop-InBudget zero l key start max_wait total e w h b p f = absurd (omega arith)
acquire_loop-InBudget (suc fuel) l key start max_wait total e w h b p f =
    let (r, w') = try_acquire l key e w in
    let later = try_acquire-clock l key e w in
    round-InBudget start max_wait total (acquire_loop fuel l key (start + max_wait)) r e w'
      (try_acquire-error l key e w) b
      (λ wait positive fits.
        acquire_loop-InBudget fuel l key start max_wait (total + wait) e (slept e w' wait)
          (omega arith) (omega arith) (omega arith) (omega arith))

-- `Acquire` always returns before its fuel is used up, whatever Redis and the clock do, and when it
-- returns a waiting time, that is at most `max_wait`.
pub acquire-InBudget :
    (l : TokenBucket) (key : String) (max_wait : ℕ) (e : Env) (w : World)
    → InBudget max_wait (acquire l key max_wait e w).0
unfolding acquire now ◌>>=◌
acquire-InBudget l key max_wait e w =
    acquire_loop-InBudget (suc max_wait) l key w.clock max_wait 0 e w (omega arith) (omega arith)
      (omega arith) (omega arith)
