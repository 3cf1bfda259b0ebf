-- ===== src/RateLimit/AcquireKeeps.antt =====
-- What `Acquire` of internal/ratelimit/token_bucket.go leaves alone.
use mathlib.Core.Path.{subst}
use emailservice_worker.Prelude.{ℕ, zero, suc, ◌+◌, String, List, arith}
use emailservice_worker.Schema.{Database}
use emailservice_worker.Effect.{M, Env, Settlement, Mail, redis}
use emailservice_worker.Effect.Errors.{Result}
use emailservice_worker.Effect.Keeps.{Keeps}
use emailservice_worker.Effect.Keeps.OnDone.{Done, done_rules}
use emailservice_worker.Effect.Keeps.OnDb.{OfDb, db_rules}
use emailservice_worker.RateLimit.Bucket.{Answer, TokenBucket}
use emailservice_worker.RateLimit.Acquire.{
  eval_script, try_acquire, wait_refused, denied_round, at_least_10ms, acquire_loop, acquire,
}

module _ {e : Env} {s : List Settlement} {ms : List Mail} where
  Keeps-eval_script :
      (l : TokenBucket) (key : String) (t : ℕ) → Keeps e (Done s ms) (redis (eval_script l key t))
  unfolding redis eval_script
  Keeps-eval_script l key t = record { at = λ w p. ground arith }

  Keeps-wait_refused : (wait : ℕ) → Keeps e (Done s ms) (wait_refused wait)
  unfolding wait_refused
  Keeps-wait_refused wait = record { at = λ w p. p }

  Keeps-try_acquire : (l : TokenBucket) (key : String) → Keeps e (Done s ms) (try_acquire l key)
  unfolding try_acquire
  Keeps-try_acquire l key = search (done_rules, Keeps-eval_script) depth 20

  Keeps-denied_round :
      (deadline wait : ℕ) (next : M (Result ℕ))
      → Keeps e (Done s ms) next
      → Keeps e (Done s ms) (denied_round deadline wait next)
  unfolding denied_round
  Keeps-denied_round deadline wait next h = search (done_rules, Keeps-wait_refused) depth 20

  Keeps-acquire_loop :
      (fuel : ℕ) (l : TokenBucket) (key : String) (deadline total : ℕ)
      → Keeps e (Done s ms) (acquire_loop fuel l key deadline total)
  unfolding acquire_loop
  Keeps-acquire_loop zero l key deadline total = search done_rules
  Keeps-acquire_loop (suc fuel) l key deadline total =
      let next =
        λ (a : Answer). Keeps-acquire_loop fuel l key deadline (total + at_least_10ms a.wait_ms) in
      search (done_rules, Keeps-try_acquire, Keeps-denied_round, next) depth 20

  pub Keeps-acquire :
      (l : TokenBucket) (key : String) (max_wait : ℕ) → Keeps e (Done s ms) (acquire l key max_wait)
  unfolding acquire
  Keeps-acquire l key max_wait = search (done_rules, Keeps-acquire_loop)

module _ {e : Env} {Q : Database → Type 0} {R : List Mail → Type 0} where
  Keeps-eval_script_db :
      (l : TokenBucket) (key : String) (t : ℕ) → Keeps e (OfDb Q R) (redis (eval_script l key t))
  unfolding redis eval_script
  Keeps-eval_script_db l key t = record {
    at = λ w p. record {
      of_db = subst Q (ground arith) p.of_db;
      of_mails = subst R (ground arith) p.of_mails;
    };
  }

  Keeps-wait_refused_db : (wait : ℕ) → Keeps e (OfDb Q R) (wait_refused wait)
  unfolding wait_refused
  Keeps-wait_refused_db wait = record {
    at = λ w p. record { of_db = p.of_db; of_mails = p.of_mails };
  }

  Keeps-try_acquire_db : (l : TokenBucket) (key : String) → Keeps e (OfDb Q R) (try_acquire l key)
  unfolding try_acquire
  Keeps-try_acquire_db l key = search (db_rules, Keeps-eval_script_db) depth 20

  Keeps-denied_round_db :
      (deadline wait : ℕ) (next : M (Result ℕ))
      → Keeps e (OfDb Q R) next
      → Keeps e (OfDb Q R) (denied_round deadline wait next)
  unfolding denied_round
  Keeps-denied_round_db deadline wait next h = search (db_rules, Keeps-wait_refused_db) depth 20

  Keeps-acquire_loop_db :
      (fuel : ℕ) (l : TokenBucket) (key : String) (deadline total : ℕ)
      → Keeps e (OfDb Q R) (acquire_loop fuel l key deadline total)
  unfolding acquire_loop
  Keeps-acquire_loop_db zero l key deadline total = search db_rules
  Keeps-acquire_loop_db (suc fuel) l key deadline total =
      let next = λ (a : Answer).
        Keeps-acquire_loop_db fuel l key deadline (total + at_least_10ms a.wait_ms) in
      search (db_rules, Keeps-try_acquire_db, Keeps-denied_round_db, next) depth 20

  pub Keeps-acquire_db :
      (l : TokenBucket) (key : String) (max_wait : ℕ) → Keeps e (OfDb Q R) (acquire l key max_wait)
  unfolding acquire
  Keeps-acquire_db l key max_wait = search (db_rules, Keeps-acquire_loop_db)
