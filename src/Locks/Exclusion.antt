-- ===== src/Locks/Exclusion.antt =====
-- The lock of internal/infra/redis/client.go under calls of others.
use emailservice_worker.Prelude.{
  ◌≤◌, List, [], ◌∷◌, All, ap, ℕ, ◌+◌, ◌<◌, ◌≡◌, ◌≢◌, String, some, arith, eq_iff,
}
use emailservice_worker.Effect.{Env, World, M, redis, try, branch, pure, step}
use emailservice_worker.Effect.Errors.{Result, ok}
use emailservice_worker.Locks.{set_nx, acquire_lock, delete_if, release_lock}

-- While a key is locked, another acquisition fails, whatever Redis answers, and leaves the lock as it
-- is. (The lock's expiry is compared with the time at which the command runs.)
pub acquire_lock-held :
    (key value v : String) (ttl t : ℕ) (e : Env) (w : World)
    → w.locks key ≡ some (v, t)
    → (step e w).clock < t
    → let (r, w') = acquire_lock key value ttl e w in (r ≢ ok tt) × (w'.locks ≡ w.locks)
unfolding acquire_lock set_nx redis try branch pure
acquire_lock-held key value v ttl t e w h before = ground arith

-- A call on the locks: to acquire a key for a time, or to release it, with the caller's value.
pub data Call : Type 0 where
  acquire : String → String → ℕ → Call
  release : String → String → Call

abbrev pub value_of : Call → String
value_of (acquire key value ttl) = value
value_of (release key value) = value

unfoldable pub run_call : Call → M (Result Unit)
run_call (acquire key value ttl) = acquire_lock key value ttl
run_call (release key value) = release_lock key value

-- Calls one after another, each with its environment.
unfoldable pub run_calls : List (Call × Env) → World → World
run_calls [] w = w
run_calls ((c, e) ∷ cs) w = run_calls cs (run_call c e w).1

abbrev pub AreOthers : String → List (Call × Env) → Type 0
AreOthers v cs = All (λ (c : Call × Env). value_of c.0 ≢ v) cs

run_call-clock : (c : Call) (e : Env) (w : World) → w.clock ≤ (run_call c e w).1.clock
unfolding run_call acquire_lock release_lock set_nx delete_if redis try branch pure
run_call-clock (acquire key value ttl) e w = ground arith
run_call-clock (release key value) e w = ground arith

run_calls-clock : (cs : List (Call × Env)) (w : World) → w.clock ≤ (run_calls cs w).clock
unfolding run_calls
run_calls-clock [] w = omega arith
run_calls-clock ((c, e) ∷ cs) w =
    omega (arith, run_call-clock c e w, run_calls-clock cs (run_call c e w).1)

run_call-kept :
    (c : Call) (e : Env) (w : World) (key v : String) (t : ℕ)
    → value_of c ≢ v
    → w.locks key ≡ some (v, t)
    → (run_call c e w).1.clock < t
    → (run_call c e w).1.locks key ≡ some (v, t)
unfolding run_call acquire_lock release_lock set_nx delete_if redis try branch pure
run_call-kept (acquire k value ttl) e w key v t other h before =
    ground (arith, eq_iff key k, ap w.locks)
run_call-kept (release k value) e w key v t other h before =
    ground (arith, eq_iff key k, eq_iff v value, ap w.locks)

run_calls-kept :
    (cs : List (Call × Env)) (w : World) (key v : String) (t : ℕ)
    → AreOthers v cs
    → w.locks key ≡ some (v, t)
    → (run_calls cs w).clock < t
    → (run_calls cs w).locks key ≡ some (v, t)
unfolding run_calls
run_calls-kept [] w key v t others h before = h
run_calls-kept ((c, e) ∷ cs) w key v t others h before =
    let w1 = (run_call c e w).1 in
    run_calls-kept cs w1 key v t others.1
      (run_call-kept c e w key v t others.0 h (omega (arith, before, run_calls-clock cs w1))) before

acquired :
    (key v : String) (ttl : ℕ) (e : Env) (w : World)
    → (acquire_lock key v ttl e w).0 ≡ ok tt
    → (acquire_lock key v ttl e w).1.locks key ≡ some (v, (step e w).clock + ttl)
unfolding acquire_lock set_nx redis try branch pure
acquired key v ttl e w h = ground (arith, eq_iff key key)

-- Mutual exclusion: once `AcquireLock` has succeeded with a value that nobody else uses, the lock is
-- the caller's until it expires, whatever acquisitions and releases others try on any keys and
-- however Redis answers them.
pub acquire_lock-exclusive :
    (key v : String) (ttl : ℕ) (e : Env) (w : World) (cs : List (Call × Env))
    → (acquire_lock key v ttl e w).0 ≡ ok tt
    → AreOthers v cs
    → (run_calls cs (acquire_lock key v ttl e w).1).clock < (step e w).clock + ttl
    → (run_calls cs (acquire_lock key v ttl e w).1).locks key ≡ some (v, (step e w).clock + ttl)
acquire_lock-exclusive key v ttl e w cs h others before =
    run_calls-kept cs (acquire_lock key v ttl e w).1 key v ((step e w).clock + ttl) others
      (acquired key v ttl e w h) before
