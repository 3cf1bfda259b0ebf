-- ===== src/Locks.antt =====
-- The distributed lock of internal/infra/redis/client.go.
pub mod Exclusion
pub mod Quiet
use Prim.Native.String.{◌++◌}
use emailservice_worker.Prelude.{
  ℕ, ◌+◌, String, Bool, true, false, Option, none, some, ◌=ₛ◌, ltb, if◌then◌else◌,
}
use emailservice_worker.Effect.{M, World, pure, try, branch, redis}
use emailservice_worker.Effect.Errors.{Result, ok, err, lock_not_acquired, wrap}

-- The value at a key, until it expires.
abbrev pub held : ℕ → Option (String × ℕ) → Option String
held now none = none
held now (some (value, expires_at)) = if ltb now expires_at then some value else none

abbrev with_lock : String → Option (String × ℕ) → World → World
with_lock key o w = record w { locks = λ k. if k =ₛ key then o else w.locks k }

-- `SET key value NX EX ttl`, with the time to live in milliseconds
unfoldable pub set_nx : String → String → ℕ → World → Bool × World
set_nx key value ttl w = elim (held w.clock (w.locks key)) [
  | none ↦ (true, with_lock key (some (value, w.clock + ttl)) w)
  | some _ ↦ (false, w)
]

unfoldable pub acquire_lock : String → String → ℕ → M (Result Unit)
acquire_lock key value ttl =
    try (redis (set_nx key value ttl)) (λ x. pure (err (wrap ("acquire lock " ++ key) x)))
      (λ done. branch done (pure (ok tt)) (pure (err lock_not_acquired)))

-- The script: `GET`, and `DEL` where the value matches.
unfoldable pub delete_if : String → String → World → Unit {0} × World
delete_if key value w = elim (held w.clock (w.locks key)) [
  | none ↦ (tt, w)
  | some v ↦ (tt, if v =ₛ value then with_lock key none w else w)
]

unfoldable pub release_lock : String → String → M (Result Unit)
release_lock key value = redis (delete_if key value)
