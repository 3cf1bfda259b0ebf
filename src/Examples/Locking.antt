-- ===== src/Examples/Locking.antt =====
-- Runs of the distributed lock.
use emailservice_worker.Prelude.{◌≡◌, ◌≢◌, refl, some, arith, List, [], ◌∷◌}
use emailservice_worker.Schema.{empty_database}
use emailservice_worker.Effect.{World, Env, redis, try, branch, pure}
use emailservice_worker.Effect.Errors.{ok}
use emailservice_worker.Locks.{acquire_lock, release_lock, set_nx, delete_if}
use emailservice_worker.Locks.Exclusion.{
  Call, acquire, release, run_call, run_calls, acquire_lock-held, acquire_lock-exclusive,
}
use emailservice_worker.Examples.{calm, throttled, world_with, differ}

abbrev locked : World
locked = record (world_with empty_database) { locks = λ k. some ("holder", 9000) }

acquire_lock-held_example :
    let (r, w') = acquire_lock "k" "me" 1000 calm locked in (r ≢ ok tt) × (w'.locks ≡ locked.locks)
acquire_lock-held_example =
    acquire_lock-held "k" "me" "holder" 1000 9000 calm locked refl (omega arith)

abbrev others : List (Call × Env)
others = (acquire "k" "you" 500, calm) ∷ (release "k" "you", throttled) ∷ []

acquire_lock-exclusive_example :
    (run_calls others (acquire_lock "k" "me" 1000 calm (world_with empty_database)).1).locks "k"
    ≡ some ("me", 6001)
unfolding acquire_lock set_nx redis try branch pure run_calls run_call release_lock delete_if
acquire_lock-exclusive_example =
    acquire_lock-exclusive "k" "me" 1000 calm (world_with empty_database) others refl
      (differ "you" "me" refl, (differ "you" "me" refl, tt)) (omega arith)
