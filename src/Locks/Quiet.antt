-- ===== src/Locks/Quiet.antt =====
-- The lock of internal/infra/redis/client.go does not settle messages.
use emailservice_worker.Prelude.{ℕ, String, List, arith}
use emailservice_worker.Effect.{Env, Settlement, redis}
use emailservice_worker.Effect.Keeps.{Keeps}
use emailservice_worker.Effect.Keeps.OnSettled.{Settled, settled_rules}
use emailservice_worker.Locks.{set_nx, delete_if, acquire_lock, release_lock}

module _ {e : Env} {s : List Settlement} where
  Settled-set_nx : (k v : String) (ttl : ℕ) → Keeps e (Settled s) (redis (set_nx k v ttl))
  unfolding redis set_nx
  Settled-set_nx k v ttl = record { at = λ w p. ground arith }

  Settled-delete_if : (k v : String) → Keeps e (Settled s) (redis (delete_if k v))
  unfolding redis delete_if
  Settled-delete_if k v = record { at = λ w p. ground arith }

  pub Settled-acquire_lock : (k v : String) (ttl : ℕ) → Keeps e (Settled s) (acquire_lock k v ttl)
  unfolding acquire_lock
  Settled-acquire_lock k v ttl = search (settled_rules, Settled-set_nx) depth 20

  pub Settled-release_lock : (k v : String) → Keeps e (Settled s) (release_lock k v)
  unfolding release_lock
  Settled-release_lock k v = Settled-delete_if k v
