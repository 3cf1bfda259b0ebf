-- ===== src/Effect/Keeps/OnQuery.antt =====
-- The first query of a handler, where its answer on the database at hand is known.
use emailservice_worker.Prelude.{ℕ, suc, ◌≡◌, refl, sym, subst}
use emailservice_worker.Effect.{
  M, Env, World, Fate, done, lost, unsure, step, Stmt, run_stmt, exec, try, case_result,
}
use emailservice_worker.Effect.Errors.{Error, ok}

-- A world in which a statement has run since: what it does not touch.
pub record IsQueried (w w' : World) : Type 0 where
  pub of_settled : w'.settled ≡ w.settled
  pub of_mails : w'.mails ≡ w.mails
  pub of_outbox : w'.outbox ≡ w.outbox
  pub of_tick : w'.tick ≡ suc w.tick

module _ {A B : Type 0} {e : Env} (P : World → Type 0) (q : Stmt A) (a : A) (f : Error → M B)
    (g : A → M B) (w : World) (known : (t : ℕ) → (q t w.db).0 ≡ ok a)
    (failed : (x : Error) (w' : World) → IsQueried w w' → P (f x e w').1)
    (found : (w' : World) → IsQueried w w' → P (g a e w').1) where
  query_run :
      (fate : Fate)
      → P (case_result (run_stmt fate q (step e w)).0 f g e (run_stmt fate q (step e w)).1).1
  unfolding run_stmt case_result
  query_run done =
      let w1 = step e w in
      let w' = record w1 { db = (q w1.clock w1.db).1 } in
      subst (λ r. P (case_result r f g e w').1) (sym (known w1.clock))
        (found w' (record { of_settled = refl; of_mails = refl; of_outbox = refl; of_tick = refl }))
  query_run (lost x) =
      failed x (step e w)
        (record { of_settled = refl; of_mails = refl; of_outbox = refl; of_tick = refl })
  query_run (unsure x) =
      let w1 = step e w in
      failed x (record w1 { db = (q w1.clock w1.db).1 })
        (record { of_settled = refl; of_mails = refl; of_outbox = refl; of_tick = refl })

  pub query_known : P (try (exec q) f g e w).1
  unfolding try exec
  query_known = query_run (e.db_fate w.tick)
