-- ===== src/Effect/Keeps/OnStill.antt =====
-- The effects that change neither the database nor what is published.
use mathlib.Core.Path.{subst}
use emailservice_worker.Prelude.{ℕ, ◌≡◌, refl, sym, List}
use emailservice_worker.Schema.{Database}
use emailservice_worker.Effect.{
  M, Env, World, Fate, done, lost, unsure, step, Stmt, run_stmt, exec, try, case_result, settle,
  inc, new_uuid, Settlement, Metric, Published,
}
use emailservice_worker.Effect.Errors.{Error, ok}
use emailservice_worker.Effect.Keeps.{Ensures, Keeps, ensures_rules}

abbrev pub Still : Database → List Published → World → Type 0
Still d o w = (w.db ≡ d) × (w.outbox ≡ o)

module _ {e : Env} {d : Database} {o : List Published} where
  pub Still-settle : (x : Settlement) → Keeps e (Still d o) (settle x)
  unfolding settle
  Still-settle x = record { at = λ w p. p }

  pub Still-inc : (m : Metric) → Keeps e (Still d o) (inc m)
  unfolding inc
  Still-inc m = record { at = λ w p. p }

  pub Still-new_uuid : Keeps e (Still d o) new_uuid
  unfolding new_uuid
  Still-new_uuid = record { at = λ w p. p }

-- A query that answers `a` on the database and leaves it as it is.
module _ {A B : Type 0} {e : Env} {d : Database} {o : List Published} (q : Stmt A) (a : A)
    (f : Error → M B) (g : A → M B) (known : (t : ℕ) → q t d ≡ (ok a, d))
    (failed : (x : Error) → Keeps e (Still d o) (f x)) (found : Keeps e (Still d o) (g a)) where
  query_run :
      (fate : Fate) (w : World)
      → Still d o w
      → Still d o (case_result (run_stmt fate q w).0 f g e (run_stmt fate q w).1).1
  unfolding run_stmt case_result
  query_run done w p =
      let same : q w.clock w.db ≡ (ok a, d) =
        subst (λ x. q w.clock x ≡ (ok a, d)) (sym p.0) (known w.clock) in
      subst (λ x. Still d o (case_result x.0 f g e (record w { db = x.1 })).1) (sym same)
        (found.at (record w { db = d }) (refl, p.1))
  query_run (lost x) w p = (failed x).at w p
  query_run (unsure x) w p =
      let same : q w.clock w.db ≡ (ok a, d) =
        subst (λ x. q w.clock x ≡ (ok a, d)) (sym p.0) (known w.clock) in
      subst (λ y. Still d o (f x e (record w { db = y.1 })).1) (sym same)
        ((failed x).at (record w { db = d }) (refl, p.1))

  pub Still-query : Keeps e (Still d o) (try (exec q) f g)
  unfolding try exec
  Still-query = record { at = λ w p. query_run (e.db_fate w.tick) (step e w) p }

-- Where the statement is done.
pub Still-read :
    {A B : Type 0} {e : Env} {d : Database} {o : List Published} (q : Stmt A) (a : A)
    (f : Error → M B) (g : A → M B)
    → ((n : ℕ) → e.db_fate n ≡ done)
    → ((t : ℕ) → q t d ≡ (ok a, d))
    → Keeps e (Still d o) (g a)
    → Keeps e (Still d o) (try (exec q) f g)
unfolding try exec run_stmt case_result
Still-read {e = e} {d = d} {o = o} q a f g up known found = record {
  at = λ w p.
      let w1 = step e w in
      let same : q w1.clock w1.db ≡ (ok a, d) =
        subst (λ x. q w1.clock x ≡ (ok a, d)) (sym p.0) (known w1.clock) in
      subst (λ fate. Still d o (case_result (run_stmt fate q w1).0 f g e (run_stmt fate q w1).1).1)
        (sym (up w.tick))
        (subst (λ x. Still d o (case_result x.0 f g e (record w1 { db = x.1 })).1) (sym same)
          (found.at (record w1 { db = d }) (refl, p.1)));
}

pub ruleset still_rules = (ensures_rules, Still-settle, Still-inc, Still-new_uuid)
