-- ===== src/Effect/Keeps/OnSettled.antt =====
-- The effects that do not settle the message, whatever they send.
use mathlib.Core.Path.{subst}
use emailservice_worker.Effect.Errors.{Error, ok}
use emailservice_worker.Prelude.{ℕ, ◌≡◌, refl, sym, String, List, ◌∷◌, arith}
use emailservice_worker.Effect.{
  M, Env, World, Fate, done, lost, unsure, run_stmt, case_result, try, step, Stmt, Settlement,
  Metric, Mail, Published, exec, api_send_email, settle, inc, add_metric, now, ctx_err, new_uuid,
  js_publish, format_time, get_email_identity,
}
use emailservice_worker.Effect.Keeps.{Ensures, Keeps, ensures_rules}
use emailservice_worker.Effect.Keeps.OnDone.{
  Done, Keeps-exec, Keeps-inc, Keeps-add_metric, Keeps-now, Keeps-ctx_err, Keeps-js_publish,
}

abbrev pub Settled : List Settlement → World → Type 0
Settled s w = w.settled ≡ s

-- The message is settled once more.
abbrev pub SettledOnce : List Settlement → World → Type 0
SettledOnce s w = (x : Settlement) × (w.settled ≡ x ∷ s)

pub of_Done :
    {A : Type 0} {e : Env} {s : List Settlement} {m : M A}
    → ((ms : List Mail) → Keeps e (Done s ms) m)
    → Keeps e (Settled s) m
of_Done h = record { at = λ w p. ((h w.mails).at w (p, refl)).0 }

-- What settles nothing can follow the settlement.
pub Keeps-Once :
    {A : Type 0} {e : Env} {s : List Settlement} {m : M A}
    → ((t : List Settlement) → Keeps e (Settled t) m)
    → Keeps e (SettledOnce s) m
Keeps-Once {s} h = record { at = λ w p. (p.0, (h (p.0 ∷ s)).at w p.1) }

module _ {e : Env} {s : List Settlement} where
  pub Settled-exec : {A : Type 0} (q : Stmt A) → Keeps e (Settled s) (exec q)
  Settled-exec q = of_Done (λ ms. Keeps-exec q)

  pub Settled-inc : (m : Metric) → Keeps e (Settled s) (inc m)
  Settled-inc m = of_Done (λ ms. Keeps-inc m)

  pub Settled-add_metric : (m : Metric) (n : ℕ) → Keeps e (Settled s) (add_metric m n)
  Settled-add_metric m n = of_Done (λ ms. Keeps-add_metric m n)

  pub Settled-now : Keeps e (Settled s) now
  Settled-now = of_Done (λ ms. Keeps-now)

  pub Settled-ctx_err : Keeps e (Settled s) ctx_err
  Settled-ctx_err = of_Done (λ ms. Keeps-ctx_err)

  pub Settled-js_publish : (x : Published) → Keeps e (Settled s) (js_publish x)
  Settled-js_publish x = of_Done (λ ms. Keeps-js_publish x)

  pub Settled-api_send_email : (m : Mail) → Keeps e (Settled s) (api_send_email m)
  unfolding api_send_email
  Settled-api_send_email m = record { at = λ w p. ground arith }

  pub Settled-format_time : (t : ℕ) → Keeps e (Settled s) (format_time t)
  unfolding format_time
  Settled-format_time t = record { at = λ w p. p }

  pub Settled-get_email_identity : (d : String) → Keeps e (Settled s) (get_email_identity d)
  unfolding get_email_identity
  Settled-get_email_identity d = record { at = λ w p. ground arith }

  pub Settled-new_uuid : Keeps e (Settled s) new_uuid
  unfolding new_uuid
  Settled-new_uuid = record { at = λ w p. p }

  pub settle-Once : (x : Settlement) → Ensures e (Settled s) (settle x) (SettledOnce s)
  unfolding settle
  settle-Once x = record { at = λ w p. (x, ground arith) }

-- A query that answers `a` on the database at hand, if it answers.
module _ {A B : Type 0} {e : Env} {s : List Settlement} {P : World → Type 0} (q : Stmt A) (a : A)
    (f : Error → M B) (g : A → M B) (failed : (x : Error) → Ensures e (Settled s) (f x) P)
    (found : Ensures e (Settled s) (g a) P) where
  query_run :
      (fate : Fate) (w : World)
      → (q w.clock w.db).0 ≡ ok a
      → Settled s w
      → P (case_result (run_stmt fate q w).0 f g e (run_stmt fate q w).1).1
  unfolding run_stmt case_result
  query_run done w h p =
      let w' = record w { db = (q w.clock w.db).1 } in
      subst (λ r. P (case_result r f g e w').1) (sym h) (found.at w' p)
  query_run (lost x) w h p = (failed x).at w p
  query_run (unsure x) w h p = (failed x).at (record w { db = (q w.clock w.db).1 }) p

  pub Settled-query :
      (w : World) → ((t : ℕ) → (q t w.db).0 ≡ ok a) → Settled s w → P (try (exec q) f g e w).1
  unfolding try exec
  Settled-query w h p = let w1 = step e w in query_run (e.db_fate w.tick) w1 (h w1.clock) p

pub ruleset settled_rules = (
  ensures_rules, Settled-exec, Settled-inc, Settled-add_metric, Settled-now, Settled-ctx_err,
  Settled-js_publish, Settled-format_time, Settled-get_email_identity, Settled-new_uuid,
  settle-Once,
)
