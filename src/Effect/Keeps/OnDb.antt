-- ===== src/Effect/Keeps/OnDb.antt =====
-- The effects on the database and the mails: a statement does what it does, only the SES client
-- adds a mail, and no other effect touches either.
use mathlib.Core.Path.{subst}
use emailservice_worker.Effect.Keeps.OnDone.{SesIsCertain, send_with-failed}
use emailservice_worker.Prelude.{◌≡◌, sym, ap, ◌∙◌, ℕ, ◌≢◌, refl, String, List, ◌∷◌, arith}
use emailservice_worker.Effect.Errors.{Error, ok}
use emailservice_worker.Schema.{Database}
use emailservice_worker.Effect.{
  Env, M, case_result, try, Fate, done, lost, unsure, World, step, run_stmt, Stmt, Settlement,
  Metric, Mail, Published, exec, settle, inc, add_metric, now, ctx_err, new_uuid, sleep, send_with,
  api_send_email, js_publish,
}
use emailservice_worker.Effect.Keeps.{Answers, Ensures, Keeps, ensures_rules}

-- A fact about the database and one about the mails.
pub record OfDb (Q : Database → Type 0) (R : List Mail → Type 0) (w : World) : Type 0 where
  pub of_db : Q w.db
  pub of_mails : R w.mails

module _ {Q : Database → Type 0} where
  exec_db :
      {A : Type 0} (q : Stmt A)
      → ((t : ℕ) (d : Database) → Q d → Q (q t d).1)
      → (f : Fate) (w : World) → Q w.db
      → Q (run_stmt f q w).1.db
  unfolding run_stmt
  exec_db q h done w p = h w.clock w.db p
  exec_db q h (lost x) w p = p
  exec_db q h (unsure x) w p = h w.clock w.db p

send_mails :
    (R : List Mail → Type 0) (x : Mail)
    → ((ms : List Mail) → R ms → R (x ∷ ms))
    → (f : Fate) (id : String) (w : World) → R w.mails
    → R (send_with f x id w).1.mails
unfolding send_with
send_mails R x h done id w p = h w.mails p
send_mails R x h (lost y) id w p = p
send_mails R x h (unsure y) id w p = h w.mails p

-- With no statement lost, whatever a statement makes of the database holds after it.
abbrev pub NoneIsLost : Env → Type 0
NoneIsLost e = (n : ℕ) (x : Error) → e.db_fate n ≢ lost x

run_stmt_made :
    (Q Q' : Database → Type 0) {A : Type 0} (q : Stmt A)
    → ((t : ℕ) (d : Database) → Q d → Q' (q t d).1)
    → (f : Fate) (w : World) → ((x : Error) → f ≢ lost x)
    → Q w.db
    → Q' (run_stmt f q w).1.db
unfolding run_stmt
run_stmt_made Q Q' q h done w c p = h w.clock w.db p
run_stmt_made Q Q' q h (lost x) w c p = absurd (c x refl)
run_stmt_made Q Q' q h (unsure x) w c p = h w.clock w.db p

pub exec_made :
    {e : Env} {Q Q' : Database → Type 0} {R : List Mail → Type 0} {A : Type 0}
    → NoneIsLost e
    → (q : Stmt A) → ((t : ℕ) (d : Database) → Q d → Q' (q t d).1)
    → Ensures e (OfDb Q R) (exec q) (OfDb Q' R)
unfolding exec
exec_made {e} {Q} {Q'} {R} c q h = record {
  at = λ w p. record {
    of_db = run_stmt_made Q Q' q h (e.db_fate w.tick) (step e w) (c w.tick) p.of_db;
    of_mails = subst R (ground arith) p.of_mails;
  };
}

module _ {e : Env} {Q : Database → Type 0} {R : List Mail → Type 0} where
  pub Keeps-exec_db :
      {A : Type 0} (q : Stmt A)
      → ((t : ℕ) (d : Database) → Q d → Q (q t d).1)
      → Keeps e (OfDb Q R) (exec q)
  unfolding exec
  Keeps-exec_db q h = record {
    at = λ w p. record {
      of_db = exec_db q h (e.db_fate w.tick) (step e w) p.of_db;
      of_mails = subst R (ground arith) p.of_mails;
    };
  }

  pub Keeps-inc_db : (m : Metric) → Keeps e (OfDb Q R) (inc m)
  unfolding inc
  Keeps-inc_db m = record { at = λ w p. record { of_db = p.of_db; of_mails = p.of_mails } }

  pub Keeps-add_metric_db : (m : Metric) (n : ℕ) → Keeps e (OfDb Q R) (add_metric m n)
  unfolding add_metric
  Keeps-add_metric_db m n = record { at = λ w p. record { of_db = p.of_db; of_mails = p.of_mails } }

  pub Keeps-now_db : Keeps e (OfDb Q R) now
  unfolding now
  Keeps-now_db = record { at = λ w p. record { of_db = p.of_db; of_mails = p.of_mails } }

  pub Keeps-ctx_err_db : Keeps e (OfDb Q R) ctx_err
  unfolding ctx_err
  Keeps-ctx_err_db = record { at = λ w p. record { of_db = p.of_db; of_mails = p.of_mails } }

  pub Keeps-new_uuid_db : Keeps e (OfDb Q R) new_uuid
  unfolding new_uuid
  Keeps-new_uuid_db = record { at = λ w p. record { of_db = p.of_db; of_mails = p.of_mails } }

  pub Keeps-js_publish_db : (x : Published) → Keeps e (OfDb Q R) (js_publish x)
  unfolding js_publish
  Keeps-js_publish_db x = record {
    at = λ w p. record {
      of_db = subst Q (ground arith) p.of_db;
      of_mails = subst R (ground arith) p.of_mails;
    };
  }

  pub Keeps-api_send_email_db :
      (x : Mail) → ((ms : List Mail) → R ms → R (x ∷ ms)) → Keeps e (OfDb Q R) (api_send_email x)
  unfolding api_send_email
  Keeps-api_send_email_db x h = record {
    at = λ w p. record {
      of_db = subst Q (ground arith) p.of_db;
      of_mails = send_mails R x h (e.ses_fate w.tick) (e.message_id w.tick) (step e w) p.of_mails;
    };
  }

  pub Keeps-settle_db : (x : Settlement) → Keeps e (OfDb Q R) (settle x)
  unfolding settle
  Keeps-settle_db x = record { at = λ w p. record { of_db = p.of_db; of_mails = p.of_mails } }

  pub Keeps-sleep_db : (d : ℕ) → Keeps e (OfDb Q R) (sleep d)
  unfolding sleep
  Keeps-sleep_db d = record { at = λ w p. record { of_db = p.of_db; of_mails = p.of_mails } }

pub ruleset db_rules = (
  ensures_rules, Keeps-inc_db, Keeps-add_metric_db, Keeps-now_db, Keeps-ctx_err_db,
  Keeps-new_uuid_db, Keeps-js_publish_db, Keeps-settle_db, Keeps-sleep_db,
)

-- With honest errors, SES accepts a mail exactly if it answers without one.
pub api_send_email-Answers_db :
    {e : Env} {Q : Database → Type 0} {ms : List Mail}
    → SesIsCertain e
    → (m : Mail)
    → Answers e
        (OfDb Q (λ l. l ≡ ms))
        (api_send_email m)
        (OfDb Q (λ l. l ≡ ms))
        (OfDb Q (λ l. (x : Mail) × (l ≡ x ∷ ms)))
unfolding api_send_email
api_send_email-Answers_db {e} {Q} {ms} certain m = record {
  failed = λ w x p q.
      let same =
        send_with-failed (e.ses_fate w.tick) m (e.message_id w.tick) (step e w) x (certain w.tick)
          q in
      record {
        of_db = subst (λ v. Q v.db) (sym same) p.of_db;
        of_mails = ap (λ v. v.mails) same ∙ p.of_mails;
      };
  done = λ w a p q. record {
    of_db = subst Q (ground arith) p.of_db;
    of_mails = (m, ground (arith, p.of_mails));
  };
}

-- A query that only reads: what it reads is known in what follows.
module _ {A B : Type 0} {e : Env} {Q : Database → Type 0} {R : List Mail → Type 0}
    {P : World → Type 0} (q : Stmt A) (read : Database → A)
    (only_reads : (t : ℕ) (d : Database) → q t d ≡ (ok (read d), d)) (f : Error → M B) (g : A → M B)
    (failed : (x : Error) → Ensures e (OfDb Q R) (f x) P)
    (found : (a : A) → Ensures e (OfDb (λ d. Q d × (read d ≡ a)) R) (g a) P) where
  query_run :
      (fate : Fate) (w : World)
      → OfDb Q R w
      → P (case_result (run_stmt fate q w).0 f g e (run_stmt fate q w).1).1
  unfolding run_stmt case_result
  query_run done w p =
      subst (λ x. P (case_result x.0 f g e (record w { db = x.1 })).1)
        (sym (only_reads w.clock w.db))
        ((found (read w.db)).at w (record { of_db = (p.of_db, refl); of_mails = p.of_mails }))
  query_run (lost x) w p = (failed x).at w p
  query_run (unsure x) w p =
      subst (λ y. P (f x e (record w { db = y.1 })).1) (sym (only_reads w.clock w.db))
        ((failed x).at w p)

  pub Ensures-query : Ensures e (OfDb Q R) (try (exec q) f g) P
  unfolding try exec
  Ensures-query = record {
    at = λ w p.
        query_run (e.db_fate w.tick) (step e w) (record { of_db = p.of_db; of_mails = p.of_mails });
  }
