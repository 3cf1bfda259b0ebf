-- ===== src/Effect/Keeps/OnDone.antt =====
-- The effects that neither send a mail nor settle the message.
use mathlib.Core.Path.{subst}
use emailservice_worker.Prelude.{ℕ, ◌≡◌, ◌≢◌, refl, sym, String, List, ◌∷◌, arith}
use emailservice_worker.Effect.{
  Env, Fate, done, lost, unsure, World, step, Stmt, Settlement, Metric, Mail, Published, exec,
  send_with, api_send_email, settle, inc, add_metric, now, ctx_err, new_uuid, sleep, js_publish,
}
use emailservice_worker.Effect.Keeps.{Ensures, Keeps, Answers, ensures_rules}
use emailservice_worker.Effect.Errors.{Error, err}

-- What a handler has done that cannot be taken back: mails and settlements.
abbrev pub Done : List Settlement → List Mail → World → Type 0
Done s ms w = (w.settled ≡ s) × (w.mails ≡ ms)

module _ {e : Env} {s : List Settlement} {ms : List Mail} where
  pub Keeps-exec : {A : Type 0} (q : Stmt A) → Keeps e (Done s ms) (exec q)
  unfolding exec
  Keeps-exec q = record { at = λ w p. ground arith }

  pub Keeps-inc : (m : Metric) → Keeps e (Done s ms) (inc m)
  unfolding inc
  Keeps-inc m = record { at = λ w p. p }

  pub Keeps-add_metric : (m : Metric) (n : ℕ) → Keeps e (Done s ms) (add_metric m n)
  unfolding add_metric
  Keeps-add_metric m n = record { at = λ w p. p }

  pub Keeps-now : Keeps e (Done s ms) now
  unfolding now
  Keeps-now = record { at = λ w p. p }

  pub Keeps-ctx_err : Keeps e (Done s ms) ctx_err
  unfolding ctx_err
  Keeps-ctx_err = record { at = λ w p. p }

  pub Keeps-new_uuid : Keeps e (Done s ms) new_uuid
  unfolding new_uuid
  Keeps-new_uuid = record { at = λ w p. p }

  pub Keeps-js_publish : (x : Published) → Keeps e (Done s ms) (js_publish x)
  unfolding js_publish
  Keeps-js_publish x = record { at = λ w p. ground arith }

  pub Keeps-sleep : (d : ℕ) → Keeps e (Done s ms) (sleep d)
  unfolding sleep
  Keeps-sleep d = record { at = λ w p. p }

  -- The last step of a handler: the message is settled once more.
  pub settle-Done : (x : Settlement) → Ensures e (Done s ms) (settle x) (Done (x ∷ s) ms)
  unfolding settle
  settle-Done x = record { at = λ w p. ground arith }

pub ruleset done_rules = (
  ensures_rules, Keeps-exec, Keeps-inc, Keeps-add_metric, Keeps-now, Keeps-ctx_err, Keeps-new_uuid,
  Keeps-js_publish, Keeps-sleep,
)

-- SES accepted one more mail.
abbrev pub OneMail : List Settlement → List Mail → World → Type 0
OneMail s ms w = (m : Mail) × (w.settled ≡ s) × (w.mails ≡ m ∷ ms)

-- Of an error from SES it is certain that nothing was sent.
abbrev pub SesIsCertain : Env → Type 0
SesIsCertain e = (n : ℕ) (x : Error) → e.ses_fate n ≢ unsure x

pub send_with-failed :
    (f : Fate) (m : Mail) (id : String) (w : World) (x : Error)
    → ((y : Error) → f ≢ unsure y)
    → (send_with f m id w).0 ≡ err x
    → (send_with f m id w).1 ≡ w
unfolding send_with
send_with-failed done m id w x c h = cc
send_with-failed (lost y) m id w x c h = refl
send_with-failed (unsure y) m id w x c h = absurd (c y refl)

module _ {e : Env} (certain : SesIsCertain e) {s : List Settlement} {ms : List Mail} where
  pub api_send_email-Answers :
      (m : Mail) → Answers e (Done s ms) (api_send_email m) (Done s ms) (OneMail s ms)
  unfolding api_send_email
  api_send_email-Answers m = record {
    failed = λ w x p q.
        let same =
          send_with-failed (e.ses_fate w.tick) m (e.message_id w.tick) (step e w) x (certain w.tick)
            q in
        subst (Done s ms) (sym same) p;
    done = λ w a p q. (m, ground arith, ground arith);
  }
