-- ===== src/Email/Handler/Retry.antt =====
-- When the transactional handler of internal/worker/email/handler.go asks for a message again.
use emailservice_worker.Prelude.{
  ℕ, ◌<◌, ◌≡◌, ◌≢◌, ◌⊎◌, inl, inr, refl, String, Bool, true, false, Option, none, some, List, [],
  ◌∷◌, ap, arith, leb→le, map_option, select_row,
}
use emailservice_worker.Types.{TransactionalEmailPayload}
use emailservice_worker.Effect.{
  M, Env, World, Msg, Mail, Settlement, Fate, done, lost, unsure, step, ack, nak, settle,
  attempt_of, pure, try, branch, ◌>>◌, case_option, case_result, inc, send_with, api_send_email,
  emails_processed,
}
use emailservice_worker.Effect.Errors.{Error, Result, ok, err, text}
use emailservice_worker.Effect.Keeps.{Ensures, Ensures-branch_on, Ensures-then, Ensures-try}
use emailservice_worker.Effect.Keeps.OnDone.{Done, OneMail, Keeps-exec, Keeps-inc, done_rules}
use emailservice_worker.Effect.Keeps.OnQuery.{query_known}
use emailservice_worker.RateLimit.AcquireKeeps.{Keeps-acquire}
use emailservice_worker.Ses.Client.{
  SendEmailInput, mail_of, send_to, send_email, is_permanent_error,
}
use emailservice_worker.Postgres.EmailSends.{is_send, get_email_send_status}
use emailservice_worker.Effect.Keeps.OnSettled.{Settled, Settled-inc}
use emailservice_worker.Schema.{SendStatus, Database}
use emailservice_worker.RateLimit.Bucket.{TokenBucket}
use emailservice_worker.Email.Renderer.{Rendered, render}
use emailservice_worker.Email.Validate.{validate_payload}
use emailservice_worker.Email.Validate.Valid.{validate_payload-IsValid, and-not_empty}
use emailservice_worker.Email.Handler.Settlement.{Keeps-publish}
use emailservice_worker.Email.Handler.{
  is_finished_row, send_input, max_attempts, publish_delivery_event, on_send_error, on_sent,
  render_and_send, send_limited, handle_valid, handle_decoded, handle,
}

-- The message is asked for again, or it is acked and SES has one mail more.
abbrev pub GoesOn : List Settlement → List Mail → World → Type 0
GoesOn s ms w = (w.settled ≡ nak ∷ s) ⊎ ((w.settled ≡ ack ∷ s) × (m : Mail) × (w.mails ≡ m ∷ ms))

-- No error that SES answers with is permanent.
abbrev pub SesIsTransient : Env → Type 0
SesIsTransient e =
    (n : ℕ) (x : Error)
    → (e.ses_fate n ≡ lost x) ⊎ (e.ses_fate n ≡ unsure x)
    → is_permanent_error x ≡ false

-- What an answer of SES says: an error that is not permanent, or one mail more.
abbrev Answered : {A : Type 0} → List Settlement → List Mail → Result A → World → Type 0
Answered s ms (ok a) w = OneMail s ms w
Answered s ms (err x) w = Settled s w × (is_permanent_error x ≡ false)

record Tries {A : Type 0} (e : Env) (s : List Settlement) (ms : List Mail) (m : M (Result A))
    : Type 0 where
  pub at : (w : World) → Done s ms w → Answered s ms (m e w).0 (m e w).1

module _ {e : Env} {s : List Settlement} {ms : List Mail} {A : Type 0} where
  refused-Tries : (t : String) → Tries e s ms (pure {A = Result A} (err (text t)))
  unfolding pure is_permanent_error
  refused-Tries t = record { at = λ w p. (p.0, refl) }

  branch-Tries :
      (b : Bool) (m k : M (Result A))
      → Tries e s ms m
      → Tries e s ms k
      → Tries e s ms (branch b m k)
  unfolding branch
  branch-Tries true m k hm hk = hm
  branch-Tries false m k hm hk = hk

module _ {e : Env} {s : List Settlement} {ms : List Mail} {A B : Type 0} {P : World → Type 0} where
  try_case :
      (f : Error → M B) (g : A → M B)
      → ((x : Error) → is_permanent_error x ≡ false → Ensures e (Settled s) (f x) P)
      → ((a : A) → Ensures e (OneMail s ms) (g a) P)
      → (r : Result A) (w : World) → Answered s ms r w
      → P (case_result r f g e w).1
  unfolding case_result
  try_case f g kf kg (ok a) w p = (kg a).at w p
  try_case f g kf kg (err x) w p = (kf x p.1).at w p.0

  try-Tries :
      (m : M (Result A)) (f : Error → M B) (g : A → M B)
      → Tries e s ms m
      → ((x : Error) → is_permanent_error x ≡ false → Ensures e (Settled s) (f x) P)
      → ((a : A) → Ensures e (OneMail s ms) (g a) P)
      → Ensures e (Done s ms) (try m f g) P
  unfolding try
  try-Tries m f g h kf kg = record { at = λ w p. try_case f g kf kg (m e w).0 (m e w).1 (h.at w p) }

send_with-Answered :
    {s : List Settlement} {ms : List Mail} (f : Fate) (m : Mail) (id : String) (w : World)
    → ((x : Error) → (f ≡ lost x) ⊎ (f ≡ unsure x) → is_permanent_error x ≡ false)
    → Done s ms w
    → Answered s ms (send_with f m id w).0 (send_with f m id w).1
unfolding send_with
send_with-Answered done m id w h p = (m, p.0, ap (λ l. m ∷ l) p.1)
send_with-Answered (lost x) m id w h p = (p.0, h x (inl refl))
send_with-Answered (unsure x) m id w h p = (p.0, h x (inr refl))

module _ {e : Env} (transient : SesIsTransient e) {s : List Settlement} {ms : List Mail} where
  api-Tries : (m : Mail) → Tries e s ms (api_send_email m)
  unfolding api_send_email
  api-Tries m = record {
    at = λ w p.
        send_with-Answered (e.ses_fate w.tick) m (e.message_id w.tick) (step e w) (transient w.tick)
          p;
  }

  send_to-Tries : (to : List String) (input : SendEmailInput) → Tries e s ms (send_to to input)
  unfolding send_to
  send_to-Tries [] input = refused-Tries _
  send_to-Tries (_ ∷ _) input = branch-Tries _ _ _ (refused-Tries _) (api-Tries (mail_of input))

  send_email-Tries : (input : SendEmailInput) → Tries e s ms (send_email input)
  unfolding send_email
  send_email-Tries input = send_to-Tries input.to input

module _ {e : Env} {s : List Settlement} {ms : List Mail} where
  nak-GoesOn : Ensures e (Settled s) (settle nak) (GoesOn s ms)
  unfolding settle
  nak-GoesOn = record { at = λ w p. inl (ground arith) }

  of_Settled :
      {A : Type 0} {m : M A} {P : World → Type 0}
      → Ensures e (Settled s) m P
      → Ensures e (Done s ms) m P
  of_Settled h = record { at = λ w p. h.at w p.0 }

  ack-GoesOn : (m : Mail) → Ensures e (Done s (m ∷ ms)) (settle ack) (GoesOn s ms)
  unfolding settle
  ack-GoesOn m = record { at = λ w p. inr (ground arith, m, p.1) }

  on_sent_with :
      (p : TransactionalEmailPayload) (id : String) (m : Mail)
      → Ensures e (Done s (m ∷ ms)) (on_sent p id) (GoesOn s ms)
  unfolding on_sent publish_delivery_event
  on_sent_with p id m = search (done_rules, Keeps-publish, ack-GoesOn) depth 20

  on_sent-GoesOn :
      (p : TransactionalEmailPayload) (id : String)
      → Ensures e (OneMail s ms) (on_sent p id) (GoesOn s ms)
  on_sent-GoesOn p id = record { at = λ w q. (on_sent_with p id q.0).at w (q.1, q.2) }

module _ {e : Env} {s : List Settlement} {ms : List Mail} (p : TransactionalEmailPayload)
    (attempt : ℕ) (early : attempt < max_attempts) where
  on_send_error-GoesOn :
      (x : Error)
      → is_permanent_error x ≡ false
      → Ensures e (Settled s) (on_send_error p attempt x) (GoesOn s ms)
  unfolding on_send_error
  on_send_error-GoesOn x transient = Ensures-then _ _ (Settled-inc _) (
      Ensures-branch_on _ _ _ (λ h. absurd (ground (arith, h, transient)))
        (λ _.
          Ensures-branch_on _ _ _
            (λ h. absurd (omega (arith, early, leb→le max_attempts attempt h)))
            (λ _. Ensures-then _ _ (Settled-inc _) nak-GoesOn)))

  render_and_send-GoesOn :
      SesIsTransient e
      → (rendered : Rendered) → render p.subject p.html p.text ≡ ok rendered
      → Ensures e (Done s ms) (render_and_send p attempt) (GoesOn s ms)
  unfolding render_and_send case_result
  render_and_send-GoesOn transient rendered q = rw q (
      try-Tries _ _ _ (send_email-Tries transient (send_input p rendered)) on_send_error-GoesOn
        (on_sent-GoesOn p))

  send_limited-GoesOn :
      SesIsTransient e
      → (l : TokenBucket) (rendered : Rendered) → render p.subject p.html p.text ≡ ok rendered
      → Ensures e (Done s ms) (send_limited l p attempt) (GoesOn s ms)
  unfolding send_limited
  send_limited-GoesOn transient l rendered q =
      Ensures-try _ _ _ (Keeps-acquire l _ _)
        (λ x. Ensures-then _ _ (Keeps-inc _) (of_Settled nak-GoesOn))
        (λ waited. Ensures-then _ _ (search done_rules depth 20) (
          Ensures-try _ _ _ (Keeps-exec _) (λ x. of_Settled nak-GoesOn)
            (λ u. render_and_send-GoesOn transient rendered q)))

-- A payload with a body is rendered.
render-ok :
    (subject html plain : String)
    → (html ≢ "") ⊎ (plain ≢ "")
    → (r : Rendered) × (render subject html plain ≡ ok r)
unfolding render
render-ok subject html plain h = rw (and-not_empty html plain h) (_, refl)

-- The row of the send, as `GetEmailSendStatus` reads it.
abbrev pub status_in : TransactionalEmailPayload → Database → Option SendStatus
status_in p d =
    map_option (λ r. r.status) (select_row (is_send p.send_id p.workspace_id) d.email_sends)

handle_valid-GoesOn :
    (l : TokenBucket) (p : TransactionalEmailPayload) (attempt : ℕ) (e : Env) (w : World)
    → SesIsTransient e
    → attempt < max_attempts
    → is_finished_row (status_in p w.db) ≡ false
    → (rendered : Rendered) → render p.subject p.html p.text ≡ ok rendered
    → GoesOn w.settled w.mails (handle_valid l p attempt e w).1
unfolding handle_valid get_email_send_status
handle_valid-GoesOn l p attempt e w transient early unsent rendered q =
    let next : Ensures e (Done w.settled w.mails)
        (branch (is_finished_row (status_in p w.db)) (settle ack) (send_limited l p attempt))
        (GoesOn w.settled w.mails) =
      Ensures-branch_on _ _ _ (λ t. absurd (ground (arith, t, unsent)))
        (λ _. send_limited-GoesOn p attempt early transient l rendered q) in
    query_known (GoesOn w.settled w.mails) (get_email_send_status p.send_id p.workspace_id)
      (status_in p w.db) (λ _. settle nak)
      (λ status. branch (is_finished_row status) (settle ack) (send_limited l p attempt)) w
      (λ t. refl) (λ x w' h. nak-GoesOn.at w' h.of_settled)
      (λ w' h. next.at w' (h.of_settled, h.of_mails))

-- No mail is lost before the sixth delivery. Where the payload is valid, the send is not finished
-- yet and no error of SES is permanent, the handler asks for the message again, or it acks the
-- message and SES has one mail more, whatever the database, Redis, the queue and the clock do.
pub handle-GoesOn :
    (l : TokenBucket) (p : TransactionalEmailPayload) (n : Option ℕ) (e : Env) (w : World)
    → validate_payload p ≡ none
    → attempt_of (record { body = some p; num_delivered = n }) < max_attempts
    → is_finished_row (status_in p w.db) ≡ false
    → SesIsTransient e
    → GoesOn w.settled w.mails (handle l (record { body = some p; num_delivered = n }) e w).1
unfolding handle handle_decoded case_option ◌>>◌ inc
handle-GoesOn l p n e w valid early unsent transient =
    let msg : Msg TransactionalEmailPayload = record { body = some p; num_delivered = n } in
    let (send_id, workspace_id, job_id, to, addresses, sender, subject, body, provider) =
      validate_payload-IsValid p valid in
    let (rendered, q) = render-ok p.subject p.html p.text body in
    rw valid (
      handle_valid-GoesOn l p (attempt_of msg) e (inc emails_processed e w).1 transient early unsent
        rendered q)
