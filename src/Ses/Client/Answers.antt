-- ===== src/Ses/Client/Answers.antt =====
-- The mails of `Client.SendEmail` of internal/infra/ses/client.go.
use emailservice_worker.Prelude.{◌≡◌, String, Bool, true, false, List, [], ◌∷◌, ◌=ₛ◌}
use emailservice_worker.Effect.{Env, M, Settlement, Mail, World, pure, branch}
use emailservice_worker.Effect.Errors.{Error, Result, err}
use emailservice_worker.Effect.Keeps.{Answers, Keeps, Keeps-pure, Ensures-branch}
use emailservice_worker.Effect.Keeps.OnDb.{OfDb, Keeps-api_send_email_db, api_send_email-Answers_db}
use emailservice_worker.Schema.{Database}
use emailservice_worker.Effect.Keeps.OnDone.{Done, OneMail, SesIsCertain, api_send_email-Answers}
use emailservice_worker.Ses.Client.{SendEmailInput, send_to, send_email, mail_of}

module _ {e : Env} {P S : World → Type 0} {A : Type 0} where
  refused-Answers : (x : Error) → Answers e P (pure {A = Result A} (err x)) P S
  unfolding pure
  refused-Answers x = record { failed = λ w y p q. p; done = λ w a p q. cc }

module _ {e : Env} {P E S : World → Type 0} {A : Type 0} where
  branch-Answers :
      (b : Bool) (m k : M (Result A))
      → Answers e P m E S
      → Answers e P k E S
      → Answers e P (branch b m k) E S
  unfolding branch
  branch-Answers true m k hm hk = hm
  branch-Answers false m k hm hk = hk

module _ {e : Env} (certain : SesIsCertain e) {s : List Settlement} {ms : List Mail} where
  send_to-Answers :
      (to : List String) (input : SendEmailInput)
      → Answers e (Done s ms) (send_to to input) (Done s ms) (OneMail s ms)
  unfolding send_to
  send_to-Answers [] input = refused-Answers _
  send_to-Answers (_ ∷ _) input =
      branch-Answers (input.from =ₛ "") _ _ (refused-Answers _)
        (api_send_email-Answers certain (mail_of input))

  pub send_email-Answers :
      (input : SendEmailInput) → Answers e (Done s ms) (send_email input) (Done s ms) (OneMail s ms)
  unfolding send_email
  send_email-Answers input = send_to-Answers input.to input

module _ {e : Env} {Q : Database → Type 0} {R : List Mail → Type 0}
    (more : (m : Mail) (ms : List Mail) → R ms → R (m ∷ ms)) where
  send_to-db : (to : List String) (input : SendEmailInput) → Keeps e (OfDb Q R) (send_to to input)
  unfolding send_to
  send_to-db [] input = Keeps-pure _
  send_to-db (_ ∷ _) input =
      Ensures-branch _ _ _ (Keeps-pure _)
        (Keeps-api_send_email_db (mail_of input) (more (mail_of input)))

  pub Keeps-send_email_db : (input : SendEmailInput) → Keeps e (OfDb Q R) (send_email input)
  unfolding send_email
  Keeps-send_email_db input = send_to-db input.to input

-- A mail more where it succeeds.
module _ {e : Env} (certain : SesIsCertain e) {Q : Database → Type 0} {ms : List Mail} where
  send_to-Answers_db :
      (to : List String) (input : SendEmailInput)
      → Answers e
          (OfDb Q (λ l. l ≡ ms))
          (send_to to input)
          (OfDb Q (λ l. l ≡ ms))
          (OfDb Q (λ l. (m : Mail) × (l ≡ m ∷ ms)))
  unfolding send_to
  send_to-Answers_db [] input = refused-Answers _
  send_to-Answers_db (_ ∷ _) input =
      branch-Answers (input.from =ₛ "") _ _ (refused-Answers _)
        (api_send_email-Answers_db certain (mail_of input))

  pub send_email-Answers_db :
      (input : SendEmailInput)
      → Answers e
          (OfDb Q (λ l. l ≡ ms))
          (send_email input)
          (OfDb Q (λ l. l ≡ ms))
          (OfDb Q (λ l. (m : Mail) × (l ≡ m ∷ ms)))
  unfolding send_email
  send_email-Answers_db input = send_to-Answers_db input.to input
