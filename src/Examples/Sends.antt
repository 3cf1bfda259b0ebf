-- ===== src/Examples/Sends.antt =====
-- Runs of the transactional handler.
use emailservice_worker.Prelude.{
  arith, ◌≡◌, ◌≢◌, ◌⊎◌, ◌≤◌, refl, inl, none, some, List, [], ◌∷◌, length, select_row,
}
use emailservice_worker.Schema.{SendStatus, Database}
use emailservice_worker.Effect.{attempt_of, ack, nak, term}
use emailservice_worker.RateLimit.Bucket.{TokenBucket, new_token_bucket}
use emailservice_worker.Ses.Client.{is_permanent_error}
use emailservice_worker.Email.Validate.{validate_payload}
use emailservice_worker.Email.Handler.{handle}
use emailservice_worker.Email.Handler.Settlement.{Outcome, handle-Outcome}
use emailservice_worker.Email.Handler.Idempotency.{handle_finished}
use emailservice_worker.Email.Handler.AtMostOnce.{Delivery, deliver_all, deliver_all-mails}
use emailservice_worker.Postgres.EmailSends.{update_email_send_sent, update_email_send_failed}
use emailservice_worker.Postgres.EmailSends.Races.{HasStatus, SendStep, SendSteps, steps-HasStatus}
use emailservice_worker.Email.Handler.Retry.{GoesOn, SesIsTransient, handle-GoesOn}
use emailservice_worker.Examples.{
  calm, throttled, payload, message, send_row, with_send, calm-SesIsCertain, calm-NoneIsLost,
  throttled-SesIsCertain, throttled-NoneIsLost,
}

abbrev limiter : TokenBucket
limiter = new_token_bucket 14

handle-Outcome_example :
    Outcome [] [] (handle limiter message throttled (with_send SendStatus.queued)).1
handle-Outcome_example =
    handle-Outcome limiter message throttled (with_send SendStatus.queued) throttled-SesIsCertain

-- One handler has the bounced send sent, another has it failed.
abbrev bounced_db : Database
bounced_db = (with_send SendStatus.bounced).db

abbrev sent_db : Database
sent_db = (update_email_send_sent "s1" "w1" "ses-1" 10 bounced_db).1

steps-HasStatus_example :
    HasStatus "s1" "w1" SendStatus.bounced (update_email_send_failed "s1" "w1" "late" 11 sent_db).1
unfolding select_row
steps-HasStatus_example =
    steps-HasStatus "s1" "w1" SendStatus.bounced bounced_db
      (update_email_send_failed "s1" "w1" "late" 11 sent_db).1 (inl refl)
      (SendSteps.next
        (SendSteps.next SendSteps.here (SendStep.marks_sent "s1" "w1" "ses-1" 10 bounced_db))
        (SendStep.marks_failed "s1" "w1" "late" 11 sent_db))
      (send_row SendStatus.bounced, refl, refl)

handle_finished_example :
    let w = with_send SendStatus.bounced in
    let w' = (handle limiter message calm w).1 in
    (w'.db ≡ w.db)
    × (w'.mails ≡ [])
    × (w'.outbox ≡ [])
    × ((w'.settled ≡ ack ∷ [])
        ⊎ (w'.settled ≡ nak ∷ [])
        ⊎ ((w'.settled ≡ term ∷ []) × (validate_payload payload ≢ none)))
unfolding select_row
handle_finished_example =
    handle_finished limiter payload (some 1) calm (with_send SendStatus.bounced)
      (send_row SendStatus.bounced, refl, refl)

-- First SES rejects the mail, then it accepts it, and the message comes once more.
abbrev deliveries : List Delivery
deliveries = (some 1, throttled) ∷ (some 2, calm) ∷ (none, calm) ∷ []

deliver_all-mails_example :
    length (deliver_all limiter payload deliveries (with_send SendStatus.queued)).mails ≤ 1
unfolding select_row
deliver_all-mails_example =
    deliver_all-mails limiter payload deliveries (with_send SendStatus.queued)
      (
        throttled-SesIsCertain,
        throttled-NoneIsLost,
        (calm-SesIsCertain, calm-NoneIsLost, (calm-SesIsCertain, calm-NoneIsLost, tt)),
      )
      (send_row SendStatus.queued, refl, refl)

throttled-SesIsTransient : SesIsTransient throttled
unfolding is_permanent_error
throttled-SesIsTransient = λ n x. ground arith

handle-GoesOn_example :
    GoesOn [] [] (handle limiter message throttled (with_send SendStatus.queued)).1
unfolding attempt_of validate_payload select_row
handle-GoesOn_example =
    handle-GoesOn limiter payload (some 1) throttled (with_send SendStatus.queued) refl
      (omega arith) refl throttled-SesIsTransient
