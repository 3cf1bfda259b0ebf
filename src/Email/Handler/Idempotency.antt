-- ===== src/Email/Handler/Idempotency.antt =====
-- What the transactional handler of internal/worker/email/handler.go does with a send that is
-- already finished, and over repeated deliveries.
use emailservice_worker.Prelude.{◌≢◌, ℕ, ◌≡◌, ◌⊎◌, true, Option, some, none, ◌∷◌, select_row, arith}
use emailservice_worker.Types.{TransactionalEmailPayload}
use emailservice_worker.Schema.{EmailSendRow}
use emailservice_worker.Effect.{
  Env, World, Msg, ack, nak, term, settle, exec, try, branch, case_option, ◌>>◌, inc,
  emails_processed, attempt_of,
}
use emailservice_worker.RateLimit.Bucket.{TokenBucket}
use emailservice_worker.Postgres.EmailSends.{is_send, is_finished, get_email_send_status}
use emailservice_worker.Email.Validate.{validate_payload}
use emailservice_worker.Email.Handler.{handle_valid, handle_decoded, handle}

-- The row of a payload's send is there, with a status that ends it.
abbrev pub FinishedSend : TransactionalEmailPayload → World → Type 0
FinishedSend p w =
    (r : EmailSendRow) × (select_row (is_send p.send_id p.workspace_id) w.db.email_sends ≡ some r)
    × (is_finished r.status ≡ true)

pub handle_valid_finished :
    (l : TokenBucket) (p : TransactionalEmailPayload) (attempt : ℕ) (e : Env) (w : World)
    → FinishedSend p w
    → let w' = (handle_valid l p attempt e w).1 in
      (w'.db ≡ w.db)
      × (w'.mails ≡ w.mails)
      × (w'.outbox ≡ w.outbox)
      × ((w'.settled ≡ ack ∷ w.settled) ⊎ (w'.settled ≡ nak ∷ w.settled))
unfolding handle_valid exec get_email_send_status try branch settle
handle_valid_finished l p attempt e w (r, found, ended) = ground arith

-- A message for a send that is already sent or bounced is acked, asked for again or, only if the
-- payload is invalid, terminated, and changes nothing: no row, no mail and no publication.
pub handle_finished :
    (l : TokenBucket) (p : TransactionalEmailPayload) (n : Option ℕ) (e : Env) (w : World)
    → FinishedSend p w
    → let w' = (handle l (record { body = some p; num_delivered = n }) e w).1 in
      (w'.db ≡ w.db)
      × (w'.mails ≡ w.mails)
      × (w'.outbox ≡ w.outbox)
      × ((w'.settled ≡ ack ∷ w.settled)
          ⊎ (w'.settled ≡ nak ∷ w.settled)
          ⊎ ((w'.settled ≡ term ∷ w.settled) × (validate_payload p ≢ none)))
unfolding handle handle_decoded case_option inc settle ◌>>◌
handle_finished l p n e w f =
    let w1 = record w { metrics = (emails_processed, 1) ∷ w.metrics } in
    let msg : Msg TransactionalEmailPayload = record { body = some p; num_delivered = n } in
    ground (arith, handle_valid_finished l p (attempt_of msg) e w1 f)
