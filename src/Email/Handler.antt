-- ===== src/Email/Handler.antt =====
-- The transactional handler of internal/worker/email/handler.go.
pub mod Settlement
pub mod Idempotency
pub mod Rows
pub mod AtMostOnce
pub mod Retry
use Prim.Native.String.{◌++◌}
use emailservice_worker.Prelude.{
  ℕ, zero, suc, ◌+◌, ◌-◌, ◌*◌, String, Bool, Option, none, some, List, [], ◌∷◌, map, length, ltb,
  leb, if◌then◌else◌, ◌=ₛ◌,
}
use emailservice_worker.Types.{
  EmailAddress, TransactionalEmailPayload, EmailDeliveryEvent, Payload, delivery, email_dlq,
}
use emailservice_worker.Schema.{SendStatus}
use emailservice_worker.Effect.{
  M, Msg, Metric, ack, nak, term, attempt_of, pure, exec, ◌>>=◌, ◌>>◌, try, case_result,
  case_option, branch, when, settle, inc, now, emails_processed, rate_limit_waits, emails_failed,
  emails_sent, email_retries, email_ses_failures, dlq_events,
}
use emailservice_worker.Effect.Errors.{Error, Result, ok, err, message}
use emailservice_worker.RateLimit.Bucket.{TokenBucket}
use emailservice_worker.RateLimit.Acquire.{acquire}
use emailservice_worker.Queue.Publisher.{publish}
use emailservice_worker.Ses.Client.{SendEmailInput, send_email, is_permanent_error}
use emailservice_worker.Postgres.EmailSends.{
  is_finished, get_email_send_status, update_email_send_sending, update_email_send_sent,
  update_email_send_failed,
}
use emailservice_worker.Email.Renderer.{Rendered, render}
use emailservice_worker.Email.Validate.{validate_payload}

abbrev pub subject_events : String
subject_events = "email.delivery.events"

abbrev pub subject_dlq : String
subject_dlq = "email.send.dlq"

-- In milliseconds: 1m, 5m, 15m, 30m, 2h.
abbrev pub retry_delays : List ℕ
retry_delays = 60000 ∷ 300000 ∷ 900000 ∷ 1800000 ∷ 7200000 ∷ []

abbrev pub max_attempts : ℕ
max_attempts = 6

abbrev pub status_sent : String
status_sent = "sent"

abbrev pub status_failed : String
status_failed = "failed"

-- `rateLimitWaitBudget`, in milliseconds
abbrev pub rate_limit_wait_budget : ℕ
rate_limit_wait_budget = 5000

unfoldable pub extract_emails : List EmailAddress → List String
extract_emails [] = []
extract_emails (a ∷ rest) = a.email ∷ extract_emails rest

-- `publishDeliveryEvent`
unfoldable pub publish_delivery_event :
    TransactionalEmailPayload → String → String → String → M (Result Unit)
publish_delivery_event p provider_message_id status reason = do
  t ← now
  publish subject_events
      (delivery (record {
        workspace_id = p.workspace_id;
        send_id = p.send_id;
        campaign_id = "";
        recipient_email = "";
        provider_message_id = provider_message_id;
        status = status;
        reason = reason;
        timestamp = t;
      }))
      ("delivery-" ++ p.send_id ++ "-" ++ status)

-- Both errors are only logged.
unfoldable pub mark_failed_and_publish_event : TransactionalEmailPayload → String → M Unit
mark_failed_and_publish_event p reason = do
  exec (update_email_send_failed p.send_id p.workspace_id reason)
  publish_delivery_event p "" status_failed reason
  pure tt

unfoldable pub publish_dlq : TransactionalEmailPayload → String → ℕ → M Unit
publish_dlq p reason attempt = do
  t ← now
  publish subject_dlq
      (email_dlq (record { payload = p; reason = reason; attempts = attempt; timestamp = t }))
      ("dlq-" ++ p.send_id)
  pure tt

unfoldable pub send_input : TransactionalEmailPayload → Rendered → SendEmailInput
unfolding extract_emails
send_input p rendered = record {
  from = p.from.email;
  from_name = p.from.name;
  to = extract_emails p.to;
  reply_to = if p.reply_to =ₛ "" then [] else p.reply_to ∷ [];
  subject = rendered.subject;
  html_body = rendered.html;
  text_body = rendered.text;
  tags = p.tags;
}

-- After the deliveries are used up.
unfoldable pub give_up : TransactionalEmailPayload → ℕ → Error → M Unit
give_up p attempt x = do
  publish_dlq p (message x) attempt
  mark_failed_and_publish_event p ("max retries: " ++ message x)
  inc emails_failed
  inc dlq_events
  settle term

unfoldable pub on_send_error : TransactionalEmailPayload → ℕ → Error → M Unit
on_send_error p attempt x = do
  inc email_ses_failures
  branch (is_permanent_error x)
      (do mark_failed_and_publish_event p (message x); inc emails_failed; settle ack)
      (branch (leb max_attempts attempt) (give_up p attempt x) (do inc email_retries; settle nak))

-- Once SES has accepted, an error of the database or of the publication is only logged.
unfoldable pub on_sent : TransactionalEmailPayload → String → M Unit
on_sent p message_id = do
  exec (update_email_send_sent p.send_id p.workspace_id message_id)
  publish_delivery_event p message_id status_sent ""
  inc emails_sent
  settle ack

unfoldable pub render_and_send : TransactionalEmailPayload → ℕ → M Unit
render_and_send p attempt =
    case_result (render p.subject p.html p.text)
      (λ x. do
        mark_failed_and_publish_event p ("render: " ++ message x)
        inc emails_failed
        settle term)
      (λ rendered. try (send_email (send_input p rendered)) (on_send_error p attempt) (on_sent p))

unfoldable pub send_limited : TokenBucket → TransactionalEmailPayload → ℕ → M Unit
send_limited l p attempt =
    try (acquire l ("ratelimit:ses:" ++ p.workspace_id) rate_limit_wait_budget)
      (λ _. do inc rate_limit_waits; settle nak)
      (λ waited. do
        when (ltb 0 waited) (inc rate_limit_waits)
        try (exec (update_email_send_sending p.send_id p.workspace_id)) (λ _. settle nak)
            (λ _. render_and_send p attempt))

abbrev pub is_finished_row : Option SendStatus → Bool
is_finished_row none = Bool.false
is_finished_row (some s) = is_finished s

-- A valid payload: the check for a duplicate, then the send.
unfoldable pub handle_valid : TokenBucket → TransactionalEmailPayload → ℕ → M Unit
handle_valid l p attempt =
    try (exec (get_email_send_status p.send_id p.workspace_id)) (λ _. settle nak)
      (λ status. branch (is_finished_row status) (settle ack) (send_limited l p attempt))

-- After the payload is decoded.
unfoldable pub handle_decoded : TokenBucket → TransactionalEmailPayload → ℕ → M Unit
handle_decoded l p attempt =
    case_option (validate_payload p) (handle_valid l p attempt) (λ _. settle term)

unfoldable pub handle : TokenBucket → Msg TransactionalEmailPayload → M Unit
handle l msg = do
  inc emails_processed
  case_option msg.body (settle term) (λ p. handle_decoded l p (attempt_of msg))

-- The entry at an index, the last one past the end (`nextDelay`).
unfoldable pub delay_at : List ℕ → ℕ → ℕ
delay_at [] i = 0
delay_at (d ∷ []) i = d
delay_at (d ∷ d' ∷ rest) zero = d
delay_at (d ∷ d' ∷ rest) (suc i) = delay_at (d' ∷ rest) i

unfoldable pub next_delay : ℕ → ℕ
unfolding delay_at
next_delay attempt = delay_at retry_delays (attempt - 1)
