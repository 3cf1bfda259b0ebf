-- ===== src/Email/Chunk.antt =====
-- The campaign chunk handler of internal/worker/email/handler.go.
pub mod Settlement
pub mod AtMostOnce
use Prim.Native.String.{◌++◌ as ◌+ₛ◌}
use emailservice_worker.Prelude.{
  ℕ, suc, ◌+◌, String, Bool, ◌&&◌, ◌||◌, Option, none, some, List, [], ◌∷◌, ◌++◌, ltb, leb, ◌=ₛ◌,
  if◌then◌else◌,
}
use emailservice_worker.Types.{CampaignChunkPayload, CampaignChunkRecipient, delivery, campaign_dlq}
use emailservice_worker.Effect.{
  M, Msg, ack, nak, term, attempt_of, pure, exec, ◌>>=◌, ◌>>◌, try, case_result, case_option,
  branch, when, settle, inc, now, ctx_err, rate_limit_waits, email_ses_failures,
  campaign_emails_sent, campaign_emails_failed, campaign_chunk_retries, campaign_chunk_dlq,
  campaigns_completed,
}
use emailservice_worker.Effect.Errors.{Error, message}
use emailservice_worker.RateLimit.Bucket.{TokenBucket}
use emailservice_worker.RateLimit.Acquire.{acquire}
use emailservice_worker.Queue.Publisher.{publish}
use emailservice_worker.Ses.Client.{SendEmailInput, send_email, is_permanent_error}
use emailservice_worker.Postgres.Recipients.{
  get_campaign_recipient_status, mark_campaign_recipient_sending, mark_campaign_recipient_sent,
  mark_campaign_recipient_failed,
}
use emailservice_worker.Postgres.Campaigns.{
  CampaignProgress, increment_campaign_counts, mark_campaign_complete,
}
use emailservice_worker.Email.Renderer.{Rendered, render}
use emailservice_worker.Email.Validate.{has_none, validate_campaign_chunk}
use emailservice_worker.Email.Handler.{
  subject_events, status_sent, status_failed, max_attempts, rate_limit_wait_budget, is_finished_row,
}

abbrev pub subject_campaign_dlq : String
subject_campaign_dlq = "campaign.send.dlq"

-- `recipientOutcome`, whose reason is set for a transient failure only
pub data RecipientOutcome : Type 0 where
  delivered duplicate permanent : RecipientOutcome
  transient : String → RecipientOutcome

pub record ChunkResult : Type 0 where
  pub sent : ℕ
  pub permanent_failed : ℕ
  pub transient_failed : ℕ
  pub transient_reason : String

unfoldable pub reply_to_list : String → List String
reply_to_list reply_to = if reply_to =ₛ "" then [] else reply_to ∷ []

-- `publishDeliveryEvent` of the chunk handler; its error is only logged.
unfoldable pub publish_recipient_event :
    CampaignChunkPayload → String → String → String → String → M Unit
publish_recipient_event chunk recipient_email provider_message_id status reason = do
  t ← now
  publish subject_events
      (delivery (record {
        workspace_id = chunk.workspace_id;
        send_id = "";
        campaign_id = chunk.campaign_id;
        recipient_email = recipient_email;
        provider_message_id = provider_message_id;
        status = status;
        reason = reason;
        timestamp = t;
      }))
      ("delivery-" +ₛ chunk.campaign_id +ₛ "-" +ₛ recipient_email +ₛ "-" +ₛ status)
  pure tt

unfoldable pub publish_campaign_dlq : CampaignChunkPayload → String → ℕ → M Unit
publish_campaign_dlq chunk reason attempt = do
  t ← now
  publish subject_campaign_dlq
      (campaign_dlq
        (record { payload = chunk; reason = reason; attempts = attempt; timestamp = t }))
      ("dlq-" +ₛ chunk.chunk_id)
  pure tt

unfoldable pub recipient_input :
    CampaignChunkPayload → CampaignChunkRecipient → Rendered → SendEmailInput
unfolding reply_to_list
recipient_input chunk r rendered = record {
  from = chunk.sender.email;
  from_name = chunk.sender.name;
  to = r.email ∷ [];
  reply_to = reply_to_list chunk.reply_to;
  subject = rendered.subject;
  html_body = rendered.html;
  text_body = rendered.text;
  tags = ("campaign_id", chunk.campaign_id) ∷ [];
}

unfoldable pub on_rejected :
    CampaignChunkPayload → CampaignChunkRecipient → Error → M RecipientOutcome
on_rejected chunk r x = do
  inc email_ses_failures
  branch (is_permanent_error x)
      (do
        exec (mark_campaign_recipient_failed r.recipient_id chunk.workspace_id (message x))
        publish_recipient_event chunk r.email "" status_failed (message x)
        inc campaign_emails_failed
        pure permanent)
      (pure (transient (message x)))

-- SES has accepted: an error of the database is only logged.
unfoldable pub on_accepted :
    CampaignChunkPayload → CampaignChunkRecipient → String → M RecipientOutcome
on_accepted chunk r message_id = do
  exec (mark_campaign_recipient_sent r.recipient_id chunk.workspace_id message_id)
  publish_recipient_event chunk r.email message_id status_sent ""
  inc campaign_emails_sent
  pure delivered

unfoldable pub send_to_recipient :
    TokenBucket → CampaignChunkPayload → CampaignChunkRecipient → Rendered → M RecipientOutcome
send_to_recipient l chunk r rendered =
    try (acquire l ("ratelimit:ses:" +ₛ chunk.workspace_id) rate_limit_wait_budget)
      (λ _. do inc rate_limit_waits; pure (transient "rate limit"))
      (λ _.
        try (exec (mark_campaign_recipient_sending r.recipient_id chunk.workspace_id))
          (λ x. pure (transient (message x)))
          (λ _.
            try (send_email (recipient_input chunk r rendered)) (on_rejected chunk r)
              (on_accepted chunk r)))

unfoldable pub process_recipient :
    TokenBucket → CampaignChunkPayload → CampaignChunkRecipient → Rendered → M RecipientOutcome
process_recipient l chunk r rendered =
    try (exec (get_campaign_recipient_status r.recipient_id chunk.workspace_id))
      (λ x. pure (transient (message x)))
      (λ status.
        branch (is_finished_row status) (pure duplicate) (send_to_recipient l chunk r rendered))

-- The loop's state: `res` and `transientRecipients`.
pub record ChunkState : Type 0 where
  pub res : ChunkResult
  pub left : List CampaignChunkRecipient

unfoldable pub tally : CampaignChunkRecipient → ChunkState → RecipientOutcome → ChunkState
tally r s delivered = record s { res = record s.res { sent = suc s.res.sent } }
tally r s duplicate = s
tally r s permanent = record s {
  res = record s.res { permanent_failed = suc s.res.permanent_failed };
}
tally r s (transient reason) = record {
  res = record s.res { transient_failed = suc s.res.transient_failed; transient_reason = reason };
  left = s.left ++ (r ∷ []);
}

-- One turn of the loop; a recipient is left for later once the context is cancelled.
unfoldable pub process_next :
    TokenBucket
    → CampaignChunkPayload
    → Rendered
    → CampaignChunkRecipient
    → ChunkState
    → M ChunkState
process_next l chunk rendered r s = do
  cancelled ← ctx_err
  case_option cancelled
      (do outcome ← process_recipient l chunk r rendered; pure (tally r s outcome))
      (λ _. pure (record s { left = s.left ++ (r ∷ []) }))

unfoldable pub process_all :
    TokenBucket
    → CampaignChunkPayload
    → Rendered
    → List CampaignChunkRecipient
    → ChunkState
    → M ChunkState
process_all l chunk rendered [] s = pure s
process_all l chunk rendered (r ∷ rs) s =
    process_next l chunk rendered r s >>= process_all l chunk rendered rs

-- Marks recipients failed, for as many as the database takes, and counts those.
unfoldable pub mark_all_failed :
    CampaignChunkPayload → String → String → List CampaignChunkRecipient → ℕ → M ℕ
mark_all_failed chunk mark_reason event_reason [] failed = pure failed
mark_all_failed chunk mark_reason event_reason (r ∷ rs) failed =
    try (exec (mark_campaign_recipient_failed r.recipient_id chunk.workspace_id mark_reason))
      (λ _. mark_all_failed chunk mark_reason event_reason rs failed)
      (λ _. do
        publish_recipient_event chunk r.email "" status_failed event_reason
        mark_all_failed chunk mark_reason event_reason rs (suc failed))

-- With the counts after it: the errors are only logged, or not at all.
unfoldable pub fail_recipients :
    CampaignChunkPayload → String → String → List CampaignChunkRecipient → M Unit
fail_recipients chunk mark_reason event_reason rs = do
  failed ← mark_all_failed chunk mark_reason event_reason rs 0
  when (ltb 0 failed) (do
    exec (increment_campaign_counts chunk.campaign_id chunk.workspace_id 0 failed)
    exec (mark_campaign_complete chunk.campaign_id chunk.workspace_id)
    pure tt)

unfoldable pub fail_all_recipients : CampaignChunkPayload → String → M Unit
fail_all_recipients chunk reason = fail_recipients chunk reason reason chunk.recipients

unfoldable pub complete_if_done : CampaignChunkPayload → CampaignProgress → M Unit
complete_if_done chunk progress =
    when
      (leb progress.total_recipients (progress.sent_count + progress.failed_count)
        && ltb 0 progress.total_recipients)
      (try (exec (mark_campaign_complete chunk.campaign_id chunk.workspace_id)) (λ _. pure tt)
        (λ done. when done (inc campaigns_completed)))

-- The last delivery: what is left fails, and the chunk goes to the DLQ.
unfoldable pub give_up_chunk : CampaignChunkPayload → ℕ → ChunkState → M Unit
give_up_chunk chunk attempt s = do
  fail_recipients chunk ("max retries: " +ₛ s.res.transient_reason) s.res.transient_reason s.left
  publish_campaign_dlq chunk s.res.transient_reason attempt
  inc campaign_chunk_dlq
  settle term

-- What becomes of the chunk.
unfoldable pub conclude : CampaignChunkPayload → ℕ → ChunkState → M Unit
conclude chunk attempt s = branch (has_none s.left) (settle ack) (
    branch (leb max_attempts attempt) (give_up_chunk chunk attempt s)
      (do inc campaign_chunk_retries; settle nak))

unfoldable pub apply_progress : CampaignChunkPayload → ℕ → ChunkState → M Unit
apply_progress chunk attempt s =
    branch (ltb 0 s.res.sent || ltb 0 s.res.permanent_failed)
      (try
        (exec (
          increment_campaign_counts chunk.campaign_id chunk.workspace_id s.res.sent
            s.res.permanent_failed))
        (λ _. settle nak)
        (λ progress. do complete_if_done chunk progress; conclude chunk attempt s))
      (conclude chunk attempt s)

abbrev pub no_result : ChunkState
no_result = record {
  res = record { sent = 0; permanent_failed = 0; transient_failed = 0; transient_reason = "" };
  left = [];
}

unfoldable pub handle_chunk : TokenBucket → CampaignChunkPayload → ℕ → M Unit
handle_chunk l chunk attempt =
    case_result (render chunk.subject chunk.html chunk.text)
      (λ x. do fail_all_recipients chunk ("render: " +ₛ message x); settle term)
      (λ rendered.
        process_all l chunk rendered chunk.recipients no_result >>= apply_progress chunk attempt)

-- `CampaignChunkHandler.Handle`
unfoldable pub handle_chunk_message : TokenBucket → Msg CampaignChunkPayload → M Unit
handle_chunk_message l msg = case_option msg.body (settle term) (λ chunk.
    case_option (validate_campaign_chunk chunk) (handle_chunk l chunk (attempt_of msg))
      (λ _. settle term))
