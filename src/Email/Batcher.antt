-- ===== src/Email/Batcher.antt =====
-- internal/worker/email/batcher.go: the stream of a campaign's contacts in chunks, and the handler of
-- campaign starts. `fresh` gives the ids of a bulk insert from one new uuid, `itoa` is the verb %d.
pub mod Idempotency
pub mod Rounds
use Prim.Native.String.{◌++◌}
use emailservice_worker.Prelude.{
  ℕ, zero, suc, ◌+◌, String, Bool, false, Option, none, some, List, [], ◌∷◌, map, length, ltb, ◌==◌,
  if◌then◌else◌,
}
use emailservice_worker.Types.{
  CampaignStartPayload, CampaignChunkPayload, CampaignChunkRecipient, campaign_chunk,
}
use emailservice_worker.Schema.{CampaignStatus}
use emailservice_worker.Effect.{
  M, Msg, ack, nak, term, pure, exec, ◌>>=◌, ◌>>◌, try, case_option, branch, settle, inc,
  add_metric, ctx_err, new_uuid, campaigns_processed, campaigns_completed,
  campaign_recipients_resolved, campaign_chunks_created,
}
use emailservice_worker.Effect.Errors.{Result, ok, err, text, wrap, out_of_fuel}
use emailservice_worker.Queue.Publisher.{publish}
use emailservice_worker.Postgres.BulkInsert.{
  Contact, CampaignRecipientRow, bulk_insert_campaign_recipients,
}
use emailservice_worker.Postgres.Campaigns.{
  is_ended, get_campaign_status, mark_campaign_complete_empty, update_campaign_started,
}
use emailservice_worker.Postgres.SegmentContacts.{join_members, fetch_segment_contacts_batch}
use emailservice_worker.Email.Validate.{validate_campaign_start}

abbrev pub subject_campaign_chunk : String
subject_campaign_chunk = "campaign.send.chunk"

-- `NewBatcher`
abbrev pub chunk_size_of : ℕ → ℕ
chunk_size_of n = if ltb n 1 then 500 else n

abbrev pub chunk_recipient : CampaignRecipientRow → CampaignChunkRecipient
chunk_recipient r = record { recipient_id = r.id; email = r.email; name = r.name }

abbrev pub last_contact : String → List Contact → String
last_contact id [] = id
last_contact id (c ∷ cs) = last_contact c.id cs

module _ (uuid : String → ℕ) (fresh : String → ℕ → String) (itoa : ℕ → String) (chunk_size : ℕ)
    (p : CampaignStartPayload) where
  unfoldable pub new_chunk : ℕ → List CampaignRecipientRow → CampaignChunkPayload
  new_chunk idx recipients = record {
    campaign_id = p.campaign_id;
    workspace_id = p.workspace_id;
    chunk_id = p.campaign_id ++ "-chunk-" ++ itoa idx;
    sender = p.sender;
    reply_to = p.reply_to;
    subject = p.subject;
    html = p.html;
    text = p.text;
    recipients = map chunk_recipient recipients;
  }

  -- The chunk of one page, and how many recipients it has.
  unfoldable pub publish_chunk : ℕ → List Contact → M (Result ℕ)
  publish_chunk idx contacts = do
    seed ← new_uuid
    try (exec (bulk_insert_campaign_recipients (fresh seed) p.campaign_id p.workspace_id contacts))
        (λ x. pure (err (wrap ("insert recipients (chunk " ++ itoa idx ++ ")") x)))
        (λ recipients. do
          add_metric campaign_recipients_resolved (length recipients)
          let chunk = new_chunk idx recipients
          try (publish subject_campaign_chunk (campaign_chunk chunk) chunk.chunk_id)
              (λ x. pure (err (wrap ("publish chunk " ++ itoa idx) x)))
              (λ _. do inc campaign_chunks_created; pure (ok (length recipients))))

  -- What follows a page. `next` is the rest of the loop, for the last id, the total and the index.
  unfoldable pub on_contacts :
      (String → ℕ → ℕ → M (Result (ℕ × ℕ))) → ℕ → ℕ → List Contact → M (Result (ℕ × ℕ))
  on_contacts next total idx [] = pure (ok (total, idx))
  on_contacts next total idx (c ∷ cs) =
      try (publish_chunk idx (c ∷ cs)) (λ x. pure (err x))
        (λ n.
          branch (ltb (length (c ∷ cs)) chunk_size) (pure (ok (total + n, suc idx)))
            (next (last_contact c.id cs) (total + n) (suc idx)))

  -- The loop, on fuel.
  unfoldable pub chunk_rounds : ℕ → String → ℕ → ℕ → M (Result (ℕ × ℕ))
  chunk_rounds zero after_id total idx = pure (err out_of_fuel)
  chunk_rounds (suc fuel) after_id total idx = do
    cancelled ← ctx_err
    case_option cancelled
        (try
          (exec (fetch_segment_contacts_batch uuid p.workspace_id p.segment_id after_id chunk_size))
          (λ x. pure (err (wrap "fetch contacts" x))) (on_contacts (chunk_rounds fuel) total idx))
        (λ s. pure (err (text s)))

  -- Each round but the last reads a row of the join that the rounds before it have not.
  unfoldable pub stream_and_chunk : M (Result (ℕ × ℕ))
  stream_and_chunk e w =
      let rows = join_members p.segment_id w.db.segment_memberships w.db.contacts in
      chunk_rounds (suc (length rows)) "" 0 0 e w

  -- The end of `Handle`, for the total.
  unfoldable pub finish_start : ℕ → M Unit
  finish_start total =
      branch (total == 0)
        (try (exec (mark_campaign_complete_empty p.campaign_id p.workspace_id)) (λ _. settle nak)
          (λ _. do inc campaigns_completed; settle ack))
        (try (exec (update_campaign_started p.campaign_id p.workspace_id total)) (λ _. settle nak)
          (λ _. settle ack))

  abbrev pub has_ended : Option CampaignStatus → Bool
  has_ended none = false
  has_ended (some s) = is_ended s

  unfoldable pub start_campaign : M Unit
  start_campaign =
      try (exec (get_campaign_status p.campaign_id p.workspace_id)) (λ _. settle nak)
        (λ status.
          branch (has_ended status) (settle ack)
            (try stream_and_chunk (λ _. settle nak) (λ r. finish_start r.0)))

unfoldable pub handle_campaign_start :
    (String → ℕ) → (String → ℕ → String) → (ℕ → String) → ℕ → Msg CampaignStartPayload → M Unit
handle_campaign_start uuid fresh itoa chunk_size msg = do
  inc campaigns_processed
  case_option msg.body (settle term) (λ p.
      case_option (validate_campaign_start p)
        (start_campaign uuid fresh itoa (chunk_size_of chunk_size) p) (λ _. settle term))
