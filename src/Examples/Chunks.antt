-- ===== src/Examples/Chunks.antt =====
-- Runs of the campaign chunk handler.
use emailservice_worker.Prelude.{
  String, ◌≤◌, ◌+◌, refl, none, some, List, [], ◌∷◌, length, select_row,
}
use emailservice_worker.Types.{CampaignChunkRecipient, CampaignChunkPayload}
use emailservice_worker.Schema.{
  SendStatus, CampaignStatus, RecipientRow, CampaignRow, empty_database,
}
use emailservice_worker.Effect.{World, Msg}
use emailservice_worker.RateLimit.Bucket.{TokenBucket, new_token_bucket}
use emailservice_worker.Postgres.Recipients.Status.{pending}
use emailservice_worker.Email.Chunk.{handle_chunk_message}
use emailservice_worker.Email.Chunk.Settlement.{ChunkEnd, WhyTerminated, handle_chunk_message-End}
use emailservice_worker.Email.Chunk.AtMostOnce.Deliveries.{
  ChunkDelivery, deliver_chunk, deliver_chunk-mails,
}
use emailservice_worker.Examples.{
  calm, throttled, address, world_with, calm-SesIsCertain, calm-NoneIsLost, throttled-SesIsCertain,
  throttled-NoneIsLost,
}

abbrev limiter : TokenBucket
limiter = new_token_bucket 14

abbrev recipient_row : String → SendStatus → RecipientRow
recipient_row id s = record {
  id = id;
  campaign_id = "c1";
  workspace_id = "w1";
  contact_id = id;
  email = "ann@example.org";
  name = "Ann";
  status = s;
  provider_message_id = none;
  failure_reason = none;
  sent_at = none;
  updated_at = 0;
}

abbrev pub campaign : CampaignRow
campaign = record {
  id = "c1";
  workspace_id = "w1";
  status = CampaignStatus.sending;
  segment_id = none;
  sender_email = none;
  sender_name = none;
  reply_to = none;
  subject = none;
  html_body = none;
  text_body = none;
  total_recipients = 2;
  sent_count = 0;
  failed_count = 0;
  failure_reason = none;
  started_at = none;
  completed_at = none;
  scheduled_at = none;
  deleted_at = none;
  updated_at = 0;
}

abbrev pub world : World
world = world_with (record empty_database {
  campaigns = campaign ∷ [];
  campaign_recipients =
      recipient_row "r1" SendStatus.queued ∷ recipient_row "r2" SendStatus.sent ∷ [];
})

abbrev recipient : String → CampaignChunkRecipient
recipient id = record { recipient_id = id; email = "ann@example.org"; name = "Ann" }

abbrev pub chunk : CampaignChunkPayload
chunk = record {
  campaign_id = "c1";
  workspace_id = "w1";
  chunk_id = "c1-chunk-0";
  sender = address;
  reply_to = "";
  subject = "News";
  html = "<p>News</p>";
  text = "";
  recipients = recipient "r1" ∷ recipient "r2" ∷ [];
}

abbrev message : Msg CampaignChunkPayload
message = record { body = some chunk; num_delivered = some 6 }

handle_chunk_message-End_example :
    ChunkEnd (WhyTerminated message) [] (handle_chunk_message limiter message throttled world).1
handle_chunk_message-End_example = handle_chunk_message-End limiter message throttled world

abbrev deliveries : List ChunkDelivery
deliveries = (some 1, throttled) ∷ (some 2, calm) ∷ (none, calm) ∷ []

-- One of the two recipients is still to be sent to.
deliver_chunk-mails_example :
    let w' = deliver_chunk limiter chunk deliveries world in
    length w'.mails + pending "w1" w'.db chunk.recipients ≤ 1
unfolding pending select_row
deliver_chunk-mails_example =
    deliver_chunk-mails limiter chunk deliveries world
      (
        throttled-SesIsCertain,
        throttled-NoneIsLost,
        (calm-SesIsCertain, calm-NoneIsLost, (calm-SesIsCertain, calm-NoneIsLost, tt)),
      )
      (
        (recipient_row "r1" SendStatus.queued, refl, refl),
        ((recipient_row "r2" SendStatus.sent, refl, refl), tt),
      )
