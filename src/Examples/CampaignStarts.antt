-- ===== src/Examples/CampaignStarts.antt =====
-- The start of a campaign on concrete data.
use Prim.Native.String.{String}
use emailservice_worker.Prelude.{◌≢◌, refl, none, some, [], ◌∷◌}
use emailservice_worker.Types.{CampaignStartPayload}
use emailservice_worker.Schema.{ContactRecord, MembershipRow, Database, empty_database}
use emailservice_worker.Effect.Errors.{err, out_of_fuel}
use emailservice_worker.Email.Batcher.{stream_and_chunk}
use emailservice_worker.Email.Batcher.Rounds.{stream_and_chunk-ends}
use emailservice_worker.Examples.{calm, world_with, address}
use emailservice_worker.Examples.Refreshes.{uuid}

abbrev start : CampaignStartPayload
start = record {
  job_id = "j1";
  workspace_id = "w1";
  campaign_id = "k1";
  segment_id = "g1";
  sender = address;
  reply_to = "";
  subject = "Hello";
  html = "<p>Hi</p>";
  text = "";
}

abbrev contact : String → ContactRecord
contact id = record {
  id = id;
  workspace_id = "w1";
  user_id = none;
  anonymous_id = none;
  email = some "ann@example.org";
  first_name = some "Ann";
  last_name = none;
  phone = none;
  lifecycle_stage = none;
  lead_score = none;
  properties = none;
  traits = none;
  status = "active";
  is_suppressed = none;
  is_email_valid = none;
  created_at = 0;
  updated_at = 0;
  deleted_at = none;
}

abbrev membership : String → MembershipRow
membership id = record { segment_id = "g1"; workspace_id = "w1"; contact_id = id }

abbrev segment_db : Database
segment_db = record empty_database {
  contacts = contact "c2" ∷ contact "c1" ∷ contact "c3" ∷ [];
  segment_memberships = membership "c1" ∷ membership "c2" ∷ membership "c3" ∷ [];
}

stream_and_chunk-ends_example :
    (stream_and_chunk uuid (λ seed i. seed) (λ n. "n") 2 start calm (world_with segment_db)).0
    ≢ err out_of_fuel
stream_and_chunk-ends_example =
    stream_and_chunk-ends uuid (λ seed i. seed) (λ n. "n") 2 start calm (world_with segment_db)
      (refl, (refl, (refl, tt)))
