-- ===== src/Examples.antt =====
-- The runs on concrete data: the environments and the worlds that they start from, and the payloads.
pub mod RateLimits
pub mod Sends
pub mod Chunks
pub mod Domains
pub mod Payloads
pub mod Campaigns
pub mod Locking
pub mod Refreshes
pub mod Workflows
pub mod Events
pub mod CampaignStarts
use emailservice_worker.Prelude.{
  ℕ, String, Bool, Option, none, some, List, [], ◌∷◌, arith, ◌=ₛ◌, ◌≡◌, ◌≢◌, false, eq_iff,
}
use emailservice_worker.Types.{EmailAddress, TransactionalEmailPayload}
use emailservice_worker.Schema.{SendStatus, EmailSendRow, Database, empty_database}
use emailservice_worker.Effect.{Fate, done, lost, unsure, Env, World, Mail, Msg}
use emailservice_worker.Effect.Keeps.OnDone.{SesIsCertain}
use emailservice_worker.Effect.Keeps.OnDb.{NoneIsLost}
use emailservice_worker.Effect.Errors.{Error, text, api}

-- Every outside call is done, each in a millisecond.
abbrev pub calm : Env
calm = record {
  db_fate = λ _. done;
  ses_fate = λ _. done;
  publish_fate = λ _. done;
  redis_fate = λ _. done;
  delay = λ _. 1;
  ctx_err = λ _. none;
  uuid = λ _. "u";
  message_id = λ _. "ses-1";
  duration_text = λ _. "1s";
  time_text = λ _. "2026-01-01T00:00:00Z";
  dkim_status = λ _. some "SUCCESS";
}

-- SES rejects every mail, and the publications are in doubt.
abbrev pub throttled : Env
throttled = record calm {
  ses_fate = λ _. lost (api "ThrottlingException" "slow down");
  publish_fate = λ _. unsure (text "timeout");
}

abbrev pub address : EmailAddress
address = record { email = "ann@example.org"; name = "Ann" }

abbrev pub payload : TransactionalEmailPayload
payload = record {
  send_id = "s1";
  workspace_id = "w1";
  job_id = "j1";
  to = address ∷ [];
  from = record { email = "shop@example.org"; name = "Shop" };
  reply_to = "";
  subject = "Hello";
  html = "<p>Hi</p>";
  text = "";
  provider = "ses";
  tags = [];
}

abbrev pub message : Msg TransactionalEmailPayload
message = record { body = some payload; num_delivered = some 1 }

abbrev pub send_row : SendStatus → EmailSendRow
send_row s = record {
  send_id = "s1";
  workspace_id = "w1";
  status = s;
  provider_message_id = none;
  failure_reason = none;
  updated_at = 0;
}

abbrev pub world_with : Database → World
world_with d = record {
  db = d;
  buckets = λ _. none;
  locks = λ _. none;
  outbox = [];
  mails = [];
  settled = [];
  metrics = [];
  tick = 0;
  clock = 5000;
}

abbrev pub with_send : SendStatus → World
with_send s = world_with (record empty_database { email_sends = send_row s ∷ [] })

pub calm-SesIsCertain : SesIsCertain calm
calm-SesIsCertain = λ n x. ground arith

pub throttled-SesIsCertain : SesIsCertain throttled
throttled-SesIsCertain = λ n x. ground arith

pub calm-NoneIsLost : NoneIsLost calm
calm-NoneIsLost = λ n x. ground arith

pub throttled-NoneIsLost : NoneIsLost throttled
throttled-NoneIsLost = λ n x. ground arith

-- Two texts that differ when they are computed.
pub differ : (s t : String) → (s =ₛ t) ≡ false → s ≢ t
differ s t h q = cc (h, (eq_iff s t).1 q)
