-- ===== src/Effect.antt =====
-- What a worker does to the world outside: the database, Redis, the queue, SES and the clock. An
-- operation is a function of the environment, which decides how each outside call ends, and of the
-- world that it changes. Go's errors are values of the result.
pub mod Errors
pub mod Keeps
pub mod Yields
pub mod Gives
pub mod Ends
use emailservice_worker.Prelude.{
  ℕ, suc, ◌+◌, String, Bool, Option, none, some, List, [], ◌∷◌, ◌=ₛ◌, if◌then◌else◌,
}
use emailservice_worker.Types.{Payload}
use emailservice_worker.Schema.{Database}
use emailservice_worker.RateLimit.Bucket.{Bucket}
use emailservice_worker.Effect.Errors.{Error, Result, ok, err}

-- How an outside call ends: it is done; it failed and did nothing; it was done, and the reply was
-- an error all the same (a lost connection, a deadline).
pub data Fate : Type 0 where
  done : Fate
  lost : Error → Fate
  unsure : Error → Fate

-- Each outside call reads its outcome at the number of the calls before it, so that nothing is
-- assumed of how outcomes hang together. `delay` is the time that passes with the call.
pub record Env : Type 0 where
  pub db_fate : ℕ → Fate
  pub ses_fate : ℕ → Fate
  pub publish_fate : ℕ → Fate
  pub redis_fate : ℕ → Fate
  pub delay : ℕ → ℕ
  pub ctx_err : ℕ → Option String
  pub uuid : ℕ → String
  pub message_id : ℕ → String
  pub duration_text : ℕ → String
  pub time_text : ℕ → String
  pub dkim_status : ℕ → Option String

-- What a handler tells JetStream about its message.
pub data Settlement : Type 0 where
  ack nak term : Settlement
  nak_with_delay : ℕ → Settlement

-- The Prometheus counters that the workers increment.
pub data Metric : Type 0 where
  emails_processed emails_sent emails_failed email_retries email_ses_failures : Metric
  rate_limit_waits dlq_events : Metric
  campaign_emails_sent campaign_emails_failed campaign_chunk_retries campaign_chunk_dlq : Metric
  campaigns_processed campaigns_completed campaign_recipients_resolved : Metric
  campaign_chunks_created : Metric
  verify_success verify_failure verify_retries ses_api_failures : Metric
  refresh_jobs contacts_matched membership_inserts membership_removals : Metric
  refresh_failures refresh_retries : Metric
  audit_logs_deleted events_raw_deleted : Metric
  events_processed enrich_failures workflows_triggered event_retries duplicate_drops : Metric
  workflow_triggers workflow_executions_started workflow_emails_triggered : Metric
  workflow_delays_scheduled workflow_completions workflow_failures : Metric

-- An accepted publication: subject, payload and the deduplication key.
pub record Published : Type 0 where
  pub subject : String
  pub payload : Payload
  pub msg_id : String

-- A request that SES has accepted (`sesv1.SendEmailInput`).
pub record Mail : Type 0 where
  pub source : String
  pub to : List String
  pub reply_to : List String
  pub subject : String
  pub html : Option String
  pub text : Option String
  pub tags : List (String × String)

-- The lists have their newest element first. `settled` is what was said of the current message.
pub record World : Type 0 where
  pub db : Database
  pub buckets : String → Option Bucket
  pub locks : String → Option (String × ℕ)
  pub outbox : List Published
  pub mails : List Mail
  pub settled : List Settlement
  pub metrics : List (Metric × ℕ)
  pub tick : ℕ
  pub clock : ℕ

abbrev pub M : Type 0 → Type 0
M A = Env → World → A × World

-- A statement of the database at its time `NOW()`.
abbrev pub Stmt : Type 0 → Type 0
Stmt A = ℕ → Database → Result A × Database

-- The message as a handler gets it: its payload (`none` where JSON decoding fails), and
-- `NumDelivered` of its metadata (`none` where that fails).
pub record Msg (P : Type 0) : Type 0 where
  pub body : Option P
  pub num_delivered : Option ℕ

-- `attempt := 1`, or what the metadata says
unfoldable pub attempt_of : {P : Type 0} → Msg P → ℕ
attempt_of msg = elim msg.num_delivered [ none ↦ 1 | some n ↦ n ]

-- One outside call goes by.
abbrev pub step : Env → World → World
step e w = record w { tick = suc w.tick; clock = w.clock + e.delay w.tick }

module _ {A : Type 0} where
  unfoldable pub pure : A → M A
  pure a e w = (a, w)

  run_stmt : Fate → Stmt A → World → Result A × World
  run_stmt done s w = let (r, db) = s w.clock w.db in (r, record w { db = db })
  run_stmt (lost x) s w = (err x, w)
  run_stmt (unsure x) s w = (err x, record w { db = (s w.clock w.db).1 })

  -- `Pool.QueryRow`, `Pool.Query`, `Pool.Exec`, and a transaction as a whole
  unfoldable pub exec : Stmt A → M (Result A)
  unfolding run_stmt
  exec s e w = run_stmt (e.db_fate w.tick) s (step e w)

module _ {A B : Type 0} where
  infixl 5 ◌>>=◌ ◌>>◌
  unfoldable pub ◌>>=◌ : M A → (A → M B) → M B
  unfolding pure
  ◌>>=◌ m f e w = let (a, w') = m e w in f a e w'

  unfoldable pub ◌>>◌ : M A → M B → M B
  ◌>>◌ m k e w = k e (m e w).1

  unfoldable pub case_result : Result A → (Error → M B) → (A → M B) → M B
  case_result (ok a) on_error k = k a
  case_result (err x) on_error k = on_error x

  -- `a, err := m; if err != nil { on_error; return }; k`
  unfoldable pub try : M (Result A) → (Error → M B) → (A → M B) → M B
  unfolding case_result
  try m on_error k e w = let (r, w') = m e w in case_result r on_error k e w'

  -- A match on an `Option`, as on a pointer that may be nil.
  unfoldable pub case_option : Option A → M B → (A → M B) → M B
  case_option none k f = k
  case_option (some a) k f = f a

-- `if test { yes } else { no }`
unfoldable pub branch : {A : Type 0} → Bool → M A → M A → M A
branch b m k = if b then m else k

-- `if test { m }`, going on after it
unfoldable pub when : Bool → M Unit → M Unit
unfolding pure
when b m = if b then m else pure tt

-- `_ = msg.Ack()` and its like: the error is dropped
unfoldable pub settle : Settlement → M Unit
settle s e w = (tt, record w { settled = s ∷ w.settled })

unfoldable pub inc : Metric → M Unit
inc m e w = (tt, record w { metrics = (m, 1) ∷ w.metrics })

unfoldable pub add_metric : Metric → ℕ → M Unit
add_metric m n e w = (tt, record w { metrics = (m, n) ∷ w.metrics })

-- `time.Now()`
unfoldable pub now : M ℕ
now e w = (w.clock, w)

-- `ctx.Err()` by its text, with `none` for nil
unfoldable pub ctx_err : M (Option String)
ctx_err e w = (e.ctx_err w.tick, step e w)

unfoldable pub new_uuid : M String
new_uuid e w = (e.uuid w.tick, step e w)

-- `time.After(d)` has fired: at least `d` has passed.
unfoldable pub sleep : ℕ → M Unit
sleep d e w = let w' = step e w in (tt, record w' { clock = w'.clock + d })

unfoldable pub send_with : Fate → Mail → String → World → Result String × World
send_with done m id w = (ok id, record w { mails = m ∷ w.mails })
send_with (lost x) m id w = (err x, w)
send_with (unsure x) m id w = (err x, record w { mails = m ∷ w.mails })

-- `API.SendEmail` of the SES client library
unfoldable pub api_send_email : Mail → M (Result String)
unfolding send_with
api_send_email m e w = send_with (e.ses_fate w.tick) m (e.message_id w.tick) (step e w)

publish_with : Fate → Published → World → Result Unit × World
publish_with done p w = (ok tt, record w { outbox = p ∷ w.outbox })
publish_with (lost x) p w = (err x, w)
publish_with (unsure x) p w = (err x, record w { outbox = p ∷ w.outbox })

-- `JetStream.Publish`
unfoldable pub js_publish : Published → M (Result Unit)
unfolding publish_with
js_publish p e w = publish_with (e.publish_fate w.tick) p (step e w)

redis_with : {A : Type 0} → Fate → (World → A × World) → World → Result A × World
redis_with done f w = let (a, w') = f w in (ok a, w')
redis_with (lost x) f w = (err x, w)
redis_with (unsure x) f w = (err x, (f w).1)

-- A command of Redis, or a script, which runs as one
unfoldable pub redis : {A : Type 0} → (World → A × World) → M (Result A)
unfolding redis_with
redis f e w = redis_with (e.redis_fate w.tick) f (step e w)

-- `Format(time.RFC3339)`
unfoldable pub format_time : ℕ → M String
format_time t e w = (e.time_text t, w)

-- `APIV2.GetEmailIdentity` of the SES client library: the DKIM status, with `none` for no attributes.
unfoldable pub identity_with : Fate → Option String → World → Result (Option String) × World
identity_with done o w = (ok o, w)
identity_with (lost x) o w = (err x, w)
identity_with (unsure x) o w = (err x, w)

unfoldable pub get_email_identity : String → M (Result (Option String))
unfolding identity_with
get_email_identity domain e w = identity_with (e.ses_fate w.tick) (e.dkim_status w.tick) (step e w)
