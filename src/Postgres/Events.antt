-- ===== src/Postgres/Events.antt =====
-- The statements on events_raw, events_enriched and workflow_triggers of
-- internal/infra/postgres/client.go.
use emailservice_worker.Prelude.{
  ℕ, suc, String, Bool, true, ◌&&◌, ◌||◌, Option, none, some, List, [], ◌∷◌, ◌++◌, map, any, ◌=ₛ◌,
  select_row, select_rows, update_rows, if◌then◌else◌,
}
use emailservice_worker.Types.{Json}
use emailservice_worker.Schema.{RawEventRecord, EnrichedRecord, TriggerRecord, Database}
use emailservice_worker.Effect.{Stmt}
use emailservice_worker.Effect.Errors.{Result, ok, err, text}
use emailservice_worker.Postgres.Recipients.{coalesce}
use emailservice_worker.Postgres.Identity.{null_if_empty}

abbrev pub is_event : String → String → RawEventRecord → Bool
is_event event_id workspace_id r = r.id =ₛ event_id && r.workspace_id =ₛ workspace_id

-- "" without a row
abbrev pub status_or_empty : Option RawEventRecord → String
status_or_empty none = ""
status_or_empty (some r) = r.status

unfoldable pub get_raw_event_status : String → String → Stmt String
get_raw_event_status event_id workspace_id now db =
    (ok (status_or_empty (select_row (is_event event_id workspace_id) db.events_raw)), db)

abbrev set_events :
    (RawEventRecord → Bool) → (RawEventRecord → RawEventRecord) → Database → Database
set_events test f db = record db { events_raw = update_rows test f db.events_raw }

unfoldable pub mark_raw_event_processing : String → String → Stmt Unit
mark_raw_event_processing event_id workspace_id now db = (
  ok tt,
  set_events
      (λ r. is_event event_id workspace_id r && (r.status =ₛ "queued" || r.status =ₛ "processing"))
      (λ r. record r { status = "processing"; updated_at = now }) db,
)

unfoldable pub mark_raw_event_processed : String → String → Stmt Unit
mark_raw_event_processed event_id workspace_id now db = (
  ok tt,
  set_events (is_event event_id workspace_id)
      (λ r. record r { status = "processed"; processed_at = some now; updated_at = now }) db,
)

unfoldable pub mark_raw_event_failed : String → String → String → Stmt Unit
mark_raw_event_failed event_id workspace_id reason now db = (
  ok tt,
  set_events (is_event event_id workspace_id)
      (λ r. record r { status = "failed"; failure_reason = some reason; updated_at = now }) db,
)

-- Without a row, `Scan` gives `ErrNoRows`.
abbrev returned_attempts : Option RawEventRecord → Result ℕ
returned_attempts none = err (text "no rows in result set")
returned_attempts (some r) = ok (coalesce r.attempts 0)

unfoldable pub increment_raw_event_attempts : String → String → Stmt ℕ
increment_raw_event_attempts event_id workspace_id now db =
    let db' =
      set_events (is_event event_id workspace_id)
        (λ r. record r { attempts = some (suc (coalesce r.attempts 0)); updated_at = now }) db in
    (returned_attempts (select_row (is_event event_id workspace_id) db'.events_raw), db')

pub record EnrichedEventRow : Type 0 where
  pub workspace_id : String
  pub raw_event_id : String
  pub contact_id : String
  pub user_id : String
  pub anonymous_id : String
  pub event_type : String
  pub event_name : String
  pub properties : Json
  pub traits : Json
  pub context : Json
  pub enriched_data : Json

abbrev pub is_enriched : String → EnrichedRecord → Bool
is_enriched raw_event_id r = r.raw_event_id =ₛ raw_event_id

abbrev pub enriched_record : EnrichedEventRow → ℕ → EnrichedRecord
enriched_record row now = record {
  workspace_id = row.workspace_id;
  raw_event_id = row.raw_event_id;
  contact_id = null_if_empty row.contact_id;
  user_id = null_if_empty row.user_id;
  anonymous_id = null_if_empty row.anonymous_id;
  event_type = row.event_type;
  event_name = row.event_name;
  properties = row.properties;
  traits = row.traits;
  context = row.context;
  enriched_data = row.enriched_data;
  created_at = now;
}

-- `INSERT … ON CONFLICT (raw_event_id) DO NOTHING`
unfoldable pub add_enriched : EnrichedRecord → List EnrichedRecord → List EnrichedRecord
add_enriched r rows = if any (is_enriched r.raw_event_id) rows then rows else rows ++ (r ∷ [])

unfoldable pub insert_enriched_event : EnrichedEventRow → Stmt Unit
insert_enriched_event row now db = (
  ok tt,
  record db { events_enriched = add_enriched (enriched_record row now) db.events_enriched },
)

pub record WorkflowTriggerRule : Type 0 where
  pub workflow_id : String
  pub event_name : String
  pub event_type : String

-- `column = $n OR column IS NULL OR column = ''`
abbrev matches_or_empty : String → Option String → Bool
matches_or_empty s none = true
matches_or_empty s (some t) = t =ₛ s || t =ₛ ""

abbrev pub is_matching : String → String → String → TriggerRecord → Bool
is_matching workspace_id event_type event_name r =
    r.workspace_id =ₛ workspace_id
    && matches_or_empty event_type r.event_type
    && matches_or_empty event_name r.event_name
    && r.active

abbrev trigger_rule : TriggerRecord → WorkflowTriggerRule
trigger_rule r = record {
  workflow_id = r.workflow_id;
  event_name = coalesce r.event_name "";
  event_type = coalesce r.event_type "";
}

unfoldable pub find_matching_workflow_triggers :
    String → String → String → Stmt (List WorkflowTriggerRule)
find_matching_workflow_triggers workspace_id event_type event_name now db = (
  ok (
      map trigger_rule
        (select_rows (is_matching workspace_id event_type event_name) db.workflow_triggers)),
  db,
)
