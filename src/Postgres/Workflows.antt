-- ===== src/Postgres/Workflows.antt =====
-- The statements on workflows and workflow_executions of internal/infra/postgres/client.go, and
-- `GetContactForWorkflow`.
use emailservice_worker.Prelude.{
  ℕ, suc, String, Bool, ◌&&◌, Option, none, some, List, [], ◌∷◌, ◌++◌, map, ◌=ₛ◌, leb, select_row,
  select_rows, update_rows, order_rows, limit_rows, map_option,
}
use emailservice_worker.Types.{Fields}
use emailservice_worker.Schema.{WorkflowRecord, ExecutionRecord, Database}
use emailservice_worker.Effect.{Stmt}
use emailservice_worker.Effect.Errors.{Result, ok, err, text}
use emailservice_worker.Postgres.Recipients.{coalesce}
use emailservice_worker.Postgres.Identity.{ContactRow, find_contact_by_user_id}
use emailservice_worker.Postgres.DueCampaigns.{at_most_now}

pub record WorkflowRow : Type 0 where
  pub id : String
  pub workspace_id : String
  pub status : String
  pub nodes : String

-- The decoded nodes: `type` is trigger, email, delay or end.
pub record WorkflowNode : Type 0 where
  pub id : String
  pub node_type : String
  pub config : Fields
  pub next_node : String

abbrev pub loaded_workflow : WorkflowRecord → WorkflowRow
loaded_workflow r = record {
  id = r.id;
  workspace_id = r.workspace_id;
  status = coalesce r.status "draft";
  nodes = coalesce r.nodes "[]";
}

abbrev pub is_workflow : String → String → WorkflowRecord → Bool
is_workflow workflow_id workspace_id r = r.id =ₛ workflow_id && r.workspace_id =ₛ workspace_id

unfoldable pub get_workflow : String → String → Stmt (Option WorkflowRow)
get_workflow workflow_id workspace_id now db = (
  ok (map_option loaded_workflow (select_row (is_workflow workflow_id workspace_id) db.workflows)),
  db,
)

pub record ExecutionRow : Type 0 where
  pub id : String
  pub workspace_id : String
  pub workflow_id : String
  pub contact_id : String
  pub status : String
  pub current_node_id : String
  pub next_run_at : Option ℕ
  pub retry_count : ℕ
  pub failure_reason : String

-- The columns of the unique constraint.
abbrev pub is_trigger : String → String → String → ExecutionRecord → Bool
is_trigger workflow_id contact_id trigger_event_id r =
    r.workflow_id =ₛ workflow_id
    && r.contact_id =ₛ contact_id
    && r.trigger_event_id =ₛ trigger_event_id

abbrev pub new_execution : String → String → String → String → String → ℕ → ExecutionRecord
new_execution id workflow_id workspace_id contact_id trigger_event_id now = record {
  id = id;
  workflow_id = workflow_id;
  workspace_id = workspace_id;
  contact_id = contact_id;
  trigger_event_id = trigger_event_id;
  status = "running";
  current_node_id = none;
  next_run_at = none;
  retry_count = none;
  failure_reason = none;
  completed_at = none;
  updated_at = now;
}

unfoldable pub add_execution :
    ExecutionRecord → Database → Option ExecutionRecord → Result (Option String) × Database
add_execution added db none =
    (ok (some added.id), record db { workflow_executions = db.workflow_executions ++ (added ∷ []) })
add_execution added db (some r) = (ok none, db)

-- `none` for a conflict; `id` is that of `gen_random_uuid()`.
unfoldable pub create_execution : String → String → String → String → String → Stmt (Option String)
unfolding add_execution
create_execution id workflow_id workspace_id contact_id trigger_event_id now db =
    add_execution (new_execution id workflow_id workspace_id contact_id trigger_event_id now) db
      (select_row (is_trigger workflow_id contact_id trigger_event_id) db.workflow_executions)

-- A row as it is loaded, with the status for NULL
abbrev pub loaded_execution : ExecutionRecord → ExecutionRow
loaded_execution r = record {
  id = r.id;
  workspace_id = r.workspace_id;
  workflow_id = r.workflow_id;
  contact_id = r.contact_id;
  status = r.status;
  current_node_id = coalesce r.current_node_id "";
  next_run_at = r.next_run_at;
  retry_count = coalesce r.retry_count 0;
  failure_reason = coalesce r.failure_reason "";
}

abbrev pub is_execution : String → ExecutionRecord → Bool
is_execution execution_id r = r.id =ₛ execution_id

unfoldable pub get_execution : String → Stmt (Option ExecutionRow)
get_execution execution_id now db = (
  ok (map_option loaded_execution (select_row (is_execution execution_id) db.workflow_executions)),
  db,
)

abbrev pub set_execution : String → (ExecutionRecord → ExecutionRecord) → Database → Database
set_execution execution_id f db = record db {
  workflow_executions = update_rows (is_execution execution_id) f db.workflow_executions;
}

abbrev pub as_advanced : String → String → ℕ → ExecutionRecord → ExecutionRecord
as_advanced node_id status now r = record r {
  current_node_id = some node_id;
  status = status;
  updated_at = now;
}

unfoldable pub advance_execution : String → String → String → Stmt Unit
advance_execution execution_id node_id status now db =
    (ok tt, set_execution execution_id (as_advanced node_id status now) db)

abbrev pub as_waiting : String → ℕ → ℕ → ExecutionRecord → ExecutionRecord
as_waiting node_id next_run_at now r = record r {
  status = "waiting";
  current_node_id = some node_id;
  next_run_at = some next_run_at;
  updated_at = now;
}

unfoldable pub schedule_delay : String → String → ℕ → Stmt Unit
schedule_delay execution_id node_id next_run_at now db =
    (ok tt, set_execution execution_id (as_waiting node_id next_run_at now) db)

abbrev pub as_completed : ℕ → ExecutionRecord → ExecutionRecord
as_completed now r = record r { status = "completed"; completed_at = some now; updated_at = now }

unfoldable pub complete_execution : String → Stmt Unit
complete_execution execution_id now db = (ok tt, set_execution execution_id (as_completed now) db)

abbrev pub as_failed : String → ℕ → ExecutionRecord → ExecutionRecord
as_failed reason now r = record r {
  status = "failed";
  failure_reason = some reason;
  updated_at = now;
}

unfoldable pub fail_execution : String → String → Stmt Unit
fail_execution execution_id reason now db =
    (ok tt, set_execution execution_id (as_failed reason now) db)

abbrev as_retried : ℕ → ExecutionRecord → ExecutionRecord
as_retried now r = record r {
  retry_count = some (suc (coalesce r.retry_count 0));
  updated_at = now;
}

-- Without a row, `Scan` gives `ErrNoRows`.
abbrev returned_count : Option ExecutionRecord → Result ℕ
returned_count none = err (text "no rows in result set")
returned_count (some r) = ok (coalesce r.retry_count 0)

unfoldable pub increment_execution_retry : String → Stmt ℕ
increment_execution_retry execution_id now db =
    let db' = set_execution execution_id (as_retried now) db in
    (returned_count (select_row (is_execution execution_id) db'.workflow_executions), db')

abbrev pub is_waiting : ExecutionRecord → Bool
is_waiting r = r.status =ₛ "waiting"

-- `status = 'waiting' AND next_run_at <= NOW()`
abbrev pub is_due_execution : ℕ → ExecutionRecord → Bool
is_due_execution now r = is_waiting r && at_most_now now r.next_run_at

abbrev runs_before : ExecutionRecord → ExecutionRecord → Bool
runs_before a b = leb (coalesce a.next_run_at 0) (coalesce b.next_run_at 0)

unfoldable pub fetch_due_executions : ℕ → Stmt (List ExecutionRow)
fetch_due_executions limit now db = (
  ok (
      map loaded_execution (
        limit_rows limit
          (order_rows runs_before (select_rows (is_due_execution now) db.workflow_executions)))),
  db,
)

-- The contact's id is passed for the user's.
unfoldable pub get_contact_for_workflow : String → String → Stmt (Option ContactRow)
unfolding find_contact_by_user_id
get_contact_for_workflow contact_id workspace_id = find_contact_by_user_id workspace_id contact_id
