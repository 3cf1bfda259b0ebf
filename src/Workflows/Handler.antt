-- ===== src/Workflows/Handler.antt =====
-- The trigger and register handlers of internal/worker/workflows/handler.go.
pub mod Settlement
pub mod Once
use Prim.Native.String.{◌++◌}
use emailservice_worker.Prelude.{
  ℕ, String, Bool, true, false, not, ◌||◌, Option, none, List, [], ◌=ₛ◌, leb,
}
use emailservice_worker.Types.{WorkflowTriggerPayload, WorkflowRegisterPayload}
use emailservice_worker.Effect.{
  M, Msg, ack, nak, term, attempt_of, pure, exec, ◌>>=◌, ◌>>◌, try, case_result, case_option,
  branch, when, settle, inc, new_uuid, workflow_triggers, workflow_executions_started,
  workflow_completions, workflow_delays_scheduled, workflow_failures,
}
use emailservice_worker.Effect.Errors.{Error, Result, message, is_out_of_fuel}
use emailservice_worker.Locks.{acquire_lock, release_lock}
use emailservice_worker.Email.Validate.{is_empty}
use emailservice_worker.Segments.Handler.{is_lock_not_acquired}
use emailservice_worker.Postgres.Workflows.{
  WorkflowRow, WorkflowNode, ExecutionRow, get_workflow, create_execution, fail_execution,
}
use emailservice_worker.Workflows.Executor.{
  Parsers, status_running, status_completed, status_waiting, parse_workflow_nodes, run,
}

-- In milliseconds: five minutes.
abbrev pub trigger_lock_ttl : ℕ
trigger_lock_ttl = 300000

abbrev pub execution_lock : String → String
execution_lock id = "workflow:execution:" ++ id

unfoldable pub record_outcome : String → M Unit
record_outcome status = do
  when (status =ₛ status_completed) (inc workflow_completions)
  when (status =ₛ status_waiting) (inc workflow_delays_scheduled)

module _ (g : Parsers) (fuel max_retries : ℕ) (p : WorkflowTriggerPayload) (attempt : ℕ) where
  -- `nak`
  unfoldable pub nak_trigger : M Unit
  nak_trigger =
      branch (leb max_retries attempt) (do inc workflow_failures; settle term) (settle nak)

  abbrev pub started : String → ExecutionRow
  started id = record {
    id = id;
    workspace_id = p.workspace_id;
    workflow_id = p.workflow_id;
    contact_id = p.contact_id;
    status = status_running;
    current_node_id = "";
    next_run_at = none;
    retry_count = 0;
    failure_reason = "";
  }

  -- Has `Run` returned? Until it has, the handler does nothing after it.
  unfoldable pub run_execution : String → List WorkflowNode → M Bool
  run_execution id nodes =
      try (run g fuel (started id) nodes)
        (λ x.
          branch (is_out_of_fuel x) (pure false) (do
            exec (fail_execution id (message x))
            inc workflow_failures
            nak_trigger
            pure true))
        (λ status. do record_outcome status; settle ack; pure true)

  unfoldable pub run_nodes : String → WorkflowRow → M Bool
  run_nodes id wf =
      case_result (parse_workflow_nodes g wf.nodes)
        (λ x. do
          exec (fail_execution id ("invalid nodes: " ++ message x))
          inc workflow_failures
          settle term
          pure true)
        (run_execution id)

  -- A new execution
  unfoldable pub start_execution : WorkflowRow → String → M Unit
  start_execution wf id = do
    inc workflow_executions_started
    try (acquire_lock (execution_lock id) ("trigger-" ++ p.event_id) trigger_lock_ttl)
        (λ x. branch (is_lock_not_acquired x) (settle ack) nak_trigger)
        (λ _. do
          returned ← run_nodes id wf
          when returned (do release_lock (execution_lock id) ("trigger-" ++ p.event_id); pure tt))

  unfoldable pub create : WorkflowRow → M Unit
  create wf = do
    id ← new_uuid
    try (exec (create_execution id p.workflow_id p.workspace_id p.contact_id p.event_id))
        (λ _. nak_trigger) (λ created. case_option created (settle ack) (start_execution wf))

  unfoldable pub trigger : M Unit
  trigger =
      try (exec (get_workflow p.workflow_id p.workspace_id)) (λ _. nak_trigger)
        (λ found.
          case_option found (settle term)
            (λ wf. branch (not (wf.status =ₛ "published")) (settle ack) (create wf)))

-- `TriggerHandler.Handle`
unfoldable pub handle_trigger : Parsers → ℕ → ℕ → Msg WorkflowTriggerPayload → M Unit
handle_trigger g fuel max_retries msg = do
  inc workflow_triggers
  case_option msg.body (settle term) (λ p.
      branch (is_empty p.workspace_id || is_empty p.workflow_id || is_empty p.contact_id)
        (settle term) (trigger g fuel max_retries p (attempt_of msg)))

-- `RegisterHandler.Handle`
unfoldable pub handle_register : Msg WorkflowRegisterPayload → M Unit
handle_register msg = case_option msg.body (settle term) (λ p.
    branch (is_empty p.workspace_id || is_empty p.workflow_id) (settle term) (
      try (exec (get_workflow p.workflow_id p.workspace_id)) (λ _. settle nak)
        (λ wf. case_option wf (settle term) (λ _. settle ack))))
