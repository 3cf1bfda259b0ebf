-- ===== src/Workflows/Scheduler.antt =====
-- The scheduler of delays, internal/worker/workflows/scheduler.go.
pub mod Guard
use Prim.Native.String.{◌++◌}
use emailservice_worker.Prelude.{
  ℕ, String, Bool, true, false, not, Option, none, some, List, [], ◌∷◌, ◌=ₛ◌,
}
use emailservice_worker.Effect.{
  M, pure, exec, ◌>>=◌, ◌>>◌, try, case_result, case_option, branch, when, ctx_err,
}
use emailservice_worker.Effect.Errors.{Error, Result, message, is_out_of_fuel}
use emailservice_worker.Locks.{acquire_lock, release_lock}
use emailservice_worker.Postgres.Workflows.{
  WorkflowRow, WorkflowNode, ExecutionRow, get_workflow, get_execution, fail_execution,
  fetch_due_executions,
}
use emailservice_worker.Workflows.Executor.{
  Parsers, status_waiting, parse_workflow_nodes, resume_from_delay,
}
use emailservice_worker.Workflows.Handler.{execution_lock}

abbrev pub scheduler_lock_key : String
scheduler_lock_key = "workflow:scheduler:lock"

-- In milliseconds
abbrev pub scheduler_lock_ttl : ℕ
scheduler_lock_ttl = 45000

abbrev pub resume_lock_ttl : ℕ
resume_lock_ttl = 120000

abbrev pub scheduler_batch : ℕ
scheduler_batch = 50

module _ (g : Parsers) (fuel : ℕ) where
  -- The row as it is now. The answer, here and below, is whether `Run` has returned: until it has,
  -- the scheduler does nothing after it.
  unfoldable pub resume_latest : String → List WorkflowNode → Option ExecutionRow → M Bool
  resume_latest id nodes latest = case_option latest (pure true) (λ row.
      branch (not (row.status =ₛ status_waiting)) (pure true) (
        try (resume_from_delay g fuel row nodes)
          (λ x.
            branch (is_out_of_fuel x) (pure false)
              (do exec (fail_execution id (message x)); pure true))
          (λ _. pure true)))

  -- The last part of `resume`, once the nodes are there
  unfoldable pub resume_nodes : ExecutionRow → List WorkflowNode → M Bool
  resume_nodes e nodes = try (exec (get_execution e.id)) (λ _. pure true) (resume_latest e.id nodes)

  abbrev pub not_found : ExecutionRow → M Bool
  not_found e = do exec (fail_execution e.id "workflow not found during resume"); pure true

  -- With the lock of the execution
  unfoldable pub resume_locked : ExecutionRow → M Bool
  resume_locked e =
      try (exec (get_workflow e.workflow_id e.workspace_id)) (λ _. not_found e)
        (λ found. case_option found (not_found e) (λ wf.
          case_result (parse_workflow_nodes g wf.nodes)
            (λ x. do
              exec (fail_execution e.id ("invalid workflow nodes: " ++ message x))
              pure true)
            (resume_nodes e)))

  unfoldable pub resume : ExecutionRow → M Bool
  resume e =
      try (acquire_lock (execution_lock e.id) "scheduler-resume" resume_lock_ttl) (λ _. pure true)
        (λ _. do
          returned ← resume_locked e
          when returned (do release_lock (execution_lock e.id) "scheduler-resume"; pure tt)
          pure returned)

  -- The context is checked before each execution.
  unfoldable pub resume_all : List ExecutionRow → M Bool
  resume_all [] = pure true
  resume_all (e ∷ es) = do
    let rest = resume_all es
    stopped ← ctx_err
    case_option stopped (do returned ← resume e; branch returned rest (pure false)) (λ _. pure true)

  -- `poll`
  unfoldable pub poll_due : M Unit
  poll_due =
      try (acquire_lock scheduler_lock_key "scheduler" scheduler_lock_ttl) (λ _. pure tt)
        (λ _. do
          returned ← try (exec (fetch_due_executions scheduler_batch)) (λ _. pure true) resume_all
          when returned (do release_lock scheduler_lock_key "scheduler"; pure tt))
