-- ===== src/Workflows/Scheduler/Guard.antt =====
-- The check of the status before an execution is resumed, internal/worker/workflows/scheduler.go.
use emailservice_worker.Prelude.{
  ℕ, ◌≡◌, refl, ap, false, some, String, List, select_row, map_option, arith,
}
use emailservice_worker.Schema.{Database, ExecutionRecord}
use emailservice_worker.Effect.{Env, World, Published, redis, case_option, case_result}
use emailservice_worker.Effect.Errors.{ok}
use emailservice_worker.Effect.Yields.{DbIsUp}
use emailservice_worker.Effect.Keeps.{
  Keeps, Keeps-pure, Keeps-when, Ensures-branch_on, Ensures-try, Ensures-bind, Ensures-then,
}
use emailservice_worker.Effect.Keeps.OnStill.{Still, Still-query, Still-read, still_rules}
use emailservice_worker.Locks.{set_nx, delete_if, acquire_lock, release_lock}
use emailservice_worker.Postgres.Workflows.{
  WorkflowNode, WorkflowRow, ExecutionRow, is_execution, is_waiting, is_workflow, loaded_execution,
  loaded_workflow, get_workflow, get_execution,
}
use emailservice_worker.Workflows.Executor.{Parsers, parse_workflow_nodes}
use emailservice_worker.Workflows.Scheduler.{resume_latest, resume_nodes, resume_locked, resume}

module _ {env : Env} {d : Database} {o : List Published} where
  Still-set_nx : (k v : String) (ttl : ℕ) → Keeps env (Still d o) (redis (set_nx k v ttl))
  unfolding redis set_nx
  Still-set_nx k v ttl = record { at = λ w p. ground arith }

  Still-release_lock : (k v : String) → Keeps env (Still d o) (release_lock k v)
  unfolding release_lock redis delete_if
  Still-release_lock k v = record { at = λ w p. ground arith }

  Still-acquire_lock : (k v : String) (ttl : ℕ) → Keeps env (Still d o) (acquire_lock k v ttl)
  unfolding acquire_lock
  Still-acquire_lock k v ttl = search (still_rules, Still-set_nx) depth 20

module _ {env : Env} (up : DbIsUp env) {d : Database} {o : List Published} (g : Parsers) (fuel : ℕ)
    (e : ExecutionRow) (wf : WorkflowRow) (nodes : List WorkflowNode) (r : ExecutionRecord)
    (has_workflow : map_option loaded_workflow
        (select_row (is_workflow e.workflow_id e.workspace_id) d.workflows)
      ≡ some wf)
    (has_nodes : parse_workflow_nodes g wf.nodes ≡ ok nodes)
    (there : select_row (is_execution e.id) d.workflow_executions ≡ some r)
    (stopped : is_waiting r ≡ false) where
  Still-resume_nodes : Keeps env (Still d o) (resume_nodes g fuel e nodes)
  unfolding resume_nodes get_execution resume_latest case_option
  Still-resume_nodes =
      Still-query (get_execution e.id) (some (loaded_execution r)) _ _
        (λ t. ap (λ x. (ok (map_option loaded_execution x), d)) there) (λ _. Keeps-pure _)
        (Ensures-branch_on _ _ _ (λ _. Keeps-pure _) (λ t. absurd (ground (arith, t, stopped))))

  Still-resume_locked : Keeps env (Still d o) (resume_locked g fuel e)
  unfolding resume_locked get_workflow case_option case_result
  Still-resume_locked =
      Still-read (get_workflow e.workflow_id e.workspace_id) (some wf) _ _ up
        (λ t. ap (λ x. (ok x, d)) has_workflow) (rw has_nodes Still-resume_nodes)

  Still-resume : Keeps env (Still d o) (resume g fuel e)
  unfolding resume
  Still-resume =
      Ensures-try _ _ _ (Still-acquire_lock _ _ _) (λ _. Keeps-pure _)
        (λ _. Ensures-bind _ _ Still-resume_locked (λ returned.
          Ensures-then _ _
            (Keeps-when _ _ (Ensures-then _ _ (Still-release_lock _ _) (Keeps-pure tt)))
            (Keeps-pure returned)))

-- An execution that the poll found due and that has since been completed, has failed or runs is not
-- resumed: its row and all others stay as they are, and nothing is published, whatever Redis, the
-- queue and the clock do. The hypotheses: the statements are done, and the workflow is there, with
-- nodes that can be read.
pub resume-still :
    (g : Parsers) (fuel : ℕ) (e : ExecutionRow) (wf : WorkflowRow) (nodes : List WorkflowNode)
    (r : ExecutionRecord) (env : Env) (w : World)
    → DbIsUp env
    → map_option loaded_workflow
        (select_row (is_workflow e.workflow_id e.workspace_id) w.db.workflows)
      ≡ some wf
    → parse_workflow_nodes g wf.nodes ≡ ok nodes
    → select_row (is_execution e.id) w.db.workflow_executions ≡ some r
    → is_waiting r ≡ false
    → let w' = (resume g fuel e env w).1 in (w'.db ≡ w.db) × (w'.outbox ≡ w.outbox)
resume-still g fuel e wf nodes r env w up has_workflow has_nodes there stopped =
    (Still-resume up g fuel e wf nodes r has_workflow has_nodes there stopped).at w (refl, refl)
