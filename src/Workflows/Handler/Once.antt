-- ===== src/Workflows/Handler/Once.antt =====
-- A trigger that has its execution, internal/worker/workflows/handler.go.
use emailservice_worker.Prelude.{ℕ, ◌≡◌, refl, sym, subst, ◌||◌, ap, none, some, List, select_row}
use emailservice_worker.Types.{WorkflowTriggerPayload}
use emailservice_worker.Schema.{Database, ExecutionRecord}
use emailservice_worker.Effect.{
  Env, World, Msg, Published, ack, term, settle, case_option, branch, attempt_of, workflow_triggers,
}
use emailservice_worker.Effect.Keeps.{
  Keeps, Ensures-bind, Ensures-case_option, Ensures-then, Ensures-branch,
}
use emailservice_worker.Effect.Keeps.OnStill.{
  Still, Still-query, Still-settle, Still-inc, Still-new_uuid, still_rules,
}
use emailservice_worker.Email.Validate.{is_empty}
use emailservice_worker.Postgres.Workflows.{
  WorkflowRow, is_trigger, add_execution, create_execution, get_workflow,
}
use emailservice_worker.Workflows.Executor.{Parsers}
use emailservice_worker.Workflows.Handler.{nak_trigger, create, trigger, handle_trigger}

module _ {env : Env} {d : Database} {o : List Published} (g : Parsers) (fuel max_retries : ℕ)
    (p : WorkflowTriggerPayload) (attempt : ℕ) (r : ExecutionRecord)
    (there : select_row (is_trigger p.workflow_id p.contact_id p.event_id) d.workflow_executions
      ≡ some r) where
  Still-nak_trigger : Keeps env (Still d o) (nak_trigger g fuel max_retries p attempt)
  unfolding nak_trigger
  Still-nak_trigger = search still_rules depth 20

  Still-create : (wf : WorkflowRow) → Keeps env (Still d o) (create g fuel max_retries p attempt wf)
  unfolding create create_execution case_option
  Still-create wf = Ensures-bind _ _ Still-new_uuid (λ id.
      Still-query (create_execution id p.workflow_id p.workspace_id p.contact_id p.event_id) none _
        _ (λ t. ap (add_execution _ d) there) (λ x. Still-nak_trigger) (Still-settle ack))

  Still-trigger : Keeps env (Still d o) (trigger g fuel max_retries p attempt)
  unfolding trigger get_workflow
  Still-trigger =
      Still-query (get_workflow p.workflow_id p.workspace_id) _ _ _ (λ t. refl)
        (λ _. Still-nak_trigger)
        (Ensures-case_option _ _ _ (Still-settle term)
          (λ wf. Ensures-branch _ _ _ (Still-settle ack) (Still-create wf)))

  Still-handle_trigger :
      (msg : Msg WorkflowTriggerPayload)
      → msg.body ≡ some p
      → attempt_of msg ≡ attempt
      → Keeps env (Still d o) (handle_trigger g fuel max_retries msg)
  unfolding handle_trigger case_option
  Still-handle_trigger msg is_p is_attempt = Ensures-then _ _ (Still-inc workflow_triggers) (
      subst
        (λ b. Keeps env (Still d o) (
          case_option b (settle term) (λ x.
            branch (is_empty x.workspace_id || is_empty x.workflow_id || is_empty x.contact_id)
              (settle term) (trigger g fuel max_retries x (attempt_of msg)))))
        (sym is_p)
        (Ensures-branch _ _ _ (Still-settle term) (
          subst (λ n. Keeps env (Still d o) (trigger g fuel max_retries p n)) (sym is_attempt)
            Still-trigger)))

-- A trigger starts one execution at most. Once there is an execution for the workflow, the contact
-- and the event of a message, every further delivery of it leaves the database as it is and
-- publishes nothing, whatever the environment: no e-mail is sent again, and the execution is not
-- run again, however it ended.
pub handle_trigger-still :
    (g : Parsers) (fuel max_retries : ℕ) (msg : Msg WorkflowTriggerPayload)
    (p : WorkflowTriggerPayload) (r : ExecutionRecord) (env : Env) (w : World)
    → msg.body ≡ some p
    → select_row (is_trigger p.workflow_id p.contact_id p.event_id) w.db.workflow_executions
      ≡ some r
    → let w' = (handle_trigger g fuel max_retries msg env w).1 in
      (w'.db ≡ w.db) × (w'.outbox ≡ w.outbox)
handle_trigger-still g fuel max_retries msg p r env w is_p there =
    (Still-handle_trigger g fuel max_retries p (attempt_of msg) r there msg is_p refl).at w
      (refl, refl)
