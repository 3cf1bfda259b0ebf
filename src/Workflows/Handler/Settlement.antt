-- ===== src/Workflows/Handler/Settlement.antt =====
-- How the handlers of internal/worker/workflows/handler.go end.
use Prim.Native.String.{◌++◌}
use emailservice_worker.Prelude.{
  ℕ, zero, suc, ◌<◌, ◌≡◌, refl, String, Bool, true, false, not, ◌||◌, ◌=ₛ◌, Option, none, some,
  List, arith, map_option, select_row,
}
use emailservice_worker.Types.{Payload, WorkflowTriggerPayload}
use emailservice_worker.Effect.{
  M, Env, World, Msg, Settlement, ack, term, attempt_of, pure, exec, ◌>>◌, try, case_result,
  case_option, branch, settle, inc, workflow_failures, workflow_triggers,
}
use emailservice_worker.Effect.Errors.{
  Error, Result, ok, err, message, is_out_of_fuel, not-is_out_of_fuel,
}
use emailservice_worker.Effect.Gives.{Gives}
use emailservice_worker.Workflows.Executor.Walk.{Ends, IsRanked, run_from-Ends}
use emailservice_worker.Effect.Keeps.{
  Ensures, Keeps, Ensures-bind, Ensures-bind_on, Ensures-try, Ensures-then, Ensures-seq,
  Ensures-branch, Ensures-branch_on, Keeps-when, Ensures-case_option, Keeps-pure,
}
use emailservice_worker.Effect.Keeps.OnSettled.{
  Settled, SettledOnce, Settled-exec, Settled-inc, Settled-new_uuid, Settled-query, Keeps-Once,
  settle-Once, settled_rules,
}
use emailservice_worker.Locks.Quiet.{Settled-acquire_lock, Settled-release_lock}
use emailservice_worker.Queue.Publisher.{publish}
use emailservice_worker.Postgres.Workflows.{
  WorkflowNode, ExecutionRow, WorkflowRow, loaded_workflow, is_workflow, get_workflow,
  fail_execution,
}
use emailservice_worker.Schema.{Database}
use emailservice_worker.Email.Validate.{is_empty}
use emailservice_worker.Workflows.Executor.{
  Parsers, publish_email, execute_email, complete, go_on, run_delay, run_node, run_from, run,
  start_node, parse_workflow_nodes,
}
use emailservice_worker.Workflows.Handler.{
  started, record_outcome, nak_trigger, run_execution, run_nodes, start_execution, create, trigger,
  handle_trigger,
}

module _ {e : Env} {s : List Settlement} where
  Settled-publish :
      (subject : String) (x : Payload) (id : String) → Keeps e (Settled s) (publish subject x id)
  unfolding publish
  Settled-publish subject x id = search settled_rules depth 20

  Settled-execute_email :
      (x : ExecutionRow) (n : WorkflowNode) → Keeps e (Settled s) (execute_email x n)
  unfolding execute_email publish_email
  Settled-execute_email x n = search (settled_rules, Settled-publish) depth 30

  Settled-complete : (x : ExecutionRow) (what : String) → Keeps e (Settled s) (complete x what)
  unfolding complete
  Settled-complete x what = search settled_rules depth 20

  Settled-run_delay :
      (g : Parsers) (x : ExecutionRow) (n : WorkflowNode) → Keeps e (Settled s) (run_delay g x n)
  unfolding run_delay
  Settled-run_delay g x n = search settled_rules depth 20

  Settled-run_node :
      (g : Parsers) (next : String → M (Result String)) (x : ExecutionRow) (n : WorkflowNode)
      → ((id : String) → Keeps e (Settled s) (next id))
      → Keeps e (Settled s) (run_node g next x n)
  unfolding run_node go_on
  Settled-run_node g next x n h =
      search (settled_rules, h, Settled-execute_email, Settled-complete, Settled-run_delay) depth 40

  Settled-run_from :
      (g : Parsers) (x : ExecutionRow) (nodes : List WorkflowNode) (fuel : ℕ) (id : String)
      → Keeps e (Settled s) (run_from g x nodes fuel id)
  unfolding run_from
  Settled-run_from g x nodes zero id = search settled_rules depth 20
  Settled-run_from g x nodes (suc fuel) id =
      search (settled_rules, Settled-run_node _ _ _ _ (Settled-run_from g x nodes fuel)) depth 20

  Settled-run :
      (g : Parsers) (fuel : ℕ) (x : ExecutionRow) (nodes : List WorkflowNode)
      → Keeps e (Settled s) (run g fuel x nodes)
  unfolding run
  Settled-run g fuel x nodes = Settled-run_from g x nodes fuel _

  Settled-record_outcome : (status : String) → Keeps e (Settled s) (record_outcome status)
  unfolding record_outcome
  Settled-record_outcome status = search settled_rules depth 20

-- The workflow of a trigger, as `GetWorkflow` reads it.
abbrev pub workflow_in : WorkflowTriggerPayload → Database → Option WorkflowRow
workflow_in p d =
    map_option loaded_workflow (select_row (is_workflow p.workflow_id p.workspace_id) d.workflows)

-- A walk from the first node ends within the fuel.
abbrev pub WalkEnds : List WorkflowNode → ℕ → Type 0
WalkEnds nodes fuel =
    (rank : String → ℕ) × IsRanked nodes rank × (rank (start_node "" nodes) < fuel)

module _ {e : Env} {s : List Settlement} where
  then_true :
      {m : M Unit}
      → Ensures e (Settled s) m (SettledOnce s)
      → Ensures e (Settled s) (m >> pure true) (SettledOnce s)
  then_true h = Ensures-seq _ _ h (Keeps-Once (λ t. Keeps-pure _))

  -- What follows `Run`, where it returns.
  returned_case :
      {B : Type 0} (f : Error → M B) (k : String → M B)
      → ((x : Error) → is_out_of_fuel x ≡ false → Ensures e (Settled s) (f x) (SettledOnce s))
      → ((a : String) → Ensures e (Settled s) (k a) (SettledOnce s))
      → (r : Result String) (w : World) → Ends r
      → Settled s w
      → SettledOnce s (case_result r f k e w).1
  unfolding case_result
  returned_case f k hf hk (ok a) w h q = (hk a).at w q
  returned_case f k hf hk (err x) w h q = (hf x (not-is_out_of_fuel x h)).at w q

  try_returned :
      {B : Type 0} (m : M (Result String)) (f : Error → M B) (k : String → M B)
      → Gives e m Ends
      → Keeps e (Settled s) m
      → ((x : Error) → is_out_of_fuel x ≡ false → Ensures e (Settled s) (f x) (SettledOnce s))
      → ((a : String) → Ensures e (Settled s) (k a) (SettledOnce s))
      → Ensures e (Settled s) (try m f k) (SettledOnce s)
  unfolding try
  try_returned m f k ends keeps hf hk = record {
    at = λ w q. returned_case f k hf hk (m e w).0 (m e w).1 (ends.at w) (keeps.at w q);
  }

-- `Run` returns on the nodes of the workflow.
abbrev Returns : Env → Parsers → ℕ → ℕ → WorkflowTriggerPayload → ℕ → WorkflowRow → Type 0
Returns e g fuel max_retries p attempt wf =
    (id : String) (nodes : List WorkflowNode)
    → parse_workflow_nodes g wf.nodes ≡ ok nodes
    → Gives e (run g fuel (started g fuel max_retries p attempt id) nodes) Ends

module _ (e : Env) {s : List Settlement} (g : Parsers) (fuel max_retries : ℕ)
    (p : WorkflowTriggerPayload) (attempt : ℕ) where
  nak_trigger-Once :
      Ensures e (Settled s) (nak_trigger g fuel max_retries p attempt) (SettledOnce s)
  unfolding nak_trigger
  nak_trigger-Once = search settled_rules depth 20

  run_execution-Once :
      (id : String) (nodes : List WorkflowNode)
      → Gives e (run g fuel (started g fuel max_retries p attempt id) nodes) Ends
      → Ensures e (Settled s) (run_execution g fuel max_retries p attempt id nodes) (SettledOnce s)
  unfolding run_execution
  run_execution-Once id nodes ends =
      try_returned _ _ _ ends (Settled-run _ _ _ _)
        (λ x fails.
          Ensures-branch_on _ _ _ (λ t. absurd (ground (arith, t, fails)))
            (λ _.
              Ensures-then _ _ (Settled-exec _)
                (Ensures-then _ _ (Settled-inc _) (then_true nak_trigger-Once))))
        (λ status. Ensures-then _ _ (Settled-record_outcome status) (then_true (settle-Once ack)))

  parsed :
      (wf : WorkflowRow)
      → Returns e g fuel max_retries p attempt wf
      → (id : String) (r : Result (List WorkflowNode)) → parse_workflow_nodes g wf.nodes ≡ r
      → Ensures e
          (Settled s)
          (case_result r
            (λ x.
              exec (fail_execution id ("invalid nodes: " ++ message x))
              >> (inc workflow_failures >> (settle term >> pure true)))
            (run_execution g fuel max_retries p attempt id))
          (SettledOnce s)
  unfolding case_result
  parsed wf returns id (ok nodes) h = run_execution-Once id nodes (returns id nodes h)
  parsed wf returns id (err x) h =
      Ensures-then _ _ (Settled-exec _)
        (Ensures-then _ _ (Settled-inc _) (then_true (settle-Once term)))

  run_nodes-Once :
      (id : String) (wf : WorkflowRow)
      → Returns e g fuel max_retries p attempt wf
      → Ensures e (Settled s) (run_nodes g fuel max_retries p attempt id wf) (SettledOnce s)
  unfolding run_nodes
  run_nodes-Once id wf returns = parsed wf returns id _ refl

  start_execution-Once :
      (wf : WorkflowRow) (id : String)
      → Returns e g fuel max_retries p attempt wf
      → Ensures e (Settled s) (start_execution g fuel max_retries p attempt wf id) (SettledOnce s)
  unfolding start_execution
  start_execution-Once wf id returns = Ensures-then _ _ (Settled-inc _) (
      Ensures-try _ _ _ (Settled-acquire_lock _ _ _)
        (λ x. search (settled_rules, nak_trigger-Once) depth 20)
        (λ _. Ensures-bind_on _ _ (run_nodes-Once id wf returns) (λ returned.
          Keeps-Once
            (λ t. Keeps-when _ _ (Ensures-then _ _ (Settled-release_lock _ _) (Keeps-pure tt))))))

  create-Once :
      (wf : WorkflowRow)
      → Returns e g fuel max_retries p attempt wf
      → Ensures e (Settled s) (create g fuel max_retries p attempt wf) (SettledOnce s)
  unfolding create
  create-Once wf returns = Ensures-bind _ _ Settled-new_uuid (λ id.
      Ensures-try _ _ _ (Settled-exec _) (λ _. nak_trigger-Once)
        (λ created.
          Ensures-case_option _ _ _ (settle-Once ack) (λ x. start_execution-Once wf x returns)))

  found :
      (o : Option WorkflowRow)
      → ((wf : WorkflowRow) → o ≡ some wf → Returns e g fuel max_retries p attempt wf)
      → Ensures e
          (Settled s)
          (case_option o (settle term) (λ wf.
            branch
              (not (wf.status =ₛ "published"))
              (settle ack)
              (create g fuel max_retries p attempt wf)))
          (SettledOnce s)
  unfolding case_option
  found none h = settle-Once term
  found (some wf) h = Ensures-branch _ _ _ (settle-Once ack) (create-Once wf (h wf refl))

  trigger-Once :
      (w : World)
      → ((wf : WorkflowRow)
          → workflow_in p w.db ≡ some wf
          → Returns e g fuel max_retries p attempt wf)
      → Settled s w
      → SettledOnce s (trigger g fuel max_retries p attempt e w).1
  unfolding trigger get_workflow
  trigger-Once w returns k =
      Settled-query (get_workflow p.workflow_id p.workspace_id) (workflow_in p w.db) _ _
        (λ x. nak_trigger-Once) (found (workflow_in p w.db) returns) w (λ t. refl) k

branch_at :
    (s : List Settlement) (m k : M Unit) (b : Bool) (e : Env) (w : World)
    → SettledOnce s (m e w).1
    → SettledOnce s (k e w).1
    → SettledOnce s (branch b m k e w).1
unfolding branch
branch_at s m k true e w hm hk = hm
branch_at s m k false e w hm hk = hk

returns :
    (g : Parsers) (fuel max_retries : ℕ) (p : WorkflowTriggerPayload) (attempt : ℕ) (e : Env)
    (wf : WorkflowRow)
    → ((nodes : List WorkflowNode)
        → parse_workflow_nodes g wf.nodes ≡ ok nodes
        → WalkEnds nodes fuel)
    → Returns e g fuel max_retries p attempt wf
unfolding run
returns g fuel max_retries p attempt e wf walks id nodes h =
    let (rank, ranked, less) = walks nodes h in run_from-Ends g _ nodes rank ranked fuel _ less

decoded :
    (g : Parsers) (fuel max_retries attempt : ℕ) (e : Env) (w : World)
    (b : Option WorkflowTriggerPayload)
    → ((p : WorkflowTriggerPayload) (wf : WorkflowRow) (nodes : List WorkflowNode)
        → b ≡ some p
        → workflow_in p w.db ≡ some wf
        → parse_workflow_nodes g wf.nodes ≡ ok nodes
        → WalkEnds nodes fuel)
    → SettledOnce w.settled
        (case_option b
          (settle term)
          (λ p.
            branch
              (is_empty p.workspace_id || is_empty p.workflow_id || is_empty p.contact_id)
              (settle term)
              (trigger g fuel max_retries p attempt))
          e
          w).1
unfolding case_option
decoded g fuel max_retries attempt e w none h = (settle-Once term).at w refl
decoded g fuel max_retries attempt e w (some p) h =
    branch_at w.settled (settle term) (trigger g fuel max_retries p attempt) _ e w
      ((settle-Once term).at w refl)
      (trigger-Once e g fuel max_retries p attempt w
        (λ wf found.
          returns g fuel max_retries p attempt e wf (λ nodes parse. h p wf nodes refl found parse))
        refl)

-- Whatever the message, the database, Redis, the queue and the clock do: the trigger handler settles
-- its message exactly once, where the walk through the workflow's nodes ends: a rank of their ids
-- falls from each trigger and email to the next node, and the fuel is above the rank of the first.
pub handle_trigger-Once :
    (g : Parsers) (fuel max_retries : ℕ) (msg : Msg WorkflowTriggerPayload) (e : Env) (w : World)
    → ((p : WorkflowTriggerPayload) (wf : WorkflowRow) (nodes : List WorkflowNode)
        → msg.body ≡ some p
        → workflow_in p w.db ≡ some wf
        → parse_workflow_nodes g wf.nodes ≡ ok nodes
        → WalkEnds nodes fuel)
    → SettledOnce w.settled (handle_trigger g fuel max_retries msg e w).1
unfolding handle_trigger ◌>>◌ inc
handle_trigger-Once g fuel max_retries msg e w walks =
    decoded g fuel max_retries (attempt_of msg) e (inc workflow_triggers e w).1 msg.body walks
