-- ===== src/Examples/Workflows.antt =====
-- Workflows on concrete data.
use emailservice_worker.Prelude.{
  ℕ, pos, ◌≡◌, ◌≢◌, ◌<◌, ◌⊎◌, refl, ap, sym, subst, ◌||◌, inl, inr, String, Bool, true, false, none,
  some, List, [], ◌∷◌, ◌=ₛ◌, if◌then◌else◌, arith, eq_iff, select_row,
}
use emailservice_worker.Types.{Fields, WorkflowTriggerPayload}
use emailservice_worker.Schema.{Database, ExecutionRecord, WorkflowRecord, empty_database}
use emailservice_worker.Effect.{Msg, case_option, branch, try, exec, pure}
use emailservice_worker.Effect.Errors.{Result, ok, err, out_of_fuel}
use emailservice_worker.Effect.Keeps.OnSettled.{SettledOnce}
use emailservice_worker.Postgres.Workflows.{
  WorkflowNode, ExecutionRow, loaded_workflow, advance_execution, complete_execution,
}
use emailservice_worker.Workflows.Executor.{
  Parsers, parse_workflow_nodes, find_node, run, run_from, run_node, go_on, complete,
}
use emailservice_worker.Workflows.Executor.Walk.{Walk, IsRanked, run-Walk, run-Ends}
use emailservice_worker.Workflows.Executor.Loops.{run-loops}
use emailservice_worker.Workflows.Handler.{handle_trigger}
use emailservice_worker.Workflows.Handler.Settlement.{WalkEnds, handle_trigger-Once}
use emailservice_worker.Workflows.Handler.Once.{handle_trigger-still}
use emailservice_worker.Workflows.Scheduler.{resume}
use emailservice_worker.Workflows.Scheduler.Guard.{resume-still}
use emailservice_worker.Examples.{calm, throttled, world_with}

abbrev node : String → String → String → WorkflowNode
node id node_type next_node = record {
  id = id;
  node_type = node_type;
  config = Fields.end;
  next_node = next_node;
}

-- A trigger and an end
abbrev path : List WorkflowNode
path = node "a" "trigger" "b" ∷ node "b" "end" "" ∷ []

-- A trigger that is its own next node
abbrev circle : List WorkflowNode
circle = node "a" "trigger" "a" ∷ []

abbrev pub parsers : Parsers
parsers = record {
  parse_duration = λ s. ok (pos 0);
  seconds_of_float = λ n. pos n;
  parse_nodes = λ s. ok path;
  quote = λ s. s;
}

abbrev execution : ExecutionRow
execution = record {
  id = "x1";
  workspace_id = "w1";
  workflow_id = "f1";
  contact_id = "c1";
  status = "running";
  current_node_id = "";
  next_run_at = none;
  retry_count = 0;
  failure_reason = "";
}

abbrev execution_record : ExecutionRecord
execution_record = record {
  id = "x1";
  workflow_id = "f1";
  workspace_id = "w1";
  contact_id = "c1";
  trigger_event_id = "e1";
  status = "completed";
  current_node_id = none;
  next_run_at = none;
  retry_count = none;
  failure_reason = none;
  completed_at = some 1;
  updated_at = 1;
}

abbrev workflow : WorkflowRecord
workflow = record { id = "f1"; workspace_id = "w1"; status = some "published"; nodes = some "[..]" }

abbrev pub workflow_db : Database
workflow_db = record empty_database {
  workflows = workflow ∷ [];
  workflow_executions = execution_record ∷ [];
}

abbrev trigger_message : Msg WorkflowTriggerPayload
trigger_message = record {
  body = some (record {
    workspace_id = "w1";
    workflow_id = "f1";
    contact_id = "c1";
    event_name = "signup";
    event_id = "e1";
  });
  num_delivered = some 2;
}

run-Walk_example : Walk path "a" "completed"
unfolding run run_from case_option find_node run_node branch go_on try exec advance_execution
    complete complete_execution pure
run-Walk_example =
    run-Walk parsers 2 execution path calm (world_with empty_database) "completed" refl

abbrev rank : String → ℕ
rank id = if id =ₛ "a" then 1 else 0

-- The node found on the path, by the tests of its id.
found_cases :
    (is_a is_b : Bool) (n : WorkflowNode)
    → elim (if is_b then some (node "b" "end" "") else none) [
      | none ↦ if is_a then some (node "a" "trigger" "b") else none
      | some m ↦ some m
    ]
      ≡ some n
    → (n.node_type ≡ "end") ⊎ ((is_a ≡ true) × (n.next_node ≡ "b"))
found_cases is_a true n h = inl (ap (λ o. elim o [ none ↦ "end" | some m ↦ m.node_type ]) (sym h))
found_cases true false n h =
    inr (refl, ap (λ o. elim o [ none ↦ "b" | some m ↦ m.next_node ]) (sym h))
found_cases false false n h = cc

path-IsRanked : IsRanked path rank
unfolding find_node
path-IsRanked id n h p t = elim (found_cases ("a" =ₛ id) ("b" =ₛ id) n h) [
  | inl e ↦ let q : false ≡ true = subst (λ x. (x =ₛ "trigger" || x =ₛ "email") ≡ true) e p in cc
  | inr q ↦
      let is_a : ◌≡◌ {A = String} "a" id = ground (arith, q.0, eq_iff "a" id) in
      subst (λ x. rank n.next_node < rank x) is_a
        (subst (λ y. rank y < rank "a") (sym q.1) (omega arith))
]

run-Ends_example :
    (run parsers 2 execution path throttled (world_with empty_database)).0 ≢ err out_of_fuel
run-Ends_example =
    run-Ends parsers 2 execution path rank throttled (world_with empty_database) path-IsRanked
      (omega arith)

run-loops_example :
    (run parsers 9 execution circle calm (world_with empty_database)).0 ≡ err out_of_fuel
unfolding find_node
run-loops_example =
    run-loops parsers 9 execution circle (λ id. id ≡ "a") calm (world_with empty_database)
      (λ n. refl) (λ id h. (node "a" "trigger" "a", rw h refl, refl, refl, refl)) refl

handle_trigger-still_example :
    let w' = (handle_trigger parsers 9 5 trigger_message calm (world_with workflow_db)).1 in
    (w'.db ≡ workflow_db) × (w'.outbox ≡ [])
unfolding select_row
handle_trigger-still_example =
    handle_trigger-still parsers 9 5 trigger_message _ execution_record calm
      (world_with workflow_db) refl refl

-- The nodes that the parser reads are the path, or none.
abbrev nodes_in : Result (List WorkflowNode) → List WorkflowNode
nodes_in (ok ns) = ns
nodes_in (err x) = []

walk_cases :
    (b : Bool) (nodes : List WorkflowNode)
    → (if b then ok [] else ok path) ≡ ok nodes
    → WalkEnds nodes 9
unfolding find_node
walk_cases true nodes h =
    subst (λ ns. WalkEnds ns 9) (ap nodes_in h) (λ id. 0, (λ id n q t. cc), omega arith)
walk_cases false nodes h =
    subst (λ ns. WalkEnds ns 9) (ap nodes_in h) (rank, path-IsRanked, omega arith)

-- No execution yet
abbrev fresh_db : Database
fresh_db = record workflow_db { workflow_executions = [] }

handle_trigger-Once_example :
    SettledOnce [] (handle_trigger parsers 9 5 trigger_message throttled (world_with fresh_db)).1
unfolding parse_workflow_nodes select_row
handle_trigger-Once_example =
    handle_trigger-Once parsers 9 5 trigger_message throttled (world_with fresh_db)
      (λ p wf nodes is_p found parse. walk_cases _ nodes parse)

resume-still_example :
    let w' = (resume parsers 9 execution calm (world_with workflow_db)).1 in
    (w'.db ≡ workflow_db) × (w'.outbox ≡ [])
unfolding select_row parse_workflow_nodes
resume-still_example =
    resume-still parsers 9 execution (loaded_workflow workflow) path execution_record calm
      (world_with workflow_db) (λ n. refl) refl refl refl refl
