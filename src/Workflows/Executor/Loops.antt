-- ===== src/Workflows/Executor/Loops.antt =====
-- Workflows that come back to a node, internal/worker/workflows/executor.go.
use emailservice_worker.Prelude.{
  ℕ, zero, suc, ◌≡◌, refl, String, true, false, some, List, ◌=ₛ◌, arith,
}
use emailservice_worker.Effect.{Env, World, Settlement}
use emailservice_worker.Effect.Errors.{err, out_of_fuel}
use emailservice_worker.Effect.Yields.{
  DbIsUp, Yields, On, Yields-try, Yields-case_option, Yields-branch, Yields-pure, Yields-exec,
}
use emailservice_worker.Postgres.Workflows.{WorkflowNode, ExecutionRow, advance_execution}
use emailservice_worker.Workflows.Executor.{
  Parsers, status_running, find_node, go_on, run_node, run_from, run, start_node,
}

-- Each of the ids is that of a trigger node whose next node is one of them again.
abbrev pub IsLoop : List WorkflowNode → (String → Type 0) → Type 0
IsLoop nodes ids =
    (id : String)
    → ids id
    → (n : WorkflowNode) × (find_node id nodes ≡ some n)
      × ((n.node_type =ₛ "trigger") ≡ true)
      × ((n.next_node =ₛ "") ≡ false)
      × ids n.next_node

module _ {env : Env} (up : DbIsUp env) {s : List Settlement} (g : Parsers) (e : ExecutionRow)
    (nodes : List WorkflowNode) (ids : String → Type 0) (loop : IsLoop nodes ids) where
  run_from-loops :
      (fuel : ℕ) (id : String)
      → ids id
      → Yields env
          (On (λ d. Unit {0}) s)
          (run_from g e nodes fuel id)
          (err out_of_fuel)
          (On (λ d. Unit {0}) s)
  unfolding run_from run_node go_on advance_execution
  run_from-loops zero id h = Yields-pure (λ w p. p)
  run_from-loops (suc fuel) id h =
      let (n, found, is_trigger, has_next, again) = loop id h in
      Yields-case_option _ _ _ n found (
        Yields-branch _
          (λ _.
            Yields-branch _ (λ t. absurd (ground (arith, t, has_next)))
              (λ _.
                Yields-try _ _ _ tt
                  (Yields-exec up (advance_execution e.id n.next_node status_running)
                    (λ t d c. (refl, tt)))
                  (run_from-loops fuel n.next_node again)))
          (λ t. absurd (ground (arith, t, is_trigger))))

-- `Run` never ends on a loop of trigger nodes: whatever the fuel, it asks for more. The hypothesis:
-- every statement is done.
pub run-loops :
    (g : Parsers) (fuel : ℕ) (e : ExecutionRow) (nodes : List WorkflowNode) (ids : String → Type 0)
    (env : Env) (w : World)
    → DbIsUp env
    → IsLoop nodes ids
    → ids (start_node e.current_node_id nodes)
    → (run g fuel e nodes env w).0 ≡ err out_of_fuel
unfolding run
run-loops g fuel e nodes ids env w up loop h =
    ((run_from-loops up g e nodes ids loop fuel _ h).at w
      (record { of_db = tt; of_settled = refl })).0
