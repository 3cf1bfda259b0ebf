-- ===== src/Workflows/Executor/Walk.antt =====
-- The walk of the executor of internal/worker/workflows/executor.go through the nodes.
use mathlib.Core.Path.{subst}
use emailservice_worker.Prelude.{
  ℕ, zero, suc, ◌<◌, ◌≡◌, ◌≢◌, refl, String, Bool, true, false, ◌||◌, some, List, ◌=ₛ◌, arith,
}
use emailservice_worker.Effect.{M, Env, World}
use emailservice_worker.Effect.Errors.{Error, Result, ok, err, text, wrap, out_of_fuel}
use emailservice_worker.Effect.Gives.{
  Gives, Gives-bind, Gives-case_result, Gives-try, Gives-case_option, Gives-branch, Gives-pure,
}
use emailservice_worker.Postgres.Workflows.{WorkflowNode, ExecutionRow}
use emailservice_worker.Workflows.Executor.{
  Parsers, status_completed, status_waiting, find_node, complete, go_on, run_delay, run_node,
  run_from, run, start_node,
}

-- A trigger or an email: the walk goes on after it.
abbrev pub is_passed : WorkflowNode → Bool
is_passed n = n.node_type =ₛ "trigger" || n.node_type =ₛ "email"

-- The walks through the nodes from one of them, with the status that they end in.
pub data Walk (nodes : List WorkflowNode) : String → String → Type 0 where
  at_end :
      {id : String} (n : WorkflowNode)
      → find_node id nodes ≡ some n
      → (n.node_type =ₛ "end") ≡ true
      → Walk nodes id status_completed
  at_delay :
      {id : String} (n : WorkflowNode)
      → find_node id nodes ≡ some n
      → (n.node_type =ₛ "delay") ≡ true
      → Walk nodes id status_waiting
  at_last :
      {id : String} (n : WorkflowNode)
      → find_node id nodes ≡ some n
      → is_passed n ≡ true
      → (n.next_node =ₛ "") ≡ true
      → Walk nodes id status_completed
  onward :
      {id status : String} (n : WorkflowNode)
      → find_node id nodes ≡ some n
      → is_passed n ≡ true
      → Walk nodes n.next_node status
      → Walk nodes id status

-- One round of the loop, for any property of answers that the errors of the code have.
module _ {env : Env} (g : Parsers) (e : ExecutionRow) (T : Result String → Type 0)
    (of_text : (s : String) → T (err (text s)))
    (of_wrap : (s : String) (x : Error) → T (err (wrap s x)))
    (next : String → M (Result String)) where
  complete-Gives : (what : String) → T (ok status_completed) → Gives env (complete e what) T
  unfolding complete
  complete-Gives what h = Gives-try _ _ _ (λ x. Gives-pure _ (of_wrap what x)) (λ _. Gives-pure _ h)

  go_on-Gives :
      (n : WorkflowNode) (what : String)
      → ((n.next_node =ₛ "") ≡ true → T (ok status_completed))
      → ((n.next_node =ₛ "") ≡ false → Gives env (next n.next_node) T)
      → Gives env (go_on next e n what) T
  unfolding go_on
  go_on-Gives n what last following =
      Gives-branch _ _ _ (λ t. complete-Gives _ (last t))
        (λ t. Gives-try _ _ _ (λ x. Gives-pure _ (of_wrap _ x)) (λ _. following t))

  run_delay-Gives : (n : WorkflowNode) → T (ok status_waiting) → Gives env (run_delay g e n) T
  unfolding run_delay
  run_delay-Gives n h =
      Gives-case_result _ _ _ (λ x. Gives-pure _ (of_wrap _ x))
        (λ delay.
          Gives-bind _ _
            (λ t. Gives-try _ _ _ (λ x. Gives-pure _ (of_wrap _ x)) (λ _. Gives-pure _ h)))

  run_node-Gives :
      (n : WorkflowNode)
      → ((n.node_type =ₛ "end") ≡ true → T (ok status_completed))
      → ((n.node_type =ₛ "delay") ≡ true → T (ok status_waiting))
      → (is_passed n ≡ true → (n.next_node =ₛ "") ≡ true → T (ok status_completed))
      → (is_passed n ≡ true → (n.next_node =ₛ "") ≡ false → Gives env (next n.next_node) T)
      → Gives env (run_node g next e n) T
  unfolding run_node
  run_node-Gives n ended paused last following =
      Gives-branch _ _ _
        (λ t. go_on-Gives n _ (last (ground (arith, t))) (following (ground (arith, t))))
        (λ _.
          Gives-branch _ _ _
            (λ t.
              Gives-try _ _ _ (λ x. Gives-pure _ (of_wrap _ x))
                (λ _. go_on-Gives n _ (last (ground (arith, t))) (following (ground (arith, t)))))
            (λ _.
              Gives-branch _ _ _ (λ t. run_delay-Gives n (paused t))
                (λ _.
                  Gives-branch _ _ _ (λ t. complete-Gives _ (ended t))
                    (λ _. Gives-pure _ (of_text _)))))

-- What an answer says of the walk from a node.
abbrev pub Follows : List WorkflowNode → String → Result String → Type 0
Follows nodes id (ok status) = Walk nodes id status
Follows nodes id (err x) = Unit

abbrev pub Ends : Result String → Type 0
Ends (ok status) = Unit
Ends (err x) = x ≢ out_of_fuel

further :
    (nodes : List WorkflowNode) (id : String) (n : WorkflowNode)
    → find_node id nodes ≡ some n
    → is_passed n ≡ true
    → (r : Result String) → Follows nodes n.next_node r
    → Follows nodes id r
further nodes id n h p (ok status) walk = Walk.onward n h p walk
further nodes id n h p (err x) walk = tt

-- A rank of the ids that falls from each node to the next.
abbrev pub IsRanked : List WorkflowNode → (String → ℕ) → Type 0
IsRanked nodes rank =
    (id : String) (n : WorkflowNode)
    → find_node id nodes ≡ some n
    → is_passed n ≡ true
    → (n.next_node =ₛ "") ≡ false
    → rank n.next_node < rank id

module _ {env : Env} (g : Parsers) (e : ExecutionRow) (nodes : List WorkflowNode) where
  run_from-Follows :
      (fuel : ℕ) (id : String) → Gives env (run_from g e nodes fuel id) (Follows nodes id)
  unfolding run_from
  run_from-Follows zero id = Gives-pure _ tt
  run_from-Follows (suc fuel) id =
      Gives-case_option _ _ _ (λ _. Gives-pure _ tt)
        (λ n h.
          run_node-Gives g e (Follows nodes id) (λ s. tt) (λ s x. tt) _ n (λ t. Walk.at_end n h t)
            (λ t. Walk.at_delay n h t) (λ p t. Walk.at_last n h p t)
            (λ p t. record {
              at = λ w. further nodes id n h p _ ((run_from-Follows fuel n.next_node).at w);
            }))

  pub run_from-Ends :
      (rank : String → ℕ)
      → IsRanked nodes rank
      → (fuel : ℕ) (id : String) → rank id < fuel
      → Gives env (run_from g e nodes fuel id) Ends
  unfolding run_from
  run_from-Ends rank ranked zero id less = absurd (omega (arith, less))
  run_from-Ends rank ranked (suc fuel) id less =
      Gives-case_option _ _ _ (λ _. Gives-pure _ (λ h. cc))
        (λ n h.
          run_node-Gives g e Ends (λ s h'. cc) (λ s x h'. cc) _ n (λ t. tt) (λ t. tt) (λ p t. tt)
            (λ p t.
              run_from-Ends rank ranked fuel n.next_node (omega (arith, less, ranked id n h p t))))

-- Whatever the database and the queue do: if `Run` answers with a status, there is a walk through
-- the nodes from the node that it starts at, over triggers and emails, that ends in that status:
-- completed at an end node or where no node is next, waiting at a delay.
pub run-Walk :
    (g : Parsers) (fuel : ℕ) (e : ExecutionRow) (nodes : List WorkflowNode) (env : Env) (w : World)
    (status : String)
    → (run g fuel e nodes env w).0 ≡ ok status
    → Walk nodes (start_node e.current_node_id nodes) status
unfolding run
run-Walk g fuel e nodes env w status h =
    subst (Follows nodes (start_node e.current_node_id nodes)) h
      ((run_from-Follows g e nodes fuel _).at w)

-- `Run` ends, whatever the database and the queue do, where a rank of the ids falls from each
-- trigger and email to the next node, so that no walk comes back: as many rounds as the rank of the
-- first node and one are enough.
pub run-Ends :
    (g : Parsers) (fuel : ℕ) (e : ExecutionRow) (nodes : List WorkflowNode) (rank : String → ℕ)
    (env : Env) (w : World)
    → IsRanked nodes rank
    → rank (start_node e.current_node_id nodes) < fuel
    → (run g fuel e nodes env w).0 ≢ err out_of_fuel
unfolding run
run-Ends g fuel e nodes rank env w ranked less h =
    let ends : Ends (run_from g e nodes fuel (start_node e.current_node_id nodes) env w).0 =
      (run_from-Ends g e nodes rank ranked fuel _ less).at w in
    subst Ends h ends refl
