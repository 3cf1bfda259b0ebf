-- ===== src/Workflows/Executor.antt =====
-- The executor of internal/worker/workflows/executor.go. Its loop has no bound: it runs on fuel, one
-- for each node that it comes to, and `out_of_fuel` says that `Run` has not returned by then.
pub mod Walk
pub mod Loops
use Prim.Native.String.{◌++◌}
use emailservice_worker.Prelude.{
  ℕ, zero, suc, ℤ, pos, negsuc, ◌+◌, ◌-◌, String, Bool, ◌&&◌, ◌||◌, Option, none, some, List, [],
  ◌∷◌, ◌=ₛ◌, if◌then◌else◌,
}
use emailservice_worker.Types.{
  Json, Fields, EmailAddress, TransactionalEmailPayload, Payload, email_job,
}
use emailservice_worker.Effect.{
  M, pure, exec, ◌>>=◌, ◌>>◌, try, case_result, case_option, branch, now, new_uuid,
}
use emailservice_worker.Effect.Errors.{Error, Result, ok, err, text, wrap, out_of_fuel}
use emailservice_worker.Queue.Publisher.{publish}
use emailservice_worker.Postgres.Identity.{ContactRow}
use emailservice_worker.Postgres.Workflows.{
  WorkflowNode, ExecutionRow, get_contact_for_workflow, advance_execution, schedule_delay,
  complete_execution,
}

abbrev pub status_running : String
status_running = "running"

abbrev pub status_waiting : String
status_waiting = "waiting"

abbrev pub status_completed : String
status_completed = "completed"

-- What the executor takes from Go's packages: `time.ParseDuration` in milliseconds, whole seconds
-- of a float64 in milliseconds, the decoding of the nodes, and `%q`.
pub record Parsers : Type 0 where
  pub parse_duration : String → Result ℤ
  pub seconds_of_float : ℕ → ℤ
  pub parse_nodes : String → Result (List WorkflowNode)
  pub quote : String → String

unfoldable pub parse_workflow_nodes : Parsers → String → Result (List WorkflowNode)
parse_workflow_nodes g s =
    if s =ₛ "" || s =ₛ "null" || s =ₛ "[]"
    then ok []
    else elim (g.parse_nodes s) [ ok ns ↦ ok ns | err x ↦ err (wrap "parse workflow nodes" x) ]

-- The map of `buildNodeMap`, read at an id: of nodes with the same id the last one counts.
unfoldable pub find_node : String → List WorkflowNode → Option WorkflowNode
find_node id [] = none
find_node id (n ∷ ns) = elim (find_node id ns) [
  | none ↦ if n.id =ₛ id then some n else none
  | some m ↦ some m
]

-- A map's value at a key
abbrev pub at_key : String → Fields → Json
at_key k Fields.end = Json.null
at_key k (Fields.field j v rest) = if j =ₛ k then v else at_key k rest

-- `v, _ := node.Config[key].(string)`
abbrev as_text : Json → String
as_text (Json.text s) = s
as_text v = ""

abbrev pub config_text : String → Fields → String
config_text k fields = as_text (at_key k fields)

-- A value that is decoded JSON is no `int`.
abbrev seconds_in : Parsers → Json → Result ℤ
seconds_in g (Json.number x) = ok (g.seconds_of_float x)
seconds_in g v = err (text "delay node config missing 'duration' or 'seconds'")

abbrev duration_in : Parsers → Json → Json → Result ℤ
duration_in g (Json.text s) seconds = g.parse_duration s
duration_in g v seconds = seconds_in g seconds

unfoldable pub parse_duration : Parsers → Fields → Result ℤ
parse_duration g config = duration_in g (at_key "duration" config) (at_key "seconds" config)

-- `time.Now().Add(d)`; there is no time before the first.
abbrev pub add_duration : ℕ → ℤ → ℕ
add_duration t (pos n) = t + n
add_duration t (negsuc n) = t - suc n

abbrev email_of : Option ContactRow → EmailAddress
email_of none = record { email = ""; name = "" }
email_of (some c) = record { email = c.email; name = c.name }

abbrev pub email_payload :
    ExecutionRow → WorkflowNode → EmailAddress → String → TransactionalEmailPayload
email_payload e node to send_id = record {
  job_id = "wf-" ++ e.id ++ "-" ++ node.id;
  workspace_id = e.workspace_id;
  send_id = send_id;
  to = to ∷ [];
  from = record {
    email = config_text "fromEmail" node.config;
    name = config_text "fromName" node.config;
  };
  reply_to = config_text "replyTo" node.config;
  subject = config_text "subject" node.config;
  html = config_text "html" node.config;
  text = config_text "text" node.config;
  tags = ("workflow_id", e.workflow_id) ∷ ("execution_id", e.id) ∷ [];
  provider = "ses";
}

abbrev pub subject_email_send : String
subject_email_send = "email.send.transactional"

abbrev pub email_msg_id : ExecutionRow → WorkflowNode → String
email_msg_id e node = "wf-email-" ++ e.id ++ "-" ++ node.id

unfoldable pub publish_email : ExecutionRow → WorkflowNode → EmailAddress → M (Result Unit)
publish_email e node to = do
  send_id ← new_uuid
  try
      (publish subject_email_send (email_job (email_payload e node to send_id))
        (email_msg_id e node))
      (λ x. pure (err (wrap "publish email" x))) (λ _. pure (ok tt))

abbrev pub lacks_content : WorkflowNode → Bool
lacks_content node =
    config_text "subject" node.config =ₛ ""
    || (config_text "html" node.config =ₛ "" && config_text "text" node.config =ₛ "")

-- `executeEmail`: a contact without an address is skipped.
unfoldable pub execute_email : ExecutionRow → WorkflowNode → M (Result Unit)
execute_email e node =
    try (exec (get_contact_for_workflow e.contact_id e.workspace_id))
      (λ x. pure (err (wrap "load contact" x)))
      (λ contact.
        branch (lacks_content node)
          (pure (err (text ("email node " ++ node.id ++ " missing subject or body"))))
          (let to = email_of contact in
            branch (to.email =ₛ "") (pure (ok tt)) (publish_email e node to)))

unfoldable pub complete : ExecutionRow → String → M (Result String)
complete e what =
    try (exec (complete_execution e.id)) (λ x. pure (err (wrap what x)))
      (λ _. pure (ok status_completed))

-- After a trigger or an email: the end of the workflow, or the next node.
unfoldable pub go_on :
    (String → M (Result String)) → ExecutionRow → WorkflowNode → String → M (Result String)
go_on next e node what = branch (node.next_node =ₛ "") (complete e ("complete after " ++ what)) (
    try (exec (advance_execution e.id node.next_node status_running))
      (λ x. pure (err (wrap ("advance from " ++ what) x))) (λ _. next node.next_node))

unfoldable pub run_delay : Parsers → ExecutionRow → WorkflowNode → M (Result String)
run_delay g e node =
    case_result (parse_duration g node.config) (λ x. pure (err (wrap ("delay node " ++ node.id) x)))
      (λ delay. do
        t ← now
        try (exec (schedule_delay e.id node.id (add_duration t delay)))
            (λ x. pure (err (wrap "schedule delay" x))) (λ _. pure (ok status_waiting)))

-- The body of the loop, for the node that it is at.
unfoldable pub run_node :
    Parsers → (String → M (Result String)) → ExecutionRow → WorkflowNode → M (Result String)
run_node g next e node = branch (node.node_type =ₛ "trigger") (go_on next e node "trigger") (
    branch (node.node_type =ₛ "email")
      (try (execute_email e node) (λ x. pure (err (wrap ("email node " ++ node.id) x)))
        (λ _. go_on next e node "email"))
      (branch (node.node_type =ₛ "delay") (run_delay g e node) (
        branch (node.node_type =ₛ "end") (complete e "complete at end node")
          (pure (err (text ("unsupported node type " ++ g.quote node.node_type)))))))

unfoldable pub run_from :
    Parsers → ExecutionRow → List WorkflowNode → ℕ → String → M (Result String)
run_from g e nodes zero id = pure (err out_of_fuel)
run_from g e nodes (suc fuel) id =
    case_option (find_node id nodes)
      (pure (err (text ("node " ++ g.quote id ++ " not found in workflow"))))
      (run_node g (run_from g e nodes fuel) e)

abbrev pub start_node : String → List WorkflowNode → String
start_node id [] = id
start_node id (n ∷ ns) = if id =ₛ "" then n.id else id

-- `Run`: the status after it, or an error
unfoldable pub run : Parsers → ℕ → ExecutionRow → List WorkflowNode → M (Result String)
run g fuel e nodes = run_from g e nodes fuel (start_node e.current_node_id nodes)

unfoldable pub resume_from_delay :
    Parsers → ℕ → ExecutionRow → List WorkflowNode → M (Result String)
resume_from_delay g fuel e nodes =
    case_option (find_node e.current_node_id nodes)
      (pure (err (text ("delay node " ++ g.quote e.current_node_id ++ " not found"))))
      (λ node.
        branch (node.next_node =ₛ "")
          (try (exec (complete_execution e.id)) (λ x. pure (err x))
            (λ _. pure (ok status_completed)))
          (try (exec (advance_execution e.id node.next_node status_running)) (λ x. pure (err x))
            (λ _. run g fuel (record e { current_node_id = node.next_node }) nodes)))
