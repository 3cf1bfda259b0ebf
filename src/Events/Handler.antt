-- ===== src/Events/Handler.antt =====
-- The handler of raw events, internal/worker/events/handler.go, with the nak of
-- internal/queue/consumers/registry.go for a panic.
pub mod Settlement
pub mod Idempotency
pub mod StoredOnce
use Prim.Native.String.{◌++◌}
use emailservice_worker.Prelude.{ℕ, String, Bool, ◌||◌, Option, List, [], ◌∷◌, ◌=ₛ◌, leb}
use emailservice_worker.Types.{
  Json, RawEventPayload, WorkflowTriggerPayload, Payload, workflow_trigger,
}
use emailservice_worker.Effect.{
  M, Msg, ack, nak, term, attempt_of, pure, exec, ◌>>=◌, ◌>>◌, try, case_option, branch, settle,
  inc, events_processed, enrich_failures, workflows_triggered, event_retries, duplicate_drops,
}
use emailservice_worker.Effect.Errors.{Error, Result, message}
use emailservice_worker.Email.Validate.{is_empty}
use emailservice_worker.Queue.Publisher.{publish}
use emailservice_worker.Postgres.Events.{
  EnrichedEventRow, WorkflowTriggerRule, get_raw_event_status, mark_raw_event_processing,
  mark_raw_event_processed, mark_raw_event_failed, insert_enriched_event,
  find_matching_workflow_triggers,
}
use emailservice_worker.Events.Enricher.{EnrichmentResult, Enriched, marshal, enrich}

abbrev pub subject_workflow_trigger : String
subject_workflow_trigger = "workflow.trigger"

-- `validatePayload` has an error.
abbrev pub is_invalid : RawEventPayload → Bool
is_invalid p = is_empty p.event_id || is_empty p.workspace_id || is_empty p.event_type

abbrev pub trigger_payload : RawEventPayload → String → WorkflowTriggerPayload
trigger_payload p contact_id = record {
  workspace_id = p.workspace_id;
  workflow_id = "";
  contact_id = contact_id;
  event_name = p.event_name;
  event_id = p.event_id;
}

unfoldable pub publish_triggers : RawEventPayload → String → List WorkflowTriggerRule → M Unit
publish_triggers p contact_id [] = pure tt
publish_triggers p contact_id (t ∷ ts) = do
  try
      (publish subject_workflow_trigger (workflow_trigger (trigger_payload p contact_id))
        ("wf-" ++ t.workflow_id ++ "-" ++ p.event_id))
      (λ _. pure tt) (λ _. inc workflows_triggered)
  publish_triggers p contact_id ts

-- Errors are only logged.
unfoldable pub evaluate_workflow_triggers : RawEventPayload → String → M Unit
evaluate_workflow_triggers p contact_id =
    try (exec (find_matching_workflow_triggers p.workspace_id p.event_type p.event_name))
      (λ _. pure tt) (publish_triggers p contact_id)

abbrev pub enriched_row : RawEventPayload → EnrichmentResult → EnrichedEventRow
enriched_row p r = record {
  workspace_id = p.workspace_id;
  raw_event_id = p.event_id;
  contact_id = r.contact_id;
  user_id = p.user_id;
  anonymous_id = p.anonymous_id;
  event_type = p.event_type;
  event_name = p.event_name;
  properties = marshal p.properties;
  traits = marshal r.merged_traits;
  context = marshal p.context;
  enriched_data = Json.object r.enriched_data;
}

unfoldable pub persist_enriched : RawEventPayload → EnrichmentResult → M (Result Unit)
persist_enriched p r = exec (insert_enriched_event (enriched_row p r))

module _ (max_retries : ℕ) (p : RawEventPayload) (attempt : ℕ) where
  unfoldable pub handle_transient : Error → M Unit
  handle_transient x =
      branch (leb max_retries attempt)
        (do
          exec (mark_raw_event_failed p.event_id p.workspace_id (message x))
          inc enrich_failures
          settle term)
        (do inc event_retries; settle nak)

  -- An error of the last mark is only logged.
  unfoldable pub finish_event : EnrichmentResult → M Unit
  finish_event r = do
    evaluate_workflow_triggers p r.contact_id
    exec (mark_raw_event_processed p.event_id p.workspace_id)
    settle ack

  unfoldable pub on_enriched : EnrichmentResult → M Unit
  on_enriched r = try (persist_enriched p r) handle_transient (λ _. finish_event r)

  unfoldable pub enrich_event : M Unit
  enrich_event =
      try (enrich p) (λ x. do inc enrich_failures; handle_transient x)
        (λ result. case_option result (settle nak) on_enriched)

  unfoldable pub process_event : M Unit
  process_event =
      try (exec (get_raw_event_status p.event_id p.workspace_id)) (λ _. settle nak)
        (λ status.
          branch (status =ₛ "processed") (do inc duplicate_drops; settle ack)
            (try (exec (mark_raw_event_processing p.event_id p.workspace_id)) (λ _. settle nak)
              (λ _. enrich_event)))

-- `Handle`
unfoldable pub handle_event : ℕ → Msg RawEventPayload → M Unit
handle_event max_retries msg = do
  inc events_processed
  case_option msg.body (settle term)
      (λ p. branch (is_invalid p) (settle term) (process_event max_retries p (attempt_of msg)))
