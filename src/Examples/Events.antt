-- ===== src/Examples/Events.antt =====
-- Raw events on concrete data.
use emailservice_worker.Prelude.{
  ◌≡◌, refl, String, none, some, [], ◌∷◌, arith, affected, select_row,
}
use emailservice_worker.Types.{RawEventPayload, WorkflowTriggerPayload}
use emailservice_worker.Schema.{Database, RawEventRecord, empty_database}
use emailservice_worker.Effect.{Msg, term}
use emailservice_worker.Effect.Keeps.OnSettled.{SettledOnce}
use emailservice_worker.Events.Handler.{trigger_payload, handle_event}
use emailservice_worker.Events.Handler.Settlement.{handle_event-Once}
use emailservice_worker.Events.Handler.Idempotency.{handle_event-still, handle_trigger-event}
use emailservice_worker.Events.Handler.StoredOnce.{IsStoredOnce, handle_event-IsStoredOnce}
use emailservice_worker.Workflows.Handler.{handle_trigger}
use emailservice_worker.Examples.{calm, throttled, world_with}
use emailservice_worker.Examples.Workflows.{parsers, workflow_db}

abbrev event : RawEventPayload
event = record {
  event_id = "e1";
  workspace_id = "w1";
  api_key_id = "k1";
  event_type = "track";
  event_name = "signup";
  user_id = "u1";
  anonymous_id = "";
  group_id = "";
  traits = none;
  properties = none;
  context = none;
  received_at = 0;
}

abbrev event_message : Msg RawEventPayload
event_message = record { body = some event; num_delivered = some 1 }

abbrev event_row : String → RawEventRecord
event_row status = record {
  id = "e1";
  workspace_id = "w1";
  status = status;
  attempts = none;
  failure_reason = none;
  created_at = 0;
  processed_at = none;
  updated_at = 0;
}

abbrev events_db : String → Database
events_db status = record empty_database { events_raw = event_row status ∷ [] }

abbrev trigger_of_event : Msg WorkflowTriggerPayload
trigger_of_event = record { body = some (trigger_payload event "c1"); num_delivered = some 1 }

handle_event-Once_example :
    SettledOnce [] (handle_event 5 event_message throttled (world_with (events_db "queued"))).1
handle_event-Once_example =
    handle_event-Once 5 event_message throttled (world_with (events_db "queued"))

handle_event-still_example :
    let w' = (handle_event 5 event_message calm (world_with (events_db "processed"))).1 in
    (w'.db ≡ events_db "processed") × (w'.outbox ≡ [])
unfolding select_row
handle_event-still_example =
    handle_event-still 5 event_message event (event_row "processed") calm
      (world_with (events_db "processed")) refl refl refl

handle_trigger-event_example :
    let w' = (handle_trigger parsers 9 5 trigger_of_event calm (world_with workflow_db)).1 in
    (w'.settled ≡ term ∷ []) × (w'.db ≡ workflow_db) × (w'.outbox ≡ [])
handle_trigger-event_example =
    handle_trigger-event parsers 9 5 event "c1" trigger_of_event calm (world_with workflow_db) refl

handle_event-IsStoredOnce_example :
    IsStoredOnce "e1" (handle_event 5 event_message calm (world_with (events_db "queued"))).1.db
unfolding affected
handle_event-IsStoredOnce_example =
    handle_event-IsStoredOnce 5 event_message "e1" calm (world_with (events_db "queued"))
      (record { at_most = omega arith })
