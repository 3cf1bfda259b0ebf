-- ===== src/Events/Handler/Idempotency.antt =====
-- Redeliveries of an event, and the triggers that it publishes, internal/worker/events/handler.go.
use mathlib.Core.Path.{subst}
use emailservice_worker.Prelude.{
  ℕ, ◌≡◌, refl, sym, ap, String, true, some, List, ◌∷◌, ◌=ₛ◌, select_row, arith,
}
use emailservice_worker.Types.{RawEventPayload, WorkflowTriggerPayload}
use emailservice_worker.Schema.{Database, RawEventRecord}
use emailservice_worker.Effect.{
  Env, World, Msg, Published, ack, term, nak, settle, inc, case_option, branch, attempt_of, ◌>>◌,
  events_processed, duplicate_drops,
}
use emailservice_worker.Effect.Errors.{ok}
use emailservice_worker.Effect.Keeps.{Keeps, Ensures-then, Ensures-branch, Ensures-branch_on}
use emailservice_worker.Effect.Keeps.OnStill.{Still, Still-query, Still-settle, Still-inc}
use emailservice_worker.Postgres.Events.{is_event, status_or_empty, get_raw_event_status}
use emailservice_worker.Events.Handler.{is_invalid, trigger_payload, process_event, handle_event}
use emailservice_worker.Workflows.Executor.{Parsers}
use emailservice_worker.Workflows.Handler.{handle_trigger}

module _ {e : Env} {d : Database} {o : List Published} (max_retries : ℕ) (p : RawEventPayload)
    (attempt : ℕ) (r : RawEventRecord)
    (there : select_row (is_event p.event_id p.workspace_id) d.events_raw ≡ some r)
    (processed : (r.status =ₛ "processed") ≡ true) where
  Still-process_event : Keeps e (Still d o) (process_event max_retries p attempt)
  unfolding process_event get_raw_event_status
  Still-process_event =
      Still-query (get_raw_event_status p.event_id p.workspace_id) r.status _ _
        (λ t. ap (λ x. (ok (status_or_empty x), d)) there) (λ _. Still-settle nak)
        (Ensures-branch_on _ _ _
          (λ _. Ensures-then _ _ (Still-inc duplicate_drops) (Still-settle ack))
          (λ t. absurd (ground (arith, t, processed))))

  Still-handle_event :
      (msg : Msg RawEventPayload)
      → msg.body ≡ some p
      → attempt_of msg ≡ attempt
      → Keeps e (Still d o) (handle_event max_retries msg)
  unfolding handle_event case_option
  Still-handle_event msg is_p is_attempt = Ensures-then _ _ (Still-inc events_processed) (
      subst
        (λ b. Keeps e (Still d o) (
          case_option b (settle term) (λ x.
            branch (is_invalid x) (settle term) (process_event max_retries x (attempt_of msg)))))
        (sym is_p)
        (Ensures-branch _ _ _ (Still-settle term) (
          subst (λ n. Keeps e (Still d o) (process_event max_retries p n)) (sym is_attempt)
            Still-process_event)))

-- Once an event is processed, every further delivery of it leaves the database as it is and
-- publishes nothing, whatever the environment: no contact is touched, no event is stored and no
-- workflow is triggered again.
pub handle_event-still :
    (max_retries : ℕ) (msg : Msg RawEventPayload) (p : RawEventPayload) (r : RawEventRecord)
    (e : Env) (w : World)
    → msg.body ≡ some p
    → select_row (is_event p.event_id p.workspace_id) w.db.events_raw ≡ some r
    → (r.status =ₛ "processed") ≡ true
    → let w' = (handle_event max_retries msg e w).1 in (w'.db ≡ w.db) × (w'.outbox ≡ w.outbox)
handle_event-still max_retries msg p r e w is_p there processed =
    (Still-handle_event max_retries p (attempt_of msg) r there processed msg is_p refl).at w
      (refl, refl)

-- The trigger that an event publishes starts no workflow: delivered to the trigger handler, it is
-- terminated, and the database and the publications stay as they are, whatever the event, the
-- contact and the environment.
pub handle_trigger-event :
    (g : Parsers) (fuel max_retries : ℕ) (p : RawEventPayload) (contact_id : String)
    (msg : Msg WorkflowTriggerPayload) (e : Env) (w : World)
    → msg.body ≡ some (trigger_payload p contact_id)
    → let w' = (handle_trigger g fuel max_retries msg e w).1 in
      (w'.settled ≡ term ∷ w.settled) × (w'.db ≡ w.db) × (w'.outbox ≡ w.outbox)
unfolding handle_trigger ◌>>◌ case_option branch settle inc
handle_trigger-event g fuel max_retries p contact_id msg e w is_trigger = ground (arith, is_trigger)
