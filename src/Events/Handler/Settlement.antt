-- ===== src/Events/Handler/Settlement.antt =====
-- How the handler of internal/worker/events/handler.go ends.
use emailservice_worker.Prelude.{ℕ, refl, String, List, [], ◌∷◌}
use emailservice_worker.Types.{Payload, RawEventPayload}
use emailservice_worker.Effect.{Env, World, Msg, Settlement}
use emailservice_worker.Effect.Errors.{Error}
use emailservice_worker.Effect.Keeps.{Ensures, Keeps, Ensures-then}
use emailservice_worker.Effect.Keeps.OnSettled.{Settled, SettledOnce, settled_rules}
use emailservice_worker.Queue.Publisher.{publish}
use emailservice_worker.Postgres.Events.{WorkflowTriggerRule}
use emailservice_worker.Events.Enricher.{
  EnrichmentResult, found_contact, create_contact, track_user, create_anonymous, track_anonymous,
  handle_track, link_anonymous, identify_user, handle_identify, alias_user, handle_alias, enrich,
}
use emailservice_worker.Events.Handler.{
  publish_triggers, evaluate_workflow_triggers, persist_enriched, handle_transient, finish_event,
  on_enriched, enrich_event, process_event, handle_event,
}

module _ {e : Env} {s : List Settlement} where
  Settled-publish :
      (subject : String) (x : Payload) (id : String) → Keeps e (Settled s) (publish subject x id)
  unfolding publish
  Settled-publish subject x id = search settled_rules depth 20

  Settled-handle_track : (p : RawEventPayload) → Keeps e (Settled s) (handle_track p)
  unfolding handle_track track_user track_anonymous create_contact create_anonymous found_contact
  Settled-handle_track p = search settled_rules depth 40

  Settled-link_anonymous :
      (p : RawEventPayload) (id : String) → Keeps e (Settled s) (link_anonymous p id)
  unfolding link_anonymous
  Settled-link_anonymous p id = search settled_rules depth 40

  Settled-identify : (p : RawEventPayload) → Keeps e (Settled s) (handle_identify p)
  unfolding handle_identify identify_user
  Settled-identify p = search (settled_rules, Settled-handle_track, Settled-link_anonymous) depth 40

  Settled-alias : (p : RawEventPayload) → Keeps e (Settled s) (handle_alias p)
  unfolding handle_alias alias_user
  Settled-alias p = search settled_rules depth 40

  Settled-enrich : (p : RawEventPayload) → Keeps e (Settled s) (enrich p)
  unfolding enrich
  Settled-enrich p =
      search (settled_rules, Settled-handle_track, Settled-identify, Settled-alias) depth 30

  Settled-publish_triggers :
      (p : RawEventPayload) (contact_id : String) (ts : List WorkflowTriggerRule)
      → Keeps e (Settled s) (publish_triggers p contact_id ts)
  unfolding publish_triggers
  Settled-publish_triggers p contact_id [] = search settled_rules depth 10
  Settled-publish_triggers p contact_id (t ∷ ts) =
      Ensures-then _ _ (search (settled_rules, Settled-publish) depth 20)
        (Settled-publish_triggers p contact_id ts)

  Settled-evaluate :
      (p : RawEventPayload) (contact_id : String)
      → Keeps e (Settled s) (evaluate_workflow_triggers p contact_id)
  unfolding evaluate_workflow_triggers
  Settled-evaluate p contact_id = search (settled_rules, Settled-publish_triggers) depth 20

  Settled-persist :
      (p : RawEventPayload) (r : EnrichmentResult) → Keeps e (Settled s) (persist_enriched p r)
  unfolding persist_enriched
  Settled-persist p r = search settled_rules depth 20

module _ {e : Env} {s : List Settlement} (max_retries : ℕ) (p : RawEventPayload) (attempt : ℕ) where
  transient-Once :
      (x : Error) → Ensures e (Settled s) (handle_transient max_retries p attempt x) (SettledOnce s)
  unfolding handle_transient
  transient-Once x = search settled_rules depth 30

  on_enriched-Once :
      (r : EnrichmentResult)
      → Ensures e (Settled s) (on_enriched max_retries p attempt r) (SettledOnce s)
  unfolding on_enriched finish_event
  on_enriched-Once r =
      search (settled_rules, Settled-evaluate, Settled-persist, transient-Once) depth 30

  process_event-Once : Ensures e (Settled s) (process_event max_retries p attempt) (SettledOnce s)
  unfolding process_event enrich_event
  process_event-Once =
      search (settled_rules, Settled-enrich, on_enriched-Once, transient-Once) depth 40

-- Whatever the message, the tables, the database, the queue and the clock do: the handler of raw
-- events, with the nak for a panic, settles its message exactly once.
pub handle_event-Once :
    (max_retries : ℕ) (msg : Msg RawEventPayload) (e : Env) (w : World)
    → SettledOnce w.settled (handle_event max_retries msg e w).1
unfolding handle_event
handle_event-Once max_retries msg e w =
    let ends : Ensures e (Settled w.settled) (handle_event max_retries msg)
        (SettledOnce w.settled) =
      search (settled_rules, process_event-Once) depth 30 in
    ends.at w refl
