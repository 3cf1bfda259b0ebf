-- ===== src/Events/Handler/StoredOnce.antt =====
-- The enriched rows of an event, internal/worker/events/handler.go.
use mathlib.Core.Path.{subst}
use emailservice_worker.Prelude.{
  ℕ, ◌+◌, ◌≤◌, ◌≡◌, refl, sym, String, Bool, false, Option, none, some, List, [], ◌∷◌, ◌++◌, any,
  affected, arith, eq_iff,
}
use emailservice_worker.Types.{Json, Payload, RawEventPayload}
use emailservice_worker.Schema.{Database, EnrichedRecord, ContactRecord}
use emailservice_worker.Effect.{Env, World, Msg, Stmt, exec}
use emailservice_worker.Effect.Errors.{Error}
use emailservice_worker.Effect.Keeps.{Keeps, Ensures-then}
use emailservice_worker.Effect.Keeps.OnDb.{OfDb, Keeps-exec_db, db_rules}
use emailservice_worker.Queue.Publisher.{publish}
use emailservice_worker.Postgres.Identity.{
  upsert_user, upsert_contact, upsert_anonymous, upsert_anonymous_contact,
  merge_anonymous_into_contact, find_contact_by_user_id, find_contact_by_anonymous_id,
}
use emailservice_worker.Postgres.Events.{
  EnrichedEventRow, WorkflowTriggerRule, is_enriched, add_enriched, enriched_record,
  insert_enriched_event, get_raw_event_status, mark_raw_event_processing, mark_raw_event_processed,
  mark_raw_event_failed, find_matching_workflow_triggers,
}
use emailservice_worker.Events.Enricher.{
  EnrichmentResult, found_contact, create_contact, track_user, create_anonymous, track_anonymous,
  handle_track, link_anonymous, identify_user, handle_identify, alias_user, handle_alias, enrich,
}
use emailservice_worker.Events.Handler.{
  publish_triggers, evaluate_workflow_triggers, persist_enriched, handle_transient, finish_event,
  on_enriched, enrich_event, process_event, handle_event,
}

affected-append :
    (p : EnrichedRecord → Bool) (a b : List EnrichedRecord)
    → affected p (a ++ b) ≡ affected p a + affected p b
unfolding affected
affected-append p [] b = omega arith
affected-append p (r ∷ a) b = omega (arith, affected-append p a b)

affected_none :
    (p : EnrichedRecord → Bool) (rows : List EnrichedRecord)
    → any p rows ≡ false
    → affected p rows ≡ 0
unfolding affected
affected_none p [] h = refl
affected_none p (r ∷ rows) h = ground (arith, affected_none p rows)

-- The event has one enriched row at most.
pub record IsStoredOnce (id : String) (d : Database) : Type 0 where
  pub at_most : affected (is_enriched id) d.events_enriched ≤ 1

add_enriched-once :
    (id : String) (r : EnrichedRecord) (rows : List EnrichedRecord)
    → affected (is_enriched id) rows ≤ 1
    → affected (is_enriched id) (add_enriched r rows) ≤ 1
unfolding add_enriched affected
add_enriched-once id r rows h = ground (
  arith,
  h,
  eq_iff r.raw_event_id id,
  affected-append (is_enriched id) rows (r ∷ []),
  affected_none (is_enriched r.raw_event_id) rows,
  λ (q : r.raw_event_id ≡ id).
      subst (λ x. any (is_enriched r.raw_event_id) rows ≡ false → affected (is_enriched x) rows ≡ 0)
        q (affected_none (is_enriched r.raw_event_id) rows),
)

upsert_user-enriched :
    (id v u a : String) (j : Json) (t : ℕ) (d : Database) (o : Option ContactRecord)
    → (upsert_user id v u a j t d o).1.events_enriched ≡ d.events_enriched
unfolding upsert_user
upsert_user-enriched id v u a j t d none = ground arith
upsert_user-enriched id v u a j t d (some r) = ground arith

upsert_anonymous-enriched :
    (id v a : String) (j : Json) (t : ℕ) (d : Database) (o : Option ContactRecord)
    → (upsert_anonymous id v a j t d o).1.events_enriched ≡ d.events_enriched
unfolding upsert_anonymous
upsert_anonymous-enriched id v a j t d none = refl
upsert_anonymous-enriched id v a j t d (some r) = refl

abbrev Once : String → World → Type 0
Once id = OfDb (IsStoredOnce id) (λ ms. Unit {0})

-- A statement that leaves the enriched events alone.
module _ {e : Env} {id : String} where
  Once-exec :
      {A : Type 0} (q : Stmt A)
      → ((t : ℕ) (d : Database) → (q t d).1.events_enriched ≡ d.events_enriched)
      → Keeps e (Once id) (exec q)
  Once-exec q h = Keeps-exec_db q (λ t d once. record {
    at_most = subst (λ rows. affected (is_enriched id) rows ≤ 1) (sym (h t d)) once.at_most;
  })

  Once-upsert : (f v u a : String) (j : Json) → Keeps e (Once id) (exec (upsert_contact f v u a j))
  unfolding upsert_contact
  Once-upsert f v u a j = Once-exec _ (λ t d. upsert_user-enriched f v u a j t d _)

  Once-upsert_anonymous :
      (f v a : String) (j : Json) → Keeps e (Once id) (exec (upsert_anonymous_contact f v a j))
  unfolding upsert_anonymous_contact
  Once-upsert_anonymous f v a j = Once-exec _ (λ t d. upsert_anonymous-enriched f v a j t d _)

  Once-merge : (v c a : String) → Keeps e (Once id) (exec (merge_anonymous_into_contact v c a))
  unfolding merge_anonymous_into_contact
  Once-merge v c a = Once-exec _ (λ t d. ground arith)

  Once-find_user : (v u : String) → Keeps e (Once id) (exec (find_contact_by_user_id v u))
  unfolding find_contact_by_user_id
  Once-find_user v u = Once-exec _ (λ t d. refl)

  Once-find_anonymous : (v a : String) → Keeps e (Once id) (exec (find_contact_by_anonymous_id v a))
  unfolding find_contact_by_anonymous_id
  Once-find_anonymous v a = Once-exec _ (λ t d. refl)

  Once-processing : (i v : String) → Keeps e (Once id) (exec (mark_raw_event_processing i v))
  unfolding mark_raw_event_processing
  Once-processing i v = Once-exec _ (λ t d. refl)

  Once-processed : (i v : String) → Keeps e (Once id) (exec (mark_raw_event_processed i v))
  unfolding mark_raw_event_processed
  Once-processed i v = Once-exec _ (λ t d. refl)

  Once-failed : (i v reason : String) → Keeps e (Once id) (exec (mark_raw_event_failed i v reason))
  unfolding mark_raw_event_failed
  Once-failed i v reason = Once-exec _ (λ t d. refl)

  Once-status : (i v : String) → Keeps e (Once id) (exec (get_raw_event_status i v))
  unfolding get_raw_event_status
  Once-status i v = Once-exec _ (λ t d. refl)

  Once-find_triggers :
      (v t n : String) → Keeps e (Once id) (exec (find_matching_workflow_triggers v t n))
  unfolding find_matching_workflow_triggers
  Once-find_triggers v t n = Once-exec _ (λ x d. refl)

  Once-insert : (row : EnrichedEventRow) → Keeps e (Once id) (exec (insert_enriched_event row))
  unfolding insert_enriched_event
  Once-insert row = Keeps-exec_db _ (λ t d once. record {
    at_most = add_enriched-once id (enriched_record row t) d.events_enriched once.at_most;
  })

ruleset once_rules = (
  db_rules, Once-upsert, Once-upsert_anonymous, Once-merge, Once-find_user, Once-find_anonymous,
  Once-processing, Once-processed, Once-failed, Once-status, Once-find_triggers, Once-insert,
)

module _ {e : Env} {id : String} where
  Once-publish :
      (subject : String) (x : Payload) (i : String) → Keeps e (Once id) (publish subject x i)
  unfolding publish
  Once-publish subject x i = search db_rules depth 20

  Once-handle_track : (p : RawEventPayload) → Keeps e (Once id) (handle_track p)
  unfolding handle_track track_user track_anonymous create_contact create_anonymous found_contact
  Once-handle_track p = search once_rules depth 40

  Once-link_anonymous : (p : RawEventPayload) (i : String) → Keeps e (Once id) (link_anonymous p i)
  unfolding link_anonymous
  Once-link_anonymous p i = search once_rules depth 40

  Once-identify : (p : RawEventPayload) → Keeps e (Once id) (handle_identify p)
  unfolding handle_identify identify_user
  Once-identify p = search (once_rules, Once-handle_track, Once-link_anonymous) depth 40

  Once-alias : (p : RawEventPayload) → Keeps e (Once id) (handle_alias p)
  unfolding handle_alias alias_user
  Once-alias p = search once_rules depth 40

  Once-enrich : (p : RawEventPayload) → Keeps e (Once id) (enrich p)
  unfolding enrich
  Once-enrich p = search (once_rules, Once-handle_track, Once-identify, Once-alias) depth 30

  Once-publish_triggers :
      (p : RawEventPayload) (contact_id : String) (ts : List WorkflowTriggerRule)
      → Keeps e (Once id) (publish_triggers p contact_id ts)
  unfolding publish_triggers
  Once-publish_triggers p contact_id [] = search once_rules depth 10
  Once-publish_triggers p contact_id (t ∷ ts) =
      Ensures-then _ _ (search (once_rules, Once-publish) depth 20)
        (Once-publish_triggers p contact_id ts)

module _ {e : Env} {id : String} (max_retries : ℕ) (p : RawEventPayload) (attempt : ℕ) where
  Once-transient : (x : Error) → Keeps e (Once id) (handle_transient max_retries p attempt x)
  unfolding handle_transient
  Once-transient x = search (once_rules) depth 30

  Once-on_enriched :
      (r : EnrichmentResult) → Keeps e (Once id) (on_enriched max_retries p attempt r)
  unfolding on_enriched finish_event evaluate_workflow_triggers persist_enriched
  Once-on_enriched r = search (once_rules, Once-publish_triggers, Once-transient) depth 40

  Once-process_event : Keeps e (Once id) (process_event max_retries p attempt)
  unfolding process_event enrich_event
  Once-process_event = search (once_rules, Once-enrich, Once-on_enriched, Once-transient) depth 40

-- An event is stored once. Whatever the message, the retries and the environment: where an event
-- has one enriched row at most before a delivery, of itself or of another event, it has one at most
-- after it.
pub handle_event-IsStoredOnce :
    (max_retries : ℕ) (msg : Msg RawEventPayload) (id : String) (e : Env) (w : World)
    → IsStoredOnce id w.db
    → IsStoredOnce id (handle_event max_retries msg e w).1.db
unfolding handle_event
handle_event-IsStoredOnce max_retries msg id e w once =
    let keeps : Keeps e (Once id) (handle_event max_retries msg) =
      search (once_rules, Once-process_event) depth 30 in
    (keeps.at w (record { of_db = once; of_mails = tt })).of_db
