-- ===== src/Segments/Handler/Refinement.antt =====
-- A refresh of a segment implements its specification, internal/worker/segments/handler.go: the
-- members of the segment are the contacts of the workspace that the filter tree selects.
use mathlib.Core.Path.{subst}
use Prim.Native.String.{◌++◌}
use emailservice_worker.Prelude.{
  ℕ, ◌≡◌, refl, sym, ap, ◌∙◌, String, true, false, ◌||◌, Option, none, some, List, [], ◌∷◌, All,
  any, length, ◌==◌, select_row, HasRow, arith,
}
use emailservice_worker.Types.{SegmentRefreshPayload}
use emailservice_worker.Schema.{Database, SegmentRecord}
use emailservice_worker.Effect.{
  settle, term, attempt_of, refresh_jobs, ◌>>◌, Env, World, Settlement, ack, pure, done, redis, try,
  case_option, branch, new_uuid, inc, Msg,
}
use emailservice_worker.Effect.Errors.{ok}
use emailservice_worker.Effect.Yields.{
  DbIsUp, Yields, On, Yields-try, Yields-then, Yields-branch, Yields-pure, Yields-case_result,
  Yields-case_option, Yields-bind_any, Yields-read,
}
use emailservice_worker.Locks.{acquire_lock, release_lock, set_nx, delete_if}
use emailservice_worker.Email.Validate.{is_empty}
use emailservice_worker.Postgres.Recipients.{coalesce}
use emailservice_worker.Postgres.Keyset.{AreKeyed}
use emailservice_worker.Postgres.Contacts.{contact_for_eval}
use emailservice_worker.Postgres.Contacts.Pages.{key, HaveIds}
use emailservice_worker.Postgres.Segments.{Keys, has_key, is_segment, loaded_segment, get_segment}
use emailservice_worker.Segments.Evaluator.{Conversions, FilterNode, parse_filter_tree}
use emailservice_worker.Segments.Handler.{
  evaluate, refresh_loaded, refresh_locked, refresh, handle_refresh, lock_ttl,
}
use emailservice_worker.Segments.Handler.KeySets.{length_same}
use emailservice_worker.Segments.Handler.Members.{
  IsOfWorkspace, is_member, current_keys, keys_of-member, keys_of-distinct, sync-members,
}
use emailservice_worker.Segments.Handler.Frame.{
  Frame, any_row, synced, status-yields, update_members-yields,
}
use emailservice_worker.Segments.Handler.Selected.{is_read_tree, is_selected, any-is_selected}
use emailservice_worker.Segments.Handler.Matched.{
  IsSoundOn, matched_keys, matched_keys-distinct, matched_keys-has_key, stream-matched,
}

-- What a refresh relies on, for a filter tree. The segment is there with that tree; the tree is
-- sound on every contact, and its leaves are on fields and events that the evaluator reads; ids are
-- not empty and are numbered apart, as uuids are; and the rows of the segment are of its workspace.
pub record IsReady (g : Conversions) (uuid : String → ℕ) (p : SegmentRefreshPayload)
    (tree : Option FilterNode) (d : Database) : Type 0 where
  pub segment : SegmentRecord
  pub is_there : select_row (is_segment p.segment_id p.workspace_id) d.segments ≡ some segment
  pub is_tree : parse_filter_tree g (coalesce segment.filter_tree "{}") ≡ ok tree
  pub is_sound :
      All
        (λ r. IsSoundOn g uuid p.workspace_id d.events_enriched tree (contact_for_eval r))
        d.contacts
  pub is_read : All (λ r. is_read_tree g p.workspace_id d.events_enriched tree r ≡ true) d.contacts
  pub are_keyed : AreKeyed (key uuid p.workspace_id) d.contacts
  pub have_ids : HaveIds uuid p.workspace_id d.contacts
  pub is_of_workspace : IsOfWorkspace p.segment_id p.workspace_id d.segment_memberships

-- What a refresh finds, and the tables before and after.
abbrev pub found :
    (g : Conversions) → (String → ℕ) → SegmentRefreshPayload → Option FilterNode → Database → Keys
found g uuid p tree d = matched_keys g uuid p.workspace_id d.events_enriched tree d.contacts

abbrev Before : SegmentRefreshPayload → Database → Database → Type 0
Before p d0 = Frame p d0.events_enriched d0.contacts d0.segment_memberships any_row

abbrev After :
    Conversions
    → (String → ℕ)
    → SegmentRefreshPayload
    → Option FilterNode
    → Database
    → Database
    → Type 0
After g uuid p tree d0 =
    Frame p d0.events_enriched d0.contacts
      (synced p (found g uuid p tree d0) d0.segment_memberships)
      (λ r. r.contact_count == length (found g uuid p tree d0))

start :
    (g : Conversions) (uuid : String → ℕ) (p : SegmentRefreshPayload) (tree : Option FilterNode)
    (d0 : Database) (s : List Settlement)
    → IsReady g uuid p tree d0
    → (w : World) → On (λ d. d ≡ d0) s w
    → On (Before p d0) s w
start g uuid p tree d0 s ready w q = record {
  of_db = record {
    of_events = ap (λ d. d.events_enriched) q.of_db;
    of_contacts = ap (λ d. d.contacts) q.of_db;
    of_members = ap (λ d. d.segment_memberships) q.of_db;
    of_segment = (
      ready.segment,
      ap (λ d. select_row (is_segment p.segment_id p.workspace_id) d.segments) q.of_db
          ∙ ready.is_there,
      refl,
    );
  };
  of_settled = q.of_settled;
}

module _ {e : Env} (up : DbIsUp e) {s : List Settlement} (g : Conversions) (uuid : String → ℕ)
    (max_retries : ℕ) (p : SegmentRefreshPayload) (attempt : ℕ) (tree : Option FilterNode)
    (d0 : Database) (ready : IsReady g uuid p tree d0) where
  evaluate-yields :
      Yields e
        (On (Before p d0) s)
        (evaluate g uuid max_retries p attempt tree)
        tt
        (On (After g uuid p tree d0) (ack ∷ s))
  unfolding evaluate
  evaluate-yields =
      Yields-try _ _ _ tt (status-yields up p d0.events_enriched d0.contacts _ "processing") (
        Yields-try _ _ _ (found g uuid p tree d0)
          (stream-matched up g uuid max_retries p attempt d0.events_enriched d0.contacts
            (Before p d0) (λ d c. c.of_events) (λ d c. c.of_contacts) tree ready.are_keyed
            ready.have_ids ready.is_sound)
          (update_members-yields up g uuid max_retries p attempt d0.events_enriched d0.contacts _
            (found g uuid p tree d0)
            (matched_keys-distinct g uuid p.workspace_id d0.events_enriched tree d0.contacts)))

  refresh_locked-yields :
      Yields e
        (On (λ d. d ≡ d0) s)
        (refresh_locked g uuid max_retries p attempt)
        tt
        (On (After g uuid p tree d0) (ack ∷ s))
  unfolding refresh_locked get_segment refresh_loaded case_option
  refresh_locked-yields =
      Yields-try _ _ _ (loaded_segment (some ready.segment))
        (Yields-read up (get_segment p.segment_id p.workspace_id)
          (loaded_segment (some ready.segment))
          (λ t d c.
            ap (λ x. (ok (loaded_segment x), d))
              (ap (λ x. select_row (is_segment p.segment_id p.workspace_id) x.segments) c
                ∙ ready.is_there)))
        (Yields-case_result _ _ _ tree ready.is_tree
          (record { at = λ w q. evaluate-yields.at w (start g uuid p tree d0 s ready w q) }))

-- Redis answers every command.
abbrev pub RedisIsUp : Env → Type 0
RedisIsUp e = (n : ℕ) → e.redis_fate n ≡ done

abbrev pub lock_key : SegmentRefreshPayload → String
lock_key p = "segment:" ++ p.segment_id ++ ":refresh"

-- Nobody holds the lock.
abbrev IsFree : (World → Type 0) → String → World → Type 0
IsFree P k w = P w × (w.locks k ≡ none)

module _ {e : Env} (redis_up : RedisIsUp e) {C : Database → Type 0} {s : List Settlement} where
  acquire-yields :
      (k value : String) (ttl : ℕ)
      → Yields e (IsFree (On C s) k) (acquire_lock k value ttl) (ok tt) (On C s)
  unfolding acquire_lock set_nx redis try branch pure
  acquire-yields k value ttl = record {
    at = λ w q. (
      ground (arith, redis_up w.tick, q.1),
      record {
        of_db = subst C (ground (arith, redis_up w.tick, q.1)) q.0.of_db;
        of_settled = ground (arith, redis_up w.tick, q.1, q.0.of_settled);
      },
    );
  }

  release-yields : (k value : String) → Yields e (On C s) (release_lock k value) (ok tt) (On C s)
  unfolding release_lock delete_if redis
  release-yields k value = record {
    at = λ w q. (
      ground (arith, redis_up w.tick),
      record { of_db = subst C (ground arith) q.of_db; of_settled = ground (arith, q.of_settled) },
    );
  }

module _ {e : Env} (up : DbIsUp e) (redis_up : RedisIsUp e) {s : List Settlement} (g : Conversions)
    (uuid : String → ℕ) (max_retries : ℕ) (p : SegmentRefreshPayload) (attempt : ℕ)
    (tree : Option FilterNode) (d0 : Database) (ready : IsReady g uuid p tree d0) where
  refresh-yields :
      Yields e
        (IsFree (On (λ d. d ≡ d0) s) (lock_key p))
        (refresh g uuid max_retries p attempt)
        tt
        (On (After g uuid p tree d0) (ack ∷ s))
  unfolding refresh new_uuid
  refresh-yields =
      Yields-bind_any new_uuid _
        (λ w q. (record { of_db = q.0.of_db; of_settled = q.0.of_settled }, q.1))
        (λ value. Yields-try _ _ _ tt (acquire-yields redis_up (lock_key p) value lock_ttl) (
          Yields-then tt (refresh_locked-yields up g uuid max_retries p attempt tree d0 ready) (
            Yields-then (ok tt) (release-yields redis_up (lock_key p) value)
              (Yields-pure (λ w q. q)))))

  handle_refresh-yields :
      (msg : Msg SegmentRefreshPayload)
      → msg.body ≡ some p
      → (is_empty p.workspace_id || is_empty p.segment_id) ≡ false
      → Yields e
          (IsFree (On (λ d. d ≡ d0) s) (lock_key p))
          (case_option msg.body (settle term) (λ x.
            branch
              (is_empty x.workspace_id || is_empty x.segment_id)
              (settle term)
              (refresh g uuid max_retries x attempt)))
          tt
          (On (After g uuid p tree d0) (ack ∷ s))
  handle_refresh-yields msg is_p valid =
      Yields-case_option _ _ _ p is_p
        (Yields-branch _ (λ t. absurd (ground (arith, t, valid))) (λ _. refresh-yields))

-- The members after a refresh, and their number.
module _ (g : Conversions) (uuid : String → ℕ) (p : SegmentRefreshPayload)
    (tree : Option FilterNode) (d0 : Database) (ready : IsReady g uuid p tree d0) where
  synced-member :
      (k : String)
      → is_member p.segment_id p.workspace_id k
          (synced p (found g uuid p tree d0) d0.segment_memberships)
        ≡ has_key k (found g uuid p tree d0)
  synced-member k =
      sync-members p.segment_id p.workspace_id k (found g uuid p tree d0) d0.segment_memberships
        ready.is_of_workspace

  length-found :
      length (found g uuid p tree d0)
      ≡ length (
          current_keys p.segment_id p.workspace_id
            (synced p (found g uuid p tree d0) d0.segment_memberships))
  length-found =
      let rows = synced p (found g uuid p tree d0) d0.segment_memberships in
      length_same (found g uuid p tree d0) (current_keys p.segment_id p.workspace_id rows)
        (matched_keys-distinct g uuid p.workspace_id d0.events_enriched tree d0.contacts)
        (keys_of-distinct p.segment_id p.workspace_id [] _ refl)
        (λ k. sym (synced-member k) ∙ sym (keys_of-member p.segment_id p.workspace_id k [] rows))

-- The specification of a refresh. After a message for a segment whose lock is free, the members of
-- the segment are exactly the contacts of the workspace that are not deleted and that the filter
-- tree selects by the tables of fields and operators of the documentation, whatever the members were
-- before; the count stored with the segment is the number of its members; and the message is acked.
-- The hypotheses: the database and Redis answer, the payload has its ids, and the tables are as
-- `IsReady` says. In it, no leaf is on traits, user_id or status, which the evaluator does not read,
-- and none is an event with occurred_within_days, whose days it does not read.
pub handle_refresh-refines :
    (g : Conversions) (uuid : String → ℕ) (max_retries : ℕ) (msg : Msg SegmentRefreshPayload)
    (p : SegmentRefreshPayload) (tree : Option FilterNode) (e : Env) (w : World)
    → DbIsUp e
    → RedisIsUp e
    → msg.body ≡ some p
    → (is_empty p.workspace_id || is_empty p.segment_id) ≡ false
    → w.locks (lock_key p) ≡ none
    → IsReady g uuid p tree w.db
    → let w' = (handle_refresh g uuid max_retries msg e w).1 in
      ((k : String)
        → is_member p.segment_id p.workspace_id k w'.db.segment_memberships
          ≡ any (is_selected g p.workspace_id w.db.events_enriched tree k) w.db.contacts)
      × HasRow
          (is_segment p.segment_id p.workspace_id)
          (λ r.
            r.contact_count
            == length (current_keys p.segment_id p.workspace_id w'.db.segment_memberships))
          w'.db.segments
      × (w'.settled ≡ ack ∷ w.settled)
unfolding handle_refresh ◌>>◌ inc
handle_refresh-refines g uuid max_retries msg p tree e w up redis_up is_p valid free ready =
    let body =
      handle_refresh-yields up redis_up g uuid max_retries p (attempt_of msg) tree w.db ready msg
        is_p valid in
    let h =
      (body.at (inc refresh_jobs e w).1 (record { of_db = refl; of_settled = refl }, free)).1 in
    let members = h.of_db.of_members in
    (
      λ k.
          ap (is_member p.segment_id p.workspace_id k) members
          ∙ synced-member g uuid p tree w.db ready k
          ∙ matched_keys-has_key g uuid p.workspace_id w.db.events_enriched tree k w.db.contacts
          ∙ any-is_selected g p.workspace_id w.db.events_enriched uuid tree k w.db.contacts
              ready.is_read,
      subst
          (λ n.
            HasRow (is_segment p.segment_id p.workspace_id) (λ r. r.contact_count == n)
              (handle_refresh g uuid max_retries msg e w).1.db.segments)
          (length-found g uuid p tree w.db ready
            ∙ ap (λ l. length (current_keys p.segment_id p.workspace_id l)) (sym members))
          h.of_db.of_segment,
      h.of_settled,
    )
