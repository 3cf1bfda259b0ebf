-- ===== src/Segments/Handler/Frame.antt =====
-- The steps of a refresh after its evaluation, and the tables that they leave,
-- internal/worker/segments/handler.go.
use mathlib.Core.Path.{subst}
use emailservice_worker.Prelude.{
  ℕ, ◌+◌, ◌-◌, ◌≡◌, refl, sym, ap, String, Bool, true, List, [], ◌∷◌, length, ◌==◌, HasRow,
  HasRow-update_rows, arith,
}
use emailservice_worker.Types.{SegmentRefreshPayload}
use emailservice_worker.Schema.{
  Database, EnrichedRecord, ContactRecord, MembershipRow, SegmentRecord,
}
use emailservice_worker.Effect.{Env, Settlement, ack, exec}
use emailservice_worker.Effect.Errors.{ok}
use emailservice_worker.Effect.Yields.{
  DbIsUp, Yields, On, Yields-try, Yields-then, Yields-pure, Yields-exec, Yields-read,
  Yields-add_metric, Yields-settle,
}
use emailservice_worker.Postgres.Segments.{
  Keys, is_segment, update_segment_status, update_segment_ready, with_status, as_ready,
  get_current_member_ids, insert_members, insert_segment_members, delete_members,
  delete_segment_members,
}
use emailservice_worker.Segments.Evaluator.{Conversions}
use emailservice_worker.Segments.Handler.{diff, finish_refresh, apply_diff, update_members}
use emailservice_worker.Segments.Handler.KeySets.{are_distinct, count-diff}
use emailservice_worker.Segments.Handler.Members.{current_keys, keys_of-distinct}

-- The tables that a refresh reads or writes.
pub record Frame (p : SegmentRefreshPayload) (events : List EnrichedRecord)
    (contacts : List ContactRecord) (members : List MembershipRow) (test : SegmentRecord → Bool)
    (d : Database) : Type 0 where
  pub of_events : d.events_enriched ≡ events
  pub of_contacts : d.contacts ≡ contacts
  pub of_members : d.segment_memberships ≡ members
  pub of_segment : HasRow (is_segment p.segment_id p.workspace_id) test d.segments

abbrev pub any_row : SegmentRecord → Bool
any_row r = true

module _ {e : Env} (up : DbIsUp e) {s : List Settlement} (p : SegmentRefreshPayload)
    (events : List EnrichedRecord) (contacts : List ContactRecord) where
  insert-yields :
      (ids : List String) (rows : List MembershipRow)
      → Yields e
          (On (Frame p events contacts rows any_row) s)
          (insert_segment_members p.segment_id p.workspace_id ids)
          (ok tt)
          (On
            (Frame p events contacts (insert_members p.segment_id p.workspace_id ids rows) any_row)
            s)
  unfolding insert_segment_members insert_members
  insert-yields [] rows = Yields-pure (λ w q. q)
  insert-yields (id ∷ ids) rows = Yields-exec up _ (λ t d c. (
    refl,
    record {
      of_events = c.of_events;
      of_contacts = c.of_contacts;
      of_members = ap (insert_members p.segment_id p.workspace_id (id ∷ ids)) c.of_members;
      of_segment = c.of_segment;
    },
  ))

  delete-yields :
      (ids : List String) (rows : List MembershipRow)
      → Yields e
          (On (Frame p events contacts rows any_row) s)
          (delete_segment_members p.segment_id p.workspace_id ids)
          (ok tt)
          (On
            (Frame p events contacts (delete_members p.segment_id p.workspace_id ids rows) any_row)
            s)
  unfolding delete_segment_members delete_members
  delete-yields [] rows = Yields-pure (λ w q. q)
  delete-yields (id ∷ ids) rows = Yields-exec up _ (λ t d c. (
    refl,
    record {
      of_events = c.of_events;
      of_contacts = c.of_contacts;
      of_members = ap (delete_members p.segment_id p.workspace_id (id ∷ ids)) c.of_members;
      of_segment = c.of_segment;
    },
  ))

  ready-yields :
      (rows : List MembershipRow) (n : ℕ)
      → Yields e
          (On (Frame p events contacts rows any_row) s)
          (exec (update_segment_ready p.segment_id p.workspace_id n))
          (ok tt)
          (On (Frame p events contacts rows (λ r. r.contact_count == n)) s)
  unfolding update_segment_ready
  ready-yields rows n = Yields-exec up _ (λ t d c. (
    refl,
    record {
      of_events = c.of_events;
      of_contacts = c.of_contacts;
      of_members = c.of_members;
      of_segment =
          HasRow-update_rows (is_segment p.segment_id p.workspace_id) any_row
            (λ r. r.contact_count == n) (is_segment p.segment_id p.workspace_id) (as_ready n t)
            d.segments (λ r. refl) (λ r k _. ground (arith, k)) c.of_segment;
    },
  ))

  pub status-yields :
      (rows : List MembershipRow) (status : String)
      → Yields e
          (On (Frame p events contacts rows any_row) s)
          (exec (update_segment_status p.segment_id p.workspace_id status))
          (ok tt)
          (On (Frame p events contacts rows any_row) s)
  unfolding update_segment_status
  status-yields rows status = Yields-exec up _ (λ t d c. (
    refl,
    record {
      of_events = c.of_events;
      of_contacts = c.of_contacts;
      of_members = c.of_members;
      of_segment =
          HasRow-update_rows (is_segment p.segment_id p.workspace_id) any_row any_row
            (is_segment p.segment_id p.workspace_id) (with_status status t) d.segments (λ r. refl)
            (λ r _ _. refl) c.of_segment;
    },
  ))

  finish-yields :
      (g : Conversions) (uuid : String → ℕ) (max_retries attempt : ℕ) (rows : List MembershipRow)
      (current added removed n : ℕ)
      → current + added - removed ≡ n
      → Yields e
          (On (Frame p events contacts rows any_row) s)
          (finish_refresh g uuid max_retries p attempt current added removed)
          tt
          (On (Frame p events contacts rows (λ r. r.contact_count == n)) (ack ∷ s))
  unfolding finish_refresh
  finish-yields g uuid max_retries attempt rows current added removed n h =
      Yields-then tt (Yields-add_metric _ _) (
        Yields-then tt (Yields-add_metric _ _) (
          Yields-try _ _ _ tt
            (subst
              (λ m.
                Yields e (On (Frame p events contacts rows any_row) s)
                  (exec (update_segment_ready p.segment_id p.workspace_id m)) (ok tt)
                  (On (Frame p events contacts rows (λ r. r.contact_count == n)) s))
              (sym h) (ready-yields rows n))
            (Yields-settle ack)))

-- The rows after a refresh that found these keys to match.
abbrev pub synced : SegmentRefreshPayload → Keys → List MembershipRow → List MembershipRow
synced p matched rows =
    let current = current_keys p.segment_id p.workspace_id rows in
    delete_members p.segment_id p.workspace_id (diff current matched)
      (insert_members p.segment_id p.workspace_id (diff matched current) rows)

module _ {e : Env} (up : DbIsUp e) {s : List Settlement} (g : Conversions) (uuid : String → ℕ)
    (max_retries : ℕ) (p : SegmentRefreshPayload) (attempt : ℕ) (events : List EnrichedRecord)
    (contacts : List ContactRecord) (rows : List MembershipRow) where
  apply_diff-yields :
      (matched : Keys)
      → are_distinct matched ≡ true
      → Yields e
          (On (Frame p events contacts rows any_row) s)
          (apply_diff g uuid max_retries p attempt matched
            (current_keys p.segment_id p.workspace_id rows))
          tt
          (On
            (Frame p events contacts
              (synced p matched rows)
              (λ r. r.contact_count == length matched))
            (ack ∷ s))
  unfolding apply_diff
  apply_diff-yields matched distinct =
      let current = current_keys p.segment_id p.workspace_id rows in
      let counted =
        count-diff matched current distinct
          (keys_of-distinct p.segment_id p.workspace_id [] _ refl) in
      Yields-try _ _ _ tt (insert-yields up p events contacts (diff matched current) rows) (
        Yields-try _ _ _ tt (delete-yields up p events contacts (diff current matched) _) (
          finish-yields up p events contacts g uuid max_retries attempt _ _ _ _ _
            (omega (arith, counted))))

  pub update_members-yields :
      (matched : Keys)
      → are_distinct matched ≡ true
      → Yields e
          (On (Frame p events contacts rows any_row) s)
          (update_members g uuid max_retries p attempt matched)
          tt
          (On
            (Frame p events contacts
              (synced p matched rows)
              (λ r. r.contact_count == length matched))
            (ack ∷ s))
  unfolding update_members get_current_member_ids
  update_members-yields matched distinct = Yields-then tt (Yields-add_metric _ _) (
      Yields-try _ _ _ (current_keys p.segment_id p.workspace_id rows)
        (Yields-read up (get_current_member_ids p.segment_id p.workspace_id)
          (current_keys p.segment_id p.workspace_id rows) (λ t d c. rw c.of_members refl))
        (apply_diff-yields matched distinct))
