-- ===== src/Postgres/SegmentContacts.antt =====
-- `FetchSegmentContactsBatch` of internal/infra/postgres/client.go: the members of a segment that may
-- be mailed, a page at a time. The number of a uuid, by which Postgres orders it, is a parameter.
pub mod Page
use emailservice_worker.Prelude.{
  ℕ, String, Bool, true, false, ◌&&◌, not, Option, none, some, List, [], ◌∷◌, ◌++◌, map, ◌=ₛ◌,
  select_rows, order_rows, limit_rows,
}
use emailservice_worker.Schema.{ContactRecord, MembershipRow}
use emailservice_worker.Effect.{Stmt}
use emailservice_worker.Effect.Errors.{Result, ok, err, text}
use emailservice_worker.Postgres.Recipients.{coalesce}
use emailservice_worker.Postgres.BulkInsert.{Contact}
use emailservice_worker.Postgres.Contacts.{is_after, id_before}

-- `ON sm.contact_id = c.id AND sm.workspace_id = c.workspace_id`, `sm.segment_id = $2`
abbrev pub is_member_of : String → ContactRecord → MembershipRow → Bool
is_member_of segment_id c m =
    m.contact_id =ₛ c.id && m.workspace_id =ₛ c.workspace_id && m.segment_id =ₛ segment_id

-- A contact stands as often as it has memberships in the segment.
unfoldable pub join_members : String → List MembershipRow → List ContactRecord → List ContactRecord
join_members segment_id ms [] = []
join_members segment_id ms (c ∷ cs) =
    map (λ _. c) (select_rows (is_member_of segment_id c) ms) ++ join_members segment_id ms cs

abbrev pub is_mailable : String → ContactRecord → Bool
is_mailable workspace_id c =
    c.workspace_id =ₛ workspace_id
    && c.status =ₛ "active"
    && not (coalesce c.is_suppressed false)
    && coalesce c.is_email_valid true

-- `Scan` into a Go string refuses NULL.
abbrev pub scan_row : ContactRecord → Option String → Result (List Contact) → Result (List Contact)
scan_row c none rest = err (text "cannot scan NULL into *string")
scan_row c (some email) (err x) = err x
scan_row c (some email) (ok cs) =
    ok (record { id = c.id; email = email; name = coalesce c.first_name "" } ∷ cs)

unfoldable pub scan_contacts : List ContactRecord → Result (List Contact)
scan_contacts [] = ok []
scan_contacts (c ∷ cs) = scan_row c c.email (scan_contacts cs)

unfoldable pub fetch_segment_contacts_batch :
    (String → ℕ) → String → String → String → ℕ → Stmt (List Contact)
fetch_segment_contacts_batch uuid workspace_id segment_id after_id limit now db = (
  scan_contacts (
      limit_rows limit (
        order_rows (id_before uuid) (
          select_rows (λ c. is_mailable workspace_id c && is_after uuid after_id c.id)
            (join_members segment_id db.segment_memberships db.contacts)))),
  db,
)
