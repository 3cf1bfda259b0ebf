-- ===== src/Postgres/Segments.antt =====
-- The statements on segments and segment_memberships of internal/infra/postgres/client.go. A
-- transaction runs as one statement.
use emailservice_worker.Prelude.{
  ℕ, String, Bool, not, ◌&&◌, Option, none, some, List, [], ◌∷◌, ◌++◌, ◌=ₛ◌, any, select_row,
  select_rows, update_rows, if◌then◌else◌,
}
use emailservice_worker.Schema.{SegmentRecord, MembershipRow}
use emailservice_worker.Effect.{M, Stmt, pure, exec}
use emailservice_worker.Effect.Errors.{Result, ok}
use emailservice_worker.Postgres.Recipients.{coalesce}

pub record SegmentRow : Type 0 where
  pub id : String
  pub workspace_id : String
  pub name : String
  pub filter_tree : String
  pub status : String

abbrev pub is_segment : String → String → SegmentRecord → Bool
is_segment segment_id workspace_id r = r.id =ₛ segment_id && r.workspace_id =ₛ workspace_id

abbrev pub loaded_segment : Option SegmentRecord → Option SegmentRow
loaded_segment none = none
loaded_segment (some r) = some (record {
  id = r.id;
  workspace_id = r.workspace_id;
  name = r.name;
  filter_tree = coalesce r.filter_tree "{}";
  status = coalesce r.status "queued";
})

unfoldable pub get_segment : String → String → Stmt (Option SegmentRow)
get_segment segment_id workspace_id now db =
    (ok (loaded_segment (select_row (is_segment segment_id workspace_id) db.segments)), db)

abbrev pub with_status : String → ℕ → SegmentRecord → SegmentRecord
with_status status now r = record r {
  status = some status;
  last_computed = some now;
  updated_at = now;
}

unfoldable pub update_segment_status : String → String → String → Stmt Unit
update_segment_status segment_id workspace_id status now db = (
  ok tt,
  record db {
    segments =
        update_rows (is_segment segment_id workspace_id) (with_status status now) db.segments;
  },
)

abbrev pub as_ready : ℕ → ℕ → SegmentRecord → SegmentRecord
as_ready count now r = record r {
  status = some "ready";
  contact_count = count;
  last_computed = some now;
  updated_at = now;
}

unfoldable pub update_segment_ready : String → String → ℕ → Stmt Unit
update_segment_ready segment_id workspace_id count now db = (
  ok tt,
  record db {
    segments = update_rows (is_segment segment_id workspace_id) (as_ready count now) db.segments;
  },
)

-- A Go map used as a set, by its keys without repetition. Go leaves the order of the keys open; the
-- model has the order of insertion.
abbrev pub Keys : Type 0
Keys = List String

abbrev pub has_key : String → Keys → Bool
has_key k ks = any (λ j. j =ₛ k) ks

unfoldable pub put_key : String → Keys → Keys
put_key k ks = if has_key k ks then ks else ks ++ (k ∷ [])

unfoldable pub keys_of : Keys → List MembershipRow → Keys
unfolding put_key
keys_of ks [] = ks
keys_of ks (r ∷ rs) = keys_of (put_key r.contact_id ks) rs

abbrev pub is_member_row : String → String → MembershipRow → Bool
is_member_row segment_id workspace_id r =
    r.segment_id =ₛ segment_id && r.workspace_id =ₛ workspace_id

unfoldable pub get_current_member_ids : String → String → Stmt Keys
unfolding keys_of
get_current_member_ids segment_id workspace_id now db = (
  ok (keys_of [] (select_rows (is_member_row segment_id workspace_id) db.segment_memberships)),
  db,
)

-- The columns of the unique constraint.
abbrev pub is_membership : String → String → MembershipRow → Bool
is_membership segment_id contact_id r = r.segment_id =ₛ segment_id && r.contact_id =ₛ contact_id

-- `INSERT … ON CONFLICT (segment_id, contact_id) DO NOTHING`
unfoldable pub insert_member : String → String → String → List MembershipRow → List MembershipRow
insert_member segment_id workspace_id id rows =
    if any (is_membership segment_id id) rows
    then rows
    else rows
      ++ (record { segment_id = segment_id; workspace_id = workspace_id; contact_id = id } ∷ [])

unfoldable pub insert_members :
    String → String → List String → List MembershipRow → List MembershipRow
unfolding insert_member
insert_members segment_id workspace_id [] rows = rows
insert_members segment_id workspace_id (id ∷ ids) rows =
    insert_members segment_id workspace_id ids (insert_member segment_id workspace_id id rows)

unfoldable pub insert_segment_members : String → String → List String → M (Result Unit)
insert_segment_members segment_id workspace_id [] = pure (ok tt)
insert_segment_members segment_id workspace_id (id ∷ ids) = exec (λ now db. (
  ok tt,
  record db {
    segment_memberships = insert_members segment_id workspace_id (id ∷ ids) db.segment_memberships;
  },
))

abbrev pub is_row : String → String → String → MembershipRow → Bool
is_row segment_id workspace_id id r = is_member_row segment_id workspace_id r && r.contact_id =ₛ id

-- One `DELETE`
unfoldable pub delete_member : String → String → String → List MembershipRow → List MembershipRow
delete_member segment_id workspace_id id rows =
    select_rows (λ r. not (is_row segment_id workspace_id id r)) rows

unfoldable pub delete_members :
    String → String → List String → List MembershipRow → List MembershipRow
unfolding delete_member
delete_members segment_id workspace_id [] rows = rows
delete_members segment_id workspace_id (id ∷ ids) rows =
    delete_members segment_id workspace_id ids (delete_member segment_id workspace_id id rows)

unfoldable pub delete_segment_members : String → String → List String → M (Result Unit)
delete_segment_members segment_id workspace_id [] = pure (ok tt)
delete_segment_members segment_id workspace_id (id ∷ ids) = exec (λ now db. (
  ok tt,
  record db {
    segment_memberships = delete_members segment_id workspace_id (id ∷ ids) db.segment_memberships;
  },
))
