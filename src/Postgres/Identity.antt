-- ===== src/Postgres/Identity.antt =====
-- The identity of contacts in internal/infra/postgres/client.go. `ON CONFLICT` needs a unique index
-- on its columns: there is one on (workspace_id, user_id) and one on (workspace_id, anonymous_id). A
-- statement that would break one of them fails, and changes nothing.
use emailservice_worker.Prelude.{
  ℕ, String, Bool, not, ◌&&◌, Option, none, some, List, [], ◌∷◌, ◌++◌, any, ◌=ₛ◌, select_row,
  update_rows, map_option, if◌then◌else◌,
}
use emailservice_worker.Types.{Json, Items, Fields}
use emailservice_worker.Schema.{ContactRecord, Database}
use emailservice_worker.Effect.{Stmt}
use emailservice_worker.Effect.Errors.{Result, ok, err, text}
use emailservice_worker.Postgres.Recipients.{coalesce}
use emailservice_worker.Postgres.Contacts.{is_text}

-- A resolved contact
pub record ContactRow : Type 0 where
  pub id : String
  pub workspace_id : String
  pub user_id : String
  pub email : String
  pub name : String
  pub traits : Json

abbrev pub contact_row : ContactRecord → ContactRow
contact_row r = record {
  id = r.id;
  workspace_id = r.workspace_id;
  user_id = coalesce r.user_id "";
  email = coalesce r.email "";
  name = coalesce r.first_name "";
  traits = coalesce r.traits (Json.object Fields.end);
}

-- `LIMIT 1` takes the first row of the table.
unfoldable pub find_contact_by_user_id : String → String → Stmt (Option ContactRow)
find_contact_by_user_id workspace_id user_id now db = (
  ok (
      map_option contact_row (
        select_row (λ r. r.workspace_id =ₛ workspace_id && is_text user_id r.user_id) db.contacts)),
  db,
)

abbrev pub has_user : String → String → ContactRecord → Bool
has_user workspace_id user_id r = r.workspace_id =ₛ workspace_id && is_text user_id r.user_id

abbrev pub has_anonymous : String → String → ContactRecord → Bool
has_anonymous workspace_id anonymous_id r =
    r.workspace_id =ₛ workspace_id && is_text anonymous_id r.anonymous_id

unfoldable pub find_contact_by_anonymous_id : String → String → Stmt (Option ContactRow)
find_contact_by_anonymous_id workspace_id anonymous_id now db = (
  ok (map_option contact_row (select_row (has_anonymous workspace_id anonymous_id) db.contacts)),
  db,
)

-- A value put at a key of an object
abbrev pub put_field : String → Json → Fields → Fields
put_field k v Fields.end = Fields.field k v Fields.end
put_field k v (Fields.field j u rest) =
    let after = put_field k v rest in
    if j =ₛ k then Fields.field j v rest else Fields.field j u after

abbrev pub put_fields : Fields → Fields → Fields
put_fields a Fields.end = a
put_fields a (Fields.field k v rest) = put_fields (put_field k v a) rest

abbrev items_of : Json → Items
items_of (Json.array xs) = xs
items_of v = Items.cons v Items.nil

abbrev append_items : Items → Items → Items
append_items Items.nil ys = ys
append_items (Items.cons x xs) ys = Items.cons x (append_items xs ys)

-- `||` on jsonb: the union of two objects, and else the concatenation of arrays, where a value that
-- is no array stands for an array of itself.
unfoldable pub concat_json : Json → Json → Json
concat_json (Json.object a) (Json.object b) = Json.object (put_fields a b)
concat_json a b = Json.array (append_items (items_of a) (items_of b))

-- NULL with anything is NULL.
abbrev pub concat_traits : Json → Option Json → Option Json
concat_traits added none = none
concat_traits added (some t) = some (concat_json t added)

-- `NULLIF(s, '')`
abbrev pub null_if_empty : String → Option String
null_if_empty s = if s =ₛ "" then none else some s

abbrev pub new_contact : String → String → Option String → Option String → Json → ℕ → ContactRecord
new_contact id workspace_id user_id anonymous_id traits now = record {
  id = id;
  workspace_id = workspace_id;
  user_id = user_id;
  anonymous_id = anonymous_id;
  email = none;
  first_name = none;
  last_name = none;
  phone = none;
  lifecycle_stage = none;
  lead_score = none;
  properties = none;
  traits = some traits;
  status = "active";
  is_suppressed = none;
  is_email_valid = none;
  created_at = now;
  updated_at = now;
  deleted_at = none;
}

-- Another contact of the workspace has the anonymous id.
abbrev pub is_taken : String → String → String → List ContactRecord → Bool
is_taken workspace_id anonymous_id id rows =
    not (anonymous_id =ₛ "")
    && any (λ r. has_anonymous workspace_id anonymous_id r && not (r.id =ₛ id)) rows

abbrev pub unique_violation : {A : Type 0} → Result A
unique_violation = err (text "duplicate key value violates unique constraint")

abbrev with_anonymous : String → Option String → Option String
with_anonymous s old = if s =ₛ "" then old else some s

abbrev pub touch_contact : String → Json → ℕ → ContactRecord → ContactRecord
touch_contact anonymous_id traits now r = record r {
  traits = concat_traits traits r.traits;
  anonymous_id = with_anonymous anonymous_id r.anonymous_id;
  updated_at = now;
}

abbrev add_contact : ContactRecord → Database → Database
add_contact r db = record db { contacts = db.contacts ++ (r ∷ []) }

-- The insert or the update, by the row of the user
unfoldable pub upsert_user :
    String
    → String
    → String
    → String
    → Json
    → ℕ
    → Database
    → Option ContactRecord
    → Result String × Database
upsert_user id workspace_id user_id anonymous_id traits now db none =
    if is_taken workspace_id anonymous_id id db.contacts then (unique_violation, db) else (
      ok id,
      add_contact
          (new_contact id workspace_id (some user_id) (null_if_empty anonymous_id) traits now) db,
    )
upsert_user id workspace_id user_id anonymous_id traits now db (some r) =
    if is_taken workspace_id anonymous_id r.id db.contacts then (unique_violation, db) else (
      ok r.id,
      record db {
        contacts =
            update_rows (has_user workspace_id user_id) (touch_contact anonymous_id traits now)
              db.contacts;
      },
    )

-- `id` is that of `gen_random_uuid()`.
unfoldable pub upsert_contact : String → String → String → String → Json → Stmt String
unfolding upsert_user
upsert_contact id workspace_id user_id anonymous_id traits now db =
    upsert_user id workspace_id user_id anonymous_id traits now db
      (select_row (has_user workspace_id user_id) db.contacts)

abbrev touch_traits : Json → ℕ → ContactRecord → ContactRecord
touch_traits traits now r = record r { traits = concat_traits traits r.traits; updated_at = now }

unfoldable pub upsert_anonymous :
    String → String → String → Json → ℕ → Database → Option ContactRecord → Result String × Database
upsert_anonymous id workspace_id anonymous_id traits now db none =
    (ok id, add_contact (new_contact id workspace_id none (some anonymous_id) traits now) db)
upsert_anonymous id workspace_id anonymous_id traits now db (some r) = (
  ok r.id,
  record db {
    contacts =
        update_rows (has_anonymous workspace_id anonymous_id) (touch_traits traits now) db.contacts;
  },
)

unfoldable pub upsert_anonymous_contact : String → String → String → Json → Stmt String
unfolding upsert_anonymous
upsert_anonymous_contact id workspace_id anonymous_id traits now db =
    upsert_anonymous id workspace_id anonymous_id traits now db
      (select_row (has_anonymous workspace_id anonymous_id) db.contacts)

abbrev is_contact : String → String → ContactRecord → Bool
is_contact contact_id workspace_id r = r.id =ₛ contact_id && r.workspace_id =ₛ workspace_id

abbrev set_anonymous : String → ℕ → ContactRecord → ContactRecord
set_anonymous anonymous_id now r = record r { anonymous_id = some anonymous_id; updated_at = now }

unfoldable pub merge_anonymous_into_contact : String → String → String → Stmt Unit
merge_anonymous_into_contact workspace_id contact_id anonymous_id now db =
    if any (is_contact contact_id workspace_id) db.contacts
      && is_taken workspace_id anonymous_id contact_id db.contacts
    then (unique_violation, db)
    else (
      ok tt,
      record db {
        contacts =
            update_rows (is_contact contact_id workspace_id) (set_anonymous anonymous_id now)
              db.contacts;
      },
    )
