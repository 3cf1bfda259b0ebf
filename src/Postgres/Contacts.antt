-- ===== src/Postgres/Contacts.antt =====
-- The contacts of internal/infra/postgres/client.go that the segments read: `StreamContactsForEval`
-- and `ContactHasPerformedEvent`. The number of a uuid, by which Postgres orders it, is a parameter.
pub mod Pages
pub mod Stream
use emailservice_worker.Prelude.{
  ℕ, zero, suc, ℤ, pos, String, Bool, true, ◌&&◌, ◌||◌, Option, none, some, List, [], ◌∷◌, map,
  length, any, ◌=ₛ◌, leb, ltb, select_rows, order_rows, limit_rows,
}
use emailservice_worker.Schema.{ContactRecord, EnrichedRecord, Database}
use emailservice_worker.Effect.{M, Stmt, pure, exec, try, branch}
use emailservice_worker.Effect.Errors.{Result, ok, err, out_of_fuel}
use emailservice_worker.Postgres.Recipients.{coalesce}
use emailservice_worker.Postgres.Campaigns.{is_null}

-- The JSON text of the properties is read elsewhere.
pub record ContactForEval : Type 0 where
  pub id : String
  pub workspace_id : String
  pub email : String
  pub first_name : String
  pub last_name : String
  pub phone : String
  pub lifecycle_stage : String
  pub lead_score : ℤ
  pub properties : String
  pub created_at : ℕ

abbrev pub contact_for_eval : ContactRecord → ContactForEval
contact_for_eval r = record {
  id = r.id;
  workspace_id = r.workspace_id;
  email = coalesce r.email "";
  first_name = coalesce r.first_name "";
  last_name = coalesce r.last_name "";
  phone = coalesce r.phone "";
  lifecycle_stage = coalesce r.lifecycle_stage "lead";
  lead_score = coalesce r.lead_score (pos 0);
  properties = coalesce r.properties "{}";
  created_at = r.created_at;
}

-- `$2 = '' OR id > $2::uuid`
abbrev pub is_after : (String → ℕ) → String → String → Bool
is_after uuid after_id id = after_id =ₛ "" || ltb (uuid after_id) (uuid id)

abbrev pub is_live : String → ContactRecord → Bool
is_live workspace_id r = r.workspace_id =ₛ workspace_id && is_null r.deleted_at

abbrev pub id_before : (String → ℕ) → ContactRecord → ContactRecord → Bool
id_before uuid a b = leb (uuid a.id) (uuid b.id)

-- The query of one page.
unfoldable pub contacts_page :
    (String → ℕ) → String → String → ℕ → List ContactRecord → List ContactForEval
contacts_page uuid workspace_id after_id limit rows = map contact_for_eval (
    limit_rows limit (
      order_rows (id_before uuid)
        (select_rows (λ r. is_live workspace_id r && is_after uuid after_id r.id) rows)))

unfoldable pub select_contacts : (String → ℕ) → String → String → ℕ → Stmt (List ContactForEval)
select_contacts uuid workspace_id after_id limit now db =
    (ok (contacts_page uuid workspace_id after_id limit db.contacts), db)

abbrev pub last_id : String → List ContactForEval → String
last_id start [] = start
last_id start (c ∷ cs) = last_id c.id cs

-- The loop, on fuel. `S` is what the callback `fn` accumulates.
module _ {S : Type 0} (uuid : String → ℕ) (workspace_id : String) (page_size : ℕ)
    (fn : List ContactForEval → S → M (Result S)) where
  unfoldable pub on_page : (String → S → M (Result S)) → S → List ContactForEval → M (Result S)
  on_page next s [] = pure (ok s)
  on_page next s (c ∷ cs) =
      try (fn (c ∷ cs) s) (λ x. pure (err x))
        (λ s'. branch (ltb (length (c ∷ cs)) page_size) (pure (ok s')) (next (last_id c.id cs) s'))

  unfoldable pub stream_pages : ℕ → String → S → M (Result S)
  stream_pages zero after_id s = pure (err out_of_fuel)
  stream_pages (suc fuel) after_id s =
      try (exec (select_contacts uuid workspace_id after_id page_size)) (λ x. pure (err x))
        (on_page (stream_pages fuel) s)

  -- Each round but the last reads a contact that the rounds before it have not.
  unfoldable pub stream_contacts_for_eval : S → M (Result S)
  stream_contacts_for_eval s e w = stream_pages (suc (length w.db.contacts)) "" s e w

-- A NULL contact is not the one asked for.
abbrev pub is_text : String → Option String → Bool
is_text s none = Bool.false
is_text s (some t) = t =ₛ s

abbrev pub is_performed : String → String → String → EnrichedRecord → Bool
is_performed workspace_id contact_id event_name r =
    r.workspace_id =ₛ workspace_id && is_text contact_id r.contact_id && r.event_name =ₛ event_name

unfoldable pub contact_has_performed_event : String → String → String → Stmt Bool
contact_has_performed_event workspace_id contact_id event_name now db =
    (ok (any (is_performed workspace_id contact_id event_name) db.events_enriched), db)
