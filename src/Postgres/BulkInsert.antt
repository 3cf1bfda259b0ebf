-- ===== src/Postgres/BulkInsert.antt =====
-- `BulkInsertCampaignRecipients` of internal/infra/postgres/client.go. The transaction runs as one.
-- `fresh` gives the ids of `gen_random_uuid()`, by the contact's place in the list.
pub mod Again
use emailservice_worker.Prelude.{
  ℕ, suc, String, Bool, ◌&&◌, Option, none, some, List, [], ◌∷◌, ◌++◌, ◌=ₛ◌, select_row,
  update_rows,
}
use emailservice_worker.Schema.{SendStatus, RecipientRow, Database}
use emailservice_worker.Effect.{Stmt}
use emailservice_worker.Effect.Errors.{ok}

pub record Contact : Type 0 where
  pub id : String
  pub email : String
  pub name : String

pub record CampaignRecipientRow : Type 0 where
  pub id : String
  pub email : String
  pub name : String

-- The columns of the unique constraint.
abbrev pub is_target : String → Contact → RecipientRow → Bool
is_target campaign_id c r = r.campaign_id =ₛ campaign_id && r.contact_id =ₛ c.id

abbrev pub new_recipient : String → String → String → ℕ → Contact → RecipientRow
new_recipient id campaign_id workspace_id now c = record {
  id = id;
  campaign_id = campaign_id;
  workspace_id = workspace_id;
  contact_id = c.id;
  email = c.email;
  name = c.name;
  status = SendStatus.queued;
  provider_message_id = none;
  failure_reason = none;
  sent_at = none;
  updated_at = now;
}

abbrev returned : RecipientRow → CampaignRecipientRow
returned r = record { id = r.id; email = r.email; name = r.name }

-- What becomes of the row to add, by the row that it conflicts with.
unfoldable pub add_or_touch :
    RecipientRow
    → String
    → ℕ
    → Contact
    → List RecipientRow
    → Option RecipientRow
    → CampaignRecipientRow × List RecipientRow
add_or_touch added campaign_id now c rows none = (returned added, rows ++ (added ∷ []))
add_or_touch added campaign_id now c rows (some r) =
    (returned r, update_rows (is_target campaign_id c) (λ x. record x { updated_at = now }) rows)

-- `INSERT … ON CONFLICT (campaign_id, contact_id) DO UPDATE SET updated_at = NOW() RETURNING …`
unfoldable pub insert_recipient :
    String
    → String
    → String
    → ℕ
    → Contact
    → List RecipientRow
    → CampaignRecipientRow × List RecipientRow
insert_recipient id campaign_id workspace_id now c rows =
    add_or_touch (new_recipient id campaign_id workspace_id now c) campaign_id now c rows
      (select_row (is_target campaign_id c) rows)

unfoldable pub insert_recipients :
    (ℕ → String)
    → ℕ
    → String
    → String
    → ℕ
    → List Contact
    → List RecipientRow
    → List CampaignRecipientRow × List RecipientRow
insert_recipients fresh i campaign_id workspace_id now [] rows = ([], rows)
insert_recipients fresh i campaign_id workspace_id now (c ∷ cs) rows =
    let (row, rows1) = insert_recipient (fresh i) campaign_id workspace_id now c rows in
    let (rest, rows2) = insert_recipients fresh (suc i) campaign_id workspace_id now cs rows1 in
    (row ∷ rest, rows2)

unfoldable pub bulk_insert_campaign_recipients :
    (ℕ → String) → String → String → List Contact → Stmt (List CampaignRecipientRow)
bulk_insert_campaign_recipients fresh campaign_id workspace_id contacts now db =
    let (rows, table) =
      insert_recipients fresh 0 campaign_id workspace_id now contacts db.campaign_recipients in
    (ok rows, record db { campaign_recipients = table })
