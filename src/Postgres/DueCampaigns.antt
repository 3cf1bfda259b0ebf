-- ===== src/Postgres/DueCampaigns.antt =====
-- `GetDueCampaigns` of internal/infra/postgres/client.go. A statement runs alone, so that no row is
-- locked by another and `SKIP LOCKED` skips none.
pub mod Once
use emailservice_worker.Prelude.{
  ℕ, String, Bool, true, false, ◌&&◌, Option, none, some, List, [], ◌∷◌, map, any, ◌=ₛ◌, leb,
  select_rows, order_rows, limit_rows, update_rows,
}
use emailservice_worker.Schema.{CampaignStatus, CampaignRow, Database}
use emailservice_worker.Effect.{Stmt}
use emailservice_worker.Effect.Errors.{ok}
use emailservice_worker.Postgres.Recipients.{coalesce}
use emailservice_worker.Postgres.Campaigns.{is_null}

pub record DueCampaign : Type 0 where
  pub id : String
  pub workspace_id : String
  pub segment_id : String
  pub sender_email : String
  pub sender_name : String
  pub reply_to : String
  pub subject : String
  pub html_body : String
  pub text_body : String

abbrev pub is_scheduled : CampaignStatus → Bool
is_scheduled CampaignStatus.scheduled = true
is_scheduled _ = false

-- `scheduled_at <= NOW()`; a NULL is not.
abbrev pub at_most_now : ℕ → Option ℕ → Bool
at_most_now now none = false
at_most_now now (some t) = leb t now

abbrev pub is_due : ℕ → CampaignRow → Bool
is_due now r = is_scheduled r.status && at_most_now now r.scheduled_at && is_null r.deleted_at

abbrev pub scheduled_before : CampaignRow → CampaignRow → Bool
scheduled_before a b = leb (coalesce a.scheduled_at 0) (coalesce b.scheduled_at 0)

-- The ids of the subquery.
unfoldable pub due_ids : ℕ → ℕ → List CampaignRow → List String
due_ids limit now rows =
    map (λ r. r.id) (limit_rows limit (order_rows scheduled_before (select_rows (is_due now) rows)))

-- `id IN (…)`
abbrev pub is_in : List String → CampaignRow → Bool
is_in ids r = any (λ i. i =ₛ r.id) ids

abbrev pub mark_sending : ℕ → CampaignRow → CampaignRow
mark_sending now r = record r {
  status = CampaignStatus.sending;
  started_at = some (coalesce r.started_at now);
  updated_at = now;
}

abbrev pub due_campaign : CampaignRow → DueCampaign
due_campaign r = record {
  id = r.id;
  workspace_id = r.workspace_id;
  segment_id = coalesce r.segment_id "";
  sender_email = coalesce r.sender_email "";
  sender_name = coalesce r.sender_name "";
  reply_to = coalesce r.reply_to "";
  subject = coalesce r.subject "";
  html_body = coalesce r.html_body "";
  text_body = coalesce r.text_body "";
}

-- The rows returned and the rows of the table after the update.
unfoldable pub take_due : ℕ → ℕ → List CampaignRow → List DueCampaign × List CampaignRow
take_due limit now rows =
    let ids = due_ids limit now rows in
    let rows' = update_rows (is_in ids) (mark_sending now) rows in
    (map due_campaign (select_rows (is_in ids) rows'), rows')

unfoldable pub get_due_campaigns : ℕ → Stmt (List DueCampaign)
get_due_campaigns limit now db =
    let (due, rows) = take_due limit now db.campaigns in (ok due, record db { campaigns = rows })
