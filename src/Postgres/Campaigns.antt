-- ===== src/Postgres/Campaigns.antt =====
-- The statements on `campaigns` of internal/infra/postgres/client.go. The scheduler's is in
-- DueCampaigns.
pub mod Complete
use emailservice_worker.Prelude.{
  ℕ, ◌+◌, String, Bool, true, false, not, ◌&&◌, Option, none, some, ◌=ₛ◌, ◌==◌, ltb, leb,
  map_option, select_row, update_rows, affected,
}
use emailservice_worker.Schema.{CampaignStatus, CampaignRow}
use emailservice_worker.Effect.{Stmt}
use emailservice_worker.Effect.Errors.{ok, err, text}
use emailservice_worker.Postgres.Recipients.{coalesce}

-- `WHERE id = $1 AND workspace_id = $2`
abbrev pub is_campaign : String → String → CampaignRow → Bool
is_campaign campaign_id workspace_id r = r.id =ₛ campaign_id && r.workspace_id =ₛ workspace_id

-- `status IN ('queued', 'sending')`
abbrev pub is_open : CampaignStatus → Bool
is_open CampaignStatus.queued = true
is_open CampaignStatus.sending = true
is_open _ = false

-- `status IN ('completed', 'failed')`
abbrev pub is_ended : CampaignStatus → Bool
is_ended CampaignStatus.completed = true
is_ended CampaignStatus.failed = true
is_ended _ = false

abbrev pub is_null {ℓ} : {A : Type ℓ} → Option A → Bool
is_null none = true
is_null (some _) = false

unfoldable pub get_campaign_status : String → String → Stmt (Option CampaignStatus)
get_campaign_status campaign_id workspace_id now db = (
  ok (map_option (λ r. r.status) (select_row (is_campaign campaign_id workspace_id) db.campaigns)),
  db,
)

unfoldable pub update_campaign_started : String → String → ℕ → Stmt Unit
update_campaign_started campaign_id workspace_id total_recipients now db = (
  ok tt,
  record db {
    campaigns =
        update_rows (λ r. is_campaign campaign_id workspace_id r && is_open r.status)
          (λ r. record r {
            status = CampaignStatus.sending;
            total_recipients = total_recipients;
            started_at = some (coalesce r.started_at now);
            updated_at = now;
          })
          db.campaigns;
  },
)

pub record CampaignProgress : Type 0 where
  pub sent_count : ℕ
  pub failed_count : ℕ
  pub total_recipients : ℕ

abbrev progress_of : CampaignRow → CampaignProgress
progress_of r = record {
  sent_count = r.sent_count;
  failed_count = r.failed_count;
  total_recipients = r.total_recipients;
}

-- `RETURNING` gives no row where none is updated, which is an error of `Scan`.
unfoldable pub increment_campaign_counts : String → String → ℕ → ℕ → Stmt CampaignProgress
increment_campaign_counts campaign_id workspace_id sent_delta failed_delta now db =
    let is_it = is_campaign campaign_id workspace_id in
    let campaigns' =
      update_rows is_it
        (λ r. record r {
          sent_count = r.sent_count + sent_delta;
          failed_count = r.failed_count + failed_delta;
          updated_at = now;
        })
        db.campaigns in
    (
      elim (select_row is_it campaigns') [
        | none ↦ err (text "no rows in result set")
        | some r ↦ ok (progress_of r)
      ],
      record db { campaigns = campaigns' },
    )

abbrev pub is_all_processed : CampaignRow → Bool
is_all_processed r =
    ltb 0 r.total_recipients && leb r.total_recipients (r.sent_count + r.failed_count)

unfoldable pub mark_campaign_complete : String → String → Stmt Bool
mark_campaign_complete campaign_id workspace_id now db =
    let is_due = λ (r : CampaignRow).
      is_campaign campaign_id workspace_id r && is_null r.completed_at && is_all_processed r in
    (
      ok (affected is_due db.campaigns == 1),
      record db {
        campaigns =
            update_rows is_due
              (λ r. record r {
                status = CampaignStatus.completed;
                completed_at = some now;
                updated_at = now;
              })
              db.campaigns;
      },
    )

unfoldable pub mark_campaign_complete_empty : String → String → Stmt Unit
mark_campaign_complete_empty campaign_id workspace_id now db = (
  ok tt,
  record db {
    campaigns =
        update_rows (λ r. is_campaign campaign_id workspace_id r && not (is_ended r.status))
          (λ r. record r {
            status = CampaignStatus.completed;
            completed_at = some now;
            total_recipients = 0;
            started_at = some (coalesce r.started_at now);
            updated_at = now;
          })
          db.campaigns;
  },
)

unfoldable pub update_campaign_failed : String → String → String → Stmt Unit
update_campaign_failed campaign_id workspace_id reason now db = (
  ok tt,
  record db {
    campaigns =
        update_rows (λ r. is_campaign campaign_id workspace_id r && not (is_ended r.status))
          (λ r. record r {
            status = CampaignStatus.failed;
            failure_reason = some reason;
            completed_at = some now;
            updated_at = now;
          })
          db.campaigns;
  },
)
