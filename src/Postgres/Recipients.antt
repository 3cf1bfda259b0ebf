-- ===== src/Postgres/Recipients.antt =====
-- The statements on `campaign_recipients` of internal/infra/postgres/client.go. The bulk
-- insert is in BulkInsert.
pub mod Status
use emailservice_worker.Prelude.{
  String, Bool, not, ◌&&◌, Option, none, some, ◌=ₛ◌, map_option, select_row, update_rows,
}
use emailservice_worker.Schema.{SendStatus, sending, sent, failed, RecipientRow}
use emailservice_worker.Effect.{Stmt}
use emailservice_worker.Effect.Errors.{ok}
use emailservice_worker.Postgres.EmailSends.{may_send, is_bounced, is_finished}

-- `WHERE id = $1 AND workspace_id = $2`
abbrev pub is_recipient : String → String → RecipientRow → Bool
is_recipient recipient_id workspace_id r = r.id =ₛ recipient_id && r.workspace_id =ₛ workspace_id

-- `none` stands for the text "" of a row that is not there.
unfoldable pub get_campaign_recipient_status : String → String → Stmt (Option SendStatus)
get_campaign_recipient_status recipient_id workspace_id now db = (
  ok (
      map_option (λ r. r.status)
        (select_row (is_recipient recipient_id workspace_id) db.campaign_recipients)),
  db,
)

unfoldable pub mark_campaign_recipient_sending : String → String → Stmt Unit
mark_campaign_recipient_sending recipient_id workspace_id now db = (
  ok tt,
  record db {
    campaign_recipients =
        update_rows (λ r. is_recipient recipient_id workspace_id r && may_send r.status)
          (λ r. record r { status = sending; updated_at = now }) db.campaign_recipients;
  },
)

-- `COALESCE(sent_at, NOW())`
abbrev pub coalesce {ℓ} : {A : Type ℓ} → Option A → A → A
coalesce none a = a
coalesce (some x) a = x

unfoldable pub mark_campaign_recipient_sent : String → String → String → Stmt Unit
mark_campaign_recipient_sent recipient_id workspace_id provider_message_id now db = (
  ok tt,
  record db {
    campaign_recipients =
        update_rows (λ r. is_recipient recipient_id workspace_id r && not (is_bounced r.status))
          (λ r. record r {
            status = sent;
            provider_message_id = some provider_message_id;
            failure_reason = none;
            sent_at = some (coalesce r.sent_at now);
            updated_at = now;
          })
          db.campaign_recipients;
  },
)

unfoldable pub mark_campaign_recipient_failed : String → String → String → Stmt Unit
mark_campaign_recipient_failed recipient_id workspace_id reason now db = (
  ok tt,
  record db {
    campaign_recipients =
        update_rows (λ r. is_recipient recipient_id workspace_id r && not (is_finished r.status))
          (λ r. record r { status = failed; failure_reason = some reason; updated_at = now })
          db.campaign_recipients;
  },
)
