-- ===== src/Postgres/EmailSends.antt =====
-- The statements on `email_sends` of internal/infra/postgres/client.go.
pub mod Status
pub mod Races
use emailservice_worker.Prelude.{
  String, Bool, true, false, not, ◌&&◌, Option, none, some, ◌=ₛ◌, map_option, select_row,
  update_rows,
}
use emailservice_worker.Schema.{SendStatus, sending, sent, failed, EmailSendRow}
use emailservice_worker.Effect.{Stmt}
use emailservice_worker.Effect.Errors.{ok}

-- `WHERE send_id = $1 AND workspace_id = $2`
abbrev pub is_send : String → String → EmailSendRow → Bool
is_send send_id workspace_id r = r.send_id =ₛ send_id && r.workspace_id =ₛ workspace_id

-- `status IN ('queued', 'failed', 'sending')`
abbrev pub may_send : SendStatus → Bool
may_send SendStatus.queued = true
may_send SendStatus.failed = true
may_send SendStatus.sending = true
may_send _ = false

abbrev pub is_bounced : SendStatus → Bool
is_bounced SendStatus.bounced = true
is_bounced _ = false

-- `status IN ('sent', 'bounced')`, and `status == StatusSent || status == StatusBounced`
abbrev pub is_finished : SendStatus → Bool
is_finished SendStatus.sent = true
is_finished SendStatus.bounced = true
is_finished _ = false

-- `none` stands for the text "" of a row that is not there.
unfoldable pub get_email_send_status : String → String → Stmt (Option SendStatus)
get_email_send_status send_id workspace_id now db =
    (ok (map_option (λ r. r.status) (select_row (is_send send_id workspace_id) db.email_sends)), db)

unfoldable pub update_email_send_sending : String → String → Stmt Unit
update_email_send_sending send_id workspace_id now db = (
  ok tt,
  record db {
    email_sends =
        update_rows (λ r. is_send send_id workspace_id r && may_send r.status)
          (λ r. record r { status = sending; updated_at = now }) db.email_sends;
  },
)

unfoldable pub update_email_send_sent : String → String → String → Stmt Unit
update_email_send_sent send_id workspace_id provider_message_id now db = (
  ok tt,
  record db {
    email_sends =
        update_rows (λ r. is_send send_id workspace_id r && not (is_bounced r.status))
          (λ r. record r {
            status = sent;
            provider_message_id = some provider_message_id;
            failure_reason = none;
            updated_at = now;
          })
          db.email_sends;
  },
)

unfoldable pub update_email_send_failed : String → String → String → Stmt Unit
update_email_send_failed send_id workspace_id reason now db = (
  ok tt,
  record db {
    email_sends =
        update_rows (λ r. is_send send_id workspace_id r && not (is_finished r.status))
          (λ r. record r { status = failed; failure_reason = some reason; updated_at = now })
          db.email_sends;
  },
)
