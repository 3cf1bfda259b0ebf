-- ===== src/Postgres/OldRows.antt =====
-- The deletion of old rows, internal/infra/postgres/client.go: `DeleteOldAuditLogs` and
-- `DeleteOldEvents`.
use emailservice_worker.Prelude.{
  ℕ, ◌+◌, String, Bool, not, List, map, any, ◌=ₛ◌, leb, ltb, select_rows, order_rows, limit_rows,
  affected,
}
use emailservice_worker.Schema.{AuditLogRecord, RawEventRecord}
use emailservice_worker.Effect.{Stmt}
use emailservice_worker.Effect.Errors.{ok}

module _ {R : Type 0} (id : R → String) (created_at : R → ℕ) where
  -- `SELECT id … WHERE created_at < NOW() - $1 ORDER BY created_at LIMIT $2`
  unfoldable pub old_ids : ℕ → ℕ → ℕ → List R → List String
  old_ids retain_for limit now rows = map id (
      limit_rows limit (
        order_rows (λ a b. leb (created_at a) (created_at b))
          (select_rows (λ r. ltb (created_at r + retain_for) now) rows)))

abbrev pub is_among : List String → String → Bool
is_among ids id = any (λ i. i =ₛ id) ids

-- The answer is the number of the rows deleted.
unfoldable pub delete_old_audit_logs : ℕ → ℕ → Stmt ℕ
delete_old_audit_logs retain_for limit now db =
    let ids =
      old_ids (λ (r : AuditLogRecord). r.id) (λ r. r.created_at) retain_for limit now
        db.audit_logs in
    (
      ok (affected (λ r. is_among ids r.id) db.audit_logs),
      record db { audit_logs = select_rows (λ r. not (is_among ids r.id)) db.audit_logs },
    )

-- The rows of events_enriched go with the event that they refer to.
unfoldable pub delete_old_events : ℕ → ℕ → Stmt ℕ
delete_old_events retain_for limit now db =
    let ids =
      old_ids (λ (r : RawEventRecord). r.id) (λ r. r.created_at) retain_for limit now
        db.events_raw in
    (
      ok (affected (λ r. is_among ids r.id) db.events_raw),
      record db {
        events_raw = select_rows (λ r. not (is_among ids r.id)) db.events_raw;
        events_enriched = select_rows (λ r. not (is_among ids r.raw_event_id)) db.events_enriched;
      },
    )
