-- ===== src/Cleanup.antt =====
-- internal/worker/cleanup/scheduler.go, but for the loop around `sweep`.
use emailservice_worker.Prelude.{ℕ, zero, suc, ◌+◌, length, ltb}
use emailservice_worker.Effect.{
  M, Stmt, Metric, pure, exec, ◌>>=◌, ◌>>◌, try, case_option, branch, when, add_metric, ctx_err,
  sleep, audit_logs_deleted, events_raw_deleted,
}
use emailservice_worker.Postgres.OldRows.{delete_old_audit_logs, delete_old_events}

abbrev pub sweep_batch : ℕ
sweep_batch = 1000

-- The loop of `sweepAuditLogs` and of `sweepEvents`, on fuel. An error is only logged. Where the
-- context is done between two batches, the total is not counted.
unfoldable pub sweep_batches : Stmt ℕ → Metric → ℕ → ℕ → M Unit
sweep_batches delete deleted zero total = pure tt
sweep_batches delete deleted (suc fuel) total =
    let rest = sweep_batches delete deleted fuel in
    try (exec delete) (λ _. pure tt)
      (λ n.
        branch (ltb n sweep_batch) (when (ltb 0 (total + n)) (add_metric deleted (total + n))) (do
          cancelled ← ctx_err
          case_option cancelled (do sleep 100; rest (total + n)) (λ _. pure tt)))

-- A round that another follows deletes rows.
unfoldable pub sweep_audit_logs : ℕ → M Unit
sweep_audit_logs retain_for e w =
    sweep_batches (delete_old_audit_logs retain_for sweep_batch) audit_logs_deleted
      (suc (length w.db.audit_logs)) 0 e w

unfoldable pub sweep_events : ℕ → M Unit
sweep_events retain_for e w =
    sweep_batches (delete_old_events retain_for sweep_batch) events_raw_deleted
      (suc (length w.db.events_raw)) 0 e w

unfoldable pub sweep_tables : ℕ → M Unit
sweep_tables retain_for = sweep_audit_logs retain_for >> sweep_events retain_for
