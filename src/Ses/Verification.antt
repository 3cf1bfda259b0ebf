-- ===== src/Ses/Verification.antt =====
-- Domain verification: `CheckDomainVerification` of internal/infra/ses/client.go, the handler
-- internal/worker/ses/handler.go and the sweep of internal/worker/ses/cleanup_scheduler.go.
pub mod Laws
pub mod Polling
use emailservice_worker.Prelude.{
  ℕ, ◌-◌, String, Bool, true, false, ◌||◌, Option, none, some, List, [], ◌∷◌, ◌=ₛ◌, ◌==◌,
  if◌then◌else◌,
}
use emailservice_worker.Types.{DomainVerifyPayload, Payload, notice, attempt_notice}
use emailservice_worker.Schema.{DomainStatus}
use emailservice_worker.Effect.{
  M, Msg, ack, nak_with_delay, term, attempt_of, pure, exec, ◌>>=◌, ◌>>◌, try, case_option, branch,
  when, settle, inc, now, format_time, get_email_identity, verify_success, verify_failure,
  verify_retries, ses_api_failures,
}
use emailservice_worker.Effect.Errors.{Result, ok, err, wrap}
use emailservice_worker.Queue.Publisher.{publish}
use emailservice_worker.Postgres.Domains.{
  is_gone, StaleVerifyingDomain, get_domain_status, update_domain_verified, update_domain_pending,
  update_domain_failed, get_stale_verifying_domains, mark_domain_expired,
}
use emailservice_worker.Email.Handler.{delay_at}
use emailservice_worker.Email.Validate.{is_empty, has_none}

pub data VerificationStatus : Type 0 where
  verified pending failed : VerificationStatus

unfoldable pub status_of : Option String → VerificationStatus
status_of none = pending
status_of (some s) =
    if s =ₛ "SUCCESS"
    then verified
    else if s =ₛ "FAILED" || s =ₛ "TEMPORARY_FAILURE"
    then failed
    else pending

unfoldable pub check_domain_verification : String → M (Result VerificationStatus)
check_domain_verification domain =
    try (get_email_identity domain) (λ x. pure (err (wrap "ses get verification" x)))
      (λ dkim. pure (ok (status_of dkim)))

-- In milliseconds: 5m, 10m, 15m, 30m, 1h, 2h, 6h, 12h, 24h.
abbrev pub retry_delays : List ℕ
retry_delays =
    300000 ∷ 600000 ∷ 900000 ∷ 1800000 ∷ 3600000 ∷ 7200000 ∷ 21600000 ∷ 43200000 ∷ 86400000 ∷ []

abbrev pub poll_interval : ℕ
poll_interval = 30000

abbrev pub reminder_after_attempt : ℕ
reminder_after_attempt = 3

unfoldable pub next_delay : ℕ → ℕ
unfolding delay_at
next_delay attempt = delay_at retry_delays (attempt - 1)

-- The error is only logged.
unfoldable pub publish_event : String → Payload → M Unit
publish_event subject payload = do publish subject payload ""; pure tt

abbrev pub domain_fields : DomainVerifyPayload → List (String × String)
domain_fields p =
    ("domainId", p.domain_id) ∷ ("workspaceId", p.workspace_id) ∷ ("domain", p.domain) ∷ []

unfoldable pub on_verified : DomainVerifyPayload → M Unit
on_verified p =
    try (exec (update_domain_verified p.domain_id p.workspace_id))
      (λ _. settle (nak_with_delay poll_interval))
      (λ _. do
        inc verify_success
        publish_event "domain.verified.v1" (notice (domain_fields p))
        settle ack)

unfoldable pub on_pending : DomainVerifyPayload → ℕ → M Unit
on_pending p attempt =
    try (exec (update_domain_pending p.domain_id p.workspace_id attempt))
      (λ _. settle (nak_with_delay poll_interval))
      (λ _. do
        inc verify_retries
        when (attempt == reminder_after_attempt) (
            publish_event "domain.verification.reminder.v1"
              (attempt_notice (domain_fields p) attempt))
        settle (nak_with_delay (next_delay attempt)))

unfoldable pub on_failed : DomainVerifyPayload → ℕ → M Unit
on_failed p attempt =
    try (exec (update_domain_failed p.domain_id p.workspace_id attempt))
      (λ _. settle (nak_with_delay poll_interval)) (λ _. do inc verify_failure; settle ack)

unfoldable pub on_status : DomainVerifyPayload → ℕ → VerificationStatus → M Unit
on_status p attempt verified = on_verified p
on_status p attempt pending = on_pending p attempt
on_status p attempt failed = on_failed p attempt

unfoldable pub check_and_update : DomainVerifyPayload → ℕ → M Unit
check_and_update p attempt =
    try (check_domain_verification p.domain)
      (λ _. do inc ses_api_failures; settle (nak_with_delay poll_interval)) (on_status p attempt)

-- The row is not there, or its status is "", "deleting" or "deleted".
abbrev pub is_deleted : Option DomainStatus → Bool
is_deleted none = true
is_deleted (some (DomainStatus.other s)) = s =ₛ ""
is_deleted (some s) = is_gone s

unfoldable pub verify_domain : DomainVerifyPayload → ℕ → M Unit
verify_domain p attempt =
    try (exec (get_domain_status p.domain_id p.workspace_id))
      (λ _. settle (nak_with_delay poll_interval))
      (λ status. branch (is_deleted status) (settle term) (check_and_update p attempt))

-- `Handler.Handle` of internal/worker/ses/handler.go
unfoldable pub handle_verification : Msg DomainVerifyPayload → M Unit
handle_verification msg = case_option msg.body (settle term) (λ p.
    branch (is_empty p.domain_id || is_empty p.workspace_id || is_empty p.domain) (settle term)
      (verify_domain p (attempt_of msg)))

abbrev pub cleanup_batch : ℕ
cleanup_batch = 50

unfoldable pub expire_domain : StaleVerifyingDomain → M Unit
expire_domain d =
    try (exec (mark_domain_expired d.id d.workspace_id)) (λ _. pure tt)
      (λ _. do
        t ← now
        s ← format_time t
        publish "domain.verification.expired.v1"
            (notice (
              ("domainId", d.id)
              ∷ ("workspaceId", d.workspace_id)
              ∷ ("domain", d.domain)
              ∷ ("ownerEmail", d.owner_email)
              ∷ ("ownerName", d.owner_name)
              ∷ ("expiredAt", s)
              ∷ []))
            ""
        pure tt)

unfoldable pub expire_all : List StaleVerifyingDomain → M Unit
expire_all [] = pure tt
expire_all (d ∷ ds) = expire_domain d >> expire_all ds

-- `DomainCleanupScheduler.sweep`
unfoldable pub sweep : ℕ → M Unit
sweep stale_after =
    try (exec (get_stale_verifying_domains stale_after cleanup_batch)) (λ _. pure tt) expire_all
