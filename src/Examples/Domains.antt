-- ===== src/Examples/Domains.antt =====
-- Runs of domain verification.
use emailservice_worker.Prelude.{◌≤◌, ◌≡◌, inl, arith, refl, none, some, [], ◌∷◌, select_row}
use emailservice_worker.Types.{DomainVerifyPayload}
use emailservice_worker.Schema.{DomainStatus, DomainRow, empty_database}
use emailservice_worker.Effect.{World, Msg, attempt_of}
use emailservice_worker.Postgres.Domains.{is_domain}
use emailservice_worker.Ses.Verification.{
  VerificationStatus, status_of, handle_verification, next_delay, sweep,
}
use emailservice_worker.Ses.Verification.Laws.{
  DomainHas, verified_row, handle_verification-gone, sweep-verified,
}
use emailservice_worker.Ses.Verification.Polling.{
  PollEnd, next_delay-bounds, handle_verification-PollEnd,
}
use emailservice_worker.Examples.{calm, world_with, differ}

abbrev domain_row : DomainStatus → DomainRow
domain_row s = record {
  id = "d1";
  workspace_id = "w1";
  domain = "example.org";
  status = s;
  verified_at = none;
  verification_attempts = 0;
  last_verification_check_at = none;
  verification_started_at = some 0;
  deleted_at = none;
  updated_at = 0;
}

abbrev with_domain : DomainStatus → World
with_domain s = world_with (record empty_database { domains = domain_row s ∷ [] })

abbrev message : Msg DomainVerifyPayload
message = record {
  body = some (record { domain_id = "d1"; workspace_id = "w1"; domain = "example.org" });
  num_delivered = some 3;
}

-- Deleted, with a status that says nothing of it.
abbrev deleted_row : DomainRow
deleted_row = record (domain_row DomainStatus.pending) { deleted_at = some 9 }

abbrev with_deleted : World
with_deleted = world_with (record empty_database { domains = deleted_row ∷ [] })

handle_verification-gone_example :
    select_row (is_domain "d1" "w1") (handle_verification message calm with_deleted).1.db.domains
    ≡ some deleted_row
unfolding select_row
handle_verification-gone_example =
    handle_verification-gone message calm with_deleted "d1" "w1" deleted_row refl (inl (λ q. cc))

sweep-verified_example :
    DomainHas verified_row "d1" "w1" (sweep 1000 calm (with_domain DomainStatus.verified)).1.db
unfolding select_row
sweep-verified_example =
    sweep-verified 1000 calm (with_domain DomainStatus.verified) "d1" "w1"
      (domain_row DomainStatus.verified, refl, refl)

next_delay-bounds_example :
    (next_delay 3 ≤ next_delay 5) × (300000 ≤ next_delay 3) × (next_delay 5 ≤ 86400000)
next_delay-bounds_example = next_delay-bounds 3 5 (omega arith)

handle_verification-PollEnd_example :
    PollEnd VerificationStatus.verified 3 []
      (handle_verification message calm (with_domain DomainStatus.pending)).1
unfolding select_row attempt_of status_of
handle_verification-PollEnd_example =
    handle_verification-PollEnd
      (record { domain_id = "d1"; workspace_id = "w1"; domain = "example.org" }) (some 3) calm
      (with_domain DomainStatus.pending) (domain_row DomainStatus.pending) (differ "d1" "" refl)
      (differ "w1" "" refl) (differ "example.org" "" refl) refl refl
