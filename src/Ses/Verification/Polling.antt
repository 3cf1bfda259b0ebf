-- ===== src/Ses/Verification/Polling.antt =====
-- How the polling of internal/worker/ses/handler.go goes on.
use emailservice_worker.Prelude.{
  ℕ, zero, suc, ◌-◌, ◌≤◌, ◌≡◌, ◌≢◌, refl, String, Bool, true, false, Option, some, List, [], ◌∷◌,
  arith, select_row, eq_iff, ◌||◌,
}
use emailservice_worker.Types.{DomainVerifyPayload, Payload}
use emailservice_worker.Schema.{DomainRow}
use mathlib.Core.Path.{subst}
use emailservice_worker.Effect.{
  Env, World, Msg, Fate, done, lost, unsure, step, Settlement, ack, nak_with_delay, settle,
  attempt_of, pure, try, branch, case_option, case_result, inc, ◌>>◌, identity_with,
  get_email_identity, ses_api_failures,
}
use emailservice_worker.Effect.Errors.{ok, err, wrap}
use emailservice_worker.Effect.Keeps.OnQuery.{query_known}
use emailservice_worker.Effect.Keeps.{Ensures, Keeps, Ensures-then}
use emailservice_worker.Effect.Keeps.OnSettled.{Settled, Settled-inc, settled_rules}
use emailservice_worker.Queue.Publisher.{publish}
use emailservice_worker.Postgres.Domains.{is_domain, get_domain_status}
use emailservice_worker.Email.Handler.{delay_at}
use emailservice_worker.Email.Validate.{is_empty}
use emailservice_worker.Ses.Verification.{
  retry_delays, poll_interval, next_delay, check_domain_verification, publish_event, on_verified,
  on_pending, on_failed, on_status, check_and_update, is_deleted, verify_domain,
  handle_verification, status_of, VerificationStatus,
}

-- Each entry is at most the next.
abbrev IsAscending : List ℕ → Type 0
IsAscending [] = Unit
IsAscending (d ∷ []) = Unit
IsAscending (d ∷ d' ∷ rest) = (d ≤ d') × IsAscending (d' ∷ rest)

delay_at-first :
    (d : ℕ) (rest : List ℕ) (i : ℕ) → IsAscending (d ∷ rest) → d ≤ delay_at (d ∷ rest) i
unfolding delay_at
delay_at-first d [] i h = omega arith
delay_at-first d (d' ∷ rest) zero h = omega arith
delay_at-first d (d' ∷ rest) (suc i) h = omega (arith, delay_at-first d' rest i h.1, h.0)

delay_at_mono : (ds : List ℕ) (i j : ℕ) → IsAscending ds → i ≤ j → delay_at ds i ≤ delay_at ds j
unfolding delay_at
delay_at_mono [] i j h le = omega arith
delay_at_mono (d ∷ []) i j h le = omega arith
delay_at_mono (d ∷ d' ∷ rest) zero zero h le = omega arith
delay_at_mono (d ∷ d' ∷ rest) zero (suc j) h le = omega (arith, delay_at-first d' rest j h.1, h.0)
delay_at_mono (d ∷ d' ∷ rest) (suc i) zero h le = absurd (omega arith)
delay_at_mono (d ∷ d' ∷ rest) (suc i) (suc j) h le = delay_at_mono (d' ∷ rest) i j h.1 (omega arith)

ascending : IsAscending retry_delays
ascending = (
  omega arith,
  (
    omega arith,
    (omega arith, (omega arith, (omega arith, (omega arith, (omega arith, (omega arith, tt)))))),
  ),
)

late_delay :
    (k : ℕ) → delay_at retry_delays (suc (suc (suc (suc (suc (suc (suc (suc k)))))))) ≡ 86400000
unfolding delay_at
late_delay k = refl

delay_at-least : (i : ℕ) → 300000 ≤ delay_at retry_delays i
unfolding delay_at
delay_at-least i = delay_at_mono retry_delays 0 i ascending (omega arith)

delay_at-most : (i : ℕ) → delay_at retry_delays i ≤ 86400000
unfolding delay_at
delay_at-most i = omega (
  arith,
  delay_at_mono retry_delays i (suc (suc (suc (suc (suc (suc (suc (suc i)))))))) ascending
      (omega arith),
  late_delay i,
)

-- The backoff never gets shorter from one attempt to a later one, and stays between five minutes
-- and a day (in milliseconds).
pub next_delay-bounds :
    (n m : ℕ)
    → n ≤ m
    → (next_delay n ≤ next_delay m) × (300000 ≤ next_delay n) × (next_delay m ≤ 86400000)
unfolding next_delay
next_delay-bounds n m h = (
  delay_at_mono retry_delays (n - 1) (m - 1) ascending (omega arith),
  delay_at-least (n - 1),
  delay_at-most (m - 1),
)

abbrev pub is_pending : VerificationStatus → Bool
is_pending VerificationStatus.pending = true
is_pending _ = false

-- How a poll ends, for the status that SES reports and the number of the attempt: an ack for a
-- domain that is verified or has failed, or the message comes again, after half a minute or after
-- the delay of the attempt.
pub data PollEnd (v : VerificationStatus) (n : ℕ) (s : List Settlement) (w : World) : Type 0 where
  acked : is_pending v ≡ false → w.settled ≡ ack ∷ s → PollEnd v n s w
  polled_soon : w.settled ≡ nak_with_delay poll_interval ∷ s → PollEnd v n s w
  polled_later : w.settled ≡ nak_with_delay (next_delay n) ∷ s → PollEnd v n s w

module _ {e : Env} {s : List Settlement} {v : VerificationStatus} {n : ℕ} where
  ack-PollEnd : is_pending v ≡ false → Ensures e (Settled s) (settle ack) (PollEnd v n s)
  unfolding settle
  ack-PollEnd h = record { at = λ w p. PollEnd.acked h (ground arith) }

  soon-PollEnd : Ensures e (Settled s) (settle (nak_with_delay poll_interval)) (PollEnd v n s)
  unfolding settle
  soon-PollEnd = record { at = λ w p. PollEnd.polled_soon (ground arith) }

  later-PollEnd : Ensures e (Settled s) (settle (nak_with_delay (next_delay n))) (PollEnd v n s)
  unfolding settle
  later-PollEnd = record { at = λ w p. PollEnd.polled_later (ground arith) }

module _ {e : Env} {s : List Settlement} where
  Keeps-event : (subject : String) (x : Payload) → Keeps e (Settled s) (publish_event subject x)
  unfolding publish_event publish
  Keeps-event subject x = search settled_rules depth 20

module _ (e : Env) {s : List Settlement} (p : DomainVerifyPayload) (n : ℕ) where
  on_status-PollEnd :
      (v : VerificationStatus) → Ensures e (Settled s) (on_status p n v) (PollEnd v n s)
  unfolding on_status on_verified on_pending on_failed
  on_status-PollEnd VerificationStatus.verified =
      search
        (
          settled_rules,
          ack-PollEnd {v = VerificationStatus.verified} {n = n} refl,
          soon-PollEnd,
          Keeps-event,
        )
        depth 20
  on_status-PollEnd VerificationStatus.pending =
      search (settled_rules, later-PollEnd, soon-PollEnd, Keeps-event) depth 20
  on_status-PollEnd VerificationStatus.failed =
      search (settled_rules, ack-PollEnd {v = VerificationStatus.failed} {n = n} refl, soon-PollEnd)
        depth 20

  soon :
      (v : VerificationStatus)
      → Ensures e
          (Settled s)
          (inc ses_api_failures >> settle (nak_with_delay poll_interval))
          (PollEnd v n s)
  soon v = Ensures-then _ _ (Settled-inc _) soon-PollEnd

  answered :
      (fate : Fate) (o : Option String) (w : World)
      → w.settled ≡ s
      → let r = identity_with fate o w in
        PollEnd
          (status_of o)
          n
          s
          (case_result
            (case_result r.0
              (λ x. pure (err (wrap "ses get verification" x)))
              (λ dkim. pure (ok (status_of dkim)))
              e
              r.1).0
            (λ _. inc ses_api_failures >> settle (nak_with_delay poll_interval))
            (on_status p n)
            e
            (case_result r.0
              (λ x. pure (err (wrap "ses get verification" x)))
              (λ dkim. pure (ok (status_of dkim)))
              e
              r.1).1).1
  unfolding identity_with case_result pure
  answered done o w h = (on_status-PollEnd (status_of o)).at w h
  answered (lost x) o w h = (soon (status_of o)).at w h
  answered (unsure x) o w h = (soon (status_of o)).at w h

  check-PollEnd :
      (w : World)
      → w.settled ≡ s
      → PollEnd (status_of (e.dkim_status w.tick)) n s (check_and_update p n e w).1
  unfolding check_and_update check_domain_verification get_email_identity try
  check-PollEnd w h = answered (e.ses_fate w.tick) (e.dkim_status w.tick) (step e w) h

verify-PollEnd :
    (p : DomainVerifyPayload) (n : ℕ) (e : Env) (w : World) (r : DomainRow)
    → select_row (is_domain p.domain_id p.workspace_id) w.db.domains ≡ some r
    → is_deleted (some r.status) ≡ false
    → PollEnd (status_of (e.dkim_status (suc w.tick))) n w.settled (verify_domain p n e w).1
unfolding verify_domain get_domain_status branch
verify-PollEnd p n e w r found live =
    query_known (λ w'. PollEnd (status_of (e.dkim_status (suc w.tick))) n w.settled w')
      (get_domain_status p.domain_id p.workspace_id) (some r.status)
      (λ _. settle (nak_with_delay poll_interval))
      (λ status. branch (is_deleted status) (settle Settlement.term) (check_and_update p n)) w
      (λ t. rw found refl) (λ x w' h. soon-PollEnd.at w' h.of_settled)
      (λ w' h. rw live (
        subst (λ k. PollEnd (status_of (e.dkim_status k)) n w.settled (check_and_update p n e w').1)
          h.of_tick (check-PollEnd e p n w' h.of_settled)))

-- The poller gives a domain up only if SES says so. For a message with all three fields and a
-- domain whose row is there with a status that is not empty, deleting or deleted: the message is
-- acked only where SES reports the domain as verified or failed, and it is asked for again in every
-- other case, after half a minute or after the delay of the attempt, whatever SES, the database and
-- the queue do and however many attempts there were.
pub handle_verification-PollEnd :
    (p : DomainVerifyPayload) (n : Option ℕ) (e : Env) (w : World) (r : DomainRow)
    → p.domain_id ≢ ""
    → p.workspace_id ≢ ""
    → p.domain ≢ ""
    → select_row (is_domain p.domain_id p.workspace_id) w.db.domains ≡ some r
    → is_deleted (some r.status) ≡ false
    → let msg : Msg DomainVerifyPayload = record { body = some p; num_delivered = n } in
      PollEnd
        (status_of (e.dkim_status (suc w.tick)))
        (attempt_of msg)
        w.settled
        (handle_verification msg e w).1
unfolding handle_verification case_option branch
handle_verification-PollEnd p n e w r a b c found live =
    let msg : Msg DomainVerifyPayload = record { body = some p; num_delivered = n } in
    let complete : (is_empty p.domain_id || is_empty p.workspace_id || is_empty p.domain) ≡ false =
      ground (arith, eq_iff p.domain_id "", eq_iff p.workspace_id "", eq_iff p.domain "") in
    rw complete (verify-PollEnd p (attempt_of msg) e w r found live)
