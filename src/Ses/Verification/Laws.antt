-- ===== src/Ses/Verification/Laws.antt =====
-- What domain verification keeps: internal/worker/ses/handler.go and cleanup_scheduler.go.
use mathlib.Core.Path.{subst}
use emailservice_worker.Prelude.{
  ℕ, ◌≡◌, ◌≢◌, ◌⊎◌, inl, inr, refl, ap, ◌∙◌, String, Bool, true, false, Option, none, some, List,
  [], ◌∷◌, arith, HasRow, HasRow-update_rows, select_row, update_rows, map_option,
  select_row-update_rows, if◌then◌else◌,
}
use emailservice_worker.Types.{DomainVerifyPayload, Payload}
use emailservice_worker.Schema.{DomainStatus, DomainRow, Database}
use emailservice_worker.Effect.{Env, World, Msg, Mail, exec, get_email_identity, format_time}
use emailservice_worker.Effect.Keeps.{Keeps, Ensures-then}
use emailservice_worker.Postgres.Campaigns.{is_null}
use emailservice_worker.Effect.Keeps.OnDb.{OfDb, db_rules, Keeps-exec_db}
use emailservice_worker.Queue.Publisher.{publish}
use emailservice_worker.Postgres.Domains.{
  is_domain, is_gone, is_live, StaleVerifyingDomain, get_domain_status, update_domain_verified,
  update_domain_pending, update_domain_failed, get_stale_verifying_domains, mark_domain_expired,
}
use emailservice_worker.Ses.Verification.{
  check_domain_verification, publish_event, on_verified, on_pending, on_failed, on_status,
  check_and_update, verify_domain, handle_verification, expire_domain, expire_all, sweep,
  VerificationStatus,
}

-- The row of a domain is there and satisfies the test.
abbrev pub DomainHas : (DomainRow → Bool) → String → String → Database → Type 0
DomainHas test id ws db = HasRow (is_domain id ws) test db.domains

-- The domain is deleted, or is being deleted.
abbrev pub IsGone : DomainRow → Type 0
IsGone r =
    (r.deleted_at ≢ none) ⊎ (r.status ≡ DomainStatus.deleting) ⊎ (r.status ≡ DomainStatus.deleted)

not_null : {A : Type 0} (o : Option A) → o ≢ none → is_null o ≡ false
not_null none h = absurd (h refl)
not_null (some a) h = refl

gone-is_live : (r : DomainRow) → IsGone r → is_live r ≡ false
gone-is_live r (inl h) = ground (arith, not_null r.deleted_at h)
gone-is_live r (inr (inl h)) = ground (arith, ap is_gone h)
gone-is_live r (inr (inr h)) = ground (arith, ap is_gone h)

-- The row of a domain.
record RowIs (id ws : String) (r : DomainRow) (d : Database) : Type 0 where
  pub is_row : select_row (is_domain id ws) d.domains ≡ some r

module _ {e : Env} {Q : Database → Type 0} {R : List Mail → Type 0} where
  Keeps-get_identity : (d : String) → Keeps e (OfDb Q R) (get_email_identity d)
  unfolding get_email_identity
  Keeps-get_identity d = record {
    at = λ w p. record {
      of_db = subst Q (ground arith) p.of_db;
      of_mails = subst R (ground arith) p.of_mails;
    };
  }

  Keeps-format_time : (t : ℕ) → Keeps e (OfDb Q R) (format_time t)
  unfolding format_time
  Keeps-format_time t = record { at = λ w p. record { of_db = p.of_db; of_mails = p.of_mails } }

  Keeps-check : (d : String) → Keeps e (OfDb Q R) (check_domain_verification d)
  unfolding check_domain_verification
  Keeps-check d = search (db_rules, Keeps-get_identity) depth 20

  Keeps-publish :
      (subject : String) (x : Payload) (id : String) → Keeps e (OfDb Q R) (publish subject x id)
  unfolding publish
  Keeps-publish subject x id = search db_rules depth 20

untouched :
    (p : DomainRow → Bool) (f : DomainRow → DomainRow) (rs : List DomainRow) (id ws : String)
    (r : DomainRow)
    → ((x : DomainRow) → is_domain id ws (f x) ≡ is_domain id ws x)
    → select_row (is_domain id ws) rs ≡ some r
    → p r ≡ false
    → select_row (is_domain id ws) (update_rows p f rs) ≡ some r
untouched p f rs id ws r same found skipped =
    select_row-update_rows (is_domain id ws) p f rs same
    ∙ ap (map_option (λ x. if p x then f x else x)) found
    ∙ ap (λ b. some (if b then f r else r)) skipped

module _ {e : Env} {R : List Mail → Type 0} (id ws : String) (r : DomainRow)
    (gone : is_live r ≡ false) where
  exec_get : (i v : String) → Keeps e (OfDb (RowIs id ws r) R) (exec (get_domain_status i v))
  unfolding get_domain_status
  exec_get i v = Keeps-exec_db _ (λ t d h. h)

  exec_verified :
      (i v : String) → Keeps e (OfDb (RowIs id ws r) R) (exec (update_domain_verified i v))
  unfolding update_domain_verified
  exec_verified i v = Keeps-exec_db _ (λ t d h. record {
    is_row = untouched _ _ d.domains id ws r (λ x. refl) h.is_row (ground (arith, gone));
  })

  exec_pending :
      (i v : String) (n : ℕ) → Keeps e (OfDb (RowIs id ws r) R) (exec (update_domain_pending i v n))
  unfolding update_domain_pending
  exec_pending i v n = Keeps-exec_db _ (λ t d h. record {
    is_row = untouched _ _ d.domains id ws r (λ x. refl) h.is_row (ground (arith, gone));
  })

  exec_failed :
      (i v : String) (n : ℕ) → Keeps e (OfDb (RowIs id ws r) R) (exec (update_domain_failed i v n))
  unfolding update_domain_failed
  exec_failed i v n = Keeps-exec_db _ (λ t d h. record {
    is_row = untouched _ _ d.domains id ws r (λ x. refl) h.is_row (ground (arith, gone));
  })

  Keeps-on_status :
      (p : DomainVerifyPayload) (n : ℕ) (s : VerificationStatus)
      → Keeps e (OfDb (RowIs id ws r) R) (on_status p n s)
  unfolding on_status on_verified on_pending on_failed publish_event
  Keeps-on_status p n VerificationStatus.verified =
      search (db_rules, exec_verified, Keeps-publish) depth 30
  Keeps-on_status p n VerificationStatus.pending =
      search (db_rules, exec_pending, Keeps-publish) depth 30
  Keeps-on_status p n VerificationStatus.failed = search (db_rules, exec_failed) depth 30

  Keeps-handle :
      (msg : Msg DomainVerifyPayload) → Keeps e (OfDb (RowIs id ws r) R) (handle_verification msg)
  unfolding handle_verification verify_domain check_and_update
  Keeps-handle msg = search (db_rules, exec_get, Keeps-check, Keeps-on_status) depth 40

-- The row of a domain that is deleted (its deletion time is set, or its status is deleted), or that
-- is being deleted, stays as it is, in every column, whatever the message and the environment.
pub handle_verification-gone :
    (msg : Msg DomainVerifyPayload) (e : Env) (w : World) (id ws : String) (r : DomainRow)
    → select_row (is_domain id ws) w.db.domains ≡ some r
    → IsGone r
    → select_row (is_domain id ws) (handle_verification msg e w).1.db.domains ≡ some r
handle_verification-gone msg e w id ws r found gone =
    let start : OfDb (RowIs id ws r) (λ _. Unit) w = record {
      of_db = record { is_row = found };
      of_mails = tt;
    } in
    ((Keeps-handle id ws r (gone-is_live r gone) msg).at w start).of_db.is_row

abbrev is_verified : DomainStatus → Bool
is_verified DomainStatus.verified = true
is_verified _ = false

-- A domain that is verified.
abbrev pub verified_row : DomainRow → Bool
verified_row r = is_verified r.status

module _ {e : Env} {R : List Mail → Type 0} (id ws : String) where
  exec_stale :
      (stale limit : ℕ)
      → Keeps e
          (OfDb (DomainHas verified_row id ws) R)
          (exec (get_stale_verifying_domains stale limit))
  unfolding get_stale_verifying_domains
  exec_stale stale limit = Keeps-exec_db _ (λ t d h. h)

  exec_expired :
      (i v : String)
      → Keeps e (OfDb (DomainHas verified_row id ws) R) (exec (mark_domain_expired i v))
  unfolding mark_domain_expired
  exec_expired i v = Keeps-exec_db _ (λ t d.
      HasRow-update_rows _ verified_row verified_row _ _ d.domains (λ r. refl)
        (λ r k f. ground arith))

  Keeps-expire_domain :
      (d : StaleVerifyingDomain) → Keeps e (OfDb (DomainHas verified_row id ws) R) (expire_domain d)
  unfolding expire_domain
  Keeps-expire_domain d = search (db_rules, exec_expired, Keeps-format_time, Keeps-publish) depth 30

  Keeps-expire_all :
      (ds : List StaleVerifyingDomain)
      → Keeps e (OfDb (DomainHas verified_row id ws) R) (expire_all ds)
  unfolding expire_all
  Keeps-expire_all [] = search db_rules
  Keeps-expire_all (d ∷ ds) = Ensures-then _ _ (Keeps-expire_domain d) (Keeps-expire_all ds)

-- The cleanup never takes back a verification: whatever the environment and the rows that it finds
-- stale, a verified domain stays verified over a sweep.
pub sweep-verified :
    (stale_after : ℕ) (e : Env) (w : World) (id ws : String)
    → DomainHas verified_row id ws w.db
    → DomainHas verified_row id ws (sweep stale_after e w).1.db
unfolding sweep
sweep-verified stale_after e w id ws h =
    let start : OfDb (DomainHas verified_row id ws) (λ _. Unit) w = record {
      of_db = h;
      of_mails = tt;
    } in
    let swept : Keeps e (OfDb (DomainHas verified_row id ws) (λ _. Unit)) (sweep stale_after) =
      search (db_rules, exec_stale, Keeps-expire_all) depth 20 in
    (swept.at w start).of_db
