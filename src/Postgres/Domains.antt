-- ===== src/Postgres/Domains.antt =====
-- The statements on `domains` of internal/infra/postgres/client.go.
use emailservice_worker.Prelude.{
  ℕ, ◌+◌, String, Bool, true, false, not, ◌&&◌, Option, none, some, List, [], ◌∷◌, map, ◌++◌, ◌=ₛ◌,
  leb, map_option, select_row, select_rows, order_rows, limit_rows, update_rows,
}
use emailservice_worker.Schema.{DomainStatus, DomainRow, WorkspaceRow, UserRow, Database}
use emailservice_worker.Effect.{Stmt}
use emailservice_worker.Effect.Errors.{ok}
use emailservice_worker.Postgres.Recipients.{coalesce}
use emailservice_worker.Postgres.Campaigns.{is_null}

-- `WHERE id = $1 AND workspace_id = $2`
abbrev pub is_domain : String → String → DomainRow → Bool
is_domain domain_id workspace_id r = r.id =ₛ domain_id && r.workspace_id =ₛ workspace_id

-- `status IN ('deleting', 'deleted')`
abbrev pub is_gone : DomainStatus → Bool
is_gone DomainStatus.deleting = true
is_gone DomainStatus.deleted = true
is_gone _ = false

-- `status IN ('pending', 'verifying')`
abbrev pub is_unverified : DomainStatus → Bool
is_unverified DomainStatus.pending = true
is_unverified DomainStatus.verifying = true
is_unverified _ = false

-- `deleted_at IS NULL AND status NOT IN ('deleting', 'deleted')`
abbrev pub is_live : DomainRow → Bool
is_live r = is_null r.deleted_at && not (is_gone r.status)

unfoldable pub get_domain_status : String → String → Stmt (Option DomainStatus)
get_domain_status domain_id workspace_id now db =
    (ok (map_option (λ r. r.status) (select_row (is_domain domain_id workspace_id) db.domains)), db)

unfoldable pub update_domain_verified : String → String → Stmt Unit
update_domain_verified domain_id workspace_id now db = (
  ok tt,
  record db {
    domains =
        update_rows (λ r. is_domain domain_id workspace_id r && is_live r)
          (λ r. record r {
            status = DomainStatus.verified;
            verified_at = some (coalesce r.verified_at now);
            updated_at = now;
          })
          db.domains;
  },
)

-- `UpdateDomainPending` and `UpdateDomainFailed` differ in the status only.
abbrev update_checked : DomainStatus → String → String → ℕ → Stmt Unit
update_checked status domain_id workspace_id attempts now db = (
  ok tt,
  record db {
    domains =
        update_rows (λ r. is_domain domain_id workspace_id r && is_live r)
          (λ r. record r {
            status = status;
            verification_attempts = attempts;
            last_verification_check_at = some now;
            updated_at = now;
          })
          db.domains;
  },
)

unfoldable pub update_domain_pending : String → String → ℕ → Stmt Unit
update_domain_pending = update_checked DomainStatus.pending

unfoldable pub update_domain_failed : String → String → ℕ → Stmt Unit
update_domain_failed = update_checked DomainStatus.failed

pub record StaleVerifyingDomain : Type 0 where
  pub id : String
  pub workspace_id : String
  pub domain : String
  pub owner_email : String
  pub owner_name : String

-- `verification_started_at <= NOW() - stale`; a NULL is not.
abbrev pub started_by : ℕ → ℕ → Option ℕ → Bool
started_by stale now none = false
started_by stale now (some t) = leb (t + stale) now

abbrev pub is_stale : ℕ → ℕ → DomainRow → Bool
is_stale stale now r =
    is_unverified r.status && is_null r.deleted_at && started_by stale now r.verification_started_at

-- `JOIN workspaces`, then `JOIN users` of its owner.
abbrev owners : Database → String → List UserRow
owners db workspace_id = go (select_rows (λ w. w.id =ₛ workspace_id) db.workspaces)
  where
    go : List WorkspaceRow → List UserRow
    go [] = []
    go (w ∷ ws) = select_rows (λ (u : UserRow). u.id =ₛ w.owner_user_id) db.users ++ go ws

abbrev stale_of : DomainRow → UserRow → StaleVerifyingDomain
stale_of d u = record {
  id = d.id;
  workspace_id = d.workspace_id;
  domain = d.domain;
  owner_email = u.email;
  owner_name = coalesce u.first_name "";
}

unfoldable pub join_owners : Database → List DomainRow → List StaleVerifyingDomain
join_owners db [] = []
join_owners db (d ∷ ds) = map (stale_of d) (owners db d.workspace_id) ++ join_owners db ds

abbrev starts_before : DomainRow → DomainRow → Bool
starts_before a b =
    leb (coalesce a.verification_started_at 0) (coalesce b.verification_started_at 0)

unfoldable pub get_stale_verifying_domains : ℕ → ℕ → Stmt (List StaleVerifyingDomain)
unfolding join_owners
get_stale_verifying_domains stale limit now db = (
  ok (
      limit_rows limit
        (join_owners db (order_rows starts_before (select_rows (is_stale stale now) db.domains)))),
  db,
)

unfoldable pub mark_domain_expired : String → String → Stmt Unit
mark_domain_expired domain_id workspace_id now db = (
  ok tt,
  record db {
    domains =
        update_rows
          (λ r.
            is_domain domain_id workspace_id r && is_unverified r.status && is_null r.deleted_at)
          (λ r. record r {
            status = DomainStatus.failed;
            last_verification_check_at = some now;
            updated_at = now;
          })
          db.domains;
  },
)
