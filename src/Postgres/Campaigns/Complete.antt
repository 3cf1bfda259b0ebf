-- ===== src/Postgres/Campaigns/Complete.antt =====
-- `MarkCampaignComplete` and the counts of internal/infra/postgres/client.go.
use emailservice_worker.Prelude.{
  ℕ, ◌≡◌, refl, inl, inr, String, Bool, false, ◌&&◌, some, List, [], ◌∷◌, arith, affected,
  update_rows, ◌==◌, Bool-cases, ap,
}
use emailservice_worker.Schema.{CampaignStatus, CampaignRow, Database}
use emailservice_worker.Effect.Errors.{ok}
use emailservice_worker.Postgres.Campaigns.{
  is_campaign, is_null, is_all_processed, mark_campaign_complete,
}

module _ {ℓ} {R : Type ℓ} (p : R → Bool) (f : R → R) (undoes : (r : R) → p (f r) ≡ false) where
  affected-update_rows : (rs : List R) → affected p (update_rows p f rs) ≡ 0
  unfolding affected update_rows
  affected-update_rows [] = refl
  affected-update_rows (r ∷ rs) = elim (Bool-cases (p r)) [
    | inl yes_test ↦ rw (yes_test, undoes r) (omega (arith, affected-update_rows rs))
    | inr no_test ↦ rw (no_test, no_test) (omega (arith, affected-update_rows rs))
  ]

-- The transition to completed is reported at most once: whatever the first call reports, a second
-- call on what it leaves reports that it did nothing, at any time.
pub mark_campaign_complete-once :
    (campaign_id workspace_id : String) (t t' : ℕ) (db : Database)
    → (mark_campaign_complete campaign_id workspace_id t'
        (mark_campaign_complete campaign_id workspace_id t db).1).0
      ≡ ok false
unfolding mark_campaign_complete
mark_campaign_complete-once campaign_id workspace_id t t' db =
    let none_due =
      affected-update_rows
        (λ (r : CampaignRow).
          is_campaign campaign_id workspace_id r && is_null r.completed_at && is_all_processed r)
        (λ r. record r { status = CampaignStatus.completed; completed_at = some t; updated_at = t })
        (λ r. ground arith) db.campaigns in
    ap (λ n. ok (n == 1)) none_due
