-- ===== src/Email/Batcher/Idempotency.antt =====
-- Redeliveries of a campaign start, internal/worker/email/batcher.go.
use mathlib.Core.Path.{subst}
use emailservice_worker.Prelude.{
  ℕ, ◌≡◌, refl, sym, ap, String, Option, none, some, List, true, select_row, map_option, arith,
}
use emailservice_worker.Types.{CampaignStartPayload}
use emailservice_worker.Schema.{Database, CampaignRow}
use emailservice_worker.Effect.{
  Env, World, Msg, Published, ack, nak, term, settle, case_option, campaigns_processed,
}
use emailservice_worker.Effect.Errors.{ok}
use emailservice_worker.Effect.Keeps.{Keeps, Ensures-then, Ensures-branch_on}
use emailservice_worker.Effect.Keeps.OnStill.{Still, Still-query, Still-settle, Still-inc}
use emailservice_worker.Postgres.Campaigns.{is_campaign, is_ended, get_campaign_status}
use emailservice_worker.Email.Validate.{Invalid, validate_campaign_start}
use emailservice_worker.Email.Batcher.{chunk_size_of, start_campaign, handle_campaign_start}

module _ {e : Env} {d : Database} {o : List Published} (uuid : String → ℕ)
    (fresh : String → ℕ → String) (itoa : ℕ → String) (chunk_size : ℕ) (p : CampaignStartPayload)
    (r : CampaignRow)
    (there : select_row (is_campaign p.campaign_id p.workspace_id) d.campaigns ≡ some r)
    (ended : is_ended r.status ≡ true) where
  Still-start_campaign : Keeps e (Still d o) (start_campaign uuid fresh itoa chunk_size p)
  unfolding start_campaign get_campaign_status
  Still-start_campaign =
      Still-query (get_campaign_status p.campaign_id p.workspace_id) (some r.status) _ _
        (λ t. ap (λ x. (ok (map_option (λ y. y.status) x), d)) there) (λ _. Still-settle nak)
        (Ensures-branch_on _ _ _ (λ _. Still-settle ack) (λ t. absurd (ground (arith, t, ended))))

  Still-valid :
      (o' : Option Invalid)
      → Keeps e
          (Still d o)
          (case_option o' (start_campaign uuid fresh itoa chunk_size p) (λ _. settle term))
  unfolding case_option
  Still-valid none = Still-start_campaign
  Still-valid (some x) = Still-settle term

  Still-handle_campaign_start :
      (n : ℕ) (msg : Msg CampaignStartPayload)
      → chunk_size_of n ≡ chunk_size
      → msg.body ≡ some p
      → Keeps e (Still d o) (handle_campaign_start uuid fresh itoa n msg)
  unfolding handle_campaign_start case_option
  Still-handle_campaign_start n msg is_size is_p =
      Ensures-then _ _ (Still-inc campaigns_processed) (
        subst
          (λ b. Keeps e (Still d o) (
            case_option b (settle term) (λ x.
              case_option (validate_campaign_start x)
                (start_campaign uuid fresh itoa (chunk_size_of n) x) (λ _. settle term))))
          (sym is_p)
          (subst
            (λ k. Keeps e (Still d o) (
              case_option (validate_campaign_start p) (start_campaign uuid fresh itoa k p)
                (λ _. settle term)))
            (sym is_size) (Still-valid (validate_campaign_start p))))

-- A start of a campaign that is completed or has failed leaves the database as it is and publishes no
-- chunk, whatever the segment has for members since and whatever the environment.
handle_campaign_start-still :
    (uuid : String → ℕ) (fresh : String → ℕ → String) (itoa : ℕ → String) (chunk_size : ℕ)
    (msg : Msg CampaignStartPayload) (p : CampaignStartPayload) (r : CampaignRow) (e : Env)
    (w : World)
    → msg.body ≡ some p
    → select_row (is_campaign p.campaign_id p.workspace_id) w.db.campaigns ≡ some r
    → is_ended r.status ≡ true
    → let w' = (handle_campaign_start uuid fresh itoa chunk_size msg e w).1 in
      (w'.db ≡ w.db) × (w'.outbox ≡ w.outbox)
handle_campaign_start-still uuid fresh itoa chunk_size msg p r e w is_p there ended =
    (Still-handle_campaign_start uuid fresh itoa (chunk_size_of chunk_size) p r there ended
        chunk_size msg refl is_p).at
      w (refl, refl)
