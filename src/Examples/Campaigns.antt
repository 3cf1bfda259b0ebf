-- ===== src/Examples/Campaigns.antt =====
-- Runs of the statements on campaigns.
use emailservice_worker.Prelude.{
  All, length, ◌≡◌, refl, false, some, List, [], ◌∷◌, select_rows, update_rows, limit_rows,
  order_rows,
}
use emailservice_worker.Schema.{CampaignStatus, CampaignRow, Database}
use emailservice_worker.Effect.Errors.{ok}
use emailservice_worker.Postgres.BulkInsert.{Contact, bulk_insert_campaign_recipients}
use emailservice_worker.Postgres.BulkInsert.Again.{
  HasRecipient, bulk_insert-HasRecipient, bulk_insert-again,
}
use emailservice_worker.Postgres.Campaigns.{mark_campaign_complete}
use emailservice_worker.Postgres.Campaigns.Complete.{mark_campaign_complete-once}
use emailservice_worker.Postgres.DueCampaigns.{take_due, due_ids}
use emailservice_worker.Postgres.DueCampaigns.Once.{handed_out, take_due-once}
use emailservice_worker.Examples.Chunks.{campaign, world}

mark_campaign_complete-once_example :
    (mark_campaign_complete "c1" "w1" 20 (mark_campaign_complete "c1" "w1" 10 world.db).1).0
    ≡ ok false
mark_campaign_complete-once_example = mark_campaign_complete-once "c1" "w1" 10 20 world.db

abbrev rows : List CampaignRow
rows = record campaign { status = CampaignStatus.scheduled; scheduled_at = some 5 } ∷ []

take_due-once_example : handed_out (take_due 20 10 (take_due 20 9 rows).1).0 "c1" ≡ false
unfolding take_due select_rows update_rows due_ids limit_rows order_rows
take_due-once_example = take_due-once 20 9 20 10 rows "c1" refl

abbrev contacts : List Contact
contacts =
    record { id = "r1"; email = "ann@example.org"; name = "Ann" }
    ∷ record { id = "r9"; email = "bob@example.org"; name = "Bob" }
    ∷ []

-- One contact has its row already.
abbrev inserted : Database
inserted = (bulk_insert_campaign_recipients (λ i. "new") "c1" "w1" contacts 7 world.db).1

bulk_insert-HasRecipient_example : All (HasRecipient "c1" inserted.campaign_recipients) contacts
bulk_insert-HasRecipient_example =
    bulk_insert-HasRecipient (λ i. "new") "c1" "w1" contacts 7 world.db

bulk_insert-again_example :
    length
      (bulk_insert_campaign_recipients
        (λ i. "other")
        "c1"
        "w1"
        contacts
        8
        inserted).1.campaign_recipients
    ≡ length inserted.campaign_recipients
bulk_insert-again_example =
    bulk_insert-again (λ i. "new") (λ i. "other") "c1" "w1" contacts 7 8 world.db
