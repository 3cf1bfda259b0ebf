-- ===== src/Email/CampaignScheduler.antt =====
-- internal/worker/email/campaign_scheduler.go, but for the loop around `poll`.
use emailservice_worker.Prelude.{ℕ, String, List, [], ◌∷◌}
use emailservice_worker.Types.{campaign_start}
use emailservice_worker.Effect.{M, pure, exec, ◌>>=◌, ◌>>◌, try, new_uuid}
use emailservice_worker.Queue.Publisher.{publish}
use emailservice_worker.Postgres.DueCampaigns.{DueCampaign, get_due_campaigns}

abbrev pub campaign_scheduler_batch : ℕ
campaign_scheduler_batch = 20

abbrev pub subject_campaign_start : String
subject_campaign_start = "campaign.send.start"

-- An error of the publication is only logged.
unfoldable pub fire : DueCampaign → M Unit
fire c = do
  job_id ← new_uuid
  publish subject_campaign_start
      (campaign_start (record {
        job_id = job_id;
        workspace_id = c.workspace_id;
        campaign_id = c.id;
        segment_id = c.segment_id;
        sender = record { email = c.sender_email; name = c.sender_name };
        reply_to = c.reply_to;
        subject = c.subject;
        html = c.html_body;
        text = c.text_body;
      }))
      job_id
  pure tt

unfoldable pub fire_all : List DueCampaign → M Unit
fire_all [] = pure tt
fire_all (c ∷ cs) = fire c >> fire_all cs

unfoldable pub poll : M Unit
poll = try (exec (get_due_campaigns campaign_scheduler_batch)) (λ _. pure tt) fire_all
