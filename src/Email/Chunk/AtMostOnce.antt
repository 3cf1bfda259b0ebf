-- ===== src/Email/Chunk/AtMostOnce.antt =====
-- How one recipient's turn in the campaign chunk handler of internal/worker/email/handler.go moves
-- its row and the mails. Deliveries has the whole handler.
pub mod Deliveries
use emailservice_worker.Prelude.{
  ℕ, suc, ◌+◌, ◌≤◌, ◌≡◌, ◌⊎◌, inl, inr, refl, ap, String, Bool, false, not, Option, none, some,
  List, [], ◌∷◌, arith, length, select_row, map_option, HasRow,
}
use emailservice_worker.Types.{CampaignChunkPayload, CampaignChunkRecipient, Payload}
use emailservice_worker.Schema.{SendStatus, Database}
use emailservice_worker.Effect.{M, Env, World, Mail, exec, try, branch}
use emailservice_worker.Effect.Errors.{Error}
use emailservice_worker.Effect.Keeps.{
  Ensures, Keeps, Ensures-seq, Ensures-branch_on, Ensures-try_split, Ensures-try, Keeps-pure,
  weaken,
}
use emailservice_worker.Effect.Keeps.OnDone.{SesIsCertain}
use emailservice_worker.Effect.Keeps.OnDb.{
  OfDb, db_rules, Keeps-exec_db, exec_made, NoneIsLost, Ensures-query,
}
use emailservice_worker.RateLimit.Bucket.{TokenBucket}
use emailservice_worker.RateLimit.AcquireKeeps.{Keeps-acquire_db}
use emailservice_worker.Queue.Publisher.{publish}
use emailservice_worker.Ses.Client.Answers.{send_email-Answers_db}
use emailservice_worker.Postgres.Recipients.{
  is_recipient, get_campaign_recipient_status, mark_campaign_recipient_sending,
  mark_campaign_recipient_sent, mark_campaign_recipient_failed,
}
use emailservice_worker.Postgres.Recipients.Status.{
  RecipientHas, any_recipient, unended, Advances, sending-Advances, sent-Advances, failed-Advances,
  sending-unended, sent-ended, pending, AllThere, pending-le, AllThere-Advances, IsOne,
  pending-drop, AllThere-row,
}
use emailservice_worker.Postgres.Campaigns.{increment_campaign_counts, mark_campaign_complete}
use emailservice_worker.Email.Renderer.{Rendered}
use emailservice_worker.Email.Handler.{is_finished_row}
use emailservice_worker.Email.Chunk.{
  RecipientOutcome, publish_recipient_event, on_rejected, on_accepted, send_to_recipient,
  process_recipient, recipient_input,
}

-- Every recipient of the chunk has its row, and no more than `a` of them are not finished.
abbrev pub There : CampaignChunkPayload → ℕ → Database → Type 0
There chunk a d =
    AllThere chunk.workspace_id d chunk.recipients
    × (pending chunk.workspace_id d chunk.recipients ≤ a)

There-Advances :
    (chunk : CampaignChunkPayload) (a : ℕ) {d d' : Database}
    → Advances d d'
    → There chunk a d
    → There chunk a d'
There-Advances chunk a v h = (
  AllThere-Advances chunk.workspace_id v chunk.recipients h.0,
  omega (arith, pending-le chunk.workspace_id v chunk.recipients, h.1),
)

module _ {e : Env} {R : List Mail → Type 0} (chunk : CampaignChunkPayload) (a : ℕ) where
  pub exec_failed :
      (i v m : String)
      → Keeps e (OfDb (There chunk a) R) (exec (mark_campaign_recipient_failed i v m))
  exec_failed i v m =
      Keeps-exec_db _ (λ t d h. There-Advances chunk a (failed-Advances i v m t d) h)

  pub exec_counts :
      (i v : String) (m n : ℕ)
      → Keeps e (OfDb (There chunk a) R) (exec (increment_campaign_counts i v m n))
  unfolding increment_campaign_counts
  exec_counts i v m n = Keeps-exec_db _ (λ t d h.
      There-Advances chunk a (record { keeps_row = λ j u x. x; keeps_end = λ j u x. x }) h)

  pub exec_complete :
      (i v : String) → Keeps e (OfDb (There chunk a) R) (exec (mark_campaign_complete i v))
  unfolding mark_campaign_complete
  exec_complete i v = Keeps-exec_db _ (λ t d h.
      There-Advances chunk a (record { keeps_row = λ j u x. x; keeps_end = λ j u x. x }) h)

module _ {e : Env} {Q : Database → Type 0} {R : List Mail → Type 0} where
  pub Keeps-publish :
      (subject : String) (x : Payload) (id : String) → Keeps e (OfDb Q R) (publish subject x id)
  unfolding publish
  Keeps-publish subject x id = search db_rules depth 20

  pub Keeps-event :
      (chunk : CampaignChunkPayload) (a b c d : String)
      → Keeps e (OfDb Q R) (publish_recipient_event chunk a b c d)
  unfolding publish_recipient_event
  Keeps-event chunk a b c d = search (db_rules, Keeps-publish) depth 20

-- One recipient less than `a` is left.
abbrev pub FewerLeft : CampaignChunkPayload → ℕ → Database → Type 0
FewerLeft chunk a d =
    AllThere chunk.workspace_id d chunk.recipients
    × (suc (pending chunk.workspace_id d chunk.recipients) ≤ a)

-- What one recipient can come to: no mail, or one mail and a finished row.
pub data Step (chunk : CampaignChunkPayload) (a : ℕ) (ms : List Mail) (w : World) : Type 0 where
  unsent : OfDb (There chunk a) (λ l. l ≡ ms) w → Step chunk a ms w
  sent_one : OfDb (FewerLeft chunk a) (λ l. (m : Mail) × (l ≡ m ∷ ms)) w → Step chunk a ms w

module _ (chunk : CampaignChunkPayload) (a : ℕ) (r : CampaignChunkRecipient) where
  -- The recipient is not finished.
  abbrev Ready : Database → Type 0
  Ready d = There chunk a d × RecipientHas unended r.recipient_id chunk.workspace_id d

  made_sent :
      (m : String) (t : ℕ) (d : Database)
      → IsOne r chunk.recipients
      → Ready d
      → FewerLeft chunk a (mark_campaign_recipient_sent r.recipient_id chunk.workspace_id m t d).1
  made_sent m t d is_one h =
      let v = sent-Advances r.recipient_id chunk.workspace_id m t d in
      (
        AllThere-Advances chunk.workspace_id v chunk.recipients h.0.0,
        omega (
          arith,
          h.0.1,
          pending-drop chunk.workspace_id v r chunk.recipients is_one h.1
              (sent-ended r.recipient_id chunk.workspace_id m t d (h.1.0, h.1.1, refl)),
        ),
      )

  still_Ready :
      (t : ℕ) (d : Database)
      → Ready d
      → Ready (mark_campaign_recipient_sending r.recipient_id chunk.workspace_id t d).1
  still_Ready t d h = (
    There-Advances chunk a (sending-Advances r.recipient_id chunk.workspace_id t d) h.0,
    sending-unended r.recipient_id chunk.workspace_id r.recipient_id chunk.workspace_id t d h.1,
  )

  -- A row whose status does not end it.
  Ready-row :
      (d : Database) (status : Option SendStatus)
      → IsOne r chunk.recipients
      → There chunk a d
      → map_option
          (λ x. x.status)
          (select_row (is_recipient r.recipient_id chunk.workspace_id) d.campaign_recipients)
        ≡ status
      → is_finished_row status ≡ false
      → Ready d
  Ready-row d status is_one h q open_status =
      let (x, found, t) = AllThere-row chunk.workspace_id d r chunk.recipients is_one h.0 in
      (h, (x, found, ground (arith, q, found, open_status)))

  module _ {e : Env} {ms : List Mail} where
    Step-weak :
        {A : Type 0} {m : M A}
        → Keeps e (OfDb (There chunk a) (λ l. l ≡ ms)) m
        → Ensures e (OfDb (There chunk a) (λ l. l ≡ ms)) m (Step chunk a ms)
    Step-weak h = weaken (λ w u. Step.unsent u) h

    from_Ready :
        {A : Type 0} {m : M A}
        → Ensures e (OfDb (There chunk a) (λ l. l ≡ ms)) m (Step chunk a ms)
        → Ensures e (OfDb Ready (λ l. l ≡ ms)) m (Step chunk a ms)
    from_Ready h = record {
      at = λ w p. h.at w (record { of_db = p.of_db.0; of_mails = p.of_mails });
    }

    on_rejected-Step :
        (x : Error)
        → Ensures e (OfDb (There chunk a) (λ l. l ≡ ms)) (on_rejected chunk r x) (Step chunk a ms)
    unfolding on_rejected
    on_rejected-Step x = Step-weak (search (db_rules, exec_failed, Keeps-event) depth 30)

  module _ {e : Env} (certain : SesIsCertain e) (applied : NoneIsLost e) {ms : List Mail}
      (is_one : IsOne r chunk.recipients) where
    on_accepted-Step :
        (m : String)
        → Ensures e
            (OfDb Ready (λ l. (x : Mail) × (l ≡ x ∷ ms)))
            (on_accepted chunk r m)
            (Step chunk a ms)
    unfolding on_accepted
    on_accepted-Step m =
        weaken (λ w u. Step.sent_one u)
          (Ensures-seq _ _
            (exec_made {Q' = FewerLeft chunk a} applied _ (λ t d. made_sent m t d is_one))
            (search (db_rules, Keeps-event) depth 20))

    send-Step :
        (l : TokenBucket) (rendered : Rendered)
        → Ensures e
            (OfDb Ready (λ l. l ≡ ms))
            (send_to_recipient l chunk r rendered)
            (Step chunk a ms)
    unfolding send_to_recipient
    send-Step l rendered =
        Ensures-try _ _ _ (Keeps-acquire_db l _ _)
          (λ x. from_Ready (Step-weak (search db_rules depth 20)))
          (λ waited.
            Ensures-try _ _ _ (Keeps-exec_db _ still_Ready)
              (λ x. from_Ready (Step-weak (search db_rules depth 20)))
              (λ u.
                Ensures-try_split _ _ _
                  (send_email-Answers_db certain (recipient_input chunk r rendered))
                  (λ x. from_Ready (on_rejected-Step x)) on_accepted-Step))

    pub process-Step :
        (l : TokenBucket) (rendered : Rendered)
        → Ensures e
            (OfDb (There chunk a) (λ l. l ≡ ms))
            (process_recipient l chunk r rendered)
            (Step chunk a ms)
    unfolding process_recipient get_campaign_recipient_status
    process-Step l rendered =
        Ensures-query _
          (λ d.
            map_option (λ x. x.status)
              (select_row (is_recipient r.recipient_id chunk.workspace_id) d.campaign_recipients))
          (λ t d. refl) _ _ (λ x. Step-weak (search db_rules))
          (λ status.
            Ensures-branch_on _ _ _
              (λ finished. record {
                at = λ w p.
                    (Step-weak (Keeps-pure RecipientOutcome.duplicate)).at w
                      (record { of_db = p.of_db.0; of_mails = p.of_mails });
              })
              (λ open_status. record {
                at = λ w p. (send-Step l rendered).at w (record {
                  of_db = Ready-row w.db status is_one p.of_db.0 p.of_db.1 open_status;
                  of_mails = p.of_mails;
                });
              }))
