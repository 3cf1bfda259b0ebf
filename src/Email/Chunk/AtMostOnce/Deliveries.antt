-- ===== src/Email/Chunk/AtMostOnce/Deliveries.antt =====
-- The whole of the campaign chunk handler of internal/worker/email/handler.go, over redeliveries.
use emailservice_worker.Prelude.{
  ℕ, ◌+◌, ◌≤◌, ◌≡◌, refl, ap, String, Option, some, List, [], ◌∷◌, arith, length,
}
use emailservice_worker.Types.{CampaignChunkPayload, CampaignChunkRecipient}
use emailservice_worker.Effect.{
  M, Env, World, Msg, Mail, Settlement, settle, case_option, ctx_err, attempt_of,
}
use emailservice_worker.Effect.Keeps.{
  Keeps, ensures_rules, Ensures-bind, Ensures-case_option, Keeps-pure,
}
use emailservice_worker.Effect.Keeps.OnDone.{SesIsCertain}
use emailservice_worker.Effect.Keeps.OnDb.{
  OfDb, db_rules, NoneIsLost, Keeps-ctx_err_db, Keeps-settle_db,
}
use emailservice_worker.RateLimit.Bucket.{TokenBucket}
use emailservice_worker.Postgres.Recipients.Status.{pending, AllThere, IsOne}
use emailservice_worker.Email.Renderer.{Rendered}
use emailservice_worker.Email.Chunk.{
  ChunkState, publish_campaign_dlq, process_recipient, process_next, process_all, mark_all_failed,
  fail_recipients, fail_all_recipients, complete_if_done, give_up_chunk, conclude, apply_progress,
  handle_chunk, handle_chunk_message,
}
use emailservice_worker.Email.Chunk.AtMostOnce.{
  There, Step, exec_failed, exec_counts, exec_complete, Keeps-publish, Keeps-event, process-Step,
}

-- What neither sends nor reopens a row: the stages after the loop, and the failing of recipients.
module _ {e : Env} {R : List Mail → Type 0} (chunk : CampaignChunkPayload) (a : ℕ) where
  Keeps-mark_all :
      (x y : String) (rs : List CampaignChunkRecipient) (n : ℕ)
      → Keeps e (OfDb (There chunk a) R) (mark_all_failed chunk x y rs n)
  unfolding mark_all_failed
  Keeps-mark_all x y [] n = search db_rules
  Keeps-mark_all x y (r ∷ rs) n =
      let rest = λ (k : ℕ). Keeps-mark_all x y rs k in
      search (db_rules, exec_failed, Keeps-event, rest) depth 20

  Keeps-fail :
      (x y : String) (rs : List CampaignChunkRecipient)
      → Keeps e (OfDb (There chunk a) R) (fail_recipients chunk x y rs)
  unfolding fail_recipients
  Keeps-fail x y rs = search (db_rules, Keeps-mark_all, exec_counts, exec_complete) depth 30

  Keeps-apply_progress :
      (attempt : ℕ) (s : ChunkState)
      → Keeps e (OfDb (There chunk a) R) (apply_progress chunk attempt s)
  unfolding apply_progress complete_if_done conclude give_up_chunk publish_campaign_dlq
  Keeps-apply_progress attempt s =
      search (db_rules, Keeps-fail, Keeps-publish, exec_counts, exec_complete) depth 40

  Keeps-fail_all :
      (reason : String) → Keeps e (OfDb (There chunk a) R) (fail_all_recipients chunk reason)
  unfolding fail_all_recipients
  Keeps-fail_all reason = Keeps-fail reason reason chunk.recipients

-- The mails and the recipients that are not finished are no more than `k` together.
pub record Bounded (chunk : CampaignChunkPayload) (k : ℕ) (w : World) : Type 0 where
  pub there : AllThere chunk.workspace_id w.db chunk.recipients
  pub bound : length w.mails + pending chunk.workspace_id w.db chunk.recipients ≤ k

module _ {e : Env} (chunk : CampaignChunkPayload) (k : ℕ) where
  of_OfDb :
      {A : Type 0} {m : M A}
      → ((a : ℕ) (ms : List Mail) → Keeps e (OfDb (There chunk a) (λ l. l ≡ ms)) m)
      → Keeps e (Bounded chunk k) m
  of_OfDb {m} h = record {
    at = λ w p.
        let a = pending chunk.workspace_id w.db chunk.recipients in
        let after =
          (h a w.mails).at w (record { of_db = (p.there, omega arith); of_mails = refl }) in
        record {
          there = after.of_db.0;
          bound = omega (arith, p.bound, after.of_db.1, ap (length {A = Mail}) after.of_mails);
        };
  }

module _ {e : Env} {chunk : CampaignChunkPayload} {k : ℕ} where
  Keeps-settle : (x : Settlement) → Keeps e (Bounded chunk k) (settle x)
  Keeps-settle x = of_OfDb chunk k (λ a ms. Keeps-settle_db x)

  Keeps-ctx_err : Keeps e (Bounded chunk k) ctx_err
  Keeps-ctx_err = of_OfDb chunk k (λ a ms. Keeps-ctx_err_db)

module _ (chunk : CampaignChunkPayload) (k : ℕ) where
  of_Step :
      {a : ℕ} {ms : List Mail} {w : World}
      → length ms + a ≤ k
      → Step chunk a ms w
      → Bounded chunk k w
  of_Step h (Step.unsent p) = record {
    there = p.of_db.0;
    bound = omega (arith, h, p.of_db.1, ap (length {A = Mail}) p.of_mails);
  }
  of_Step h (Step.sent_one p) = record {
    there = p.of_db.0;
    bound = omega (arith, h, p.of_db.1, ap (length {A = Mail}) p.of_mails.1);
  }

module _ {e : Env} (certain : SesIsCertain e) (applied : NoneIsLost e) (l : TokenBucket)
    (chunk : CampaignChunkPayload) (k : ℕ) where
  Keeps-process :
      (rendered : Rendered) (r : CampaignChunkRecipient)
      → IsOne r chunk.recipients
      → Keeps e (Bounded chunk k) (process_recipient l chunk r rendered)
  Keeps-process rendered r is_one = record {
    at = λ w p.
        let a = pending chunk.workspace_id w.db chunk.recipients in
        of_Step chunk k p.bound (
          (process-Step chunk a r certain applied is_one l rendered).at w
            (record { of_db = (p.there, omega arith); of_mails = refl }));
  }

  Keeps-next :
      (rendered : Rendered) (r : CampaignChunkRecipient) (s : ChunkState)
      → IsOne r chunk.recipients
      → Keeps e (Bounded chunk k) (process_next l chunk rendered r s)
  unfolding process_next
  Keeps-next rendered r s is_one = Ensures-bind _ _ Keeps-ctx_err (λ cancelled.
      Ensures-case_option _ _ _
        (Ensures-bind _ _ (Keeps-process rendered r is_one) (λ outcome. Keeps-pure _))
        (λ x. Keeps-pure _))

  Keeps-process_all :
      (rendered : Rendered) (rs : List CampaignChunkRecipient) (s : ChunkState)
      → ((r : CampaignChunkRecipient) → IsOne r rs → IsOne r chunk.recipients)
      → Keeps e (Bounded chunk k) (process_all l chunk rendered rs s)
  unfolding process_all
  Keeps-process_all rendered [] s within = search ensures_rules
  Keeps-process_all rendered (r ∷ rs) s within =
      Ensures-bind _ _ (Keeps-next rendered r s (within r (IsOne.here rs)))
        (λ s'. Keeps-process_all rendered rs s' (λ x i. within x (IsOne.later r rs i)))

  Keeps-handle : (attempt : ℕ) → Keeps e (Bounded chunk k) (handle_chunk l chunk attempt)
  unfolding handle_chunk
  Keeps-handle attempt =
      let failed =
        λ (reason : String). of_OfDb {e = e} chunk k (λ a ms. Keeps-fail_all chunk a reason) in
      let progress = λ (s : ChunkState).
        of_OfDb {e = e} chunk k (λ a ms. Keeps-apply_progress chunk a attempt s) in
      let all = λ (rendered : Rendered) (s : ChunkState).
        Keeps-process_all rendered chunk.recipients s (λ r i. i) in
      search (ensures_rules, Keeps-settle, failed, progress, all) depth 20

-- A delivery: its number, as the metadata gives it, and its environment.
abbrev pub ChunkDelivery : Type 0
ChunkDelivery = Option ℕ × Env

abbrev pub AreReliable : List ChunkDelivery → Type 0
AreReliable [] = Unit
AreReliable ((n, e) ∷ ds) = SesIsCertain e × NoneIsLost e × AreReliable ds

-- The same chunk delivered again and again.
unfoldable pub deliver_chunk :
    TokenBucket → CampaignChunkPayload → List ChunkDelivery → World → World
deliver_chunk l chunk [] w = w
deliver_chunk l chunk ((n, e) ∷ ds) w =
    deliver_chunk l chunk ds
      (handle_chunk_message l (record { body = some chunk; num_delivered = n }) e w).1

Bounded-deliver :
    (l : TokenBucket) (chunk : CampaignChunkPayload) (k : ℕ) (ds : List ChunkDelivery) (w : World)
    → AreReliable ds
    → Bounded chunk k w
    → Bounded chunk k (deliver_chunk l chunk ds w)
unfolding deliver_chunk handle_chunk_message case_option
Bounded-deliver l chunk k [] w h b = b
Bounded-deliver l chunk k ((n, e) ∷ ds) w h b =
    let msg : Msg CampaignChunkPayload = record { body = some chunk; num_delivered = n } in
    let decoded = Keeps-handle {e = e} h.0 h.1 l chunk k (attempt_of msg) in
    let ended : Keeps e (Bounded chunk k) (handle_chunk_message l msg) =
      search (ensures_rules, Keeps-settle, decoded) in
    Bounded-deliver l chunk k ds (handle_chunk_message l msg e w).1 h.2 (ended.at w b)

-- However often a chunk is delivered, and whatever Redis and the queue do, the database answers and
-- SES rejects: the mails sent and
-- the recipients without a finished row never become more together than they were, so that no more
-- mails are sent than recipients had no finished row. The conditions: every recipient has its row
-- (the batcher inserts them), SES's errors are honest and no statement of the database is lost.
pub deliver_chunk-mails :
    (l : TokenBucket) (chunk : CampaignChunkPayload) (ds : List ChunkDelivery) (w : World)
    → AreReliable ds
    → AllThere chunk.workspace_id w.db chunk.recipients
    → let w' = deliver_chunk l chunk ds w in
      length w'.mails + pending chunk.workspace_id w'.db chunk.recipients
      ≤ length w.mails + pending chunk.workspace_id w.db chunk.recipients
deliver_chunk-mails l chunk ds w h there =
    let k = length w.mails + pending chunk.workspace_id w.db chunk.recipients in
    (Bounded-deliver l chunk k ds w h (record { there = there; bound = omega arith })).bound
