-- ===== src/Email/Handler/AtMostOnce.antt =====
-- Redeliveries to the transactional handler of internal/worker/email/handler.go.
use emailservice_worker.Prelude.{
  ℕ, ◌+◌, ◌≤◌, ◌≡◌, ◌⊎◌, inl, inr, refl, ap, ◌∙◌, String, Option, some, List, [], ◌∷◌, arith,
  length,
}
use emailservice_worker.Types.{TransactionalEmailPayload}
use emailservice_worker.Effect.{
  M, Env, World, Msg, Settlement, Mail, settle, exec, case_option, attempt_of, emails_processed,
}
use emailservice_worker.Effect.Keeps.{
  Ensures, Keeps, Ensures-seq, Ensures-then, Ensures-try_split, Ensures-case_result, weaken,
}
use emailservice_worker.Effect.Keeps.OnDone.{SesIsCertain}
use emailservice_worker.Effect.Keeps.OnDb.{OfDb, Keeps-inc_db, db_rules, exec_made, NoneIsLost}
use emailservice_worker.RateLimit.Bucket.{TokenBucket}
use emailservice_worker.RateLimit.AcquireKeeps.{Keeps-acquire_db}
use emailservice_worker.Ses.Client.Answers.{send_email-Answers_db}
use emailservice_worker.Postgres.EmailSends.{get_email_send_status, update_email_send_sending}
use emailservice_worker.Postgres.EmailSends.Status.{
  SendHas, any_row, finished_row, any_row-IsLasting, sent-finished,
}
use emailservice_worker.Email.Handler.{
  publish_delivery_event, on_sent, mark_failed_and_publish_event, render_and_send, send_limited,
  handle_valid, handle_decoded, handle, send_input,
}
use emailservice_worker.Email.Handler.Idempotency.{handle_finished}
use emailservice_worker.Email.Handler.Rows.{
  Keeps-publish_db, Keeps-mark_failed, Keeps-on_send_error, exec_get, exec_sending, handle-finished,
}

module _ (p : TransactionalEmailPayload) (ms : List Mail) where
  -- Nothing sent yet, and the row is there.
  abbrev Unsent : World → Type 0
  Unsent = OfDb (SendHas any_row p.send_id p.workspace_id) (λ l. l ≡ ms)

  -- SES has accepted one mail.
  abbrev Accepted : World → Type 0
  Accepted = OfDb (SendHas any_row p.send_id p.workspace_id) (λ l. (m : Mail) × (l ≡ m ∷ ms))

  -- One mail sent, and the row says so.
  abbrev Sent : World → Type 0
  Sent = OfDb (SendHas finished_row p.send_id p.workspace_id) (λ l. (m : Mail) × (l ≡ m ∷ ms))

  abbrev Progress : World → Type 0
  Progress w = Unsent w ⊎ Sent w

module _ {e : Env} (certain : SesIsCertain e) (applied : NoneIsLost e)
    (p : TransactionalEmailPayload) (ms : List Mail) where
  still : {m : M Unit} → Keeps e (Unsent p ms) m → Ensures e (Unsent p ms) m (Progress p ms)
  still h = weaken (λ w u. inl u) h

  on_sent-Progress : (id : String) → Ensures e (Accepted p ms) (on_sent p id) (Progress p ms)
  unfolding on_sent publish_delivery_event
  on_sent-Progress id =
      weaken (λ w u. inr u)
        (Ensures-seq _ _
          (exec_made {Q' = SendHas finished_row p.send_id p.workspace_id} applied _
            (sent-finished p.send_id p.workspace_id id))
          (search (db_rules, Keeps-publish_db) depth 20))

  mark_failed-Unsent :
      (reason : String) → Keeps e (Unsent p ms) (mark_failed_and_publish_event p reason)
  mark_failed-Unsent reason =
      Keeps-mark_failed any_row any_row-IsLasting p.send_id p.workspace_id p reason

  render_and_send-Progress :
      (attempt : ℕ) → Ensures e (Unsent p ms) (render_and_send p attempt) (Progress p ms)
  unfolding render_and_send
  render_and_send-Progress attempt =
      Ensures-case_result _ _ _ (λ x. still (search (db_rules, mark_failed-Unsent) depth 20))
        (λ rendered.
          Ensures-try_split _ _ _ (send_email-Answers_db certain (send_input p rendered))
            (λ x.
              still (
                Keeps-on_send_error any_row any_row-IsLasting p.send_id p.workspace_id p attempt x))
            on_sent-Progress)

  exec_get_status : Keeps e (Unsent p ms) (exec (get_email_send_status p.send_id p.workspace_id))
  exec_get_status =
      exec_get any_row any_row-IsLasting p.send_id p.workspace_id p.send_id p.workspace_id

  exec_mark_sending :
      Keeps e (Unsent p ms) (exec (update_email_send_sending p.send_id p.workspace_id))
  exec_mark_sending =
      exec_sending any_row any_row-IsLasting p.send_id p.workspace_id p.send_id p.workspace_id

  settle-Progress : (x : Settlement) → Ensures e (Unsent p ms) (settle x) (Progress p ms)
  settle-Progress x = still (search db_rules)

  handle_valid-Progress :
      (l : TokenBucket) (attempt : ℕ)
      → Ensures e (Unsent p ms) (handle_valid l p attempt) (Progress p ms)
  unfolding handle_valid send_limited
  handle_valid-Progress l attempt =
      search
        (
          db_rules, exec_get_status, exec_mark_sending, Keeps-acquire_db, render_and_send-Progress,
          settle-Progress,
        )
        depth 40

  handle_decoded-Progress :
      (l : TokenBucket) (attempt : ℕ)
      → Ensures e (Unsent p ms) (handle_decoded l p attempt) (Progress p ms)
  unfolding handle_decoded
  handle_decoded-Progress l attempt =
      search (db_rules, handle_valid-Progress, settle-Progress) depth 20

-- A delivery: its number, as the metadata gives it, and its environment.
abbrev pub Delivery : Type 0
Delivery = Option ℕ × Env

abbrev pub AreReliable : List Delivery → Type 0
AreReliable [] = Unit
AreReliable ((n, e) ∷ ds) = SesIsCertain e × NoneIsLost e × AreReliable ds

-- The same message delivered again and again.
unfoldable pub deliver_all : TokenBucket → TransactionalEmailPayload → List Delivery → World → World
deliver_all l p [] w = w
deliver_all l p ((n, e) ∷ ds) w =
    deliver_all l p ds (handle l (record { body = some p; num_delivered = n }) e w).1

module _ (l : TokenBucket) (p : TransactionalEmailPayload) (n : Option ℕ) (e : Env) (w : World)
    (certain : SesIsCertain e) (applied : NoneIsLost e) where
  abbrev message_of : Msg TransactionalEmailPayload
  message_of = record { body = some p; num_delivered = n }

  handle-Progress :
      SendHas any_row p.send_id p.workspace_id w.db → Progress p w.mails (handle l message_of e w).1
  unfolding handle handle_decoded case_option
  handle-Progress row =
      let start : Unsent p w.mails w = record { of_db = row; of_mails = refl } in
      let decoded = handle_decoded-Progress certain applied p w.mails l (attempt_of message_of) in
      (Ensures-then _ _ (Keeps-inc_db emails_processed) decoded).at w start

deliver_all_finished :
    (l : TokenBucket) (p : TransactionalEmailPayload) (ds : List Delivery) (w : World)
    → SendHas finished_row p.send_id p.workspace_id w.db
    → (deliver_all l p ds w).mails ≡ w.mails
unfolding deliver_all
deliver_all_finished l p [] w f = refl
deliver_all_finished l p ((n, e) ∷ ds) w f =
    let msg : Msg TransactionalEmailPayload = record { body = some p; num_delivered = n } in
    deliver_all_finished l p ds (handle l msg e w).1
      (handle-finished l msg e w p.send_id p.workspace_id f)
    ∙ (handle_finished l p n e w f).1

one_more :
    (ms : List Mail) {ms' : List Mail} → (m : Mail) × (ms' ≡ m ∷ ms) → length ms' ≡ length ms + 1
one_more ms (m, q) = omega (arith, ap (length {A = Mail}) q)

-- However often a message is delivered, and whatever Redis and the queue do and the database
-- answers: at most one mail is sent, if the row of the send is there, SES's errors are honest and
-- no statement of the database is lost.
pub deliver_all-mails :
    (l : TokenBucket) (p : TransactionalEmailPayload) (ds : List Delivery) (w : World)
    → AreReliable ds
    → SendHas any_row p.send_id p.workspace_id w.db
    → length (deliver_all l p ds w).mails ≤ length w.mails + 1
unfolding deliver_all
deliver_all-mails l p [] w h row = omega arith
deliver_all-mails l p ((n, e) ∷ ds) w h row =
    let w1 = (handle l (message_of l p n e w h.0 h.1) e w).1 in
    elim (handle-Progress l p n e w h.0 h.1 row) [
      | inl u ↦
          let more : length (deliver_all l p ds w1).mails ≤ length w1.mails + 1 =
            deliver_all-mails l p ds w1 h.2 u.of_db in
          let same : length w1.mails ≡ length w.mails = ap (length {A = Mail}) u.of_mails in
          omega (arith, more, same)
      | inr f ↦
          let none_more : length (deliver_all l p ds w1).mails ≡ length w1.mails =
            ap (length {A = Mail}) (deliver_all_finished l p ds w1 f.of_db) in
          let one : length w1.mails ≡ length w.mails + 1 = one_more w.mails f.of_mails in
          omega (arith, none_more, one)
    ]
