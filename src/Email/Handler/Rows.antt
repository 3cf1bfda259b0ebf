-- ===== src/Email/Handler/Rows.antt =====
-- What the transactional handler of internal/worker/email/handler.go does to the rows of
-- `email_sends`, over one delivery and over many.
use emailservice_worker.Prelude.{ℕ, String, Bool, List, ◌∷◌}
use emailservice_worker.Types.{TransactionalEmailPayload, Payload}
use emailservice_worker.Schema.{EmailSendRow, Database}
use emailservice_worker.Effect.{Env, World, Msg, Mail, exec}
use emailservice_worker.Effect.Errors.{Error}
use emailservice_worker.Effect.Keeps.{Keeps}
use emailservice_worker.Effect.Keeps.OnDb.{OfDb, db_rules, Keeps-exec_db}
use emailservice_worker.RateLimit.Bucket.{TokenBucket}
use emailservice_worker.RateLimit.AcquireKeeps.{Keeps-acquire_db}
use emailservice_worker.Queue.Publisher.{publish}
use emailservice_worker.Ses.Client.{SendEmailInput, send_email}
use emailservice_worker.Ses.Client.Answers.{Keeps-send_email_db}
use emailservice_worker.Postgres.EmailSends.{
  get_email_send_status, update_email_send_sending, update_email_send_sent,
  update_email_send_failed,
}
use emailservice_worker.Postgres.EmailSends.Status.{
  SendHas, finished_row, IsLasting, finished_row-IsLasting, sending-SendHas, sent-SendHas,
  failed-SendHas, get-SendHas,
}
use emailservice_worker.Email.Handler.{
  publish_delivery_event, mark_failed_and_publish_event, publish_dlq, give_up, on_send_error,
  on_sent, render_and_send, send_limited, handle_valid, handle_decoded, handle,
}

module _ {e : Env} {Q : Database → Type 0} {R : List Mail → Type 0} where
  pub Keeps-publish_db :
      (subject : String) (x : Payload) (id : String) → Keeps e (OfDb Q R) (publish subject x id)
  unfolding publish
  Keeps-publish_db subject x id = search db_rules depth 20

-- The statements of the handler on one send keep the row of any send, for a lasting test.
module _ {e : Env} {R : List Mail → Type 0} (test : EmailSendRow → Bool) (lasting : IsLasting test)
    (id ws : String) where
  pub exec_get :
      (i w : String) → Keeps e (OfDb (SendHas test id ws) R) (exec (get_email_send_status i w))
  exec_get i w = Keeps-exec_db _ (get-SendHas test lasting id ws i w)

  pub exec_sending :
      (i w : String) → Keeps e (OfDb (SendHas test id ws) R) (exec (update_email_send_sending i w))
  exec_sending i w = Keeps-exec_db _ (sending-SendHas test lasting id ws i w)

  pub exec_sent :
      (i w m : String) → Keeps e (OfDb (SendHas test id ws) R) (exec (update_email_send_sent i w m))
  exec_sent i w m = Keeps-exec_db _ (sent-SendHas test lasting id ws i w m)

  pub exec_failed :
      (i w m : String)
      → Keeps e (OfDb (SendHas test id ws) R) (exec (update_email_send_failed i w m))
  exec_failed i w m = Keeps-exec_db _ (failed-SendHas test lasting id ws i w m)

  pub Keeps-on_send_error :
      (p : TransactionalEmailPayload) (attempt : ℕ) (x : Error)
      → Keeps e (OfDb (SendHas test id ws) R) (on_send_error p attempt x)
  unfolding on_send_error give_up mark_failed_and_publish_event publish_delivery_event publish_dlq
  Keeps-on_send_error p attempt x = search (db_rules, Keeps-publish_db, exec_failed) depth 40

  pub Keeps-mark_failed :
      (p : TransactionalEmailPayload) (reason : String)
      → Keeps e (OfDb (SendHas test id ws) R) (mark_failed_and_publish_event p reason)
  unfolding mark_failed_and_publish_event publish_delivery_event
  Keeps-mark_failed p reason = search (db_rules, Keeps-publish_db, exec_failed) depth 40

  pub Keeps-on_sent :
      (p : TransactionalEmailPayload) (m : String)
      → Keeps e (OfDb (SendHas test id ws) R) (on_sent p m)
  unfolding on_sent publish_delivery_event
  Keeps-on_sent p m = search (db_rules, Keeps-publish_db, exec_sent) depth 40

  module _ (more : (m : Mail) (ms : List Mail) → R ms → R (m ∷ ms)) where
    send_one : (input : SendEmailInput) → Keeps e (OfDb (SendHas test id ws) R) (send_email input)
    send_one input = Keeps-send_email_db more input

    -- Nothing that the handler does takes a row out of a lasting test.
    pub Keeps-handle :
        (l : TokenBucket) (msg : Msg TransactionalEmailPayload)
        → Keeps e (OfDb (SendHas test id ws) R) (handle l msg)
    unfolding handle handle_decoded handle_valid send_limited render_and_send
    Keeps-handle l msg =
        search
          (
            db_rules, Keeps-mark_failed, exec_get, exec_sending, Keeps-acquire_db,
            Keeps-on_send_error, Keeps-on_sent, send_one,
          )
          depth 40

-- Whatever the message and the environment: a send that has been sent or has bounced stays so.
pub handle-finished :
    (l : TokenBucket) (msg : Msg TransactionalEmailPayload) (e : Env) (w : World) (id ws : String)
    → SendHas finished_row id ws w.db
    → SendHas finished_row id ws (handle l msg e w).1.db
handle-finished l msg e w id ws h =
    let start : OfDb (SendHas finished_row id ws) (λ _. Unit) w = record {
      of_db = h;
      of_mails = tt;
    } in
    ((Keeps-handle finished_row finished_row-IsLasting id ws (λ m ms u. u) l msg).at w start).of_db
