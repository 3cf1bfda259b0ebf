-- ===== src/Email/Handler/Settlement.antt =====
-- How the transactional handler of internal/worker/email/handler.go ends.
use emailservice_worker.Prelude.{ℕ, ◌≡◌, refl, String, List, ◌∷◌, arith}
use emailservice_worker.Types.{TransactionalEmailPayload, Payload}
use emailservice_worker.Effect.{Env, World, Msg, Settlement, Mail, ack, nak, term, settle}
use emailservice_worker.Effect.Errors.{Error}
use emailservice_worker.Effect.Keeps.{Ensures, Keeps, Ensures-try_split, Ensures-case_result}
use emailservice_worker.Effect.Keeps.OnDone.{Done, OneMail, SesIsCertain, done_rules}
use emailservice_worker.RateLimit.Bucket.{TokenBucket}
use emailservice_worker.RateLimit.AcquireKeeps.{Keeps-acquire}
use emailservice_worker.Queue.Publisher.{publish}
use emailservice_worker.Ses.Client.Answers.{send_email-Answers}
use emailservice_worker.Email.Handler.{
  publish_delivery_event, mark_failed_and_publish_event, publish_dlq, send_input, give_up,
  on_send_error, on_sent, render_and_send, send_limited, handle_valid, handle_decoded, handle,
}

-- The message is settled once more, and at most one more mail is with SES; with a mail the message
-- is acked.
pub data Outcome (s : List Settlement) (ms : List Mail) (w : World) : Type 0 where
  retried : w.settled ≡ nak ∷ s → w.mails ≡ ms → Outcome s ms w
  terminated : w.settled ≡ term ∷ s → w.mails ≡ ms → Outcome s ms w
  acked_unsent : w.settled ≡ ack ∷ s → w.mails ≡ ms → Outcome s ms w
  acked_sent : (m : Mail) → w.settled ≡ ack ∷ s → w.mails ≡ m ∷ ms → Outcome s ms w

module _ {e : Env} {s : List Settlement} {ms : List Mail} where
  pub Keeps-publish :
      (subject : String) (x : Payload) (id : String) → Keeps e (Done s ms) (publish subject x id)
  unfolding publish
  Keeps-publish subject x id = search done_rules depth 20

  pub Keeps-mark_failed :
      (p : TransactionalEmailPayload) (reason : String)
      → Keeps e (Done s ms) (mark_failed_and_publish_event p reason)
  unfolding mark_failed_and_publish_event publish_delivery_event
  Keeps-mark_failed p reason = search (done_rules, Keeps-publish) depth 20

module _ {e : Env} {s : List Settlement} {ms : List Mail} where
  nak-Outcome : Ensures e (Done s ms) (settle nak) (Outcome s ms)
  unfolding settle
  nak-Outcome = record { at = λ w p. Outcome.retried (ground arith) p.1 }

  term-Outcome : Ensures e (Done s ms) (settle term) (Outcome s ms)
  unfolding settle
  term-Outcome = record { at = λ w p. Outcome.terminated (ground arith) p.1 }

  ack-Outcome : Ensures e (Done s ms) (settle ack) (Outcome s ms)
  unfolding settle
  ack-Outcome = record { at = λ w p. Outcome.acked_unsent (ground arith) p.1 }

  ack-Outcome_sent : (m : Mail) → Ensures e (Done s (m ∷ ms)) (settle ack) (Outcome s ms)
  unfolding settle
  ack-Outcome_sent m = record { at = λ w p. Outcome.acked_sent m (ground arith) p.1 }

  on_send_error-Outcome :
      (p : TransactionalEmailPayload) (attempt : ℕ) (x : Error)
      → Ensures e (Done s ms) (on_send_error p attempt x) (Outcome s ms)
  unfolding on_send_error give_up publish_dlq
  on_send_error-Outcome p attempt x =
      search (done_rules, Keeps-publish, Keeps-mark_failed, nak-Outcome, term-Outcome, ack-Outcome)
        depth 30

  on_sent_with :
      (p : TransactionalEmailPayload) (message_id : String) (m : Mail)
      → Ensures e (Done s (m ∷ ms)) (on_sent p message_id) (Outcome s ms)
  unfolding on_sent publish_delivery_event
  on_sent_with p message_id m = search (done_rules, Keeps-publish, ack-Outcome_sent) depth 20

  on_sent-Outcome :
      (p : TransactionalEmailPayload) (message_id : String)
      → Ensures e (OneMail s ms) (on_sent p message_id) (Outcome s ms)
  on_sent-Outcome p message_id = record {
    at = λ w q. (on_sent_with p message_id q.0).at w (q.1, q.2);
  }

module _ {e : Env} (certain : SesIsCertain e) {s : List Settlement} {ms : List Mail} where
  render_and_send-Outcome :
      (p : TransactionalEmailPayload) (attempt : ℕ)
      → Ensures e (Done s ms) (render_and_send p attempt) (Outcome s ms)
  unfolding render_and_send
  render_and_send-Outcome p attempt =
      Ensures-case_result _ _ _ (λ x. search (done_rules, Keeps-mark_failed, term-Outcome) depth 20)
        (λ rendered.
          Ensures-try_split _ _ _ (send_email-Answers certain (send_input p rendered))
            (on_send_error-Outcome p attempt) (on_sent-Outcome p))

  handle_valid-Outcome :
      (l : TokenBucket) (p : TransactionalEmailPayload) (attempt : ℕ)
      → Ensures e (Done s ms) (handle_valid l p attempt) (Outcome s ms)
  unfolding handle_valid send_limited
  handle_valid-Outcome l p attempt =
      search (done_rules, Keeps-acquire, render_and_send-Outcome, nak-Outcome, ack-Outcome) depth 30

  handle-Ensures :
      (l : TokenBucket) (msg : Msg TransactionalEmailPayload)
      → Ensures e (Done s ms) (handle l msg) (Outcome s ms)
  unfolding handle handle_decoded
  handle-Ensures l msg = search (done_rules, handle_valid-Outcome, term-Outcome) depth 20

-- Whatever the message, the database, Redis, the queue and the clock do: the handler settles its
-- message exactly once and sends at most one mail, and where it asks for a redelivery or terminates
-- the message it has sent none. The hypothesis: when SES answers with an error, it has not accepted
-- the mail.
pub handle-Outcome :
    (l : TokenBucket) (msg : Msg TransactionalEmailPayload) (e : Env) (w : World)
    → SesIsCertain e
    → Outcome w.settled w.mails (handle l msg e w).1
handle-Outcome l msg e w certain = (handle-Ensures certain l msg).at w (refl, refl)
