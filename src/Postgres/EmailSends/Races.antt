-- ===== src/Postgres/EmailSends/Races.antt =====
-- The statements of internal/infra/postgres/client.go on `email_sends` by any number of handlers at
-- once: each statement runs alone, in any order.
use emailservice_worker.Prelude.{
  ℕ, ◌≡◌, refl, String, Bool, true, false, ◌⊎◌, inl, inr, some, select_row, arith,
}
use emailservice_worker.Schema.{SendStatus, EmailSendRow, Database}
use emailservice_worker.Postgres.EmailSends.{
  is_send, is_bounced, get_email_send_status, update_email_send_sending, update_email_send_sent,
  update_email_send_failed,
}
use emailservice_worker.Postgres.EmailSends.Status.{
  SendHas, bounced_row, bounced_row-IsLasting, IsLasting, sending-SendHas, sent-SendHas,
  failed-SendHas, get-SendHas,
}

-- One statement on a send, at some time.
pub data SendStep : Database → Database → Type 0 where
  reads : (id ws : String) (t : ℕ) (d : Database) → SendStep d (get_email_send_status id ws t d).1
  marks_sending :
      (id ws : String) (t : ℕ) (d : Database) → SendStep d (update_email_send_sending id ws t d).1
  marks_sent :
      (id ws m : String) (t : ℕ) (d : Database) → SendStep d (update_email_send_sent id ws m t d).1
  marks_failed :
      (id ws reason : String) (t : ℕ) (d : Database)
      → SendStep d (update_email_send_failed id ws reason t d).1

pub data SendSteps (d : Database) : Database → Type 0 where
  here : SendSteps d d
  next : {d1 d2 : Database} → SendSteps d d1 → SendStep d1 d2 → SendSteps d d2

abbrev is_sent : SendStatus → Bool
is_sent SendStatus.sent = true
is_sent _ = false

abbrev sent_row : EmailSendRow → Bool
sent_row r = is_sent r.status

sent_row-IsLasting : IsLasting sent_row
sent_row-IsLasting = record {
  on_sending = λ r t a b. ground arith;
  on_sent = λ r t m a b. refl;
  on_failed = λ r t m a b. ground arith;
}

module _ (test : EmailSendRow → Bool) (lasting : IsLasting test) (id ws : String) where
  step-SendHas : {d d' : Database} → SendStep d d' → SendHas test id ws d → SendHas test id ws d'
  step-SendHas (reads i v t d) h = get-SendHas test lasting id ws i v t d h
  step-SendHas (marks_sending i v t d) h = sending-SendHas test lasting id ws i v t d h
  step-SendHas (marks_sent i v m t d) h = sent-SendHas test lasting id ws i v m t d h
  step-SendHas (marks_failed i v m t d) h = failed-SendHas test lasting id ws i v m t d h

  steps-SendHas : {d d' : Database} → SendSteps d d' → SendHas test id ws d → SendHas test id ws d'
  steps-SendHas here h = h
  steps-SendHas (next steps st) h = step-SendHas st (steps-SendHas steps h)

-- A row and its status.
abbrev pub HasStatus : String → String → SendStatus → Database → Type 0
HasStatus id ws s d =
    (r : EmailSendRow) × (select_row (is_send id ws) d.email_sends ≡ some r) × (r.status ≡ s)

bounced_status : (s : SendStatus) → is_bounced s ≡ true → s ≡ SendStatus.bounced
bounced_status SendStatus.bounced h = refl
bounced_status SendStatus.queued h = cc
bounced_status SendStatus.sending h = cc
bounced_status SendStatus.sent h = cc
bounced_status SendStatus.failed h = cc
bounced_status (SendStatus.other x) h = cc

sent_status : (s : SendStatus) → is_sent s ≡ true → s ≡ SendStatus.sent
sent_status SendStatus.sent h = refl
sent_status SendStatus.queued h = cc
sent_status SendStatus.sending h = cc
sent_status SendStatus.bounced h = cc
sent_status SendStatus.failed h = cc
sent_status (SendStatus.other x) h = cc

-- However the statements of any number of handlers, on this send and on others, follow each other:
-- a send whose row is bounced stays bounced, and one whose row is sent stays sent.
pub steps-HasStatus :
    (id ws : String) (s : SendStatus) (d d' : Database)
    → (s ≡ SendStatus.bounced) ⊎ (s ≡ SendStatus.sent)
    → SendSteps d d'
    → HasStatus id ws s d
    → HasStatus id ws s d'
steps-HasStatus id ws s d d' (inl bounced) steps (r, found, is_s) =
    let (r', found', h) =
      steps-SendHas bounced_row bounced_row-IsLasting id ws steps
        (r, found, ground (arith, is_s, bounced)) in
    (r', found', cc (bounced_status r'.status h, bounced))
steps-HasStatus id ws s d d' (inr sent) steps (r, found, is_s) =
    let (r', found', h) =
      steps-SendHas sent_row sent_row-IsLasting id ws steps
        (r, found, ground (arith, is_s, sent)) in
    (r', found', cc (sent_status r'.status h, sent))
