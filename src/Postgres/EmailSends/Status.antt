-- ===== src/Postgres/EmailSends/Status.antt =====
-- How the statements of internal/infra/postgres/client.go move a row of `email_sends`.
use emailservice_worker.Prelude.{
  ℕ, ◌≡◌, refl, String, Bool, true, false, some, none, HasRow, HasRow-update_rows, arith,
}
use emailservice_worker.Schema.{sending, sent, failed, EmailSendRow, Database}
use emailservice_worker.Postgres.EmailSends.{
  is_send, may_send, is_bounced, is_finished, get_email_send_status, update_email_send_sending,
  update_email_send_sent, update_email_send_failed,
}

-- The row of a send is there, with a status that passes the test.
abbrev pub SendHas : (EmailSendRow → Bool) → String → String → Database → Type 0
SendHas test id ws db = HasRow (is_send id ws) test db.email_sends

abbrev pub any_row : EmailSendRow → Bool
any_row r = true

abbrev pub finished_row : EmailSendRow → Bool
finished_row r = is_finished r.status

abbrev pub bounced_row : EmailSendRow → Bool
bounced_row r = is_bounced r.status

-- A test that no statement makes fail on a row that passes it.
pub record IsLasting (test : EmailSendRow → Bool) : Type 0 where
  pub on_sending :
      (r : EmailSendRow) (t : ℕ)
      → may_send r.status ≡ true
      → test r ≡ true
      → test (record r { status = sending; updated_at = t }) ≡ true
  pub on_sent :
      (r : EmailSendRow) (t : ℕ) (m : String)
      → is_bounced r.status ≡ false
      → test r ≡ true
      → test (record r {
        status = sent;
        provider_message_id = some m;
        failure_reason = none;
        updated_at = t;
      })
        ≡ true
  pub on_failed :
      (r : EmailSendRow) (t : ℕ) (m : String)
      → is_finished r.status ≡ false
      → test r ≡ true
      → test (record r { status = failed; failure_reason = some m; updated_at = t }) ≡ true

pub any_row-IsLasting : IsLasting any_row
any_row-IsLasting = record {
  on_sending = λ r t a b. b;
  on_sent = λ r t m a b. b;
  on_failed = λ r t m a b. b;
}

pub finished_row-IsLasting : IsLasting finished_row
finished_row-IsLasting = record {
  on_sending = λ r t a b. ground arith;
  on_sent = λ r t m a b. refl;
  on_failed = λ r t m a b. ground arith;
}

pub bounced_row-IsLasting : IsLasting bounced_row
bounced_row-IsLasting = record {
  on_sending = λ r t a b. ground arith;
  on_sent = λ r t m a b. ground arith;
  on_failed = λ r t m a b. ground arith;
}

module _ (test : EmailSendRow → Bool) (lasting : IsLasting test) (id ws id' ws' : String) where
  pub sending-SendHas :
      (t : ℕ) (d : Database)
      → SendHas test id ws d
      → SendHas test id ws (update_email_send_sending id' ws' t d).1
  unfolding update_email_send_sending
  sending-SendHas t d =
      HasRow-update_rows _ test test _ _ d.email_sends (λ r. refl)
        (λ r k f. ground (arith, lasting.on_sending r t))

  pub sent-SendHas :
      (m : String) (t : ℕ) (d : Database)
      → SendHas test id ws d
      → SendHas test id ws (update_email_send_sent id' ws' m t d).1
  unfolding update_email_send_sent
  sent-SendHas m t d =
      HasRow-update_rows _ test test _ _ d.email_sends (λ r. refl)
        (λ r k f. ground (arith, lasting.on_sent r t m))

  pub failed-SendHas :
      (m : String) (t : ℕ) (d : Database)
      → SendHas test id ws d
      → SendHas test id ws (update_email_send_failed id' ws' m t d).1
  unfolding update_email_send_failed
  failed-SendHas m t d =
      HasRow-update_rows _ test test _ _ d.email_sends (λ r. refl)
        (λ r k f. ground (arith, lasting.on_failed r t m))

  pub get-SendHas :
      (t : ℕ) (d : Database)
      → SendHas test id ws d
      → SendHas test id ws (get_email_send_status id' ws' t d).1
  unfolding get_email_send_status
  get-SendHas t d h = h

-- `UpdateEmailSendSent` finishes the send, if its row is there.
pub sent-finished :
    (id ws m : String) (t : ℕ) (d : Database)
    → SendHas any_row id ws d
    → SendHas finished_row id ws (update_email_send_sent id ws m t d).1
unfolding update_email_send_sent
sent-finished id ws m t d =
    HasRow-update_rows _ any_row finished_row _ _ d.email_sends (λ r. refl) (λ r k f. ground arith)
