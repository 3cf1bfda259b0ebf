-- ===== src/Email/Validate.antt =====
-- The payload checks of internal/worker/email: `validatePayload` and `validateCampaignChunk` of
-- handler.go, `validateCampaignStart` of batcher.go. An error is named, not spelled out.
pub mod Valid
use emailservice_worker.Prelude.{
  ℕ, suc, String, Bool, ◌&&◌, ◌||◌, Option, none, some, List, [], ◌∷◌, ◌=ₛ◌, not, if◌then◌else◌,
}
use emailservice_worker.Types.{
  EmailAddress, TransactionalEmailPayload, CampaignStartPayload, CampaignChunkRecipient,
  CampaignChunkPayload,
}

pub data Invalid : Type 0 where
  missing_ids no_recipients empty_sender empty_subject empty_bodies : Invalid
  bad_recipient : ℕ → Invalid
  unsupported_provider : String → Invalid

abbrev pub is_empty : String → Bool
is_empty s = s =ₛ ""

-- The first address without an e-mail, from index `i` on.
unfoldable pub check_addresses : ℕ → List EmailAddress → Option Invalid
check_addresses i [] = none
check_addresses i (t ∷ rest) =
    let later = check_addresses (suc i) rest in
    if is_empty t.email then some (bad_recipient i) else later

abbrev pub has_none : {A : Type 0} → List A → Bool
has_none [] = Bool.true
has_none (_ ∷ _) = Bool.false

abbrev pub or_else : Option Invalid → Option Invalid → Option Invalid
or_else none o = o
or_else (some x) o = some x

abbrev pub fail_if : Bool → Invalid → Option Invalid
fail_if b x = if b then some x else none

unfoldable pub validate_payload : TransactionalEmailPayload → Option Invalid
unfolding check_addresses
validate_payload p =
    or_else
      (fail_if (is_empty p.send_id || is_empty p.workspace_id || is_empty p.job_id) missing_ids)
      (or_else (fail_if (has_none p.to) no_recipients) (
        or_else (check_addresses 0 p.to) (
          or_else (fail_if (is_empty p.from.email) empty_sender) (
            or_else (fail_if (is_empty p.subject) empty_subject) (
              or_else (fail_if (is_empty p.html && is_empty p.text) empty_bodies) (
                fail_if (not (is_empty p.provider) && not (p.provider =ₛ "ses"))
                  (unsupported_provider p.provider)))))))

unfoldable pub check_recipients : ℕ → List CampaignChunkRecipient → Option Invalid
check_recipients i [] = none
check_recipients i (r ∷ rest) =
    let later = check_recipients (suc i) rest in
    if is_empty r.recipient_id || is_empty r.email then some (bad_recipient i) else later

unfoldable pub validate_campaign_chunk : CampaignChunkPayload → Option Invalid
unfolding check_recipients
validate_campaign_chunk p =
    or_else
      (fail_if (is_empty p.campaign_id || is_empty p.workspace_id || is_empty p.chunk_id)
        missing_ids)
      (or_else (fail_if (has_none p.recipients) no_recipients) (
        or_else (fail_if (is_empty p.sender.email) empty_sender) (
          or_else (fail_if (is_empty p.subject) empty_subject) (
            or_else (fail_if (is_empty p.html && is_empty p.text) empty_bodies)
              (check_recipients 0 p.recipients)))))

unfoldable pub validate_campaign_start : CampaignStartPayload → Option Invalid
validate_campaign_start p =
    or_else
      (fail_if
        (is_empty p.job_id
          || is_empty p.workspace_id
          || is_empty p.campaign_id
          || is_empty p.segment_id)
        missing_ids)
      (or_else (fail_if (is_empty p.sender.email) empty_sender) (
        or_else (fail_if (is_empty p.subject) empty_subject)
          (fail_if (is_empty p.html && is_empty p.text) empty_bodies)))
