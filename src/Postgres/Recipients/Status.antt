-- ===== src/Postgres/Recipients/Status.antt =====
-- How the statements of internal/infra/postgres/client.go move the rows of `campaign_recipients`,
-- and how many recipients of a chunk are not finished.
use emailservice_worker.Prelude.{
  ℕ, suc, ◌+◌, ◌≤◌, ◌≡◌, refl, String, Bool, true, not, none, some, List, [], ◌∷◌, arith,
  if◌then◌else◌, select_row, HasRow, HasRow-update_rows, All, Option-cases, inl, inr, ◌⊎◌,
  Bool-cases,
}
use emailservice_worker.Types.{CampaignChunkRecipient}
use emailservice_worker.Schema.{RecipientRow, Database}
use emailservice_worker.Postgres.EmailSends.{is_finished}
use emailservice_worker.Postgres.Recipients.{
  is_recipient, mark_campaign_recipient_sending, mark_campaign_recipient_sent,
  mark_campaign_recipient_failed,
}

-- The row of a recipient is there, with a status that passes the test.
abbrev pub RecipientHas : (RecipientRow → Bool) → String → String → Database → Type 0
RecipientHas test id ws d = HasRow (is_recipient id ws) test d.campaign_recipients

abbrev pub any_recipient : RecipientRow → Bool
any_recipient r = true

abbrev pub ended : RecipientRow → Bool
ended r = is_finished r.status

abbrev pub unended : RecipientRow → Bool
unended r = not (is_finished r.status)

-- From one database to another, no recipient's row is lost and none that is finished is reopened.
pub record Advances (d d' : Database) : Type 0 where
  pub keeps_row :
      (id ws : String) → RecipientHas any_recipient id ws d → RecipientHas any_recipient id ws d'
  pub keeps_end : (id ws : String) → RecipientHas ended id ws d → RecipientHas ended id ws d'

pub sending-Advances :
    (i v : String) (t : ℕ) (d : Database) → Advances d (mark_campaign_recipient_sending i v t d).1
unfolding mark_campaign_recipient_sending
sending-Advances i v t d = record {
  keeps_row = λ id ws.
      HasRow-update_rows _ any_recipient any_recipient _ _ d.campaign_recipients (λ r. refl)
        (λ r k f. refl);
  keeps_end = λ id ws.
      HasRow-update_rows _ ended ended _ _ d.campaign_recipients (λ r. refl)
        (λ r k f. ground arith);
}

pub sent-Advances :
    (i v m : String) (t : ℕ) (d : Database) → Advances d (mark_campaign_recipient_sent i v m t d).1
unfolding mark_campaign_recipient_sent
sent-Advances i v m t d = record {
  keeps_row = λ id ws.
      HasRow-update_rows _ any_recipient any_recipient _ _ d.campaign_recipients (λ r. refl)
        (λ r k f. refl);
  keeps_end = λ id ws.
      HasRow-update_rows _ ended ended _ _ d.campaign_recipients (λ r. refl)
        (λ r k f. ground arith);
}

pub failed-Advances :
    (i v m : String) (t : ℕ) (d : Database)
    → Advances d (mark_campaign_recipient_failed i v m t d).1
unfolding mark_campaign_recipient_failed
failed-Advances i v m t d = record {
  keeps_row = λ id ws.
      HasRow-update_rows _ any_recipient any_recipient _ _ d.campaign_recipients (λ r. refl)
        (λ r k f. refl);
  keeps_end = λ id ws.
      HasRow-update_rows _ ended ended _ _ d.campaign_recipients (λ r. refl)
        (λ r k f. ground arith);
}

pub sending-unended :
    (i v id ws : String) (t : ℕ) (d : Database)
    → RecipientHas unended id ws d
    → RecipientHas unended id ws (mark_campaign_recipient_sending i v t d).1
unfolding mark_campaign_recipient_sending
sending-unended i v id ws t d =
    HasRow-update_rows _ unended unended _ _ d.campaign_recipients (λ r. refl)
      (λ r k f. ground arith)

-- `MarkCampaignRecipientSent` finishes the recipient, if the row is there.
pub sent-ended :
    (id ws m : String) (t : ℕ) (d : Database)
    → RecipientHas any_recipient id ws d
    → RecipientHas ended id ws (mark_campaign_recipient_sent id ws m t d).1
unfolding mark_campaign_recipient_sent
sent-ended id ws m t d =
    HasRow-update_rows _ any_recipient ended _ _ d.campaign_recipients (λ r. refl)
      (λ r k f. ground arith)

-- 1 for a recipient without a finished row, else 0.
abbrev pub to_send : String → Database → CampaignChunkRecipient → ℕ
to_send ws d r = elim (select_row (is_recipient r.recipient_id ws) d.campaign_recipients) [
  | none ↦ 1
  | some x ↦ if is_finished x.status then 0 else 1
]

-- How many recipients have no finished row.
unfoldable pub pending : String → Database → List CampaignChunkRecipient → ℕ
pending ws d [] = 0
pending ws d (r ∷ rs) = to_send ws d r + pending ws d rs

abbrev pub AllThere : String → Database → List CampaignChunkRecipient → Type 0
AllThere ws d rs =
    All (λ (r : CampaignChunkRecipient). RecipientHas any_recipient r.recipient_id ws d) rs

to_send-ended :
    (ws : String) (d : Database) (r : CampaignChunkRecipient)
    → RecipientHas ended r.recipient_id ws d
    → to_send ws d r ≡ 0
to_send-ended ws d r (x, found, e) = ground arith

to_send-unended :
    (ws : String) (d : Database) (r : CampaignChunkRecipient)
    → RecipientHas unended r.recipient_id ws d
    → to_send ws d r ≡ 1
to_send-unended ws d r (x, found, e) = ground arith

to_send-le-one : (ws : String) (d : Database) (r : CampaignChunkRecipient) → to_send ws d r ≤ 1
to_send-le-one ws d r = ground arith

to_send-cases :
    (ws : String) (d : Database) (r : CampaignChunkRecipient)
    → RecipientHas ended r.recipient_id ws d ⊎ (to_send ws d r ≡ 1)
to_send-cases ws d r =
    elim (Option-cases (select_row (is_recipient r.recipient_id ws) d.campaign_recipients)) [
      | inl missing ↦ inr (ground (arith, missing))
      | inr (x, found) ↦ elim (Bool-cases (is_finished x.status)) [
        | inl yes_ended ↦ inl (x, found, yes_ended)
        | inr not_ended ↦ inr (ground (arith, found, not_ended))
      ]
    ]

module _ (ws : String) {d d' : Database} (a : Advances d d') where
  to_send-le : (r : CampaignChunkRecipient) → to_send ws d' r ≤ to_send ws d r
  to_send-le r = elim (to_send-cases ws d r) [
    | inl e ↦ omega (arith, to_send-ended ws d' r (a.keeps_end r.recipient_id ws e))
    | inr one ↦ omega (arith, one, to_send-le-one ws d' r)
  ]

  pub pending-le : (rs : List CampaignChunkRecipient) → pending ws d' rs ≤ pending ws d rs
  unfolding pending
  pending-le [] = omega arith
  pending-le (r ∷ rs) = omega (arith, to_send-le r, pending-le rs)

  pub AllThere-Advances : (rs : List CampaignChunkRecipient) → AllThere ws d rs → AllThere ws d' rs
  AllThere-Advances [] h = tt
  AllThere-Advances (r ∷ rs) h = (a.keeps_row r.recipient_id ws h.0, AllThere-Advances rs h.1)

pub data IsOne (r : CampaignChunkRecipient) : List CampaignChunkRecipient → Type 0 where
  here : (rs : List CampaignChunkRecipient) → IsOne r (r ∷ rs)
  later :
      (x : CampaignChunkRecipient) (rs : List CampaignChunkRecipient)
      → IsOne r rs
      → IsOne r (x ∷ rs)

pub AllThere-row :
    (ws : String) (d : Database) (r : CampaignChunkRecipient) (rs : List CampaignChunkRecipient)
    → IsOne r rs
    → AllThere ws d rs
    → RecipientHas any_recipient r.recipient_id ws d
AllThere-row ws d r rs (IsOne.here rs') h = h.0
AllThere-row ws d r rs (IsOne.later x rs' i) h = AllThere-row ws d r rs' i h.1

-- A recipient of the list that is finished now and was not before.
pub pending-drop :
    (ws : String) {d d' : Database}
    → Advances d d'
    → (r : CampaignChunkRecipient) (rs : List CampaignChunkRecipient) → IsOne r rs
    → RecipientHas unended r.recipient_id ws d
    → RecipientHas ended r.recipient_id ws d'
    → suc (pending ws d' rs) ≤ pending ws d rs
unfolding pending
pending-drop ws {d} {d'} a r rs (IsOne.here rs') u e =
    omega (arith, to_send-unended ws d r u, to_send-ended ws d' r e, pending-le ws a rs')
pending-drop ws {d} {d'} a r rs (IsOne.later x rs' i) u e =
    omega (arith, to_send-le ws a x, pending-drop ws a r rs' i u e)
