-- ===== src/Email/Validate/Valid.antt =====
-- The payload checks of internal/worker/email against a description of the valid payloads.
use emailservice_worker.Prelude.{
  ℕ, suc, ◌≡◌, ◌≢◌, ◌⊎◌, inl, inr, refl, String, Bool, true, false, ◌&&◌, ◌||◌, not, Option, none,
  some, List, [], ◌∷◌, arith, All, ◌=ₛ◌, eq_iff, Bool-cases,
}
use emailservice_worker.Types.{
  EmailAddress, TransactionalEmailPayload, CampaignChunkRecipient, CampaignChunkPayload,
}
use emailservice_worker.Email.Validate.{
  Invalid, missing_ids, no_recipients, empty_sender, empty_subject, empty_bodies,
  unsupported_provider, is_empty, has_none, or_else, fail_if, check_addresses, check_recipients,
  validate_payload, validate_campaign_chunk,
}

abbrev pub IsValid : TransactionalEmailPayload → Type 0
IsValid p =
    (p.send_id ≢ "")
    × (p.workspace_id ≢ "")
    × (p.job_id ≢ "")
    × (p.to ≢ [])
    × All (λ (a : EmailAddress). a.email ≢ "") p.to
    × (p.from.email ≢ "")
    × (p.subject ≢ "")
    × ((p.html ≢ "") ⊎ (p.text ≢ ""))
    × ((p.provider ≡ "") ⊎ (p.provider ≡ "ses"))

abbrev pub IsValidChunk : CampaignChunkPayload → Type 0
IsValidChunk p =
    (p.campaign_id ≢ "")
    × (p.workspace_id ≢ "")
    × (p.chunk_id ≢ "")
    × (p.recipients ≢ [])
    × (p.sender.email ≢ "")
    × (p.subject ≢ "")
    × ((p.html ≢ "") ⊎ (p.text ≢ ""))
    × All (λ (r : CampaignChunkRecipient). (r.recipient_id ≢ "") × (r.email ≢ "")) p.recipients

is_empty-true : (s : String) → is_empty s ≡ true → s ≡ ""
is_empty-true s h = (eq_iff s "").0 h

is_empty-false : (s : String) → is_empty s ≡ false → s ≢ ""
is_empty-false s h q = cc (h, (eq_iff s "").1 q)

not_empty : (s : String) → s ≢ "" → is_empty s ≡ false
not_empty s h = elim (Bool-cases (is_empty s)) [
  | inl e ↦ absurd (h (is_empty-true s e))
  | inr n ↦ n
]

or_else-none : (x y : Option Invalid) → or_else x y ≡ none → (x ≡ none) × (y ≡ none)
or_else-none none y h = (refl, h)
or_else-none (some x) y h = cc

fail_if-none : (b : Bool) (x : Invalid) → fail_if b x ≡ none → b ≡ false
fail_if-none true x h = cc
fail_if-none false x h = refl

or-false : (a b : Bool) → a || b ≡ false → (a ≡ false) × (b ≡ false)
or-false false b h = (refl, h)
or-false true b h = cc

check_addresses-none :
    (i : ℕ) (rest : List EmailAddress)
    → check_addresses i rest ≡ none
    → All (λ (a : EmailAddress). a.email ≢ "") rest
unfolding check_addresses
check_addresses-none i [] h = tt
check_addresses-none i (a ∷ rest) h = elim (Bool-cases (is_empty a.email)) [
  | inl e ↦ cc
  | inr n ↦ (is_empty-false a.email n, check_addresses-none (suc i) rest (ground (arith, h, n)))
]

check_addresses-All :
    (i : ℕ) (rest : List EmailAddress)
    → All (λ (a : EmailAddress). a.email ≢ "") rest
    → check_addresses i rest ≡ none
unfolding check_addresses
check_addresses-All i [] h = refl
check_addresses-All i (a ∷ rest) h =
    rw (not_empty a.email h.0) (check_addresses-All (suc i) rest h.1)

and-false : (a b : String) → (is_empty a && is_empty b) ≡ false → (a ≢ "") ⊎ (b ≢ "")
and-false a b h = elim (Bool-cases (is_empty a)) [
  | inl e ↦ inr (is_empty-false b (ground (arith, h, e)))
  | inr n ↦ inl (is_empty-false a n)
]

pub and-not_empty : (a b : String) → (a ≢ "") ⊎ (b ≢ "") → (is_empty a && is_empty b) ≡ false
and-not_empty a b (inl n) = ground (arith, not_empty a n)
and-not_empty a b (inr n) = ground (arith, not_empty b n)

provider_ok : (s : String) → (not (is_empty s) && not (s =ₛ "ses")) ≡ false → (s ≡ "") ⊎ (s ≡ "ses")
provider_ok s h = elim (Bool-cases (is_empty s)) [
  | inl e ↦ inl (is_empty-true s e)
  | inr n ↦ inr ((eq_iff s "ses").0 (ground (arith, h, n)))
]

provider_accepted :
    (s : String) → (s ≡ "") ⊎ (s ≡ "ses") → (not (is_empty s) && not (s =ₛ "ses")) ≡ false
provider_accepted s (inl q) = ground (arith, (eq_iff s "").1 q)
provider_accepted s (inr q) = ground (arith, (eq_iff s "ses").1 q)

has_none-false : {A : Type 0} (xs : List A) → has_none xs ≡ false → xs ≢ []
has_none-false [] h = cc
has_none-false (x ∷ xs) h = λ q. cc

has_none-cons : {A : Type 0} (xs : List A) → xs ≢ [] → has_none xs ≡ false
has_none-cons [] h = absurd (h refl)
has_none-cons (x ∷ xs) h = refl

-- `validatePayload` accepts only payloads with the three ids, recipients that all have an address, a
-- sender, a subject, a body, and SES as the provider where one is named.
pub validate_payload-IsValid :
    (p : TransactionalEmailPayload) → validate_payload p ≡ none → IsValid p
unfolding validate_payload
validate_payload-IsValid p h =
    let (ids, h1) = or_else-none _ _ h in
    let (to, h2) = or_else-none _ _ h1 in
    let (addresses, h3) = or_else-none _ _ h2 in
    let (sender, h4) = or_else-none _ _ h3 in
    let (subject, h5) = or_else-none _ _ h4 in
    let (body, provider) = or_else-none _ _ h5 in
    let (other_ids, job_id) = or-false _ _ (fail_if-none _ missing_ids ids) in
    let (send_id, workspace_id) = or-false _ _ other_ids in
    (
      is_empty-false p.send_id send_id,
      is_empty-false p.workspace_id workspace_id,
      is_empty-false p.job_id job_id,
      has_none-false p.to (fail_if-none _ no_recipients to),
      check_addresses-none 0 p.to addresses,
      is_empty-false p.from.email (fail_if-none _ empty_sender sender),
      is_empty-false p.subject (fail_if-none _ empty_subject subject),
      and-false p.html p.text (fail_if-none _ empty_bodies body),
      provider_ok p.provider (fail_if-none _ (unsupported_provider p.provider) provider),
    )

-- `validatePayload` accepts every such payload.
pub validate_payload-none : (p : TransactionalEmailPayload) → IsValid p → validate_payload p ≡ none
unfolding validate_payload
validate_payload-none p
      (send_id, workspace_id, job_id, to, addresses, sender, subject, body, provider) =
    rw
      (
        not_empty p.send_id send_id,
        not_empty p.workspace_id workspace_id,
        not_empty p.job_id job_id,
        has_none-cons p.to to,
        check_addresses-All 0 p.to addresses,
        not_empty p.from.email sender,
        not_empty p.subject subject,
        and-not_empty p.html p.text body,
        provider_accepted p.provider provider,
      )
      refl

check_recipients-none :
    (i : ℕ) (rs : List CampaignChunkRecipient)
    → check_recipients i rs ≡ none
    → All (λ (r : CampaignChunkRecipient). (r.recipient_id ≢ "") × (r.email ≢ "")) rs
unfolding check_recipients
check_recipients-none i [] h = tt
check_recipients-none i (r ∷ rs) h =
    elim (Bool-cases (is_empty r.recipient_id || is_empty r.email)) [
      | inl e ↦ cc
      | inr n ↦
          let (a, b) = or-false _ _ n in
          (
            (is_empty-false r.recipient_id a, is_empty-false r.email b),
            check_recipients-none (suc i) rs (ground (arith, h, n)),
          )
    ]

-- `validateCampaignChunk` accepts only chunks with the three ids, a sender, a subject, a body, and
-- recipients that all have an id and an address.
pub validate_campaign_chunk-IsValid :
    (p : CampaignChunkPayload) → validate_campaign_chunk p ≡ none → IsValidChunk p
unfolding validate_campaign_chunk
validate_campaign_chunk-IsValid p h =
    let (ids, h1) = or_else-none _ _ h in
    let (some_recipients, h2) = or_else-none _ _ h1 in
    let (sender, h3) = or_else-none _ _ h2 in
    let (subject, h4) = or_else-none _ _ h3 in
    let (body, recipients) = or_else-none _ _ h4 in
    let (other_ids, chunk_id) = or-false _ _ (fail_if-none _ missing_ids ids) in
    let (campaign_id, workspace_id) = or-false _ _ other_ids in
    (
      is_empty-false p.campaign_id campaign_id,
      is_empty-false p.workspace_id workspace_id,
      is_empty-false p.chunk_id chunk_id,
      has_none-false p.recipients (fail_if-none _ no_recipients some_recipients),
      is_empty-false p.sender.email (fail_if-none _ empty_sender sender),
      is_empty-false p.subject (fail_if-none _ empty_subject subject),
      and-false p.html p.text (fail_if-none _ empty_bodies body),
      check_recipients-none 0 p.recipients recipients,
    )
