-- ===== src/Email/Batcher/Rounds.antt =====
-- The loop of `StreamAndChunk`, internal/worker/email/batcher.go, ends.
use emailservice_worker.Prelude.{
  ℕ, zero, suc, ◌<◌, ◌≡◌, ◌≢◌, refl, sym, String, List, [], ◌∷◌, length, All, arith, ◌=ₛ◌, false,
}
use emailservice_worker.Types.{CampaignStartPayload, Payload}
use emailservice_worker.Schema.{Database, ContactRecord, MembershipRow}
use emailservice_worker.Effect.{M, Env, World, exec}
use emailservice_worker.Effect.Errors.{Result, err, out_of_fuel}
use emailservice_worker.Effect.Ends.{
  Ends, Ends-pure, Ends-branch, Ends-bind, Ends-case_option, Ends-pass, Ends-query, is_answer,
  is_wrapped, is_text,
}
use emailservice_worker.Effect.Gives.{Gives, Gives-bind, Gives-then, Gives-try, Gives-pure}
use emailservice_worker.Effect.Keeps.{Keeps}
use emailservice_worker.Effect.Keeps.OnDb.{OfDb, Keeps-exec_db, Keeps-ctx_err_db, db_rules}
use emailservice_worker.Queue.Publisher.{publish}
use emailservice_worker.Postgres.BulkInsert.{Contact, bulk_insert_campaign_recipients}
use emailservice_worker.Postgres.SegmentContacts.{join_members, fetch_segment_contacts_batch}
use emailservice_worker.Postgres.SegmentContacts.Page.{
  join-All, left_after, mailable_after, page_fewer, scan-All, length-select,
}
use emailservice_worker.Email.Batcher.{
  last_contact, publish_chunk, on_contacts, chunk_rounds, stream_and_chunk,
}

-- The tables that the loop reads.
record IsRead (contacts : List ContactRecord) (ms : List MembershipRow) (d : Database)
    : Type 0 where
  pub of_contacts : d.contacts ≡ contacts
  pub of_memberships : d.segment_memberships ≡ ms

abbrev Reads : List ContactRecord → List MembershipRow → World → Type 0
Reads contacts ms = OfDb (IsRead contacts ms) (λ mails. Unit {0})

module _ (e : Env) (uuid : String → ℕ) (fresh : String → ℕ → String) (itoa : ℕ → String) (n : ℕ)
    (p : CampaignStartPayload) (contacts : List ContactRecord) (ms : List MembershipRow) where
  Reads-publish :
      (s : String) (x : Payload) (i : String) → Keeps e (Reads contacts ms) (publish s x i)
  unfolding publish
  Reads-publish s x i = search db_rules depth 20

  Reads-insert :
      (f : ℕ → String) (c v : String) (cs : List Contact)
      → Keeps e (Reads contacts ms) (exec (bulk_insert_campaign_recipients f c v cs))
  unfolding bulk_insert_campaign_recipients
  Reads-insert f c v cs =
      Keeps-exec_db _
        (λ t d h. record { of_contacts = h.of_contacts; of_memberships = h.of_memberships })

  Reads-publish_chunk :
      (idx : ℕ) (cs : List Contact)
      → Keeps e (Reads contacts ms) (publish_chunk uuid fresh itoa n p idx cs)
  unfolding publish_chunk
  Reads-publish_chunk idx cs = search (db_rules, Reads-publish, Reads-insert) depth 30

  publish_chunk-answer :
      (idx : ℕ) (cs : List Contact)
      → Gives e (publish_chunk uuid fresh itoa n p idx cs) (λ r. r ≢ err out_of_fuel)
  unfolding publish_chunk
  publish_chunk-answer idx cs = Gives-bind _ _ (λ seed.
      Gives-try _ _ _ (λ x. Gives-pure _ (is_wrapped _ x))
        (λ recipients. Gives-then _ _ (
          Gives-try _ _ _ (λ x. Gives-pure _ (is_wrapped _ x))
            (λ _. Gives-then _ _ (Gives-pure _ (is_answer _))))))

  Ends-publish_chunk :
      (idx : ℕ) (cs : List Contact)
      → Ends e (Reads contacts ms) (publish_chunk uuid fresh itoa n p idx cs)
  Ends-publish_chunk idx cs = record {
    at = λ w h. ((publish_chunk-answer idx cs).at w, (Reads-publish_chunk idx cs).at w h);
  }

  last_contact-All :
      (P : String → Type 0) (c : Contact) (cs : List Contact)
      → All (λ x. P x.id) (c ∷ cs)
      → P (last_contact c.id cs)
  last_contact-All P c [] h = h.0
  last_contact-All P c (x ∷ cs) h = last_contact-All P x cs h.1

  abbrev joined : List ContactRecord
  joined = join_members p.segment_id ms contacts

  module _ (ids : All (λ r. (r.id =ₛ "") ≡ false) joined) where
    abbrev left : String → ℕ
    left id = left_after uuid p.workspace_id joined ids id

    on_contacts-Ends :
        (next : String → ℕ → ℕ → M (Result (ℕ × ℕ))) (bound : ℕ) (cs : List Contact)
        → All (λ c. left c.id < bound) cs
        → ((id : String) (total idx : ℕ)
            → left id < bound
            → Ends e (Reads contacts ms) (next id total idx))
        → (total idx : ℕ)
        → Ends e (Reads contacts ms) (on_contacts uuid fresh itoa n p next total idx cs)
    unfolding on_contacts
    on_contacts-Ends next bound [] h rest total idx = Ends-pure _ (is_answer _)
    on_contacts-Ends next bound (c ∷ cs) h rest total idx =
        Ends-pass _ _ (Ends-publish_chunk idx (c ∷ cs)) (λ k.
          Ends-branch _ _ _ (Ends-pure _ (is_answer _))
            (rest _ _ _ (last_contact-All (λ id. left id < bound) c cs h)))

    chunk_rounds-Ends :
        (fuel : ℕ) (after_id : String) (total idx : ℕ)
        → left after_id < fuel
        → Ends e (Reads contacts ms) (chunk_rounds uuid fresh itoa n p fuel after_id total idx)
    unfolding chunk_rounds fetch_segment_contacts_batch
    chunk_rounds-Ends zero after_id total idx h = absurd (omega (arith, h))
    chunk_rounds-Ends (suc fuel) after_id total idx h = Ends-bind _ _ Keeps-ctx_err_db (λ cancelled.
        Ends-case_option cancelled _ _
          (Ends-query _ _ _ (Keeps-exec_db _ (λ t d r. r)) (λ w t cs r found.
            on_contacts-Ends (chunk_rounds uuid fresh itoa n p fuel) (left after_id) cs
              (scan-All (λ id. left id < left after_id) _ cs
                (page_fewer uuid p.workspace_id joined ids after_id n)
                (rw (sym r.of_db.of_contacts) (rw (sym r.of_db.of_memberships) found)))
              (λ id total' idx' fewer.
                chunk_rounds-Ends fuel id total' idx' (omega (arith, h, fewer)))
              total idx))
          (λ s. Ends-pure _ (is_text s)))

-- `StreamAndChunk` ends: whatever calls fail and whenever the context is cancelled, the rounds of
-- the loop are not more than the memberships of contacts in the segment and one, where ids of
-- contacts are not empty.
pub stream_and_chunk-ends :
    (uuid : String → ℕ) (fresh : String → ℕ → String) (itoa : ℕ → String) (chunk_size : ℕ)
    (p : CampaignStartPayload) (e : Env) (w : World)
    → All (λ r. (r.id =ₛ "") ≡ false) w.db.contacts
    → (stream_and_chunk uuid fresh itoa chunk_size p e w).0 ≢ err out_of_fuel
unfolding stream_and_chunk
stream_and_chunk-ends uuid fresh itoa chunk_size p e w ids =
    let contacts = w.db.contacts in
    let ms = w.db.segment_memberships in
    let rows = join_members p.segment_id ms contacts in
    ((chunk_rounds-Ends e uuid fresh itoa chunk_size p contacts ms
        (join-All (λ r. (r.id =ₛ "") ≡ false) p.segment_id ms contacts ids) (suc (length rows)) "" 0
        0
        (omega (
          arith,
          length-select
              (mailable_after uuid p.workspace_id rows
                (join-All (λ r. (r.id =ₛ "") ≡ false) p.segment_id ms contacts ids) "")
              rows,
        ))).at
      w (record { of_db = record { of_contacts = refl; of_memberships = refl }; of_mails = tt })).0
