-- ===== src/Segments/Handler/Matched.antt =====
-- The contacts that a refresh collects, internal/worker/segments/handler.go.
use emailservice_worker.Prelude.{
  ℕ, ◌≡◌, refl, ap, ◌∙◌, String, Bool, true, false, ◌&&◌, ◌||◌, Option, List, [], ◌∷◌, map, any,
  All, ◌=ₛ◌, if◌then◌else◌, select_rows, order_rows, insert_row, arith,
}
use emailservice_worker.Types.{SegmentRefreshPayload}
use emailservice_worker.Schema.{Database, EnrichedRecord, ContactRecord}
use emailservice_worker.Effect.{Env, Settlement}
use emailservice_worker.Effect.Errors.{ok}
use emailservice_worker.Effect.Yields.{DbIsUp, Yields, On, Yields-try, Yields-pure}
use emailservice_worker.Postgres.Keyset.{AreKeyed}
use emailservice_worker.Postgres.Segments.{Keys, has_key, put_key}
use emailservice_worker.Postgres.Contacts.{
  ContactForEval, contact_for_eval, is_live, id_before, stream_contacts_for_eval,
}
use emailservice_worker.Postgres.Contacts.Pages.{fold_list, key, live_after, HaveIds}
use emailservice_worker.Postgres.Contacts.Stream.{stream-Adds}
use emailservice_worker.Segments.Evaluator.{Conversions, FilterNode}
use emailservice_worker.Segments.Evaluator.Meaning.{holds_tree, IsSoundTree, matches-meaning}
use emailservice_worker.Segments.Handler.{match_page, eval_page_size}
use emailservice_worker.Segments.Handler.KeySets.{are_distinct, has_key-put_key, distinct-put_key}

module _ (g : Conversions) (uuid : String → ℕ) (workspace_id : String)
    (events : List EnrichedRecord) (tree : Option FilterNode) where
  abbrev pub is_match : ContactForEval → Bool
  is_match ct = holds_tree g workspace_id events ct tree

  abbrev pub IsSoundOn : ContactForEval → Type 0
  IsSoundOn ct = IsSoundTree g workspace_id events ct tree

  abbrev pub add_match : Keys → ContactForEval → Keys
  add_match matched ct = if is_match ct then put_key ct.id matched else matched

  -- A live contact of that id that the tree holds of.
  abbrev pub is_match_of : String → ContactRecord → Bool
  is_match_of k r = is_live workspace_id r && (r.id =ₛ k && is_match (contact_for_eval r))

  -- The keys that the refresh collects from a table of contacts.
  unfoldable pub matched_keys : List ContactRecord → Keys
  unfolding fold_list
  matched_keys contacts =
      fold_list add_match [] (map contact_for_eval (live_after uuid workspace_id "" contacts))

  fold-distinct :
      (ks : Keys) (cts : List ContactForEval)
      → are_distinct ks ≡ true
      → are_distinct (fold_list add_match ks cts) ≡ true
  unfolding fold_list
  fold-distinct ks [] h = h
  fold-distinct ks (ct ∷ cts) h =
      fold-distinct (add_match ks ct) cts
        (elim (is_match ct) as (λ b. are_distinct (if b then put_key ct.id ks else ks) ≡ true) [
          | true ↦ distinct-put_key ct.id ks h
          | false ↦ h
        ])

  pub matched_keys-distinct :
      (contacts : List ContactRecord) → are_distinct (matched_keys contacts) ≡ true
  unfolding matched_keys
  matched_keys-distinct contacts =
      fold-distinct [] (map contact_for_eval (live_after uuid workspace_id "" contacts)) refl

  fold-has_key :
      (k : String) (ks : Keys) (rows : List ContactRecord)
      → has_key k (fold_list add_match ks (map contact_for_eval rows))
        ≡ (has_key k ks || any (λ r. r.id =ₛ k && is_match (contact_for_eval r)) rows)
  unfolding fold_list
  fold-has_key k ks [] = ground arith
  fold-has_key k ks (r ∷ rows) = ground (
    arith,
    has_key-put_key k r.id ks,
    fold-has_key k ks rows,
    fold-has_key k (put_key r.id ks) rows,
  )

  any-insert :
      (p : ContactRecord → Bool) (r : ContactRecord) (rows : List ContactRecord)
      → any p (insert_row (id_before uuid) r rows) ≡ (p r || any p rows)
  unfolding insert_row
  any-insert p r [] = refl
  any-insert p r (x ∷ rows) = ground (arith, any-insert p r rows)

  any-order :
      (p : ContactRecord → Bool) (rows : List ContactRecord)
      → any p (order_rows (id_before uuid) rows) ≡ any p rows
  unfolding order_rows
  any-order p [] = refl
  any-order p (r ∷ rows) =
      any-insert p r (order_rows (id_before uuid) rows) ∙ ap (λ b. p r || b) (any-order p rows)

  any-select :
      (q p qp : ContactRecord → Bool)
      → ((r : ContactRecord) → qp r ≡ (q r && p r))
      → (rows : List ContactRecord) → any p (select_rows q rows) ≡ any qp rows
  unfolding select_rows
  any-select q p qp h [] = refl
  any-select q p qp h (r ∷ rows) = ground (arith, h r, any-select q p qp h rows)

  pub matched_keys-has_key :
      (k : String) (contacts : List ContactRecord)
      → has_key k (matched_keys contacts) ≡ any (is_match_of k) contacts
  unfolding matched_keys
  matched_keys-has_key k contacts =
      fold-has_key k [] (live_after uuid workspace_id "" contacts)
      ∙ any-order (λ r. r.id =ₛ k && is_match (contact_for_eval r)) _
      ∙ any-select _ _ (is_match_of k) (λ r. ground arith) contacts

module _ {e : Env} (up : DbIsUp e) {s : List Settlement} (g : Conversions) (uuid : String → ℕ)
    (max_retries : ℕ) (p : SegmentRefreshPayload) (attempt : ℕ) (events : List EnrichedRecord)
    (contacts : List ContactRecord) (C : Database → Type 0)
    (has_events : (d : Database) → C d → d.events_enriched ≡ events)
    (has_contacts : (d : Database) → C d → d.contacts ≡ contacts) (tree : Option FilterNode) where
  match_page-adds :
      (page : List ContactForEval) (matched : Keys)
      → All (IsSoundOn g uuid p.workspace_id events tree) page
      → Yields e
          (On C s)
          (match_page g uuid max_retries p attempt tree page matched)
          (ok (fold_list (add_match g uuid p.workspace_id events tree) matched page))
          (On C s)
  unfolding match_page fold_list
  match_page-adds [] matched h = Yields-pure (λ w q. q)
  match_page-adds (ct ∷ cts) matched h =
      Yields-try _ _ _ _ (matches-meaning up g p.workspace_id events C has_events ct tree h.0)
        (match_page-adds cts _ h.1)

  pub stream-matched :
      AreKeyed (key uuid p.workspace_id) contacts
      → HaveIds uuid p.workspace_id contacts
      → All (λ r. IsSoundOn g uuid p.workspace_id events tree (contact_for_eval r)) contacts
      → Yields e
          (On C s)
          (stream_contacts_for_eval uuid p.workspace_id eval_page_size
            (match_page g uuid max_retries p attempt tree)
            [])
          (ok (matched_keys g uuid p.workspace_id events tree contacts))
          (On C s)
  unfolding matched_keys
  stream-matched keyed ids sound =
      stream-Adds up C contacts has_contacts uuid p.workspace_id 499
        (match_page g uuid max_retries p attempt tree) (add_match g uuid p.workspace_id events tree)
        (IsSoundOn g uuid p.workspace_id events tree) match_page-adds keyed ids sound []
