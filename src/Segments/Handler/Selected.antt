-- ===== src/Segments/Handler/Selected.antt =====
-- The contacts that a segment selects by docs/workers/segment-computation.md, against those that a
-- refresh collects, internal/worker/segments/handler.go.
use emailservice_worker.Prelude.{
  ℕ, ◌≡◌, refl, String, Bool, true, ◌&&◌, Option, none, some, List, [], ◌∷◌, any, All, ◌=ₛ◌, arith,
}
use emailservice_worker.Schema.{ContactRecord, EnrichedRecord}
use emailservice_worker.Postgres.Contacts.{contact_for_eval, is_live}
use emailservice_worker.Segments.Evaluator.{Conversions, FilterNode}
use emailservice_worker.Segments.Evaluator.Meaning.{holds_tree}
use emailservice_worker.Segments.Evaluator.Documented.{documented, is_read, holds-documented}
use emailservice_worker.Segments.Handler.Matched.{is_match_of}

module _ (g : Conversions) (workspace_id : String) (events : List EnrichedRecord) where
  -- No tree selects every contact.
  abbrev pub selects : Option FilterNode → ContactRecord → Bool
  selects none r = true
  selects (some n) r = documented g workspace_id events r n

  abbrev pub is_read_tree : Option FilterNode → ContactRecord → Bool
  is_read_tree none r = true
  is_read_tree (some n) r = is_read g workspace_id events r n

  -- A contact of that id, not deleted, that the tree selects.
  abbrev pub is_selected : Option FilterNode → String → ContactRecord → Bool
  is_selected tree k r = is_live workspace_id r && (r.id =ₛ k && selects tree r)

  tree-documented :
      (tree : Option FilterNode) (r : ContactRecord)
      → is_read_tree tree r ≡ true
      → holds_tree g workspace_id events (contact_for_eval r) tree ≡ selects tree r
  tree-documented none r h = refl
  tree-documented (some n) r h = holds-documented g workspace_id events r n h

  pub any-is_selected :
      (uuid : String → ℕ) (tree : Option FilterNode) (k : String) (rows : List ContactRecord)
      → All (λ r. is_read_tree tree r ≡ true) rows
      → any (is_match_of g uuid workspace_id events tree k) rows ≡ any (is_selected tree k) rows
  any-is_selected uuid tree k [] h = refl
  any-is_selected uuid tree k (r ∷ rows) h =
      ground (arith, tree-documented tree r h.0, any-is_selected uuid tree k rows h.1)
