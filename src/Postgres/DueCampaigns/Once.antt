-- ===== src/Postgres/DueCampaigns/Once.antt =====
-- Calls of `GetDueCampaigns` one after another.
use emailservice_worker.Prelude.{
  ℕ, zero, suc, ◌≡◌, refl, sym, ap, inl, inr, String, Bool, true, false, List, [], ◌∷◌, map, any,
  All, ◌=ₛ◌, arith, eq_iff, Bool-cases, select_rows, insert_row, order_rows, limit_rows,
  update_rows,
}
use emailservice_worker.Schema.{CampaignRow}
use emailservice_worker.Postgres.DueCampaigns.{
  DueCampaign, is_due, scheduled_before, due_ids, is_in, mark_sending, due_campaign, take_due,
}

module _ {ℓ κ} {R : Type ℓ} (P : R → Type κ) where
  -- What holds of the rows that pass a test.
  All-select_rows :
      (q : R → Bool) (rs : List R) → All (λ r. q r ≡ true → P r) rs → All P (select_rows q rs)
  unfolding select_rows
  All-select_rows q [] h = tt
  All-select_rows q (r ∷ rs) h = elim (Bool-cases (q r)) [
    | inl yes_test ↦ rw yes_test (h.0 yes_test, All-select_rows q rs h.1)
    | inr no_test ↦ rw no_test (All-select_rows q rs h.1)
  ]

  All-insert_row :
      (before : R → R → Bool) (r : R) (rs : List R)
      → P r
      → All P rs
      → All P (insert_row before r rs)
  unfolding insert_row
  All-insert_row before r [] p h = (p, tt)
  All-insert_row before r (x ∷ rs) p h = elim (Bool-cases (before r x)) [
    | inl first ↦ rw first (p, h)
    | inr after ↦ rw after (h.0, All-insert_row before r rs p h.1)
  ]

  All-order_rows : (before : R → R → Bool) (rs : List R) → All P rs → All P (order_rows before rs)
  unfolding order_rows
  All-order_rows before [] h = tt
  All-order_rows before (r ∷ rs) h =
      All-insert_row before r (order_rows before rs) h.0 (All-order_rows before rs h.1)

  All-limit_rows : (n : ℕ) (rs : List R) → All P rs → All P (limit_rows n rs)
  unfolding limit_rows
  All-limit_rows zero rs h = tt
  All-limit_rows (suc n) [] h = tt
  All-limit_rows (suc n) (r ∷ rs) h = (h.0, All-limit_rows n rs h.1)

abbrev has_id : List String → String → Bool
has_id ids i = any (λ j. j =ₛ i) ids

-- The rows that the update has marked are not due any more.
marked-All :
    (ids : List String) (now later : ℕ) (rows : List CampaignRow)
    → All
        (λ (r : CampaignRow). is_due later r ≡ true → has_id ids r.id ≡ false)
        (update_rows (is_in ids) (mark_sending now) rows)
unfolding update_rows
marked-All ids now later [] = tt
marked-All ids now later (r ∷ rows) = elim (Bool-cases (has_id ids r.id)) [
  | inl marked ↦ rw marked ((λ due. cc), marked-All ids now later rows)
  | inr not_marked ↦ rw not_marked ((λ due. not_marked), marked-All ids now later rows)
]

-- So that no id of a later subquery is among those marked.
ids-All :
    (ids : List String) (now later limit : ℕ) (rows : List CampaignRow)
    → All
        (λ (r : CampaignRow). has_id ids r.id ≡ false)
        (limit_rows limit (
          order_rows scheduled_before
            (select_rows (is_due later) (update_rows (is_in ids) (mark_sending now) rows))))
ids-All ids now later limit rows =
    let P = λ (r : CampaignRow). has_id ids r.id ≡ false in
    All-limit_rows P limit _ (
      All-order_rows P scheduled_before _
        (All-select_rows P (is_due later) _ (marked-All ids now later rows)))

has_id-same : (ids : List String) (i j : String) → (j =ₛ i) ≡ true → has_id ids i ≡ has_id ids j
has_id-same ids i j h = ap (has_id ids) (sym ((eq_iff j i).0 h))

-- An id of rows that are all outside of the ids is outside itself.
map-outside :
    (ids : List String) (rs : List CampaignRow) (i : String)
    → All (λ (r : CampaignRow). has_id ids r.id ≡ false) rs
    → has_id ids i ≡ true
    → has_id (map (λ (r : CampaignRow). r.id) rs) i ≡ false
map-outside ids [] i h inside = refl
map-outside ids (r ∷ rs) i h inside =
    ground (arith, h.0, inside, has_id-same ids i r.id, map-outside ids rs i h.1 inside)

abbrev pub handed_out : List DueCampaign → String → Bool
handed_out cs i = any (λ (c : DueCampaign). c.id =ₛ i) cs

-- What is returned has an id of the subquery.
returned-inside :
    (ids : List String) (rows : List CampaignRow) (i : String)
    → handed_out (map due_campaign (select_rows (is_in ids) rows)) i ≡ true
    → has_id ids i ≡ true
unfolding select_rows
returned-inside ids [] i h = cc
returned-inside ids (r ∷ rows) i h =
    ground (arith, h, has_id-same ids i r.id, returned-inside ids rows i)

-- A campaign that one call of `GetDueCampaigns` returns is returned by no later call on what it
-- leaves, whatever the times and the limits.
pub take_due-once :
    (limit now limit' later : ℕ) (rows : List CampaignRow) (i : String)
    → handed_out (take_due limit now rows).0 i ≡ true
    → handed_out (take_due limit' later (take_due limit now rows).1).0 i ≡ false
unfolding take_due due_ids
take_due-once limit now limit' later rows i first =
    let ids = due_ids limit now rows in
    let rows' = update_rows (is_in ids) (mark_sending now) rows in
    let ids' = due_ids limit' later rows' in
    let inside : has_id ids i ≡ true = returned-inside ids rows' i first in
    let outside : has_id ids' i ≡ false =
      map-outside ids _ i (ids-All ids now later limit' rows) inside in
    let second = returned-inside ids' (update_rows (is_in ids') (mark_sending later) rows') i in
    elim (Bool-cases (handed_out (take_due limit' later rows').0 i)) [
      | inl again ↦ cc (second again, outside)
      | inr never ↦ never
    ]
