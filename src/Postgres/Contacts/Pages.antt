-- ===== src/Postgres/Contacts/Pages.antt =====
-- `StreamContactsForEval` of internal/infra/postgres/client.go visits each live contact once.
use mathlib.Core.Path.{subst}
use emailservice_worker.Prelude.{
  ℕ, suc, ◌≡◌, refl, sym, ap, ◌∙◌, String, Bool, true, false, ◌&&◌, List, [], ◌∷◌, ◌++◌, map,
  length, All, ltb, ◌=ₛ◌, select_rows, order_rows, limit_rows, arith,
}
use emailservice_worker.Schema.{ContactRecord}
use emailservice_worker.Postgres.Keyset.{
  skip_rows, last_row, last_row-All, limit-All, select-All, select-test, select-select, AreKeyed,
  IsSorted, order-All, order-IsSorted, select-AreKeyed, select-order, select-skip,
}
use emailservice_worker.Postgres.Contacts.{contact_for_eval, is_after, is_live, id_before, last_id}

-- The callback's work, a contact at a time.
unfoldable pub fold_list : {S A : Type 0} → (S → A → S) → S → List A → S
fold_list f s [] = s
fold_list f s (x ∷ xs) = fold_list f (f s x) xs

pub fold-append :
    {S A : Type 0} (f : S → A → S) (s : S) (xs ys : List A)
    → fold_list f s (xs ++ ys) ≡ fold_list f (fold_list f s xs) ys
unfolding fold_list
fold-append f s [] ys = refl
fold-append f s (x ∷ xs) ys = fold-append f (f s x) xs ys

pub length-map : {A B : Type 0} (f : A → B) (xs : List A) → length (map f xs) ≡ length xs
length-map f [] = refl
length-map f (x ∷ xs) = ap (λ n. suc n) (length-map f xs)

pub map-append :
    {A B : Type 0} (f : A → B) (xs ys : List A) → map f (xs ++ ys) ≡ map f xs ++ map f ys
map-append f [] ys = refl
map-append f (x ∷ xs) ys = ap (λ l. f x ∷ l) (map-append f xs ys)

pub last_id-map :
    (r : ContactRecord) (rs : List ContactRecord)
    → last_id r.id (map contact_for_eval rs) ≡ (last_row r rs).id
last_id-map r [] = refl
last_id-map r (x ∷ xs) = last_id-map x xs

module _ (uuid : String → ℕ) (workspace_id : String) where
  abbrev pub key : ContactRecord → ℕ
  key r = uuid r.id

  -- The contacts of the workspace that are not deleted, after an id, by the order of their ids.
  abbrev pub live_after : String → List ContactRecord → List ContactRecord
  live_after after_id rows =
      order_rows (id_before uuid)
        (select_rows (λ r. is_live workspace_id r && is_after uuid after_id r.id) rows)

  -- The ids are not empty, as those of a uuid column are.
  abbrev pub HaveIds : List ContactRecord → Type 0
  HaveIds rows = All (λ (r : ContactRecord). (r.id =ₛ "") ≡ false) rows

  after_next :
      (after_id : String) (z r : ContactRecord)
      → (z.id =ₛ "") ≡ false
      → is_after uuid after_id z.id ≡ true
      → (is_live workspace_id r && is_after uuid z.id r.id)
        ≡ ((is_live workspace_id r && is_after uuid after_id r.id) && ltb (key z) (key r))
  after_next after_id z r h t = ground (arith, h, t)

  All-of :
      {P : ContactRecord → Type 0} (rows : List ContactRecord)
      → ((r : ContactRecord) → P r)
      → All P rows
  All-of [] h = tt
  All-of (r ∷ rows) h = (h r, All-of rows h)

  pub live_after-All :
      (P : ContactRecord → Type 0) (after_id : String) (rows : List ContactRecord)
      → All P rows
      → All P (live_after after_id rows)
  live_after-All P after_id rows h = order-All key P _ (select-All P _ rows h)

  live_after-after :
      (after_id : String) (rows : List ContactRecord)
      → All (λ r. is_after uuid after_id r.id ≡ true) (live_after after_id rows)
  live_after-after after_id rows =
      order-All key (λ r. is_after uuid after_id r.id ≡ true) _ (weaken_test rows)
    where
      tested :
          (rs : List ContactRecord)
          → All (λ r. (is_live workspace_id r && is_after uuid after_id r.id) ≡ true) rs
          → All (λ r. is_after uuid after_id r.id ≡ true) rs
      tested [] h = tt
      tested (r ∷ rs) h = (ground (arith, h.0), tested rs h.1)

      weaken_test :
          (rs : List ContactRecord)
          → All
              (λ r. is_after uuid after_id r.id ≡ true)
              (select_rows (λ r. is_live workspace_id r && is_after uuid after_id r.id) rs)
      weaken_test rs = tested _ (select-test _ rs)

  -- The page after a page begins where that ends.
  pub live_after-next :
      (n : ℕ) (after_id : String) (rows : List ContactRecord) (x : ContactRecord)
      (xs : List ContactRecord)
      → AreKeyed key rows
      → HaveIds rows
      → live_after after_id rows ≡ x ∷ xs
      → live_after (last_row x (limit_rows n xs)).id rows ≡ skip_rows n xs
  unfolding skip_rows
  live_after-next n after_id rows x xs keyed ids h =
      let z = last_row x (limit_rows n xs) in
      let p : ContactRecord → Bool = λ r. is_live workspace_id r && is_after uuid after_id r.id in
      let of_last : (P : ContactRecord → Type 0) → All P (x ∷ xs) → P z =
        λ P all. last_row-All P x (limit_rows n xs) (all.0, limit-All P n xs all.1) in
      let z_id : (z.id =ₛ "") ≡ false =
        of_last (λ r. (r.id =ₛ "") ≡ false)
          (subst (All _) h (live_after-All _ after_id rows ids)) in
      let z_after : is_after uuid after_id z.id ≡ true =
        of_last (λ r. is_after uuid after_id r.id ≡ true)
          (subst (All _) h (live_after-after after_id rows)) in
      ap (order_rows (id_before uuid)) (
        sym (
          select-select p (λ r. ltb (key z) (key r)) _ rows
            (All-of rows (λ r. after_next after_id z r z_id z_after))))
      ∙ sym (
          select-order key (λ r. ltb (key z) (key r)) (select_rows p rows)
            (select-AreKeyed key p rows keyed))
      ∙ ap (select_rows (λ r. ltb (key z) (key r))) h
      ∙ select-skip key n x xs
          (subst (IsSorted key) h (order-IsSorted key _ (select-AreKeyed key p rows keyed)))
