-- ===== src/Prelude/Rows.antt =====
-- A table as the list of its rows: SELECT, UPDATE and the number of rows that an UPDATE affects,
-- for a WHERE condition given as a test.
use emailservice_worker.Prelude.Tests.{if◌then◌else◌}
use Prim.Native.Nat.{ℕ, zero, suc, ◌+◌}
use mathlib.Core.Path.{◌≡◌, refl, ap, ◌∙◌}
use mathlib.Core.Bool.{Bool, true}
use mathlib.Core.Option.{Option, none, some}
use mathlib.Core.List.{List, [], ◌∷◌}
use native.Mathlib.Omega.{arith}

abbrev pub map_option {ℓ κ} : {A : Type ℓ} {B : Type κ} → (A → B) → Option A → Option B
map_option f none = none
map_option f (some a) = some (f a)

module _ {ℓ} {R : Type ℓ} where
  -- the first row that satisfies the test
  unfoldable pub select_row : (R → Bool) → List R → Option R
  select_row p [] = none
  select_row p (r ∷ rs) = if p r then some r else select_row p rs

  unfoldable pub update_rows : (R → Bool) → (R → R) → List R → List R
  update_rows p f [] = []
  update_rows p f (r ∷ rs) = (if p r then f r else r) ∷ update_rows p f rs

  unfoldable pub affected : (R → Bool) → List R → ℕ
  affected p [] = 0
  affected p (r ∷ rs) = (if p r then 1 else 0) + affected p rs

  -- the rows that satisfy the test
  unfoldable pub select_rows : (R → Bool) → List R → List R
  select_rows p [] = []
  select_rows p (r ∷ rs) = let rest = select_rows p rs in if p r then r ∷ rest else rest

  -- `ORDER BY`, for `before a b` where `a` may stand before `b`; rows that are equal keep their order
  unfoldable pub insert_row : (R → R → Bool) → R → List R → List R
  insert_row before r [] = r ∷ []
  insert_row before r (x ∷ xs) =
      let rest = insert_row before r xs in if before r x then r ∷ x ∷ xs else x ∷ rest

  unfoldable pub order_rows : (R → R → Bool) → List R → List R
  unfolding insert_row
  order_rows before [] = []
  order_rows before (r ∷ rs) = insert_row before r (order_rows before rs)

  -- `LIMIT`
  unfoldable pub limit_rows : ℕ → List R → List R
  limit_rows zero rs = []
  limit_rows (suc n) [] = []
  limit_rows (suc n) (r ∷ rs) = r ∷ limit_rows n rs

  pub select_row-key :
      (key : R → Bool) (rs : List R) (r : R) → select_row key rs ≡ some r → key r ≡ true
  unfolding select_row
  select_row-key key [] r h = cc
  select_row-key key (x ∷ rs) r h = ground (arith, select_row-key key rs r)

  -- An update that leaves the columns of a test alone commutes with the selection by that test.
  pub select_row-update_rows :
      (key p : R → Bool) (f : R → R) (rs : List R)
      → ((r : R) → key (f r) ≡ key r)
      → select_row key (update_rows p f rs)
        ≡ map_option (λ r. if p r then f r else r) (select_row key rs)
  unfolding select_row update_rows
  select_row-update_rows key p f [] h = refl
  select_row-update_rows key p f (r ∷ rs) h =
      ground (arith, h r, select_row-update_rows key p f rs h)

-- A row with the key is there and satisfies the test.
abbrev pub HasRow {ℓ} : {R : Type ℓ} → (R → Bool) → (R → Bool) → List R → Type ℓ
HasRow {R = R} key test rs = (r : R) × (select_row key rs ≡ some r) × (test r ≡ true)

module _ {ℓ} {R : Type ℓ} where
  -- An update keeps such a row where it leaves the key alone and takes the test's rows to others.
  pub HasRow-update_rows :
      (key test test' p : R → Bool) (f : R → R) (rs : List R)
      → ((r : R) → key (f r) ≡ key r)
      → ((r : R) → key r ≡ true → test r ≡ true → test' (if p r then f r else r) ≡ true)
      → HasRow key test rs
      → HasRow key test' (update_rows p f rs)
  HasRow-update_rows key test test' p f rs keeps_key keeps_test (r, found, passed) = (
    if p r then f r else r,
    select_row-update_rows key p f rs keeps_key
        ∙ ap (map_option (λ x. if p x then f x else x)) found,
    keeps_test r (select_row-key key rs r found) passed,
  )
