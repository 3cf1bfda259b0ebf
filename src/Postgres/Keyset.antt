-- ===== src/Postgres/Keyset.antt =====
-- Keyset pagination of internal/infra/postgres/client.go: `WHERE id > $after ORDER BY id LIMIT n`,
-- for rows with a numeric key. Rows with different keys have one order only.
use emailservice_worker.Prelude.{
  ℕ, zero, suc, ◌<◌, ◌≤◌, ◌≡◌, ◌≢◌, refl, ap, ◌∙◌, Bool, true, false, ◌&&◌, List, [], ◌∷◌, ◌++◌,
  length, All, leb, ltb, if◌then◌else◌, select_rows, insert_row, order_rows, limit_rows, arith,
}

unfoldable pub skip_rows : {R : Type 0} → ℕ → List R → List R
skip_rows zero rs = rs
skip_rows (suc n) [] = []
skip_rows (suc n) (r ∷ rs) = skip_rows n rs

abbrev pub last_row : {R : Type 0} → R → List R → R
last_row r [] = r
last_row r (x ∷ xs) = last_row x xs

module _ {R : Type 0} where
  pub limit-skip : (n : ℕ) (rs : List R) → limit_rows n rs ++ skip_rows n rs ≡ rs
  unfolding limit_rows skip_rows
  limit-skip zero rs = refl
  limit-skip (suc n) [] = refl
  limit-skip (suc n) (r ∷ rs) = ap (λ l. r ∷ l) (limit-skip n rs)

  pub limit-short : (n : ℕ) (rs : List R) → length (limit_rows n rs) < n → skip_rows n rs ≡ []
  unfolding limit_rows skip_rows
  limit-short zero rs h = absurd (omega (arith, h))
  limit-short (suc n) [] h = refl
  limit-short (suc n) (r ∷ rs) h = limit-short n rs (omega (arith, h))

  pub length-skip : (n : ℕ) (rs : List R) → length (skip_rows n rs) ≤ length rs
  unfolding skip_rows
  length-skip zero rs = omega arith
  length-skip (suc n) [] = omega arith
  length-skip (suc n) (r ∷ rs) = omega (arith, length-skip n rs)

  pub last_row-All : (P : R → Type 0) (x : R) (xs : List R) → All P (x ∷ xs) → P (last_row x xs)
  last_row-All P x [] h = h.0
  last_row-All P x (y ∷ ys) h = last_row-All P y ys h.1

  pub limit-All : (P : R → Type 0) (n : ℕ) (rs : List R) → All P rs → All P (limit_rows n rs)
  unfolding limit_rows
  limit-All P zero rs h = tt
  limit-All P (suc n) [] h = tt
  limit-All P (suc n) (r ∷ rs) h = (h.0, limit-All P n rs h.1)

  pub select-All :
      (P : R → Type 0) (q : R → Bool) (rs : List R) → All P rs → All P (select_rows q rs)
  unfolding select_rows
  select-All P q [] h = tt
  select-All P q (r ∷ rs) h =
      elim (q r) as (λ b. All P (if b then r ∷ select_rows q rs else select_rows q rs)) [
        | true ↦ (h.0, select-All P q rs h.1)
        | false ↦ select-All P q rs h.1
      ]

  keep_if :
      (q : R → Bool) (r : R) (rest : List R)
      → All (λ x. q x ≡ true) rest
      → (b : Bool) → q r ≡ b
      → All (λ x. q x ≡ true) (if b then r ∷ rest else rest)
  keep_if q r rest hs true h = (h, hs)
  keep_if q r rest hs false h = hs

  pub select-test : (q : R → Bool) (rs : List R) → All (λ r. q r ≡ true) (select_rows q rs)
  unfolding select_rows
  select-test q [] = tt
  select-test q (r ∷ rs) = keep_if q r (select_rows q rs) (select-test q rs) (q r) refl

  pub select_every : (q : R → Bool) (rs : List R) → All (λ r. q r ≡ true) rs → select_rows q rs ≡ rs
  unfolding select_rows
  select_every q [] h = refl
  select_every q (r ∷ rs) h = rw h.0 (ap (λ l. r ∷ l) (select_every q rs h.1))

  -- A selection within another is one by both tests.
  pub select-select :
      (p q pq : R → Bool) (rs : List R)
      → All (λ r. pq r ≡ (p r && q r)) rs
      → select_rows q (select_rows p rs) ≡ select_rows pq rs
  unfolding select_rows
  select-select p q pq [] h = refl
  select-select p q pq (r ∷ rs) h = ground (arith, h.0, select-select p q pq rs h.1)

module _ {R : Type 0} (key : R → ℕ) where
  abbrev pub by_key : R → R → Bool
  by_key a b = leb (key a) (key b)

  abbrev pub IsSorted : List R → Type 0
  IsSorted [] = Unit
  IsSorted (x ∷ xs) = All (λ (r : R). key x < key r) xs × IsSorted xs

  -- The keys of the rows are different.
  abbrev pub AreKeyed : List R → Type 0
  AreKeyed [] = Unit
  AreKeyed (x ∷ xs) = All (λ (r : R). key x ≢ key r) xs × AreKeyed xs

  insert-All :
      (P : R → Type 0) (x : R) (xs : List R) → P x → All P xs → All P (insert_row by_key x xs)
  unfolding insert_row
  insert-All P x [] h hs = (h, tt)
  insert-All P x (y ∷ ys) h hs =
      elim (by_key x y) as (λ b. All P (if b then x ∷ y ∷ ys else y ∷ insert_row by_key x ys)) [
        | true ↦ (h, hs)
        | false ↦ (hs.0, insert-All P x ys h hs.1)
      ]

  above_mono :
      (x y : R) (ys : List R)
      → key x < key y
      → All (λ r. key y < key r) ys
      → All (λ r. key x < key r) ys
  above_mono x y [] h hs = tt
  above_mono x y (z ∷ zs) h hs = (omega (arith, h, hs.0), above_mono x y zs h hs.1)

  insert_before :
      (x y : R) (ys rest : List R)
      → key x ≢ key y
      → IsSorted (y ∷ ys)
      → (key y < key x → IsSorted (y ∷ rest))
      → (b : Bool) → by_key x y ≡ b
      → IsSorted (if b then x ∷ y ∷ ys else y ∷ rest)
  insert_before x y ys rest other s sorted true h =
      let less : key x < key y = ground (arith, h, other) in ((less, above_mono x y ys less s.0), s)
  insert_before x y ys rest other s sorted false h = sorted (ground (arith, h))

  insert-IsSorted :
      (x : R) (xs : List R)
      → All (λ r. key x ≢ key r) xs
      → IsSorted xs
      → IsSorted (insert_row by_key x xs)
  unfolding insert_row
  insert-IsSorted x [] h s = (tt, tt)
  insert-IsSorted x (y ∷ ys) h s =
      insert_before x y ys (insert_row by_key x ys) h.0 s
        (λ less. (insert-All (λ r. key y < key r) x ys less s.0, insert-IsSorted x ys h.1 s.1))
        (by_key x y) refl

  pub order-All : (P : R → Type 0) (xs : List R) → All P xs → All P (order_rows by_key xs)
  unfolding order_rows
  order-All P [] h = tt
  order-All P (x ∷ xs) h = insert-All P x (order_rows by_key xs) h.0 (order-All P xs h.1)

  pub order-IsSorted : (xs : List R) → AreKeyed xs → IsSorted (order_rows by_key xs)
  unfolding order_rows
  order-IsSorted [] h = tt
  order-IsSorted (x ∷ xs) h =
      insert-IsSorted x (order_rows by_key xs) (order-All (λ r. key x ≢ key r) xs h.0)
        (order-IsSorted xs h.1)

  pub select-AreKeyed : (q : R → Bool) (xs : List R) → AreKeyed xs → AreKeyed (select_rows q xs)
  unfolding select_rows
  select-AreKeyed q [] h = tt
  select-AreKeyed q (x ∷ xs) h =
      elim (q x) as (λ b. AreKeyed (if b then x ∷ select_rows q xs else select_rows q xs)) [
        | true ↦ (select-All (λ r. key x ≢ key r) q xs h.0, select-AreKeyed q xs h.1)
        | false ↦ select-AreKeyed q xs h.1
      ]

  insert_least :
      (x : R) (xs : List R) → All (λ r. key x < key r) xs → insert_row by_key x xs ≡ x ∷ xs
  unfolding insert_row
  insert_least x [] h = refl
  insert_least x (y ∷ ys) h = ground (arith, h.0)

  select-insert :
      (q : R → Bool) (x : R) (xs : List R)
      → IsSorted xs
      → All (λ r. key x ≢ key r) xs
      → select_rows q (insert_row by_key x xs)
        ≡ (if q x then insert_row by_key x (select_rows q xs) else select_rows q xs)
  unfolding insert_row select_rows
  select-insert q x [] s h = refl
  select-insert q x (y ∷ ys) s h = ground (
    arith,
    h.0,
    select-insert q x ys s.1 h.1,
    λ (less : key x < key y).
        insert_least x (select_rows q ys)
          (select-All (λ r. key x < key r) q ys (above_mono x y ys less s.0)),
  )

  pub select-order :
      (q : R → Bool) (xs : List R)
      → AreKeyed xs
      → select_rows q (order_rows by_key xs) ≡ order_rows by_key (select_rows q xs)
  unfolding order_rows select_rows
  select-order q [] h = refl
  select-order q (x ∷ xs) h =
      select-insert q x (order_rows by_key xs) (order-IsSorted xs h.1)
        (order-All (λ r. key x ≢ key r) xs h.0)
      ∙ ground (arith, select-order q xs h.1)

  select_above :
      (x : R) (xs : List R)
      → All (λ r. key x < key r) xs
      → select_rows (λ r. ltb (key x) (key r)) xs ≡ xs
  unfolding select_rows
  select_above x [] h = refl
  select_above x (y ∷ ys) h = ground (arith, h.0, select_above x ys h.1)

  -- What follows the last row of a page are the rows with a greater key.
  pub select-skip :
      (n : ℕ) (x : R) (xs : List R)
      → IsSorted (x ∷ xs)
      → select_rows (λ r. ltb (key (last_row x (limit_rows n xs))) (key r)) (x ∷ xs)
        ≡ skip_rows (suc n) (x ∷ xs)
  unfolding select_rows limit_rows skip_rows
  select-skip zero x xs s = ground (arith, select_above x xs s.0)
  select-skip (suc n) x [] s = ground arith
  select-skip (suc n) x (y ∷ ys) s =
      let z = last_row y (limit_rows n ys) in
      let above : key x < key z =
        last_row-All (λ r. key x < key r) y (limit_rows n ys)
          (s.0.0, limit-All (λ r. key x < key r) n ys s.0.1) in
      ground (arith, above, select-skip n y ys s.1)
