-- ===== src/Postgres/SegmentContacts/Page.antt =====
-- The pages of `FetchSegmentContactsBatch`, internal/infra/postgres/client.go, get fewer.
use emailservice_worker.Prelude.{
  ℕ, ◌<◌, ◌≤◌, ◌≡◌, refl, String, Bool, true, false, ◌&&◌, Option, none, some, List, [], ◌∷◌, ◌++◌,
  map, length, All, ltb, ◌=ₛ◌, select_rows, order_rows, limit_rows, arith,
}
use mathlib.Core.Path.{subst}
use emailservice_worker.Schema.{ContactRecord, MembershipRow}
use emailservice_worker.Effect.Errors.{Result, ok, err}
use emailservice_worker.Postgres.BulkInsert.{Contact}
use emailservice_worker.Postgres.Contacts.{is_after, id_before}
use emailservice_worker.Postgres.Keyset.{limit-All, select-All, select-test, order-All}
use emailservice_worker.Postgres.SegmentContacts.{
  is_member_of, join_members, is_mailable, scan_row, scan_contacts,
}

append-All : {R : Type 0} (P : R → Type 0) (a b : List R) → All P a → All P b → All P (a ++ b)
append-All P [] b h k = k
append-All P (x ∷ a) b h k = (h.0, append-All P a b h.1 k)

copies-All : {R S : Type 0} (P : R → Type 0) (r : R) (xs : List S) → P r → All P (map (λ _. r) xs)
copies-All P r [] h = tt
copies-All P r (x ∷ xs) h = (h, copies-All P r xs h)

pub join-All :
    (P : ContactRecord → Type 0) (segment_id : String) (ms : List MembershipRow)
    (rows : List ContactRecord)
    → All P rows
    → All P (join_members segment_id ms rows)
unfolding join_members
join-All P segment_id ms [] h = tt
join-All P segment_id ms (c ∷ cs) h =
    append-All P (map (λ _. c) (select_rows (is_member_of segment_id c) ms)) _
      (copies-All P c (select_rows (is_member_of segment_id c) ms) h.0)
      (join-All P segment_id ms cs h.1)

-- What holds of each row that every property of all rows holds of.
every_row :
    {R : Type 0} (T : R → Type 0) (rs : List R)
    → ((z : R) → ((P : R → Type 0) → All P rs → P z) → T z)
    → All T rs
every_row T [] h = tt
every_row T (r ∷ rs) h = (h r (λ P a. a.0), every_row T rs (λ z m. h z (λ P a. m P a.1)))

both-All :
    {R : Type 0} (P Q : R → Type 0) (rs : List R) → All P rs → All Q rs → All (λ r. P r × Q r) rs
both-All P Q [] h k = tt
both-All P Q (r ∷ rs) h k = ((h.0, k.0), both-All P Q rs h.1 k.1)

module _ {R : Type 0} (p q : R → Bool) where
  abbrev Below : R → Type 0
  Below r = q r ≡ true → p r ≡ true

  select-Below :
      (rs : List R) → All Below rs → length (select_rows q rs) ≤ length (select_rows p rs)
  unfolding select_rows
  select-Below [] h = omega arith
  select-Below (r ∷ rs) h = ground (arith, h.0, select-Below rs h.1)

  -- Where the smaller selection is not shorter, the two are the same.
  select_same :
      (rs : List R)
      → All Below rs
      → length (select_rows p rs) ≤ length (select_rows q rs)
      → All (λ r. p r ≡ true → q r ≡ true) rs
  unfolding select_rows
  select_same [] h k = tt
  select_same (r ∷ rs) h k = (
    λ t. ground (arith, h.0, select-Below rs h.1, k, t),
    select_same rs h.1 (ground (arith, h.0, select-Below rs h.1, k)),
  )

  select_fewer :
      (rs : List R) (z : R)
      → All Below rs
      → ((P : R → Type 0) → All P rs → P z)
      → p z ≡ true
      → q z ≡ false
      → length (select_rows q rs) < length (select_rows p rs)
  select_fewer rs z h of_z is_p not_q =
      elim (ltb (length (select_rows q rs)) (length (select_rows p rs)))
          as (λ b.
            ltb (length (select_rows q rs)) (length (select_rows p rs)) ≡ b
            → length (select_rows q rs) < length (select_rows p rs)) [
              | true ↦ λ t. ground (arith, t)
              | false ↦ λ t. absurd (
                  ground (
                    arith,
                    not_q,
                    of_z (λ r. p r ≡ true → q r ≡ true) (select_same rs h (ground (arith, t))) is_p,
                  ))
            ]
        refl

module _ (uuid : String → ℕ) (workspace_id : String) (rows : List ContactRecord)
    (ids : All (λ r. (r.id =ₛ "") ≡ false) rows) where
  abbrev pub mailable_after : String → ContactRecord → Bool
  mailable_after after_id r = is_mailable workspace_id r && is_after uuid after_id r.id

  -- How many rows are left after an id.
  abbrev pub left_after : String → ℕ
  left_after after_id = length (select_rows (mailable_after after_id) rows)

  after_mono :
      (after_id : String) (z r : ContactRecord)
      → (z.id =ₛ "") ≡ false
      → mailable_after after_id z ≡ true
      → mailable_after z.id r ≡ true
      → mailable_after after_id r ≡ true
  after_mono after_id z r h t k = ground (arith, h, t, k)

  not_after_itself : (z : ContactRecord) → (z.id =ₛ "") ≡ false → mailable_after z.id z ≡ false
  not_after_itself z h = ground (arith, h)

  rows_below :
      (after_id : String) (z : ContactRecord) (rs : List ContactRecord)
      → (z.id =ₛ "") ≡ false
      → mailable_after after_id z ≡ true
      → All (λ r. mailable_after z.id r ≡ true → mailable_after after_id r ≡ true) rs
  rows_below after_id z [] h t = tt
  rows_below after_id z (r ∷ rs) h t = (after_mono after_id z r h t, rows_below after_id z rs h t)

  each_fewer :
      (after_id : String)
      → All (λ z. mailable_after after_id z ≡ true → left_after z.id < left_after after_id) rows
  each_fewer after_id =
      every_row (λ z. mailable_after after_id z ≡ true → left_after z.id < left_after after_id) rows
        (λ z of_z t.
          let has_id : (z.id =ₛ "") ≡ false = of_z (λ r. (r.id =ₛ "") ≡ false) ids in
          select_fewer (mailable_after after_id) (mailable_after z.id) rows z
            (rows_below after_id z rows has_id t) of_z t (not_after_itself z has_id))

  abbrev pub page_rows : String → ℕ → List ContactRecord
  page_rows after_id limit =
      limit_rows limit (order_rows (id_before uuid) (select_rows (mailable_after after_id) rows))

  applied :
      (P Q : ContactRecord → Type 0) (rs : List ContactRecord)
      → All (λ r. P r × (P r → Q r)) rs
      → All Q rs
  applied P Q [] h = tt
  applied P Q (r ∷ rs) h = (h.0.1 h.0.0, applied P Q rs h.1)

  pub page_fewer :
      (after_id : String) (limit : ℕ)
      → All (λ z. left_after z.id < left_after after_id) (page_rows after_id limit)
  page_fewer after_id limit =
      let Fewer : ContactRecord → Type 0 = λ z. left_after z.id < left_after after_id in
      limit-All Fewer limit _ (
        order-All (λ r. uuid r.id) Fewer _
          (applied (λ z. mailable_after after_id z ≡ true) Fewer _
            (both-All (λ z. mailable_after after_id z ≡ true)
              (λ z. mailable_after after_id z ≡ true → Fewer z) _
              (select-test (mailable_after after_id) rows)
              (select-All (λ z. mailable_after after_id z ≡ true → Fewer z)
                (mailable_after after_id) rows (each_fewer after_id)))))

-- Of the contacts, where the rows can be read.
abbrev AllOk : (String → Type 0) → Result (List Contact) → Type 0
AllOk P (ok cs) = All (λ c. P c.id) cs
AllOk P (err x) = Unit

scan_row-AllOk :
    (P : String → Type 0) (r : ContactRecord) (email : Option String) (rest : Result (List Contact))
    → P r.id
    → AllOk P rest
    → AllOk P (scan_row r email rest)
scan_row-AllOk P r none rest h k = tt
scan_row-AllOk P r (some email) (err x) h k = tt
scan_row-AllOk P r (some email) (ok cs) h k = (h, k)

scan-AllOk :
    (P : String → Type 0) (rs : List ContactRecord)
    → All (λ r. P r.id) rs
    → AllOk P (scan_contacts rs)
unfolding scan_contacts
scan-AllOk P [] h = tt
scan-AllOk P (r ∷ rs) h = scan_row-AllOk P r r.email (scan_contacts rs) h.0 (scan-AllOk P rs h.1)

pub scan-All :
    (P : String → Type 0) (rs : List ContactRecord) (cs : List Contact)
    → All (λ r. P r.id) rs
    → scan_contacts rs ≡ ok cs
    → All (λ c. P c.id) cs
scan-All P rs cs h t = subst (AllOk P) t (scan-AllOk P rs h)

pub length-select :
    {R : Type 0} (q : R → Bool) (rows : List R) → length (select_rows q rows) ≤ length rows
unfolding select_rows
length-select q [] = omega arith
length-select q (r ∷ rows) = ground (arith, length-select q rows)
