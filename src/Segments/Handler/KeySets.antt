-- ===== src/Segments/Handler/KeySets.antt =====
-- Go's maps used as sets, by their keys.
use emailservice_worker.Prelude.{
  ℕ, ◌+◌, ◌≡◌, refl, sym, ap, ◌∙◌, String, Bool, true, false, not, ◌&&◌, ◌||◌, [], ◌∷◌, ◌++◌, ◌=ₛ◌,
  length, if◌then◌else◌, arith, eq_iff,
}
use emailservice_worker.Postgres.Segments.{Keys, has_key, put_key}
use emailservice_worker.Segments.Handler.{diff}

abbrev pub are_distinct : Keys → Bool
are_distinct [] = true
are_distinct (k ∷ ks) = not (has_key k ks) && are_distinct ks

pub has_key-append : (k : String) (a b : Keys) → has_key k (a ++ b) ≡ (has_key k a || has_key k b)
has_key-append k [] b = refl
has_key-append k (j ∷ a) b = ground (arith, has_key-append k a b)

pub has_key-put_key :
    (k j : String) (ks : Keys) → has_key k (put_key j ks) ≡ (has_key k ks || (j =ₛ k))
unfolding put_key
has_key-put_key k j ks = ground (arith, eq_iff j k, has_key-append k ks (j ∷ []))

distinct-append :
    (k : String) (ks : Keys)
    → has_key k ks ≡ false
    → are_distinct ks ≡ true
    → are_distinct (ks ++ (k ∷ [])) ≡ true
distinct-append k [] h d = refl
distinct-append k (j ∷ ks) h d =
    ground (arith, eq_iff j k, eq_iff k j, has_key-append j ks (k ∷ []), distinct-append k ks)

pub distinct-put_key :
    (k : String) (ks : Keys) → are_distinct ks ≡ true → are_distinct (put_key k ks) ≡ true
unfolding put_key
distinct-put_key k ks d = ground (arith, distinct-append k ks)

pub has_key-diff :
    (k : String) (a b : Keys) → has_key k (diff a b) ≡ (has_key k a && not (has_key k b))
unfolding diff
has_key-diff k [] b = refl
has_key-diff k (j ∷ a) b = ground (arith, eq_iff j k, has_key-diff k a b)

-- How many keys of the first are in the second.
common : Keys → Keys → ℕ
common [] b = 0
common (k ∷ a) b = (if has_key k b then 1 else 0) + common a b

common_nil : (b : Keys) → common b [] ≡ 0
unfolding common
common_nil [] = refl
common_nil (k ∷ b) = omega (arith, common_nil b)

length-diff : (a b : Keys) → length (diff a b) + common a b ≡ length a
unfolding diff common
length-diff [] b = refl
length-diff (k ∷ a) b = ground (arith, length-diff a b)

common_cons :
    (k : String) (a b : Keys)
    → has_key k a ≡ false
    → are_distinct b ≡ true
    → common b (k ∷ a) ≡ (if has_key k b then 1 else 0) + common b a
unfolding common
common_cons k a [] h d = refl
common_cons k a (j ∷ b) h d = ground (arith, eq_iff k j, eq_iff j k, common_cons k a b h)

common_comm : (a b : Keys) → are_distinct a ≡ true → are_distinct b ≡ true → common a b ≡ common b a
unfolding common
common_comm [] b da db = ground (arith, common_nil b)
common_comm (k ∷ a) b da db = ground (arith, common_cons k a b, common_comm a b)

-- The count that the handler computes.
pub count-diff :
    (matched current : Keys)
    → are_distinct matched ≡ true
    → are_distinct current ≡ true
    → length current + length (diff matched current)
      ≡ length matched + length (diff current matched)
count-diff matched current dm dc = omega (
  arith,
  length-diff matched current,
  length-diff current matched,
  common_comm matched current dm dc,
)

diff_nil : (a b : Keys) → ((k : String) → has_key k a ≡ true → has_key k b ≡ true) → diff a b ≡ []
unfolding diff
diff_nil [] b h = refl
diff_nil (k ∷ a) b h =
    ground (arith, h k, eq_iff k k, diff_nil a b (λ j t. h j (ground (arith, t))))

-- Keys of the same set are as many.
pub length_same :
    (a b : Keys)
    → are_distinct a ≡ true
    → are_distinct b ≡ true
    → ((k : String) → has_key k a ≡ has_key k b)
    → length a ≡ length b
length_same a b da db h = omega (
  arith,
  length-diff a b,
  length-diff b a,
  common_comm a b da db,
  ap length (diff_nil a b (λ k t. sym (h k) ∙ t)),
  ap length (diff_nil b a (λ k t. h k ∙ t)),
)
