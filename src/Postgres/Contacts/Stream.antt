-- ===== src/Postgres/Contacts/Stream.antt =====
-- The loop of `StreamContactsForEval` of internal/infra/postgres/client.go.
use mathlib.Core.Path.{subst}
use emailservice_worker.Prelude.{
  ℕ, zero, suc, ◌<◌, ◌≤◌, ◌≡◌, refl, sym, ap, ◌∙◌, String, Bool, true, List, [], ◌∷◌, ◌++◌, map,
  length, All, ltb, limit_rows, select_rows, order_rows, insert_row, arith,
}
use emailservice_worker.Schema.{ContactRecord, Database}
use emailservice_worker.Effect.{M, Env, World, Settlement, pure}
use emailservice_worker.Effect.Errors.{Result, ok}
use emailservice_worker.Effect.Yields.{
  DbIsUp, Yields, On, Yields-try, Yields-branch, Yields-pure, Yields-read,
}
use emailservice_worker.Postgres.Keyset.{
  skip_rows, last_row, limit-skip, limit-short, length-skip, limit-All, AreKeyed,
}
use emailservice_worker.Postgres.Contacts.{
  ContactForEval, contact_for_eval, id_before, contacts_page, select_contacts, on_page,
  stream_pages, stream_contacts_for_eval,
}
use emailservice_worker.Postgres.Contacts.Pages.{
  fold_list, fold-append, length-map, map-append, last_id-map, key, live_after, HaveIds,
  live_after-All, live_after-next,
}

map-All :
    (P : ContactForEval → Type 0) (rows : List ContactRecord)
    → All (λ r. P (contact_for_eval r)) rows
    → All P (map contact_for_eval rows)
map-All P [] h = tt
map-All P (r ∷ rows) h = (h.0, map-All P rows h.1)

-- `fn` adds up `f` over a page, for contacts that satisfy `P`.
module _ {S : Type 0} {e : Env} (up : DbIsUp e) {st : List Settlement} (C : Database → Type 0)
    (contacts : List ContactRecord) (has_contacts : (d : Database) → C d → d.contacts ≡ contacts)
    (uuid : String → ℕ) (workspace_id : String) (n : ℕ)
    (fn : List ContactForEval → S → M (Result S)) (f : S → ContactForEval → S)
    (P : ContactForEval → Type 0)
    (fn_adds : (page : List ContactForEval) (s : S)
      → All P page
      → Yields e (On C st) (fn page s) (ok (fold_list f s page)) (On C st))
    (keyed : AreKeyed (key uuid workspace_id) contacts) (ids : HaveIds uuid workspace_id contacts)
    (good : All (λ r. P (contact_for_eval r)) contacts) where
  abbrev live : String → List ContactRecord
  live after_id = live_after uuid workspace_id after_id contacts

  abbrev Adds : (S → M (Result S)) → List ContactRecord → Type 0
  Adds m rows =
      (s : S) → Yields e (On C st) (m s) (ok (fold_list f s (map contact_for_eval rows))) (On C st)

  fold-page :
      (s : S) (rows : List ContactRecord)
      → fold_list f
          (fold_list f s (map contact_for_eval (limit_rows (suc n) rows)))
          (map contact_for_eval (skip_rows (suc n) rows))
        ≡ fold_list f s (map contact_for_eval rows)
  fold-page s rows =
      sym (fold-append f s (map contact_for_eval (limit_rows (suc n) rows)) _)
      ∙ ap (fold_list f s) (sym (map-append contact_for_eval (limit_rows (suc n) rows) _))
      ∙ ap (λ l. fold_list f s (map contact_for_eval l)) (limit-skip (suc n) rows)

  last-page :
      (s : S) (rows : List ContactRecord)
      → ltb (length (map contact_for_eval (limit_rows (suc n) rows))) (suc n) ≡ true
      → Yields e
          (On C st)
          (pure (ok s))
          (ok (fold_list f s (map contact_for_eval (skip_rows (suc n) rows))))
          (On C st)
  unfolding fold_list
  last-page s rows short =
      let none_left : skip_rows (suc n) rows ≡ [] =
        limit-short (suc n) rows
          (ground (arith, short, length-map contact_for_eval (limit_rows (suc n) rows))) in
      subst
        (λ l.
          Yields e (On C st) (pure (ok s)) (ok (fold_list f s (map contact_for_eval l))) (On C st))
        (sym none_left) (Yields-pure (λ w p. p))

  -- A page and the pages after it.
  on_page-Adds :
      (next : String → S → M (Result S)) (after_id : String) (rows : List ContactRecord)
      → live after_id ≡ rows
      → ((z : ContactRecord)
          → live z.id ≡ skip_rows (suc n) rows
          → length (skip_rows (suc n) rows) < length rows
          → Adds (next z.id) (live z.id))
      → Adds
          (λ s.
            on_page uuid workspace_id
              (suc n)
              fn
              next
              s
              (map contact_for_eval (limit_rows (suc n) rows)))
          rows
  unfolding on_page limit_rows fold_list skip_rows
  on_page-Adds next after_id [] h rest s = Yields-pure (λ w p. p)
  on_page-Adds next after_id (x ∷ xs) h rest s =
      let rows = x ∷ xs in
      let page = map contact_for_eval (limit_rows (suc n) rows) in
      let s' = fold_list f s page in
      let z = last_row x (limit_rows n xs) in
      let left : live z.id ≡ skip_rows n xs =
        live_after-next uuid workspace_id n after_id contacts x xs keyed ids h in
      let good_page : All P page = map-All P (limit_rows (suc n) rows) (
        limit-All (λ r. P (contact_for_eval r)) (suc n) rows
          (subst (All (λ r. P (contact_for_eval r))) h (
            live_after-All uuid workspace_id (λ r. P (contact_for_eval r)) after_id contacts
              good))) in
      let following : Yields e (On C st) (next z.id s')
          (ok (fold_list f s' (map contact_for_eval (skip_rows n xs)))) (On C st) =
        subst
          (λ l.
            Yields e (On C st) (next z.id s') (ok (fold_list f s' (map contact_for_eval l)))
              (On C st))
          left (rest z left (omega (arith, length-skip n xs)) s') in
      subst
        (λ r.
          Yields e (On C st) (on_page uuid workspace_id (suc n) fn next s page) (ok r) (On C st))
        (fold-page s rows)
        (Yields-try _ _ _ s' (fn_adds page s good_page) (
          Yields-branch _ (last-page s' rows) (λ _.
            subst
              (λ i.
                Yields e (On C st) (next i s')
                  (ok (fold_list f s' (map contact_for_eval (skip_rows n xs)))) (On C st))
              (sym (last_id-map x (limit_rows n xs))) following)))

  stream_pages-Adds :
      (fuel : ℕ) (after_id : String)
      → length (live after_id) < fuel
      → Adds (stream_pages uuid workspace_id (suc n) fn fuel after_id) (live after_id)
  unfolding stream_pages select_contacts contacts_page
  stream_pages-Adds zero after_id enough s = absurd (omega (arith, enough))
  stream_pages-Adds (suc fuel) after_id enough s =
      Yields-try _ _ _ _
        (Yields-read up (select_contacts uuid workspace_id after_id (suc n))
          (map contact_for_eval (limit_rows (suc n) (live after_id)))
          (λ t d c. rw (has_contacts d c) refl))
        (on_page-Adds (stream_pages uuid workspace_id (suc n) fn fuel) after_id (live after_id) refl
          (λ z left fewer.
            stream_pages-Adds fuel z.id (omega (arith, enough, fewer, ap length left)))
          s)

  length-insert :
      (r : ContactRecord) (rows : List ContactRecord)
      → length (insert_row (id_before uuid) r rows) ≡ suc (length rows)
  unfolding insert_row
  length-insert r [] = refl
  length-insert r (x ∷ rows) = ground (arith, length-insert r rows)

  length-order :
      (rows : List ContactRecord) → length (order_rows (id_before uuid) rows) ≡ length rows
  unfolding order_rows
  length-order [] = refl
  length-order (r ∷ rows) =
      omega (arith, length-insert r (order_rows (id_before uuid) rows), length-order rows)

  length-select :
      (q : ContactRecord → Bool) (rows : List ContactRecord)
      → length (select_rows q rows) ≤ length rows
  unfolding select_rows
  length-select q [] = omega arith
  length-select q (r ∷ rows) = ground (arith, length-select q rows)

  -- The loop ends, and adds up `f` over the live contacts.
  pub stream-Adds : Adds (stream_contacts_for_eval uuid workspace_id (suc n) fn) (live "")
  unfolding stream_contacts_for_eval
  stream-Adds s = record {
    at = λ w p.
        (stream_pages-Adds (suc (length w.db.contacts)) ""
            (omega (
              arith,
              length-order (select_rows _ contacts),
              length-select _ contacts,
              ap length (has_contacts w.db p.of_db),
            ))
            s).at
          w p;
  }

append_nil : (l : List ContactForEval) → l ++ [] ≡ l
append_nil [] = refl
append_nil (c ∷ l) = ap (λ x. c ∷ x) (append_nil l)

append_assoc : (a b c : List ContactForEval) → (a ++ b) ++ c ≡ a ++ (b ++ c)
append_assoc [] b c = refl
append_assoc (x ∷ a) b c = ap (λ l. x ∷ l) (append_assoc a b c)

fold-snoc : (s page : List ContactForEval) → fold_list (λ l c. l ++ (c ∷ [])) s page ≡ s ++ page
unfolding fold_list
fold-snoc s [] = sym (append_nil s)
fold-snoc s (c ∷ page) = fold-snoc (s ++ (c ∷ [])) page ∙ append_assoc s (c ∷ []) page

-- The stream ends, and its pages together are the contacts of the workspace that are not deleted,
-- each once, by the order of their ids. The hypotheses: every query is done, the page size is not
-- zero, and ids are not empty and numbered apart.
pub stream-collects :
    (uuid : String → ℕ) (workspace_id : String) (n : ℕ) (e : Env) (w : World)
    → DbIsUp e
    → AreKeyed (key uuid workspace_id) w.db.contacts
    → HaveIds uuid workspace_id w.db.contacts
    → (stream_contacts_for_eval uuid workspace_id
        (suc n)
        (λ page s. pure (ok (s ++ page)))
        []
        e
        w).0
      ≡ ok (map contact_for_eval (live_after uuid workspace_id "" w.db.contacts))
stream-collects uuid workspace_id n e w up keyed ids =
    let h =
      (stream-Adds up {st = w.settled} (λ d. d ≡ w.db) w.db.contacts (λ d c. ap (λ x. x.contacts) c)
          uuid workspace_id n (λ page s. pure (ok (s ++ page))) (λ l c. l ++ (c ∷ []))
          (λ c. Unit {0}) (λ page s _. collect s page) keyed ids (every w.db.contacts) []).at
        w (record { of_db = refl; of_settled = refl }) in
    h.0
    ∙ ap ok (fold-snoc [] (map contact_for_eval (live_after uuid workspace_id "" w.db.contacts)))
  where
    collect :
        (s page : List ContactForEval)
        → Yields e
            (On (λ d. d ≡ w.db) w.settled)
            (pure (ok (s ++ page)))
            (ok (fold_list (λ l c. l ++ (c ∷ [])) s page))
            (On (λ d. d ≡ w.db) w.settled)
    collect s page =
        subst
          (λ l.
            Yields e (On (λ d. d ≡ w.db) w.settled) (pure (ok (s ++ page))) (ok l)
              (On (λ d. d ≡ w.db) w.settled))
          (sym (fold-snoc s page)) (Yields-pure (λ x q. q))

    every : (rows : List ContactRecord) → All (λ r. Unit {0}) rows
    every [] = tt
    every (r ∷ rows) = (tt, every rows)
