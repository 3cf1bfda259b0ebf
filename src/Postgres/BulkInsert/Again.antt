-- ===== src/Postgres/BulkInsert/Again.antt =====
-- Runs of the bulk insert of internal/infra/postgres/client.go, one after another.
use emailservice_worker.Prelude.{
  ℕ, suc, ◌≡◌, refl, ◌∙◌, String, Bool, true, Option, none, some, List, [], ◌∷◌, ◌++◌, All, length,
  arith, eq_iff, select_row, update_rows, HasRow, HasRow-update_rows,
}
use emailservice_worker.Schema.{RecipientRow, Database}
use emailservice_worker.Postgres.BulkInsert.{
  Contact, is_target, add_or_touch, insert_recipient, insert_recipients,
  bulk_insert_campaign_recipients,
}

abbrev any_row : RecipientRow → Bool
any_row r = true

-- The contact has its row in the campaign.
abbrev pub HasRecipient : String → List RecipientRow → Contact → Type 0
HasRecipient campaign_id rows c = HasRow (is_target campaign_id c) any_row rows

module _ {ℓ} {R : Type ℓ} where
  length-update_rows :
      (p : R → Bool) (f : R → R) (rs : List R) → length (update_rows p f rs) ≡ length rs
  unfolding update_rows
  length-update_rows p f [] = refl
  length-update_rows p f (r ∷ rs) = omega (arith, length-update_rows p f rs)

  select_row-append :
      (p : R → Bool) (rs : List R) (x : R) (r : R)
      → select_row p rs ≡ some r
      → select_row p (rs ++ (x ∷ [])) ≡ some r
  unfolding select_row
  select_row-append p [] x r h = cc
  select_row-append p (y ∷ rs) x r h = ground (arith, h, select_row-append p rs x r)

  select_row-last :
      (p : R → Bool) (rs : List R) (x : R)
      → select_row p rs ≡ none
      → p x ≡ true
      → select_row p (rs ++ (x ∷ [])) ≡ some x
  unfolding select_row
  select_row-last p [] x h q = ground (arith, q)
  select_row-last p (y ∷ rs) x h q = ground (arith, h, select_row-last p rs x, q)

module _ (added : RecipientRow) (campaign_id : String) (now : ℕ) (c : Contact)
    (rows : List RecipientRow) where
  add-keeps :
      (c' : Contact) (o : Option RecipientRow)
      → HasRecipient campaign_id rows c'
      → HasRecipient campaign_id (add_or_touch added campaign_id now c rows o).1 c'
  unfolding add_or_touch
  add-keeps c' none h = (h.0, select_row-append _ rows added h.0 h.1, refl)
  add-keeps c' (some r) h =
      HasRow-update_rows (is_target campaign_id c') any_row any_row _ _ rows (λ x. refl)
        (λ x k f. refl) h

  add-makes :
      (o : Option RecipientRow)
      → select_row (is_target campaign_id c) rows ≡ o
      → is_target campaign_id c added ≡ true
      → HasRecipient campaign_id (add_or_touch added campaign_id now c rows o).1 c
  unfolding add_or_touch
  add-makes none q t = (added, select_row-last _ rows added q t, refl)
  add-makes (some r) q t =
      HasRow-update_rows (is_target campaign_id c) any_row any_row _ _ rows (λ x. refl)
        (λ x k f. refl) (r, q, refl)

  add-length :
      (o : Option RecipientRow) (r : RecipientRow)
      → o ≡ some r
      → length (add_or_touch added campaign_id now c rows o).1 ≡ length rows
  unfolding add_or_touch
  add-length none r q = cc
  add-length (some x) r q = length-update_rows _ _ rows

module _ (id campaign_id workspace_id : String) (now : ℕ) (c : Contact)
    (rows : List RecipientRow) where
  insert-keeps :
      (c' : Contact)
      → HasRecipient campaign_id rows c'
      → HasRecipient campaign_id (insert_recipient id campaign_id workspace_id now c rows).1 c'
  unfolding insert_recipient
  insert-keeps c' h =
      add-keeps _ campaign_id now c rows c' (select_row (is_target campaign_id c) rows) h

  insert-makes :
      HasRecipient campaign_id (insert_recipient id campaign_id workspace_id now c rows).1 c
  unfolding insert_recipient
  insert-makes =
      add-makes _ campaign_id now c rows (select_row (is_target campaign_id c) rows) refl
        (ground (arith, eq_iff campaign_id campaign_id, eq_iff c.id c.id))

  insert-length :
      HasRecipient campaign_id rows c
      → length (insert_recipient id campaign_id workspace_id now c rows).1 ≡ length rows
  unfolding insert_recipient
  insert-length (r, found, t) = add-length _ campaign_id now c rows _ r found

module _ (fresh : ℕ → String) (campaign_id workspace_id : String) (now : ℕ) where
  inserts-keep :
      (i : ℕ) (cs : List Contact) (rows : List RecipientRow) (c : Contact)
      → HasRecipient campaign_id rows c
      → HasRecipient campaign_id
          (insert_recipients fresh i campaign_id workspace_id now cs rows).1
          c
  unfolding insert_recipients
  inserts-keep i [] rows c h = h
  inserts-keep i (x ∷ cs) rows c h =
      inserts-keep (suc i) cs (insert_recipient (fresh i) campaign_id workspace_id now x rows).1 c
        (insert-keeps (fresh i) campaign_id workspace_id now x rows c h)

  inserts-make :
      (i : ℕ) (cs : List Contact) (rows : List RecipientRow)
      → All
          (HasRecipient campaign_id
            (insert_recipients fresh i campaign_id workspace_id now cs rows).1)
          cs
  unfolding insert_recipients
  inserts-make i [] rows = tt
  inserts-make i (x ∷ cs) rows =
      let rows1 = (insert_recipient (fresh i) campaign_id workspace_id now x rows).1 in
      (
        inserts-keep (suc i) cs rows1 x
            (insert-makes (fresh i) campaign_id workspace_id now x rows),
        inserts-make (suc i) cs rows1,
      )

All-map :
    {P Q : Contact → Type 0} (cs : List Contact) → ((c : Contact) → P c → Q c) → All P cs → All Q cs
All-map [] f h = tt
All-map (c ∷ cs) f h = (f c h.0, All-map cs f h.1)

inserts-length :
    (fresh : ℕ → String) (campaign_id workspace_id : String) (now i : ℕ) (cs : List Contact)
    (rows : List RecipientRow)
    → All (HasRecipient campaign_id rows) cs
    → length (insert_recipients fresh i campaign_id workspace_id now cs rows).1 ≡ length rows
unfolding insert_recipients
inserts-length fresh campaign_id workspace_id now i [] rows h = refl
inserts-length fresh campaign_id workspace_id now i (x ∷ cs) rows h =
    let rows1 = (insert_recipient (fresh i) campaign_id workspace_id now x rows).1 in
    let kept = All-map cs (insert-keeps (fresh i) campaign_id workspace_id now x rows) h.1 in
    inserts-length fresh campaign_id workspace_id now (suc i) cs rows1 kept
    ∙ insert-length (fresh i) campaign_id workspace_id now x rows h.0

-- The bulk insert gives every contact its row, whatever the table held.
pub bulk_insert-HasRecipient :
    (fresh : ℕ → String) (campaign_id workspace_id : String) (cs : List Contact) (now : ℕ)
    (db : Database)
    → All
        (HasRecipient campaign_id
          (bulk_insert_campaign_recipients fresh campaign_id workspace_id cs now
            db).1.campaign_recipients)
        cs
unfolding bulk_insert_campaign_recipients
bulk_insert-HasRecipient fresh campaign_id workspace_id cs now db =
    inserts-make fresh campaign_id workspace_id now 0 cs db.campaign_recipients

-- The bulk insert is idempotent: run again at any time, with whatever new ids, it adds no row.
pub bulk_insert-again :
    (fresh fresh' : ℕ → String) (campaign_id workspace_id : String) (cs : List Contact)
    (now later : ℕ) (db : Database)
    → let db1 = (bulk_insert_campaign_recipients fresh campaign_id workspace_id cs now db).1 in
      let db2 = (bulk_insert_campaign_recipients fresh' campaign_id workspace_id cs later db1).1 in
      length db2.campaign_recipients ≡ length db1.campaign_recipients
unfolding bulk_insert_campaign_recipients
bulk_insert-again fresh fresh' campaign_id workspace_id cs now later db =
    inserts-length fresh' campaign_id workspace_id later 0 cs _
      (inserts-make fresh campaign_id workspace_id now 0 cs db.campaign_recipients)
