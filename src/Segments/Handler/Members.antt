-- ===== src/Segments/Handler/Members.antt =====
-- What the statements on segment_memberships make of the members of a segment.
use emailservice_worker.Prelude.{
  ◌≡◌, refl, String, Bool, true, false, not, ◌&&◌, ◌||◌, List, [], ◌∷◌, ◌++◌, ◌=ₛ◌, any, All,
  select_rows, if◌then◌else◌, arith, eq_iff,
}
use emailservice_worker.Schema.{MembershipRow}
use emailservice_worker.Postgres.Segments.{
  Keys, has_key, put_key, keys_of, is_member_row, is_membership, is_row, insert_member,
  insert_members, delete_member, delete_members,
}
use emailservice_worker.Segments.Handler.KeySets.{
  are_distinct, has_key-put_key, distinct-put_key, has_key-diff,
}
use emailservice_worker.Segments.Handler.{diff}

-- The rows of the segment are of the workspace.
abbrev pub IsOfWorkspace : String → String → List MembershipRow → Type 0
IsOfWorkspace segment_id workspace_id rows =
    All (λ (r : MembershipRow). r.segment_id ≡ segment_id → r.workspace_id ≡ workspace_id) rows

module _ (s v : String) where
  abbrev pub is_member : String → List MembershipRow → Bool
  is_member k rows = any (is_row s v k) rows

  pub keys_of-member :
      (k : String) (ks : Keys) (rows : List MembershipRow)
      → has_key k (keys_of ks (select_rows (is_member_row s v) rows))
        ≡ (has_key k ks || is_member k rows)
  unfolding keys_of select_rows
  keys_of-member k ks [] = ground arith
  keys_of-member k ks (r ∷ rows) = ground (
    arith,
    eq_iff r.contact_id k,
    has_key-put_key k r.contact_id ks,
    keys_of-member k ks rows,
    keys_of-member k (put_key r.contact_id ks) rows,
  )

  pub keys_of-distinct :
      (ks : Keys) (rows : List MembershipRow)
      → are_distinct ks ≡ true
      → are_distinct (keys_of ks rows) ≡ true
  unfolding keys_of
  keys_of-distinct ks [] d = d
  keys_of-distinct ks (r ∷ rows) d =
      keys_of-distinct (put_key r.contact_id ks) rows (distinct-put_key r.contact_id ks d)

  any-append :
      (k : String) (a b : List MembershipRow)
      → is_member k (a ++ b) ≡ (is_member k a || is_member k b)
  any-append k [] b = refl
  any-append k (r ∷ a) b = ground (arith, any-append k a b)

  conflict-member :
      (k : String) (rows : List MembershipRow)
      → IsOfWorkspace s v rows
      → any (is_membership s k) rows ≡ is_member k rows
  conflict-member k [] h = refl
  conflict-member k (r ∷ rows) h =
      ground (arith, h, eq_iff r.segment_id s, eq_iff r.workspace_id v, conflict-member k rows)

  append-OfWorkspace :
      (r : MembershipRow) (rows : List MembershipRow)
      → r.workspace_id ≡ v
      → IsOfWorkspace s v rows
      → IsOfWorkspace s v (rows ++ (r ∷ []))
  append-OfWorkspace r [] e h = ((λ _. e), tt)
  append-OfWorkspace r (x ∷ rows) e h = (h.0, append-OfWorkspace r rows e h.1)

  insert_member-OfWorkspace :
      (k : String) (rows : List MembershipRow)
      → IsOfWorkspace s v rows
      → IsOfWorkspace s v (insert_member s v k rows)
  unfolding insert_member
  insert_member-OfWorkspace k rows h =
      let added : MembershipRow = record { segment_id = s; workspace_id = v; contact_id = k } in
      elim (any (is_membership s k) rows)
        as (λ b. IsOfWorkspace s v (if b then rows else rows ++ (added ∷ []))) [
          | true ↦ h
          | false ↦ append-OfWorkspace added rows refl h
        ]

  insert_member-member :
      (k j : String) (rows : List MembershipRow)
      → IsOfWorkspace s v rows
      → is_member k (insert_member s v j rows) ≡ (is_member k rows || (j =ₛ k))
  unfolding insert_member
  insert_member-member k j rows h = ground (
    arith,
    eq_iff s s,
    eq_iff v v,
    eq_iff j k,
    conflict-member j rows h,
    any-append k rows (record { segment_id = s; workspace_id = v; contact_id = j } ∷ []),
  )

  insert_members-member :
      (k : String) (ids : List String) (rows : List MembershipRow)
      → IsOfWorkspace s v rows
      → is_member k (insert_members s v ids rows) ≡ (is_member k rows || has_key k ids)
  unfolding insert_members
  insert_members-member k [] rows h = ground arith
  insert_members-member k (j ∷ ids) rows h = ground (
    arith,
    insert_member-member k j rows h,
    insert_members-member k ids (insert_member s v j rows) (insert_member-OfWorkspace j rows h),
  )

  delete_member-member :
      (k j : String) (rows : List MembershipRow)
      → is_member k (delete_member s v j rows) ≡ (is_member k rows && not (j =ₛ k))
  unfolding delete_member select_rows
  delete_member-member k j [] = refl
  delete_member-member k j (r ∷ rows) = ground (
    arith,
    eq_iff r.segment_id s,
    eq_iff r.workspace_id v,
    eq_iff r.contact_id j,
    eq_iff r.contact_id k,
    eq_iff j k,
    delete_member-member k j rows,
  )

  delete_members-member :
      (k : String) (ids : List String) (rows : List MembershipRow)
      → is_member k (delete_members s v ids rows) ≡ (is_member k rows && not (has_key k ids))
  unfolding delete_members
  delete_members-member k [] rows = ground arith
  delete_members-member k (j ∷ ids) rows =
      ground (
        arith,
        delete_member-member k j rows,
        delete_members-member k ids (delete_member s v j rows),
      )

-- The keys of the map that `GetCurrentMemberIDs` returns.
abbrev pub current_keys : String → String → List MembershipRow → Keys
current_keys s v rows = keys_of [] (select_rows (is_member_row s v) rows)

-- Inserting what is missing and deleting what is left over makes the members exactly the matched
-- contacts, whatever they were before. The hypothesis: the rows of the segment are of the workspace.
pub sync-members :
    (s v k : String) (matched : Keys) (rows : List MembershipRow)
    → IsOfWorkspace s v rows
    → let current = current_keys s v rows in
      is_member s v k
        (delete_members s v (diff current matched) (insert_members s v (diff matched current) rows))
      ≡ has_key k matched
sync-members s v k matched rows h =
    let current = current_keys s v rows in
    ground (
      arith,
      keys_of-member s v k [] rows,
      has_key-diff k matched current,
      has_key-diff k current matched,
      insert_members-member s v k (diff matched current) rows h,
      delete_members-member s v k (diff current matched)
          (insert_members s v (diff matched current) rows),
    )
