-- ===== src/Examples/Refreshes.antt =====
-- The refresh of a segment on concrete data.
use emailservice_worker.Prelude.{
  ℕ, ◌≡◌, refl, String, true, false, none, some, [], ◌∷◌, any, length, ◌==◌, HasRow, ◌=ₛ◌, arith,
  ltb, if◌then◌else◌, select_row, cut_prefix, map, ◌++◌,
}
use emailservice_worker.Types.{Json, SegmentRefreshPayload}
use emailservice_worker.Schema.{
  Database, ContactRecord, SegmentRecord, MembershipRow, empty_database,
}
use emailservice_worker.Effect.{Msg, ack, pure}
use emailservice_worker.Effect.Errors.{ok}
use emailservice_worker.Effect.Keeps.OnSettled.{SettledOnce}
use emailservice_worker.Postgres.Contacts.{
  ContactForEval, contact_for_eval, stream_contacts_for_eval,
}
use emailservice_worker.Postgres.Contacts.Pages.{live_after}
use emailservice_worker.Postgres.Contacts.Stream.{stream-collects}
use emailservice_worker.Postgres.Segments.{is_segment, insert_members, delete_members}
use emailservice_worker.Segments.Evaluator.{
  Conversions, FilterNode, node, nil, cons, matches, parse_filter_tree, eval_condition,
}
use emailservice_worker.Segments.Evaluator.Meaning.{IsSound, leaf_meaning, holds, matches-holds}
use emailservice_worker.Segments.Handler.{diff, handle_refresh}
use emailservice_worker.Segments.Handler.Members.{is_member, current_keys, sync-members}
use emailservice_worker.Segments.Evaluator.Documented.{is_read, entry, columns}
use emailservice_worker.Segments.Handler.Selected.{is_selected}
use emailservice_worker.Segments.Handler.Refinement.{IsReady, handle_refresh-refines}
use emailservice_worker.Segments.Handler.Settlement.{handle_refresh-Once}
use emailservice_worker.Examples.{calm, world_with}

-- The tree: the first name is Ann, or there is a phone.
abbrev pub tree : FilterNode
tree =
    node "OR"
      (cons (node "equals" nil "first_name" (Json.text "Ann"))
        (cons (node "exists" nil "phone" Json.null) nil))
      "" Json.null

abbrev pub conversions : Conversions
conversions = record {
  to_lower = λ s. s;
  to_upper = λ s. s;
  quote = λ s. s;
  format_int = λ n. "0";
  format_json = λ v. "";
  format_time = λ t. "";
  float_of_int = λ n. 0;
  parse_float = λ s. none;
  float_less = ltb;
  parse_object = λ s. none;
  parse_node = λ s. ok tree;
}

-- The number of a uuid
abbrev pub uuid : String → ℕ
uuid s = if s =ₛ "c1" then 1 else if s =ₛ "c2" then 2 else 3

abbrev contact : String → String → ContactRecord
contact id name = record {
  id = id;
  workspace_id = "w1";
  user_id = none;
  anonymous_id = none;
  email = none;
  first_name = some name;
  last_name = none;
  phone = none;
  lifecycle_stage = none;
  lead_score = none;
  properties = none;
  traits = none;
  status = "active";
  is_suppressed = none;
  is_email_valid = none;
  created_at = 0;
  updated_at = 0;
  deleted_at = none;
}

abbrev segment : SegmentRecord
segment = record {
  id = "g1";
  workspace_id = "w1";
  name = "Anns";
  filter_tree = some "[]";
  status = none;
  contact_count = 0;
  last_computed = none;
  updated_at = 0;
}

abbrev member : String → MembershipRow
member id = record { segment_id = "g1"; workspace_id = "w1"; contact_id = id }

-- Bob is a member, and Ann should be.
abbrev people : Database
people = record empty_database {
  contacts = contact "c2" "Bob" ∷ contact "c1" "Ann" ∷ [];
  segments = segment ∷ [];
  segment_memberships = member "c2" ∷ [];
}

abbrev job : SegmentRefreshPayload
job = record { workspace_id = "w1"; segment_id = "g1" }

abbrev message : Msg SegmentRefreshPayload
message = record { body = some job; num_delivered = some 1 }

ann : ContactForEval
ann = contact_for_eval (contact "c1" "Ann")

abbrev IsPerson : String → Type 0
IsPerson name = IsSound conversions "w1" [] (contact_for_eval (contact "c1" name)) tree

people-IsReady : IsReady conversions uuid job (some tree) people
unfolding select_row parse_filter_tree IsSound leaf_meaning eval_condition cut_prefix is_read entry
    columns
people-IsReady = record {
  segment = segment;
  is_there = refl;
  is_tree = refl;
  is_sound = (
    (refl, ((false, refl), ((false, refl), tt))),
    ((refl, ((true, refl), ((false, refl), tt))), tt),
  );
  is_read = (refl, (refl, tt));
  are_keyed = (((λ h. omega (arith, h)), tt), (tt, tt));
  have_ids = (refl, (refl, tt));
  is_of_workspace = ((λ _. refl), tt);
}

matches-holds_example :
    let w = world_with people in
    let (r, w') = matches conversions "w1" ann (some tree) calm w in
    (r ≡ ok true) × (w'.db ≡ people) × (w'.settled ≡ [])
unfolding holds leaf_meaning eval_condition cut_prefix IsSound ann
matches-holds_example =
    matches-holds conversions "w1" ann (some tree) calm (world_with people) (λ n. refl)
      (refl, ((true, refl), ((false, refl), tt)))

stream-collects_example :
    (stream_contacts_for_eval uuid "w1" 1
      (λ page s. pure (ok (s ++ page)))
      []
      calm
      (world_with people)).0
    ≡ ok (map contact_for_eval (live_after uuid "w1" "" people.contacts))
stream-collects_example =
    stream-collects uuid "w1" 0 calm (world_with people) (λ n. refl)
      (((λ h. omega (arith, h)), tt), (tt, tt)) (refl, (refl, tt))

sync-members_example :
    is_member "g1" "w1" "c1" (
      delete_members "g1" "w1"
        (diff (current_keys "g1" "w1" people.segment_memberships) ("c1" ∷ []))
        (insert_members "g1" "w1"
          (diff ("c1" ∷ []) (current_keys "g1" "w1" people.segment_memberships))
          people.segment_memberships))
    ≡ true
sync-members_example =
    sync-members "g1" "w1" "c1" ("c1" ∷ []) people.segment_memberships ((λ _. refl), tt)

handle_refresh-refines_example :
    let w' = (handle_refresh conversions uuid 5 message calm (world_with people)).1 in
    ((k : String)
      → is_member "g1" "w1" k w'.db.segment_memberships
        ≡ any (is_selected conversions "w1" [] (some tree) k) people.contacts)
    × HasRow
        (is_segment "g1" "w1")
        (λ r. r.contact_count == length (current_keys "g1" "w1" w'.db.segment_memberships))
        w'.db.segments
    × (w'.settled ≡ ack ∷ [])
handle_refresh-refines_example =
    handle_refresh-refines conversions uuid 5 message job (some tree) calm (world_with people)
      (λ n. refl) (λ n. refl) refl refl refl people-IsReady

handle_refresh-Once_example :
    SettledOnce [] (handle_refresh conversions uuid 5 message calm (world_with people)).1
handle_refresh-Once_example =
    handle_refresh-Once conversions uuid 5 message calm (world_with people)
