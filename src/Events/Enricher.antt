-- ===== src/Events/Enricher.antt =====
-- The identity of an event's contact, internal/worker/events/enricher.go. A panic is an answer of its
-- own: assigning to a nil map panics in `mergeTraits`.
use emailservice_worker.Prelude.{
  String, Bool, true, false, not, ◌||◌, Option, none, some, ◌=ₛ◌, if◌then◌else◌,
}
use emailservice_worker.Types.{Json, Fields, RawEventPayload}
use emailservice_worker.Effect.{M, pure, exec, ◌>>=◌, ◌>>◌, try, case_option, branch, new_uuid}
use emailservice_worker.Effect.Errors.{Result, ok, err, wrap}
use emailservice_worker.Postgres.Identity.{
  ContactRow, put_field, find_contact_by_user_id, find_contact_by_anonymous_id, upsert_contact,
  upsert_anonymous_contact, merge_anonymous_into_contact,
}

pub record EnrichmentResult : Type 0 where
  pub contact_id : String
  pub merged_traits : Option Fields
  pub enriched_data : Fields

-- `none` for a panic
abbrev pub Enriched : Type 0
Enriched = Result (Option EnrichmentResult)

-- `json.Marshal` of a map, which may be nil
abbrev pub marshal : Option Fields → Json
marshal none = Json.null
marshal (some f) = Json.object f

abbrev pub is_null_value : Json → Bool
is_null_value Json.null = true
is_null_value _ = false

-- The incoming values that are not nil are put over the others.
abbrev pub put_values : Fields → Fields → Fields
put_values a Fields.end = a
put_values a (Fields.field k v rest) =
    put_values (if is_null_value v then a else put_field k v a) rest

abbrev pub has_value : Fields → Bool
has_value Fields.end = false
has_value (Fields.field k v rest) = not (is_null_value v) || has_value rest

abbrev pub fields_or_end : Option Fields → Fields
fields_or_end none = Fields.end
fields_or_end (some f) = f

-- `none` for a panic. JSON null makes the map nil; other JSON that is no object leaves it empty.
unfoldable pub merge_traits : Json → Option Fields → Option (Option Fields)
merge_traits (Json.object existing) incoming =
    some (some (put_values existing (fields_or_end incoming)))
merge_traits Json.null incoming = if has_value (fields_or_end incoming) then none else some none
merge_traits _ incoming = some (some (put_values Fields.end (fields_or_end incoming)))

module _ (ev : RawEventPayload) where
  abbrev pub event_data : Fields
  event_data = Fields.field "eventType" (Json.text ev.event_type) Fields.end

  abbrev pub linked : String → Option Fields → Fields → EnrichmentResult
  linked id traits enriched = record {
    contact_id = id;
    merged_traits = traits;
    enriched_data = enriched;
  }

  abbrev unlinked : EnrichmentResult
  unlinked = linked "" none event_data

  abbrev found_with : ContactRow → Option (Option Fields) → Enriched
  found_with c none = ok none
  found_with c (some merged) = ok (some (linked c.id merged event_data))

  -- A contact that is there
  unfoldable pub found_contact : ContactRow → M Enriched
  unfolding merge_traits
  found_contact c = pure (found_with c (merge_traits c.traits ev.traits))

  unfoldable pub create_contact : String → M Enriched
  create_contact what = do
    fresh ← new_uuid
    try (exec (upsert_contact fresh ev.workspace_id ev.user_id ev.anonymous_id (marshal ev.traits)))
        (λ x. pure (err (wrap what x))) (λ id. pure (ok (some (linked id ev.traits event_data))))

  unfoldable pub track_user : M Enriched
  track_user =
      try (exec (find_contact_by_user_id ev.workspace_id ev.user_id))
        (λ x. pure (err (wrap "find contact by userId" x)))
        (λ contact. case_option contact (create_contact "upsert contact") found_contact)

  unfoldable pub create_anonymous : M Enriched
  create_anonymous = do
    fresh ← new_uuid
    try (exec (upsert_anonymous_contact fresh ev.workspace_id ev.anonymous_id (marshal ev.traits)))
        (λ x. pure (err (wrap "upsert anonymous contact" x)))
        (λ id. pure (ok (some (linked id ev.traits event_data))))

  unfoldable pub track_anonymous : M Enriched
  track_anonymous =
      try (exec (find_contact_by_anonymous_id ev.workspace_id ev.anonymous_id))
        (λ x. pure (err (wrap "find contact by anonymousId" x)))
        (λ contact. case_option contact create_anonymous found_contact)

  unfoldable pub handle_track : M Enriched
  handle_track =
      branch (not (ev.user_id =ₛ "")) track_user
        (branch (not (ev.anonymous_id =ₛ "")) track_anonymous (pure (ok (some unlinked))))

  -- Errors are only logged.
  unfoldable pub link_anonymous : String → M Unit
  link_anonymous id =
      try (exec (find_contact_by_anonymous_id ev.workspace_id ev.anonymous_id)) (λ _. pure tt)
        (λ contact. case_option contact (pure tt) (λ c.
          branch (c.id =ₛ id) (pure tt)
            (do exec (merge_anonymous_into_contact ev.workspace_id id ev.anonymous_id); pure tt)))

  abbrev with_flag : String → Fields
  with_flag k = put_field k (Json.boolean true) event_data

  unfoldable pub identify_user : M Enriched
  identify_user = do
    fresh ← new_uuid
    try (exec (upsert_contact fresh ev.workspace_id ev.user_id ev.anonymous_id (marshal ev.traits)))
        (λ x. pure (err (wrap "upsert contact (identify)" x)))
        (λ id. do
          branch (ev.anonymous_id =ₛ "") (pure tt) (link_anonymous id)
          pure (ok (some (linked id ev.traits (with_flag "identified")))))

  unfoldable pub handle_identify : M Enriched
  handle_identify = branch (ev.user_id =ₛ "") handle_track identify_user

  unfoldable pub alias_user : M Enriched
  alias_user = do
    fresh ← new_uuid
    try (exec (upsert_contact fresh ev.workspace_id ev.user_id ev.anonymous_id (marshal ev.traits)))
        (λ x. pure (err (wrap "upsert contact (alias)" x)))
        (λ id.
          try (exec (merge_anonymous_into_contact ev.workspace_id id ev.anonymous_id))
            (λ x. pure (err (wrap "merge alias" x)))
            (λ _. pure (ok (some (linked id ev.traits (with_flag "aliased"))))))

  unfoldable pub handle_alias : M Enriched
  handle_alias =
      branch (ev.user_id =ₛ "" || ev.anonymous_id =ₛ "") (pure (ok (some unlinked))) alias_user

  unfoldable pub enrich : M Enriched
  enrich =
      branch (ev.event_type =ₛ "identify") handle_identify
        (branch (ev.event_type =ₛ "alias") handle_alias handle_track)
