-- ===== src/Segments/Evaluator.antt =====
-- Filter trees and their evaluation, internal/worker/segments/evaluator.go. A `rules` array that
-- holds a JSON null, on which `eval` panics, is not in the data.
pub mod Meaning
pub mod Documented
use Prim.Native.String.{◌++◌}
use emailservice_worker.Prelude.{
  ℕ, ℤ, String, Bool, true, false, not, ◌&&◌, ◌||◌, Option, none, some, ◌=ₛ◌, if◌then◌else◌, Text,
  to_chars, of_chars, has_prefix, has_suffix, contains, cut_prefix, split_dot,
}
use emailservice_worker.Types.{Json, Items, Fields}
use emailservice_worker.Effect.{M, pure, exec, try, branch, case_option}
use emailservice_worker.Effect.Errors.{Error, Result, ok, err, text, wrap}
use emailservice_worker.Postgres.Contacts.{ContactForEval, contact_has_performed_event}

-- A node is a group, if it has rules, or a leaf.
mutual
  pub data FilterNode : Type 0 where
    node : (operator : String) → Rules → (field : String) → (value : Json) → FilterNode

  pub data Rules : Type 0 where
    nil : Rules
    cons : FilterNode → Rules → Rules

-- What the evaluator takes from Go's packages: `ToLower`, `ToUpper`, the verbs `%q` and `%v`,
-- RFC 3339, float64 (by its bits) and the decoding of JSON.
pub record Conversions : Type 0 where
  pub to_lower : String → String
  pub to_upper : String → String
  pub quote : String → String
  pub format_int : ℤ → String
  pub format_json : Json → String
  pub format_time : ℕ → String
  pub float_of_int : ℤ → ℕ
  pub parse_float : String → Option ℕ
  pub float_less : ℕ → ℕ → Bool
  pub parse_object : String → Option Fields
  pub parse_node : String → Result FilterNode

unfoldable pub parse_filter_tree : Conversions → String → Result (Option FilterNode)
parse_filter_tree g s =
    if s =ₛ "" || s =ₛ "{}" || s =ₛ "null"
    then ok none
    else elim (g.parse_node s) [ ok n ↦ ok (some n) | err x ↦ err (wrap "parse filter tree" x) ]

-- The `interface{}` of a field: a decoded JSON value, or the `int` of a lead score.
pub data Value : Type 0 where
  json : Json → Value
  int : ℤ → Value

abbrev pub is_nil : Value → Bool
is_nil (json Json.null) = true
is_nil _ = false

-- `fmt.Sprintf("%v", v)`
unfoldable pub sprint : Conversions → Value → String
sprint g (json (Json.text s)) = s
sprint g (json v) = g.format_json v
sprint g (int n) = g.format_int n

-- A missing key is nil.
abbrev pub lookup : String → Fields → Json
lookup k Fields.end = Json.null
lookup k (Fields.field j v rest) = if j =ₛ k then v else lookup k rest

abbrev pub lookup_in : String → Json → Json
lookup_in k (Json.object fields) = lookup k fields
lookup_in k _ = Json.null

-- The key up to its first dot, and what follows that in the object found there.
abbrev pub find_field : Fields → Text × Option Text → Json
find_field m (k, none) = lookup (of_chars k) m
find_field m (k, some rest) = lookup_in (of_chars rest) (lookup (of_chars k) m)

-- The error is nil on every path; malformed JSON has no field.
unfoldable pub extract_jsonb_field : Conversions → String → String → Json
unfolding split_dot
extract_jsonb_field g properties key =
    if properties =ₛ "" then Json.null else elim (g.parse_object properties) [
      | none ↦ Json.null
      | some m ↦ find_field m (split_dot (to_chars key))
    ]

abbrev pub of_text : String → Value
of_text s = json (Json.text s)

abbrev pub extract_property : Conversions → ContactForEval → Option String → Value
extract_property g ct none = json Json.null
extract_property g ct (some key) = json (extract_jsonb_field g ct.properties key)

-- The error is nil on every path.
unfoldable pub extract_field : Conversions → ContactForEval → String → Value
unfolding extract_jsonb_field cut_prefix
extract_field g ct field =
    if field =ₛ "email"
    then of_text ct.email
    else if field =ₛ "first_name" || field =ₛ "firstName"
    then of_text ct.first_name
    else if field =ₛ "last_name" || field =ₛ "lastName"
    then of_text ct.last_name
    else if field =ₛ "phone"
    then of_text ct.phone
    else if field =ₛ "lifecycle_stage" || field =ₛ "lifecycleStage"
    then of_text ct.lifecycle_stage
    else if field =ₛ "lead_score" || field =ₛ "leadScore"
    then int ct.lead_score
    else if field =ₛ "created_at" || field =ₛ "createdAt"
    then of_text (g.format_time ct.created_at)
    else extract_property g ct (cut_prefix "properties." field)

unfoldable pub compare_equal : Conversions → Value → Value → Bool
unfolding sprint
compare_equal g a b = sprint g a =ₛ sprint g b

abbrev pub lower_chars : Conversions → Value → Text
lower_chars g a = to_chars (g.to_lower (sprint g a))

unfoldable pub compare_contains : Conversions → Value → Value → Bool
unfolding sprint contains
compare_contains g a b = contains (lower_chars g a) (lower_chars g b)

unfoldable pub compare_starts_with : Conversions → Value → Value → Bool
unfolding sprint
compare_starts_with g a b = has_prefix (lower_chars g a) (lower_chars g b)

unfoldable pub compare_ends_with : Conversions → Value → Value → Bool
unfolding sprint has_suffix
compare_ends_with g a b = has_suffix (lower_chars g a) (lower_chars g b)

-- Values are decoded JSON or an `int`; `none` for an error.
unfoldable pub to_float : Conversions → Value → Option ℕ
to_float g (json (Json.number x)) = some x
to_float g (json (Json.text s)) = g.parse_float s
to_float g (int n) = some (g.float_of_int n)
to_float g _ = none

-- `compareNumeric`, with the comparison in the place of its operator
unfoldable pub compare_numeric : Conversions → Value → Value → (ℕ → ℕ → Bool) → Result Bool
unfolding to_float sprint
compare_numeric g a b less = elim (to_float g a) [
  | none ↦ ok false
  | some x ↦ elim (to_float g b) [
    | none ↦ err (text ("numeric comparison: invalid value " ++ sprint g b))
    | some y ↦ ok (less x y)
  ]
]

abbrev pub any_item : (Json → Bool) → Items → Bool
any_item p Items.nil = false
any_item p (Items.cons x xs) = p x || any_item p xs

-- Only an array decodes to a slice.
unfoldable pub compare_in : Conversions → Value → Json → Bool
unfolding compare_equal sprint
compare_in g a (Json.array items) = any_item (λ x. sprint g (json x) =ₛ sprint g a) items
compare_in g a b = compare_equal g a (json b)

-- Is the field set, and not to ""?
abbrev pub is_set : Conversions → Value → Bool
is_set g v = not (is_nil v) && not (sprint g v =ₛ "")

-- The operators on a field that is not nil.
unfoldable pub compare_value : Conversions → String → Value → Json → Result Bool
unfolding compare_equal compare_contains compare_starts_with compare_ends_with compare_numeric
    compare_in
compare_value g operator v value =
    if operator =ₛ "equals"
    then ok (compare_equal g v (json value))
    else if operator =ₛ "not_equals"
    then ok (not (compare_equal g v (json value)))
    else if operator =ₛ "contains"
    then ok (compare_contains g v (json value))
    else if operator =ₛ "starts_with"
    then ok (compare_starts_with g v (json value))
    else if operator =ₛ "ends_with"
    then ok (compare_ends_with g v (json value))
    else if operator =ₛ "greater_than"
    then compare_numeric g v (json value) (λ x y. g.float_less y x)
    else if operator =ₛ "less_than"
    then compare_numeric g v (json value) g.float_less
    else if operator =ₛ "in"
    then ok (compare_in g v value)
    else if operator =ₛ "not_in"
    then ok (not (compare_in g v value))
    else err (text ("unknown operator: " ++ g.quote operator))

unfoldable pub eval_condition : Conversions → ContactForEval → String → String → Json → Result Bool
unfolding extract_field compare_value sprint
eval_condition g ct operator field value =
    let v = extract_field g ct field in
    if operator =ₛ "exists"
    then ok (is_set g v)
    else if operator =ₛ "not_exists"
    then ok (not (is_set g v))
    else if is_nil v
    then ok false
    else compare_value g operator v value

module _ (g : Conversions) (workspace_id : String) (ct : ContactForEval) where
  abbrev has_performed : String → M (Result Bool)
  has_performed event_name = exec (contact_has_performed_event workspace_id ct.id event_name)

  -- A leaf on an event
  unfoldable pub eval_event : String → String → M (Result Bool)
  eval_event operator event_name =
      branch (operator =ₛ "exists" || operator =ₛ "occurred_within_days") (has_performed event_name)
        (branch (operator =ₛ "not_exists")
          (try (has_performed event_name) (λ x. pure (err x)) (λ b. pure (ok (not b))))
          (pure (ok false)))

  unfoldable pub eval_leaf : String → String → Json → M (Result Bool)
  unfolding eval_event cut_prefix eval_condition
  eval_leaf operator field value =
      case_option (cut_prefix "event:" field) (pure (eval_condition g ct operator field value))
        (eval_event operator)

  unfoldable mutual
    -- `eval`, with the dispatch of `evalLogic` on the operator
    pub eval : FilterNode → M (Result Bool)
    eval (node operator nil field value) = eval_leaf operator field value
    eval (node operator (cons c cs) field value) =
        branch (g.to_upper operator =ₛ "AND") (eval_and (cons c cs)) (
          branch (g.to_upper operator =ₛ "OR") (eval_or (cons c cs))
            (pure (err (text ("unknown logic operator: " ++ g.quote operator)))))

    -- The loops of `evalLogic`
    pub eval_and : Rules → M (Result Bool)
    eval_and nil = pure (ok true)
    eval_and (cons c cs) =
        try (eval c) (λ x. pure (err x)) (λ b. branch b (eval_and cs) (pure (ok false)))

    pub eval_or : Rules → M (Result Bool)
    eval_or nil = pure (ok false)
    eval_or (cons c cs) =
        try (eval c) (λ x. pure (err x)) (λ b. branch b (pure (ok true)) (eval_or cs))

  -- A nil tree matches every contact.
  unfoldable pub matches : Option FilterNode → M (Result Bool)
  matches tree = case_option tree (pure (ok true)) eval
