-- ===== src/Segments/Evaluator/Documented.antt =====
-- What a filter tree selects on a row of contacts, after docs/workers/segment-computation.md: a table
-- of the fields, with the lifecycle stage and the lead score that only
-- internal/worker/segments/evaluator.go has, a table of the operators, and the groups. The groups and
-- the event leaves are spelled as the evaluator decodes them. NULL in a column of text is read as "",
-- and a comparison with a field that is missing does not hold.
use Prim.Native.String.{◌++◌}
use emailservice_worker.Prelude.{
  ℕ, ◌≡◌, refl, ap, ◌∙◌, String, Bool, true, false, not, ◌&&◌, ◌||◌, Option, none, some, List, [],
  ◌∷◌, any, ◌=ₛ◌, if◌then◌else◌, cut_prefix, split_dot, to_chars, of_chars, Text, contains,
  has_prefix, has_suffix, arith, pos,
}
use emailservice_worker.Types.{Json, Fields}
use emailservice_worker.Schema.{ContactRecord, EnrichedRecord}
use emailservice_worker.Effect.Errors.{Result, ok, err, text}
use emailservice_worker.Postgres.Recipients.{coalesce}
use emailservice_worker.Postgres.Contacts.{contact_for_eval, is_performed}
use emailservice_worker.Segments.Evaluator.{
  Conversions, FilterNode, node, Rules, nil, cons, Value, json, int, is_nil, is_set, sprint,
  to_float, lookup_in, find_field, extract_property, extract_jsonb_field, extract_field,
  eval_condition, compare_value, compare_equal, compare_contains, compare_starts_with,
  compare_ends_with, compare_numeric, compare_in, lower_chars,
}
use emailservice_worker.Segments.Evaluator.Meaning.{
  performed, event_meaning, leaf_meaning, is_ok_true, holds, holds_all, holds_any,
}

abbrev text_value : Option String → Value
text_value o = json (Json.text (coalesce o ""))

-- The entry of a table.
unfoldable pub entry : {A : Type 0} → String → List (String × A) → Option A
entry k [] = none
entry k ((j, a) ∷ rest) = let later = entry k rest in if k =ₛ j then some a else later

unfoldable pub columns : Conversions → ContactRecord → List (String × Value)
columns g r =
    ("email", text_value r.email)
    ∷ ("first_name", text_value r.first_name)
    ∷ ("firstName", text_value r.first_name)
    ∷ ("last_name", text_value r.last_name)
    ∷ ("lastName", text_value r.last_name)
    ∷ ("phone", text_value r.phone)
    ∷ ("lifecycle_stage", json (Json.text (coalesce r.lifecycle_stage "lead")))
    ∷ ("lifecycleStage", json (Json.text (coalesce r.lifecycle_stage "lead")))
    ∷ ("lead_score", int (coalesce r.lead_score (pos 0)))
    ∷ ("leadScore", int (coalesce r.lead_score (pos 0)))
    ∷ ("created_at", json (Json.text (g.format_time r.created_at)))
    ∷ ("createdAt", json (Json.text (g.format_time r.created_at)))
    ∷ []

-- A key, or a key within the object at a key.
abbrev at_path : Json → Text × Option Text → Json
at_path j (k, none) = lookup_in (of_chars k) j
at_path j (k, some rest) = lookup_in (of_chars rest) (lookup_in (of_chars k) j)

abbrev object_of : Option Fields → Json
object_of none = Json.null
object_of (some m) = Json.object m

abbrev properties_of : Conversions → ContactRecord → Json
properties_of g r =
    let s = coalesce r.properties "{}" in
    if s =ₛ "" then Json.null else object_of (g.parse_object s)

-- The documented fields that the evaluator does not read.
unfoldable pub other_field : ContactRecord → String → Value
other_field r field = elim (cut_prefix "traits." field) [
  | some key ↦ json (at_path (coalesce r.traits Json.null) (split_dot (to_chars key)))
  | none ↦
      if field =ₛ "user_id" || field =ₛ "userId"
      then text_value r.user_id
      else if field =ₛ "status"
      then json (Json.text r.status)
      else json Json.null
]

abbrev property_or : Conversions → ContactRecord → String → Option String → Value
property_or g r field none = other_field r field
property_or g r field (some key) = json (at_path (properties_of g r) (split_dot (to_chars key)))

abbrev value_or : Value → Option Value → Value
value_or v none = v
value_or v (some x) = x

unfoldable pub documented_field : Conversions → ContactRecord → String → Value
documented_field g r field =
    value_or (property_or g r field (cut_prefix "properties." field)) (entry field (columns g r))

abbrev is_there {ℓ} : {A : Type ℓ} → Option A → Bool
is_there none = false
is_there (some a) = true

-- A column or a property, which the evaluator reads.
abbrev pub is_known_field : Conversions → ContactRecord → String → Bool
is_known_field g r field =
    is_there (entry field (columns g r)) || is_there (cut_prefix "properties." field)

path_case :
    (b : Bool) (o : Option Fields) (k : Text) (t : Option Text)
    → at_path (if b then Json.null else object_of o) (k, t)
      ≡ (if b then Json.null else elim o [ none ↦ Json.null | some m ↦ find_field m (k, t) ])
path_case true o k none = refl
path_case true o k (some rest) = refl
path_case false none k none = refl
path_case false none k (some rest) = refl
path_case false (some m) k none = refl
path_case false (some m) k (some rest) = refl

at_path-extract :
    (g : Conversions) (s key : String)
    → at_path
        (if s =ₛ "" then Json.null else object_of (g.parse_object s))
        (split_dot (to_chars key))
      ≡ extract_jsonb_field g s key
unfolding extract_jsonb_field
at_path-extract g s key =
    let t = split_dot (to_chars key) in path_case (s =ₛ "") (g.parse_object s) t.0 t.1

property-documented :
    (g : Conversions) (r : ContactRecord) (field : String) (o : Option String)
    → is_there o ≡ true
    → property_or g r field o ≡ extract_property g (contact_for_eval r) o
property-documented g r field none h = cc
property-documented g r field (some key) h =
    ap json (at_path-extract g (coalesce r.properties "{}") key)

-- An entry of the table against a case of the code, for what follows them.
module _ (base : Value) (k : Bool) where
  abbrev Follows : Option Value → Value → Type 0
  Follows later rest = (is_there later || k) ≡ true → value_or base later ≡ rest

  one_name :
      (b : Bool) (v : Value) (later : Option Value) (rest : Value)
      → Follows later rest
      → Follows (if b then some v else later) (if b then v else rest)
  one_name true v later rest h known = refl
  one_name false v later rest h known = h known

  two_names :
      (b c : Bool) (v : Value) (later : Option Value) (rest : Value)
      → Follows later rest
      → Follows (if b then some v else if c then some v else later) (if b || c then v else rest)
  two_names true c v later rest h known = refl
  two_names false true v later rest h known = refl
  two_names false false v later rest h known = h known

field-documented :
    (g : Conversions) (r : ContactRecord) (field : String)
    → is_known_field g r field ≡ true
    → documented_field g r field ≡ extract_field g (contact_for_eval r) field
unfolding documented_field extract_field entry columns
field-documented g r field =
    let o = cut_prefix "properties." field in
    let base = property_or g r field o in
    let k = is_there o in
    one_name base k (field =ₛ "email") _ _ _ (
      two_names base k (field =ₛ "first_name") (field =ₛ "firstName") _ _ _ (
        two_names base k (field =ₛ "last_name") (field =ₛ "lastName") _ _ _ (
          one_name base k (field =ₛ "phone") _ _ _ (
            two_names base k (field =ₛ "lifecycle_stage") (field =ₛ "lifecycleStage") _ _ _ (
              two_names base k (field =ₛ "lead_score") (field =ₛ "leadScore") _ _ _ (
                two_names base k (field =ₛ "created_at") (field =ₛ "createdAt") _ _ _
                  (property-documented g r field o)))))))

-- The operators.
pub data Operator : Type 0 where
  equals not_equals holds_part begins ends greater less among not_among : Operator

abbrev operators : List (String × Operator)
operators =
    ("equals", equals)
    ∷ ("not_equals", not_equals)
    ∷ ("contains", holds_part)
    ∷ ("starts_with", begins)
    ∷ ("ends_with", ends)
    ∷ ("greater_than", greater)
    ∷ ("less_than", less)
    ∷ ("in", among)
    ∷ ("not_in", not_among)
    ∷ []

abbrev ordered : (ℕ → ℕ → Bool) → Option ℕ → Option ℕ → Bool
ordered p (some m) (some n) = p m n
ordered p _ _ = false

-- Exact text, text without case, numbers, and lists; a value that is no list is one of its own.
unfoldable pub compared : Conversions → Operator → Value → Json → Bool
compared g equals v x = sprint g v =ₛ sprint g (json x)
compared g not_equals v x = not (sprint g v =ₛ sprint g (json x))
compared g holds_part v x = contains (lower_chars g v) (lower_chars g (json x))
compared g begins v x = has_prefix (lower_chars g v) (lower_chars g (json x))
compared g ends v x = has_suffix (lower_chars g v) (lower_chars g (json x))
compared g greater v x = ordered (λ m n. g.float_less n m) (to_float g v) (to_float g (json x))
compared g less v x = ordered g.float_less (to_float g v) (to_float g (json x))
compared g among v x = compare_in g v x
compared g not_among v x = not (compare_in g v x)

abbrev with_operator : Conversions → Value → Json → Option Operator → Bool
with_operator g v x none = false
with_operator g v x (some o) = not (is_nil v) && compared g o v x

unfoldable pub documented_condition : Conversions → ContactRecord → String → String → Json → Bool
documented_condition g r operator field x =
    let v = documented_field g r field in
    if operator =ₛ "exists"
    then is_set g v
    else if operator =ₛ "not_exists"
    then not (is_set g v)
    else with_operator g v x (entry operator operators)

is_true : Result Bool → Bool
is_true (ok b) = b
is_true (err x) = false

numbers-documented :
    (g : Conversions) (v : Value) (x : Json) (p : ℕ → ℕ → Bool)
    → is_true (compare_numeric g v (json x) p) ≡ ordered p (to_float g v) (to_float g (json x))
unfolding compare_numeric is_true
numbers-documented g v x p = number_case (to_float g v) (to_float g (json x))
  where
    number_case :
        (m n : Option ℕ)
        → is_true (elim m [
          | none ↦ ok false
          | some a ↦ elim n [
            | none ↦ err (text ("numeric comparison: invalid value " ++ sprint g (json x)))
            | some b ↦ ok (p a b)
          ]
        ])
          ≡ ordered p m n
    number_case none n = refl
    number_case (some a) none = refl
    number_case (some a) (some b) = refl

named :
    (b : Bool) (r : Result Bool) (o : Operator) (g : Conversions) (v : Value) (x : Json)
    (later : Option Operator) (rest : Result Bool)
    → is_true r ≡ compared g o v x
    → is_nil v ≡ false
    → is_true rest ≡ with_operator g v x later
    → is_true (if b then r else rest) ≡ with_operator g v x (if b then some o else later)
unfolding is_true
named true r o g v x later rest h set k = ground (arith, h, set)
named false r o g v x later rest h set k = k

value-documented :
    (g : Conversions) (operator : String) (v : Value) (x : Json)
    → is_nil v ≡ false
    → is_true (compare_value g operator v x) ≡ with_operator g v x (entry operator operators)
unfolding compare_value entry compared is_true compare_equal compare_contains compare_starts_with
    compare_ends_with
value-documented g operator v x set = named (operator =ₛ "equals") _ equals g v x _ _ refl set (
    named (operator =ₛ "not_equals") _ not_equals g v x _ _ refl set (
      named (operator =ₛ "contains") _ holds_part g v x _ _ refl set (
        named (operator =ₛ "starts_with") _ begins g v x _ _ refl set (
          named (operator =ₛ "ends_with") _ ends g v x _ _ refl set (
            named (operator =ₛ "greater_than") _ greater g v x _ _
              (numbers-documented g v x (λ m n. g.float_less n m)) set
              (named (operator =ₛ "less_than") _ less g v x _ _
                (numbers-documented g v x g.float_less) set
                (named (operator =ₛ "in") _ among g v x _ _ refl set
                  (named (operator =ₛ "not_in") _ not_among g v x _ _ refl set refl))))))))

nil_case :
    (g : Conversions) (operator : String) (v : Value) (x : Json) (n : Bool)
    → is_nil v ≡ n
    → is_true (if n then ok false else compare_value g operator v x)
      ≡ with_operator g v x (entry operator operators)
unfolding is_true
nil_case g operator v x false h = value-documented g operator v x h
nil_case g operator v x true h = no_match (entry operator operators)
  where
    no_match : (o : Option Operator) → false ≡ with_operator g v x o
    no_match none = refl
    no_match (some o) = ground (arith, h)

condition_case :
    (g : Conversions) (operator : String) (v : Value) (x : Json) (b c : Bool)
    → is_true (
        if b
        then ok (is_set g v)
        else if c
        then ok (not (is_set g v))
        else if is_nil v
        then ok false
        else compare_value g operator v x)
      ≡ (if b
          then is_set g v
          else if c
          then not (is_set g v)
          else with_operator g v x (entry operator operators))
unfolding is_true
condition_case g operator v x true c = refl
condition_case g operator v x false true = refl
condition_case g operator v x false false = nil_case g operator v x (is_nil v) refl

condition-documented :
    (g : Conversions) (r : ContactRecord) (operator field : String) (x : Json)
    → is_known_field g r field ≡ true
    → is_true (eval_condition g (contact_for_eval r) operator field x)
      ≡ documented_condition g r operator field x
unfolding eval_condition documented_condition
condition-documented g r operator field x known = rw (field-documented g r field known) (
    condition_case g operator (extract_field g (contact_for_eval r) field) x (operator =ₛ "exists")
      (operator =ₛ "not_exists"))

module _ (g : Conversions) (workspace_id : String) (events : List EnrichedRecord)
    (r : ContactRecord) where
  -- The contact has performed the event, or has not.
  unfoldable pub documented_event : String → String → Bool
  documented_event operator name =
      if operator =ₛ "exists"
      then any (is_performed workspace_id r.id name) events
      else if operator =ₛ "not_exists"
      then not (any (is_performed workspace_id r.id name) events)
      else false

  unfoldable mutual
    pub documented : FilterNode → Bool
    documented (node operator nil field value) = elim (cut_prefix "event:" field) [
      | none ↦ documented_condition g r operator field value
      | some name ↦ documented_event operator name
    ]
    documented (node operator (cons c cs) field value) =
        if g.to_upper operator =ₛ "AND"
        then documented_all (cons c cs)
        else documented_any (cons c cs)

    pub documented_all : Rules → Bool
    documented_all nil = true
    documented_all (cons c cs) = documented c && documented_all cs

    pub documented_any : Rules → Bool
    documented_any nil = false
    documented_any (cons c cs) = documented c || documented_any cs

  -- Every leaf is on a field that the evaluator reads, or asks whether there is an event at all.
  unfoldable mutual
    pub is_read : FilterNode → Bool
    is_read (node operator nil field value) = elim (cut_prefix "event:" field) [
      | none ↦ is_known_field g r field
      | some name ↦ not (operator =ₛ "occurred_within_days")
    ]
    is_read (node operator (cons c cs) field value) = are_read (cons c cs)

    pub are_read : Rules → Bool
    are_read nil = true
    are_read (cons c cs) = is_read c && are_read cs

  leaf_case :
      (operator field : String) (value : Json) (o : Option String)
      → (elim o [
        | none ↦ is_known_field g r field
        | some name ↦ not (operator =ₛ "occurred_within_days")
      ])
        ≡ true
      → is_ok_true g workspace_id events (contact_for_eval r) (elim o [
        | none ↦ eval_condition g (contact_for_eval r) operator field value
        | some name ↦ ok (event_meaning g workspace_id events (contact_for_eval r) operator name)
      ])
        ≡ (elim o [
          | none ↦ documented_condition g r operator field value
          | some name ↦ documented_event operator name
        ])
  unfolding event_meaning performed documented_event is_true
  leaf_case operator field value none h =
      same_answer (eval_condition g (contact_for_eval r) operator field value)
      ∙ condition-documented g r operator field value h
    where
      same_answer :
          (a : Result Bool) → is_ok_true g workspace_id events (contact_for_eval r) a ≡ is_true a
      same_answer (ok b) = refl
      same_answer (err x) = refl
  leaf_case operator field value (some name) h = ground (arith, h)

  mutual
    unfolding holds documented is_read leaf_meaning

    pub holds-documented :
        (n : FilterNode)
        → is_read n ≡ true
        → holds g workspace_id events (contact_for_eval r) n ≡ documented n
    holds-documented (node operator nil field value) h =
        leaf_case operator field value (cut_prefix "event:" field) h
    holds-documented (node operator (cons c cs) field value) h =
        ground (arith, all-documented (cons c cs) h, any-documented (cons c cs) h)

    all-documented :
        (cs : Rules)
        → are_read cs ≡ true
        → holds_all g workspace_id events (contact_for_eval r) cs ≡ documented_all cs
    all-documented nil h = refl
    all-documented (cons c cs) h = ground (
      arith,
      h,
      λ (q : is_read c ≡ true). holds-documented c q,
      λ (q : are_read cs ≡ true). all-documented cs q,
    )

    any-documented :
        (cs : Rules)
        → are_read cs ≡ true
        → holds_any g workspace_id events (contact_for_eval r) cs ≡ documented_any cs
    any-documented nil h = refl
    any-documented (cons c cs) h = ground (
      arith,
      h,
      λ (q : is_read c ≡ true). holds-documented c q,
      λ (q : are_read cs ≡ true). any-documented cs q,
    )
