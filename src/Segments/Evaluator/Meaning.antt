-- ===== src/Segments/Evaluator/Meaning.antt =====
-- What a filter tree means, as a Boolean function of the contact and its events.
use emailservice_worker.Prelude.{
  ◌≡◌, refl, sym, ap, subst, String, Bool, true, false, not, ◌&&◌, ◌||◌, Option, none, some, List,
  any, ◌=ₛ◌, if◌then◌else◌, cut_prefix,
}
use emailservice_worker.Types.{Json}
use emailservice_worker.Schema.{Database, EnrichedRecord}
use emailservice_worker.Effect.{M, Env, World, Settlement, pure, branch, case_option}
use emailservice_worker.Effect.Errors.{Result, ok, err}
use emailservice_worker.Effect.Yields.{
  DbIsUp, Yields, On, Yields-try, Yields-pure, Yields-read, Yields-branch_if,
}
use emailservice_worker.Postgres.Contacts.{
  ContactForEval, is_performed, contact_has_performed_event,
}
use emailservice_worker.Segments.Evaluator.{
  Conversions, FilterNode, node, Rules, nil, cons, eval_condition, eval_event, eval_leaf, eval,
  eval_and, eval_or, matches,
}

module _ (g : Conversions) (workspace_id : String) (events : List EnrichedRecord)
    (ct : ContactForEval) where
  -- The contact has an enriched event of that name.
  unfoldable pub performed : String → Bool
  performed name = any (is_performed workspace_id ct.id name) events

  -- What the evaluator takes a leaf on an event for; the days of occurred_within_days are not read.
  unfoldable pub event_meaning : String → String → Bool
  event_meaning operator name =
      if operator =ₛ "exists" || operator =ₛ "occurred_within_days"
      then performed name
      else if operator =ₛ "not_exists"
      then not (performed name)
      else false

  -- A leaf, with an error where the condition has one.
  unfoldable pub leaf_meaning : String → String → Json → Result Bool
  leaf_meaning operator field value = elim (cut_prefix "event:" field) [
    | none ↦ eval_condition g ct operator field value
    | some name ↦ ok (event_meaning operator name)
  ]

  abbrev pub is_ok_true : Result Bool → Bool
  is_ok_true (ok b) = b
  is_ok_true (err x) = false

  -- The tree as a Boolean formula: AND is the conjunction of all the rules, OR their disjunction.
  unfoldable mutual
    pub holds : FilterNode → Bool
    holds (node operator nil field value) = is_ok_true (leaf_meaning operator field value)
    holds (node operator (cons c cs) field value) =
        if g.to_upper operator =ₛ "AND" then holds_all (cons c cs) else holds_any (cons c cs)

    pub holds_all : Rules → Bool
    holds_all nil = true
    holds_all (cons c cs) = holds c && holds_all cs

    pub holds_any : Rules → Bool
    holds_any nil = false
    holds_any (cons c cs) = holds c || holds_any cs

  -- Every group is an AND or an OR, and every condition can be decided.
  unfoldable mutual
    pub IsSound : FilterNode → Type 0
    IsSound (node operator nil field value) =
        (b : Bool) × (leaf_meaning operator field value ≡ ok b)
    IsSound (node operator (cons c cs) field value) =
        ((g.to_upper operator =ₛ "AND" || g.to_upper operator =ₛ "OR") ≡ true)
        × AreSound (cons c cs)

    pub AreSound : Rules → Type 0
    AreSound nil = Unit
    AreSound (cons c cs) = IsSound c × AreSound cs

  abbrev pub holds_tree : Option FilterNode → Bool
  holds_tree none = true
  holds_tree (some n) = holds n

  abbrev pub IsSoundTree : Option FilterNode → Type 0
  IsSoundTree none = Unit
  IsSoundTree (some n) = IsSound n

module _ {e : Env} {P : World → Type 0} {m : M (Result Bool)} {b : Bool} where
  branch-and :
      (t : Bool) → Yields e P m (ok b) P → Yields e P (branch t m (pure (ok false))) (ok (t && b)) P
  unfolding branch
  branch-and true h = h
  branch-and false h = Yields-pure (λ w p. p)

  branch-or :
      (t : Bool) → Yields e P m (ok b) P → Yields e P (branch t (pure (ok true)) m) (ok (t || b)) P
  unfolding branch
  branch-or true h = Yields-pure (λ w p. p)
  branch-or false h = h

  branch-known :
      {k : M (Result Bool)} {a : Bool} (z : M (Result Bool)) (t u : Bool)
      → (t || u) ≡ true
      → Yields e P m (ok b) P
      → Yields e P k (ok a) P
      → Yields e P (branch t m (branch u k z)) (ok (if t then b else a)) P
  unfolding branch
  branch-known z true u h hm hk = hm
  branch-known z false true h hm hk = hk
  branch-known z false false h hm hk = cc

module _ {e : Env} (up : DbIsUp e) {s : List Settlement} (g : Conversions) (workspace_id : String)
    (events : List EnrichedRecord) (C : Database → Type 0)
    (has_events : (d : Database) → C d → d.events_enriched ≡ events) (ct : ContactForEval) where
  eval_event-meaning :
      (operator name : String)
      → Yields e
          (On C s)
          (eval_event g workspace_id ct operator name)
          (ok (event_meaning g workspace_id events ct operator name))
          (On C s)
  unfolding eval_event event_meaning performed contact_has_performed_event
  eval_event-meaning operator name =
      let read =
        Yields-read up (contact_has_performed_event workspace_id ct.id name)
          (performed g workspace_id events ct name) (λ t d c. rw (has_events d c) refl) in
      Yields-branch_if _ read (
        Yields-branch_if _ (Yields-try _ _ _ _ read (Yields-pure (λ w p. p)))
          (Yields-pure (λ w p. p)))

  leaf_cases :
      (operator field : String) (value : Json) (o : Option String)
      → Yields e
          (On C s)
          (case_option o
            (pure (eval_condition g ct operator field value))
            (eval_event g workspace_id ct operator))
          (elim o [
            | none ↦ eval_condition g ct operator field value
            | some name ↦ ok (event_meaning g workspace_id events ct operator name)
          ])
          (On C s)
  unfolding case_option
  leaf_cases operator field value none = Yields-pure (λ w p. p)
  leaf_cases operator field value (some name) = eval_event-meaning operator name

  eval_leaf-meaning :
      (operator field : String) (value : Json) (b : Bool)
      → leaf_meaning g workspace_id events ct operator field value ≡ ok b
      → Yields e (On C s) (eval_leaf g workspace_id ct operator field value) (ok b) (On C s)
  unfolding eval_leaf leaf_meaning
  eval_leaf-meaning operator field value b h =
      subst (λ r. Yields e (On C s) (eval_leaf g workspace_id ct operator field value) r (On C s)) h
        (leaf_cases operator field value (cut_prefix "event:" field))

  mutual
    unfolding eval holds IsSound

    eval-meaning :
        (n : FilterNode)
        → IsSound g workspace_id events ct n
        → Yields e
            (On C s)
            (eval g workspace_id ct n)
            (ok (holds g workspace_id events ct n))
            (On C s)
    eval-meaning (node operator nil field value) (b, h) =
        subst
          (λ r.
            Yields e (On C s) (eval_leaf g workspace_id ct operator field value)
              (ok (is_ok_true g workspace_id events ct r)) (On C s))
          (sym h) (eval_leaf-meaning operator field value b h)
    eval-meaning (node operator (cons c cs) field value) (known, sound) =
        branch-known _ _ _ known (eval_and-meaning (cons c cs) sound)
          (eval_or-meaning (cons c cs) sound)

    eval_and-meaning :
        (cs : Rules)
        → AreSound g workspace_id events ct cs
        → Yields e
            (On C s)
            (eval_and g workspace_id ct cs)
            (ok (holds_all g workspace_id events ct cs))
            (On C s)
    eval_and-meaning nil sound = Yields-pure (λ w p. p)
    eval_and-meaning (cons c cs) (h, hs) =
        Yields-try _ _ _ _ (eval-meaning c h) (branch-and _ (eval_and-meaning cs hs))

    eval_or-meaning :
        (cs : Rules)
        → AreSound g workspace_id events ct cs
        → Yields e
            (On C s)
            (eval_or g workspace_id ct cs)
            (ok (holds_any g workspace_id events ct cs))
            (On C s)
    eval_or-meaning nil sound = Yields-pure (λ w p. p)
    eval_or-meaning (cons c cs) (h, hs) =
        Yields-try _ _ _ _ (eval-meaning c h) (branch-or _ (eval_or-meaning cs hs))

  pub matches-meaning :
      (tree : Option FilterNode)
      → IsSoundTree g workspace_id events ct tree
      → Yields e
          (On C s)
          (matches g workspace_id ct tree)
          (ok (holds_tree g workspace_id events ct tree))
          (On C s)
  unfolding matches case_option
  matches-meaning none sound = Yields-pure (λ w p. p)
  matches-meaning (some n) sound = eval-meaning n sound

-- `Matches` decides the Boolean formula that the tree stands for. AND and OR stop early, and the
-- answer is that of the formula all the same; the database and the settlement are left as they
-- are. The hypotheses: every query is done, every group of the tree is an AND or an OR (in whatever
-- case), and every condition of the tree can be decided on the contact.
pub matches-holds :
    (g : Conversions) (workspace_id : String) (ct : ContactForEval) (tree : Option FilterNode)
    (e : Env) (w : World)
    → DbIsUp e
    → IsSoundTree g workspace_id w.db.events_enriched ct tree
    → let (r, w') = matches g workspace_id ct tree e w in
      (r ≡ ok (holds_tree g workspace_id w.db.events_enriched ct tree))
      × (w'.db ≡ w.db)
      × (w'.settled ≡ w.settled)
matches-holds g workspace_id ct tree e w up sound =
    let h =
      (matches-meaning up g workspace_id w.db.events_enriched (λ d. d ≡ w.db)
          (λ d c. ap (λ x. x.events_enriched) c) ct tree sound).at
        w (record { of_db = refl; of_settled = refl }) in
    (h.0, h.1.of_db, h.1.of_settled)
