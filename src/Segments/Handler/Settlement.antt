-- ===== src/Segments/Handler/Settlement.antt =====
-- How the handler of internal/worker/segments/handler.go ends.
use emailservice_worker.Prelude.{ℕ, zero, suc, refl, String, Option, List, [], ◌∷◌}
use emailservice_worker.Types.{Json, SegmentRefreshPayload}
use emailservice_worker.Effect.{M, Env, World, Msg, Settlement}
use emailservice_worker.Effect.Errors.{Error, Result}
use emailservice_worker.Effect.Keeps.{
  Ensures, Keeps, Ensures-bind, Ensures-try, Ensures-then, Ensures-seq, Ensures-branch, Keeps-pure,
}
use emailservice_worker.Effect.Keeps.OnSettled.{
  Settled, SettledOnce, Keeps-Once, Settled-new_uuid, settled_rules,
}
use emailservice_worker.Locks.Quiet.{Settled-acquire_lock, Settled-release_lock}
use emailservice_worker.Postgres.Contacts.{
  ContactForEval, on_page, stream_pages, stream_contacts_for_eval,
}
use emailservice_worker.Postgres.Segments.{Keys, insert_segment_members, delete_segment_members}
use emailservice_worker.Segments.Evaluator.{
  Conversions, FilterNode, node, Rules, nil, cons, eval_event, eval_leaf, eval, eval_and, eval_or,
  matches,
}
use emailservice_worker.Segments.Handler.{
  lock_ttl, eval_page_size, match_page, nak_refresh, finish_refresh, apply_diff, update_members,
  fail_evaluation, evaluate, refresh_loaded, refresh_locked, refresh, handle_refresh,
}

module _ {e : Env} {s : List Settlement} where
  Settled-insert :
      (i v : String) (ids : List String) → Keeps e (Settled s) (insert_segment_members i v ids)
  unfolding insert_segment_members
  Settled-insert i v [] = search settled_rules depth 10
  Settled-insert i v (id ∷ ids) = search settled_rules depth 10

  Settled-delete :
      (i v : String) (ids : List String) → Keeps e (Settled s) (delete_segment_members i v ids)
  unfolding delete_segment_members
  Settled-delete i v [] = search settled_rules depth 10
  Settled-delete i v (id ∷ ids) = search settled_rules depth 10

  Settled-eval_leaf :
      (g : Conversions) (v : String) (ct : ContactForEval) (operator field : String) (value : Json)
      → Keeps e (Settled s) (eval_leaf g v ct operator field value)
  unfolding eval_leaf eval_event
  Settled-eval_leaf g v ct operator field value = search settled_rules depth 20

  mutual
    unfolding eval

    Settled-eval :
        (g : Conversions) (v : String) (ct : ContactForEval) (n : FilterNode)
        → Keeps e (Settled s) (eval g v ct n)
    Settled-eval g v ct (node operator nil field value) =
        Settled-eval_leaf g v ct operator field value
    Settled-eval g v ct (node operator (cons c cs) field value) =
        Ensures-branch _ _ _ (Settled-eval_and g v ct (cons c cs))
          (Ensures-branch _ _ _ (Settled-eval_or g v ct (cons c cs)) (Keeps-pure _))

    Settled-eval_and :
        (g : Conversions) (v : String) (ct : ContactForEval) (cs : Rules)
        → Keeps e (Settled s) (eval_and g v ct cs)
    Settled-eval_and g v ct nil = search settled_rules depth 10
    Settled-eval_and g v ct (cons c cs) =
        Ensures-try _ _ _ (Settled-eval g v ct c) (λ x. Keeps-pure _)
          (λ b. Ensures-branch b _ _ (Settled-eval_and g v ct cs) (Keeps-pure _))

    Settled-eval_or :
        (g : Conversions) (v : String) (ct : ContactForEval) (cs : Rules)
        → Keeps e (Settled s) (eval_or g v ct cs)
    Settled-eval_or g v ct nil = search settled_rules depth 10
    Settled-eval_or g v ct (cons c cs) =
        Ensures-try _ _ _ (Settled-eval g v ct c) (λ x. Keeps-pure _)
          (λ b. Ensures-branch b _ _ (Keeps-pure _) (Settled-eval_or g v ct cs))

  Settled-matches :
      (g : Conversions) (v : String) (ct : ContactForEval) (tree : Option FilterNode)
      → Keeps e (Settled s) (matches g v ct tree)
  unfolding matches
  Settled-matches g v ct tree = search (settled_rules, Settled-eval) depth 20

  module _ (g : Conversions) (uuid : String → ℕ) (max_retries : ℕ) (p : SegmentRefreshPayload)
      (attempt : ℕ) where
    Settled-match_page :
        (tree : Option FilterNode) (page : List ContactForEval) (matched : Keys)
        → Keeps e (Settled s) (match_page g uuid max_retries p attempt tree page matched)
    unfolding match_page
    Settled-match_page tree [] matched = search settled_rules depth 10
    Settled-match_page tree (ct ∷ cts) matched =
        search (settled_rules, Settled-matches, Settled-match_page tree cts) depth 20

-- The stream settles nothing where its callback does not.
module _ {e : Env} {s : List Settlement} {S : Type 0} (uuid : String → ℕ) (v : String) (n : ℕ)
    (fn : List ContactForEval → S → M (Result S))
    (quiet : (page : List ContactForEval) (x : S) → Keeps e (Settled s) (fn page x)) where
  Settled-on_page :
      (next : String → S → M (Result S))
      → ((i : String) (x : S) → Keeps e (Settled s) (next i x))
      → (x : S) (page : List ContactForEval) → Keeps e (Settled s) (on_page uuid v n fn next x page)
  unfolding on_page
  Settled-on_page next h x [] = search settled_rules depth 10
  Settled-on_page next h x (c ∷ cs) = search (settled_rules, h, quiet) depth 20

  Settled-stream_pages :
      (fuel : ℕ) (i : String) (x : S) → Keeps e (Settled s) (stream_pages uuid v n fn fuel i x)
  unfolding stream_pages
  Settled-stream_pages zero i x = search settled_rules depth 10
  Settled-stream_pages (suc fuel) i x =
      search (settled_rules, Settled-on_page _ (Settled-stream_pages fuel)) depth 20

  Settled-stream : (x : S) → Keeps e (Settled s) (stream_contacts_for_eval uuid v n fn x)
  unfolding stream_contacts_for_eval
  Settled-stream x = record { at = λ w p. (Settled-stream_pages _ "" x).at w p }

module _ {e : Env} {s : List Settlement} (g : Conversions) (uuid : String → ℕ) (max_retries : ℕ)
    (p : SegmentRefreshPayload) (attempt : ℕ) where
  nak_refresh-Once : Ensures e (Settled s) (nak_refresh max_retries attempt) (SettledOnce s)
  unfolding nak_refresh
  nak_refresh-Once = search settled_rules depth 20

  apply_diff-Once :
      (matched current : Keys)
      → Ensures e
          (Settled s)
          (apply_diff g uuid max_retries p attempt matched current)
          (SettledOnce s)
  unfolding apply_diff finish_refresh
  apply_diff-Once matched current =
      search (settled_rules, Settled-insert, Settled-delete, nak_refresh-Once) depth 30

  update_members-Once :
      (matched : Keys)
      → Ensures e (Settled s) (update_members g uuid max_retries p attempt matched) (SettledOnce s)
  unfolding update_members
  update_members-Once matched = search (settled_rules, apply_diff-Once, nak_refresh-Once) depth 30

  fail_evaluation-Once :
      (x : Error)
      → Ensures e (Settled s) (fail_evaluation g uuid max_retries p attempt x) (SettledOnce s)
  unfolding fail_evaluation
  fail_evaluation-Once x = search (settled_rules, nak_refresh-Once) depth 30

  evaluate-Once :
      (tree : Option FilterNode)
      → Ensures e (Settled s) (evaluate g uuid max_retries p attempt tree) (SettledOnce s)
  unfolding evaluate
  evaluate-Once tree =
      search
        (
          settled_rules,
          fail_evaluation-Once,
          update_members-Once,
          nak_refresh-Once,
          Settled-stream uuid p.workspace_id eval_page_size _
              (Settled-match_page g uuid max_retries p attempt tree),
        )
        depth 30

  refresh_locked-Once :
      Ensures e (Settled s) (refresh_locked g uuid max_retries p attempt) (SettledOnce s)
  unfolding refresh_locked refresh_loaded
  refresh_locked-Once = search (settled_rules, evaluate-Once, nak_refresh-Once) depth 30

  refresh-Once : Ensures e (Settled s) (refresh g uuid max_retries p attempt) (SettledOnce s)
  unfolding refresh
  refresh-Once = Ensures-bind _ _ Settled-new_uuid (λ value.
      Ensures-try _ _ _ (Settled-acquire_lock _ value lock_ttl)
        (λ x. search (settled_rules, nak_refresh-Once) depth 20)
        (λ _.
          Ensures-seq _ _ refresh_locked-Once
            (Keeps-Once (λ t. Ensures-then _ _ (Settled-release_lock _ value) (Keeps-pure tt)))))

-- Whatever the message, the tables, the filter tree, the database, Redis and the clock do: a
-- refresh settles its message exactly once.
pub handle_refresh-Once :
    (g : Conversions) (uuid : String → ℕ) (max_retries : ℕ) (msg : Msg SegmentRefreshPayload)
    (e : Env) (w : World)
    → SettledOnce w.settled (handle_refresh g uuid max_retries msg e w).1
unfolding handle_refresh
handle_refresh-Once g uuid max_retries msg e w =
    let ends : Ensures e (Settled w.settled) (handle_refresh g uuid max_retries msg)
        (SettledOnce w.settled) =
      search (settled_rules, refresh-Once) depth 30 in
    ends.at w refl
