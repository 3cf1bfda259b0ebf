-- ===== src/Segments/Handler.antt =====
-- The refresh of a segment, internal/worker/segments/handler.go.
pub mod KeySets
pub mod Members
pub mod Matched
pub mod Selected
pub mod Frame
pub mod Settlement
pub mod Refinement
use Prim.Native.String.{◌++◌}
use emailservice_worker.Prelude.{
  ℕ, ◌+◌, ◌-◌, String, Bool, true, false, ◌||◌, Option, List, [], ◌∷◌, length, leb, if◌then◌else◌,
}
use emailservice_worker.Types.{SegmentRefreshPayload}
use emailservice_worker.Effect.{
  M, Msg, ack, nak, term, attempt_of, pure, exec, ◌>>=◌, ◌>>◌, try, case_result, case_option,
  branch, settle, inc, add_metric, new_uuid, refresh_jobs, contacts_matched, membership_inserts,
  membership_removals, refresh_failures, refresh_retries,
}
use emailservice_worker.Effect.Errors.{Error, Result, ok, err, lock_not_acquired, wrap}
use emailservice_worker.Locks.{acquire_lock, release_lock}
use emailservice_worker.Email.Validate.{is_empty}
use emailservice_worker.Postgres.Contacts.{ContactForEval, stream_contacts_for_eval}
use emailservice_worker.Postgres.Segments.{
  SegmentRow, Keys, has_key, put_key, get_segment, update_segment_status, update_segment_ready,
  get_current_member_ids, insert_segment_members, delete_segment_members,
}
use emailservice_worker.Segments.Evaluator.{Conversions, FilterNode, parse_filter_tree, matches}

-- In milliseconds
abbrev pub lock_ttl : ℕ
lock_ttl = 600000

abbrev pub eval_page_size : ℕ
eval_page_size = 500

-- `errors.Is(err, ErrLockNotAcquired)`
abbrev pub is_lock_not_acquired : Error → Bool
is_lock_not_acquired lock_not_acquired = true
is_lock_not_acquired (wrap prefix x) = is_lock_not_acquired x
is_lock_not_acquired _ = false

-- The keys of the first that are not in the second.
unfoldable pub diff : Keys → Keys → Keys
diff [] b = []
diff (k ∷ a) b = let rest = diff a b in if has_key k b then rest else k ∷ rest

-- `nak`
unfoldable pub nak_refresh : ℕ → ℕ → M Unit
nak_refresh max_retries attempt =
    branch (leb max_retries attempt) (do inc refresh_failures; settle term)
      (do inc refresh_retries; settle nak)

module _ (g : Conversions) (uuid : String → ℕ) (max_retries : ℕ) (p : SegmentRefreshPayload)
    (attempt : ℕ) where
  abbrev nak_it : Error → M Unit
  nak_it _ = nak_refresh max_retries attempt

  -- The callback of the stream: it stops at the first error.
  unfoldable pub match_page : Option FilterNode → List ContactForEval → Keys → M (Result Keys)
  match_page tree [] matched = pure (ok matched)
  match_page tree (ct ∷ cts) matched =
      try (matches g p.workspace_id ct tree)
        (λ x. pure (err (wrap ("evaluate contact " ++ ct.id) x)))
        (λ b. match_page tree cts (if b then put_key ct.id matched else matched))

  -- The last steps: the final count, the metrics and the ack.
  unfoldable pub finish_refresh : ℕ → ℕ → ℕ → M Unit
  finish_refresh current added removed = do
    add_metric membership_inserts added
    add_metric membership_removals removed
    try (exec (update_segment_ready p.segment_id p.workspace_id (current + added - removed))) nak_it
        (λ _. settle ack)

  unfoldable pub apply_diff : Keys → Keys → M Unit
  unfolding diff
  apply_diff matched current =
      let to_add = diff matched current in
      let to_remove = diff current matched in
      try (insert_segment_members p.segment_id p.workspace_id to_add) nak_it (λ _.
        try (delete_segment_members p.segment_id p.workspace_id to_remove) nak_it
          (λ _. finish_refresh (length current) (length to_add) (length to_remove)))

  unfoldable pub update_members : Keys → M Unit
  update_members matched = do
    add_metric contacts_matched (length matched)
    try (exec (get_current_member_ids p.segment_id p.workspace_id)) nak_it (apply_diff matched)

  unfoldable pub fail_evaluation : Error → M Unit
  fail_evaluation x = do exec (update_segment_status p.segment_id p.workspace_id "failed"); nak_it x

  unfoldable pub evaluate : Option FilterNode → M Unit
  evaluate tree =
      try (exec (update_segment_status p.segment_id p.workspace_id "processing")) nak_it (λ _.
        try (stream_contacts_for_eval uuid p.workspace_id eval_page_size (match_page tree) [])
          fail_evaluation update_members)

  unfoldable pub refresh_loaded : SegmentRow → M Unit
  refresh_loaded seg =
      case_result (parse_filter_tree g seg.filter_tree)
        (λ _. do exec (update_segment_status p.segment_id p.workspace_id "failed"); settle term)
        evaluate

  -- With the lock
  unfoldable pub refresh_locked : M Unit
  refresh_locked =
      try (exec (get_segment p.segment_id p.workspace_id)) nak_it
        (λ seg. case_option seg (settle term) refresh_loaded)

  unfoldable pub refresh : M Unit
  refresh = do
    value ← new_uuid
    let key = "segment:" ++ p.segment_id ++ ":refresh"
    try (acquire_lock key value lock_ttl)
        (λ x. branch (is_lock_not_acquired x) (settle ack) (nak_it x))
        (λ _. do refresh_locked; release_lock key value; pure tt)

unfoldable pub handle_refresh : Conversions → (String → ℕ) → ℕ → Msg SegmentRefreshPayload → M Unit
handle_refresh g uuid max_retries msg = do
  inc refresh_jobs
  case_option msg.body (settle term) (λ p.
      branch (is_empty p.workspace_id || is_empty p.segment_id) (settle term)
        (refresh g uuid max_retries p (attempt_of msg)))
