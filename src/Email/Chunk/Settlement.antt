-- ===== src/Email/Chunk/Settlement.antt =====
-- How the campaign chunk handler of internal/worker/email/handler.go ends.
use Prim.Native.String.{◌++◌ as ◌+ₛ◌}
use emailservice_worker.Prelude.{
  Option, ℕ, ◌≤◌, ◌≡◌, ◌≢◌, ◌⊎◌, inl, inr, refl, String, none, some, List, [], ◌∷◌, arith, leb→le,
}
use emailservice_worker.Types.{CampaignChunkPayload, CampaignChunkRecipient, Payload}
use emailservice_worker.Effect.{
  Env, World, Msg, Settlement, ack, nak, term, settle, attempt_of, ◌>>=◌, ◌>>◌, campaign_chunk_dlq,
  case_result, case_option,
}
use emailservice_worker.Effect.Errors.{Error, Result, err, ok, message}
use emailservice_worker.Effect.Keeps.{
  Ensures, Keeps, Ensures-branch_on, Ensures-branch, Ensures-bind, Ensures-then,
}
use emailservice_worker.Effect.Keeps.OnSettled.{
  Settled, settled_rules, of_Done, Settled-inc, Settled-api_send_email,
}
use emailservice_worker.RateLimit.Bucket.{TokenBucket}
use emailservice_worker.RateLimit.Acquire.{acquire}
use emailservice_worker.RateLimit.AcquireKeeps.{Keeps-acquire}
use emailservice_worker.Queue.Publisher.{publish}
use emailservice_worker.Ses.Client.{SendEmailInput, send_to, send_email}
use emailservice_worker.Email.Renderer.{Rendered, render}
use emailservice_worker.Email.Handler.{max_attempts}
use emailservice_worker.Email.Validate.{Invalid, validate_campaign_chunk}
use emailservice_worker.Email.Chunk.{
  ChunkState, publish_recipient_event, publish_campaign_dlq, on_rejected, on_accepted,
  send_to_recipient, process_recipient, process_next, process_all, mark_all_failed, fail_recipients,
  fail_all_recipients, complete_if_done, give_up_chunk, conclude, apply_progress, no_result,
  handle_chunk, handle_chunk_message,
}

module _ {e : Env} {s : List Settlement} where
  Keeps-publish :
      (subject : String) (x : Payload) (id : String) → Keeps e (Settled s) (publish subject x id)
  unfolding publish
  Keeps-publish subject x id = search settled_rules depth 20

  Keeps-send_to :
      (to : List String) (input : SendEmailInput) → Keeps e (Settled s) (send_to to input)
  unfolding send_to
  Keeps-send_to [] input = search settled_rules
  Keeps-send_to (_ ∷ _) input = search (settled_rules, Settled-api_send_email)

  pub Keeps-send_email : (input : SendEmailInput) → Keeps e (Settled s) (send_email input)
  unfolding send_email
  Keeps-send_email input = Keeps-send_to input.to input

  pub Keeps-acquire-Settled :
      (l : TokenBucket) (key : String) (max_wait : ℕ) → Keeps e (Settled s) (acquire l key max_wait)
  Keeps-acquire-Settled l key max_wait = of_Done (λ ms. Keeps-acquire l key max_wait)

  Keeps-event :
      (chunk : CampaignChunkPayload) (a b c d : String)
      → Keeps e (Settled s) (publish_recipient_event chunk a b c d)
  unfolding publish_recipient_event
  Keeps-event chunk a b c d = search (settled_rules, Keeps-publish) depth 20

  Keeps-process :
      (l : TokenBucket) (chunk : CampaignChunkPayload) (r : CampaignChunkRecipient)
      (rendered : Rendered)
      → Keeps e (Settled s) (process_recipient l chunk r rendered)
  unfolding process_recipient send_to_recipient on_rejected on_accepted
  Keeps-process l chunk r rendered =
      search (settled_rules, Keeps-event, Keeps-send_email, Keeps-acquire-Settled) depth 40

  Keeps-process_all :
      (l : TokenBucket) (chunk : CampaignChunkPayload) (rendered : Rendered)
      (rs : List CampaignChunkRecipient) (st : ChunkState)
      → Keeps e (Settled s) (process_all l chunk rendered rs st)
  unfolding process_all process_next
  Keeps-process_all l chunk rendered [] st = search settled_rules
  Keeps-process_all l chunk rendered (r ∷ rs) st =
      let rest = λ (st' : ChunkState). Keeps-process_all l chunk rendered rs st' in
      search (settled_rules, Keeps-process, rest) depth 20

  Keeps-dlq :
      (chunk : CampaignChunkPayload) (reason : String) (attempt : ℕ)
      → Keeps e (Settled s) (publish_campaign_dlq chunk reason attempt)
  unfolding publish_campaign_dlq
  Keeps-dlq chunk reason attempt = search (settled_rules, Keeps-publish) depth 20

  Keeps-mark_all :
      (chunk : CampaignChunkPayload) (a b : String) (rs : List CampaignChunkRecipient) (n : ℕ)
      → Keeps e (Settled s) (mark_all_failed chunk a b rs n)
  unfolding mark_all_failed
  Keeps-mark_all chunk a b [] n = search settled_rules
  Keeps-mark_all chunk a b (r ∷ rs) n =
      let rest = λ (k : ℕ). Keeps-mark_all chunk a b rs k in
      search (settled_rules, Keeps-event, rest) depth 20

  Keeps-fail :
      (chunk : CampaignChunkPayload) (a b : String) (rs : List CampaignChunkRecipient)
      → Keeps e (Settled s) (fail_recipients chunk a b rs)
  unfolding fail_recipients
  Keeps-fail chunk a b rs = search (settled_rules, Keeps-mark_all) depth 20

-- The message is settled once more, and terminated only for the given reason.
pub data ChunkEnd (reason : Type 0) (s : List Settlement) (w : World) : Type 0 where
  acked : w.settled ≡ ack ∷ s → ChunkEnd reason s w
  retried : w.settled ≡ nak ∷ s → ChunkEnd reason s w
  terminated : reason → w.settled ≡ term ∷ s → ChunkEnd reason s w

module _ {e : Env} {s : List Settlement} {why : Type 0} where
  ack-End : Ensures e (Settled s) (settle ack) (ChunkEnd why s)
  unfolding settle
  ack-End = record { at = λ w p. ChunkEnd.acked (ground arith) }

  nak-End : Ensures e (Settled s) (settle nak) (ChunkEnd why s)
  unfolding settle
  nak-End = record { at = λ w p. ChunkEnd.retried (ground arith) }

  term-End : why → Ensures e (Settled s) (settle term) (ChunkEnd why s)
  unfolding settle
  term-End h = record { at = λ w p. ChunkEnd.terminated h (ground arith) }

-- Why a chunk is terminated: it is invalid, it has no body to render, or its deliveries are used up.
abbrev pub IsHopeless : CampaignChunkPayload → ℕ → Type 0
IsHopeless chunk attempt =
    (validate_campaign_chunk chunk ≢ none)
    ⊎ ((x : Error) × (render chunk.subject chunk.html chunk.text ≡ err x))
    ⊎ (max_attempts ≤ attempt)

module _ {e : Env} {s : List Settlement} (chunk : CampaignChunkPayload) (attempt : ℕ) where
  give_up-End :
      (st : ChunkState)
      → max_attempts ≤ attempt
      → Ensures e
          (Settled s)
          (give_up_chunk chunk attempt st)
          (ChunkEnd (IsHopeless chunk attempt) s)
  unfolding give_up_chunk
  give_up-End st h = Ensures-then _ _ (Keeps-fail chunk _ _ _) (
      Ensures-then _ _ (Keeps-dlq chunk _ attempt)
        (Ensures-then _ _ (Settled-inc campaign_chunk_dlq) (term-End (inr (inr h)))))

  conclude-End :
      (st : ChunkState)
      → Ensures e (Settled s) (conclude chunk attempt st) (ChunkEnd (IsHopeless chunk attempt) s)
  unfolding conclude
  conclude-End st = Ensures-branch _ _ _ ack-End (
      Ensures-branch_on _ _ _ (λ h. give_up-End st (leb→le max_attempts attempt h))
        (λ h. search (settled_rules, nak-End)))

  apply_progress-End :
      (st : ChunkState)
      → Ensures e
          (Settled s)
          (apply_progress chunk attempt st)
          (ChunkEnd (IsHopeless chunk attempt) s)
  unfolding apply_progress complete_if_done
  apply_progress-End st = search (settled_rules, nak-End, conclude-End) depth 30

  rendered_End :
      (l : TokenBucket) (r : Result Rendered)
      → render chunk.subject chunk.html chunk.text ≡ r
      → Ensures e
          (Settled s)
          (case_result r
            (λ x. fail_all_recipients chunk ("render: " +ₛ message x) >> settle term)
            (λ rendered.
              process_all l chunk rendered chunk.recipients no_result
              >>= apply_progress chunk attempt))
          (ChunkEnd (IsHopeless chunk attempt) s)
  unfolding case_result fail_all_recipients
  rendered_End l (ok rendered) q =
      Ensures-bind _ _ (Keeps-process_all l chunk rendered _ _) apply_progress-End
  rendered_End l (err x) q = Ensures-then _ _ (Keeps-fail chunk _ _ _) (term-End (inr (inl (x, q))))

  handle_chunk-End :
      (l : TokenBucket)
      → Ensures e (Settled s) (handle_chunk l chunk attempt) (ChunkEnd (IsHopeless chunk attempt) s)
  unfolding handle_chunk
  handle_chunk-End l = rendered_End l (render chunk.subject chunk.html chunk.text) refl

  validated_End :
      (l : TokenBucket) (o : Option Invalid)
      → validate_campaign_chunk chunk ≡ o
      → Ensures e
          (Settled s)
          (case_option o (handle_chunk l chunk attempt) (λ _. settle term))
          (ChunkEnd (IsHopeless chunk attempt) s)
  unfolding case_option
  validated_End l none q = handle_chunk-End l
  validated_End l (some x) q = term-End (inl (λ h. cc))

-- Why a message of the queue is terminated: its payload is not JSON, or its chunk is hopeless.
abbrev pub WhyTerminated : Msg CampaignChunkPayload → Type 0
WhyTerminated msg = elim msg.body [ none ↦ Unit | some chunk ↦ IsHopeless chunk (attempt_of msg) ]

decoded_End :
    (l : TokenBucket) (body : Option CampaignChunkPayload) (n : Option ℕ) (e : Env) (w : World)
    → let msg : Msg CampaignChunkPayload = record { body = body; num_delivered = n } in
      ChunkEnd (WhyTerminated msg) w.settled (handle_chunk_message l msg e w).1
unfolding handle_chunk_message case_option
decoded_End l none n e w = (term-End {why = Unit} tt).at w refl
decoded_End l (some chunk) n e w =
    let msg : Msg CampaignChunkPayload = record { body = some chunk; num_delivered = n } in
    (validated_End chunk (attempt_of msg) l (validate_campaign_chunk chunk) refl).at w refl

-- Whatever SES, the database, Redis, the queue and the clock do: the chunk handler settles its
-- message exactly once, and it terminates the message only if the payload is malformed or invalid,
-- if there is no body to render, or if this is the sixth delivery at least.
pub handle_chunk_message-End :
    (l : TokenBucket) (msg : Msg CampaignChunkPayload) (e : Env) (w : World)
    → ChunkEnd (WhyTerminated msg) w.settled (handle_chunk_message l msg e w).1
handle_chunk_message-End l msg e w = decoded_End l msg.body msg.num_delivered e w
