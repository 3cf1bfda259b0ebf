-- ===== src/Examples/Payloads.antt =====
-- The payload checks on concrete payloads.
use emailservice_worker.Prelude.{true, ◌≡◌, refl, inl, inr, none}
use emailservice_worker.Email.Validate.{validate_payload, validate_campaign_chunk}
use emailservice_worker.Email.Validate.Valid.{
  IsValid, IsValidChunk, validate_payload-IsValid, validate_payload-none,
  validate_campaign_chunk-IsValid,
}
use emailservice_worker.Prelude.{to_chars}
use emailservice_worker.Email.Renderer.{html_to_text}
use emailservice_worker.Email.Renderer.Newlines.{runs_ok, runs_ok-html_to_text}
use emailservice_worker.Examples.{payload, differ}
use emailservice_worker.Examples.Chunks.{chunk}

validate_payload-IsValid_example : IsValid payload
unfolding validate_payload
validate_payload-IsValid_example = validate_payload-IsValid payload refl

validate_payload-none_example : validate_payload payload ≡ none
validate_payload-none_example = validate_payload-none payload (
  differ "s1" "" refl,
  differ "w1" "" refl,
  differ "j1" "" refl,
  λ q. cc,
  (differ "ann@example.org" "" refl, tt),
  differ "shop@example.org" "" refl,
  differ "Hello" "" refl,
  inl (differ "<p>Hi</p>" "" refl),
  inr refl,
)

validate_campaign_chunk-IsValid_example : IsValidChunk chunk
unfolding validate_campaign_chunk
validate_campaign_chunk-IsValid_example = validate_campaign_chunk-IsValid chunk refl

runs_ok-html_to_text_example :
    runs_ok 0 (html_to_text (to_chars "<p>Tom</p>\n\n\n\n<p>Jerry</p>")) ≡ true
runs_ok-html_to_text_example = runs_ok-html_to_text (to_chars "<p>Tom</p>\n\n\n\n<p>Jerry</p>")
