-- ===== src/Ses/Client.antt =====
-- internal/infra/ses/client.go: the send request and the classification of SES's errors.
pub mod Answers
use Prim.Native.String.{◌++◌}
use emailservice_worker.Prelude.{
  ℕ, String, Bool, true, false, Option, none, some, List, [], ◌∷◌, ◌=ₛ◌, if◌then◌else◌, any,
}
use emailservice_worker.Effect.{M, Mail, pure, branch, api_send_email}
use emailservice_worker.Effect.Errors.{
  Error, Result, ok, err, text, api, lock_not_acquired, rate_limit_exceeded, wrap, out_of_fuel,
}

pub record SendEmailInput : Type 0 where
  pub from : String
  pub from_name : String
  pub to : List String
  pub reply_to : List String
  pub subject : String
  pub html_body : String
  pub text_body : String
  pub tags : List (String × String)

-- An empty body part is left out.
abbrev pub part : String → Option String
part s = if s =ₛ "" then none else some s

-- The request to the SES client library.
unfoldable pub mail_of : SendEmailInput → Mail
mail_of input = record {
  source =
      if input.from_name =ₛ "" then input.from else input.from_name ++ " <" ++ input.from ++ ">";
  to = input.to;
  reply_to = input.reply_to;
  subject = input.subject;
  html = part input.html_body;
  text = part input.text_body;
  tags = input.tags;
}

unfoldable pub send_to : List String → SendEmailInput → M (Result String)
unfolding mail_of
send_to [] input = pure (err (text "send: empty recipient list"))
send_to (_ ∷ _) input =
    branch (input.from =ₛ "") (pure (err (text "send: empty from address")))
      (api_send_email (mail_of input))

-- `Client.SendEmail`; the result is SES's message ID.
unfoldable pub send_email : SendEmailInput → M (Result String)
unfolding send_to
send_email input = send_to input.to input

abbrev pub permanent_error_codes : List String
permanent_error_codes =
    "MessageRejected" ∷ "MailFromDomainNotVerifiedException"
    ∷ "ConfigurationSetDoesNotExistException" ∷ "ConfigurationSetSendingPausedException"
    ∷ "AccountSendingPausedException" ∷ "InvalidParameterValue" ∷ "InvalidRenderingParameter"
    ∷ "AccessDeniedException" ∷ "ValidationException" ∷ []

-- `errors.As` looks for the API error below the wraps.
unfoldable pub is_permanent_error : Error → Bool
is_permanent_error (api code s) = any (λ c. c =ₛ code) permanent_error_codes
is_permanent_error (wrap prefix x) = is_permanent_error x
is_permanent_error (text s) = false
is_permanent_error lock_not_acquired = false
is_permanent_error (rate_limit_exceeded s) = false
is_permanent_error out_of_fuel = false
