-- ===== src/Publisher.antt =====
-- internal/msgpublisher: the content of outgoing messages, from templates.
pub mod Rendered
pub mod Fields
pub mod CodeMessages
use authenticator.Common.{
  ℕ, zero, suc, ◌+◌, ◌-◌, Bool, true, false, not, ◌||◌, Option, none, some, List, [], ◌∷◌, ◌++◌,
  Text, codes, is_empty, has_prefix, length, if◌then◌else◌,
}
use authenticator.Errors.{Err, other, wrap}
use authenticator.Effect.{Result, good, bad}
use authenticator.Domain.{
  DeliveryMethod, phone, email, Message, MessageType, otp_address, otp_resend, otp_login,
  otp_signup,
}

-- `auth.Message`. The variables are in the order in which the loop over the map takes them.
pub record Posting : Type 0 where
  pub type : MessageType
  pub subject : Text
  pub delivery : DeliveryMethod
  pub vars : List (Text × Text)
  pub content : Text
  pub address : Text
  pub expires_at : ℕ
  pub delivery_attempts : ℕ

-- The messages that handlers make.
abbrev pub to_posting : Message → Posting
to_posting m = record {
  type = m.type;
  subject = [];
  delivery = m.delivery;
  vars = (codes "code", m.code) ∷ [];
  content = [];
  address = m.address;
  expires_at = 0;
  delivery_attempts = 0;
}

-- `strings.Contains(s, t)`.
unfoldable pub contains : Text → Text → Bool
contains t [] = is_empty t
contains t (x ∷ s) = has_prefix t (x ∷ s) || contains t s

-- What is left of a text whose first bytes have been replaced already.
abbrev replace_from : ℕ → Text → Text → Text → Text
replace_from n old new [] = []
replace_from (suc n) old new (x ∷ s) = replace_from n old new s
replace_from zero old new (x ∷ s) = elim (has_prefix old (x ∷ s)) [
  | true ↦ new ++ replace_from (length old - 1) old new s
  | false ↦ x ∷ replace_from zero old new s
]

-- `strings.Replace(s, old, new, -1)`, where `old` is not empty.
unfoldable pub replace : Text → Text → Text → Text
replace s old new = replace_from 0 old new s

abbrev pub sms_templates : MessageType → Text
sms_templates otp_login = codes "Your login code is {{code}}"
sms_templates otp_signup = codes "Your signup code is {{code}}"
sms_templates otp_resend = codes "Youre new code is {{code}}"
sms_templates otp_address = codes "Use the code {{code}} to verify your new contact address"

-- The lines of a raw string, each after a line feed and three tabulators.
abbrev pub lines : Text → Text → Text
lines first second =
    let margin = 10 ∷ 9 ∷ 9 ∷ 9 ∷ [] in
    margin ++ (first ++ (margin ++ (second ++ (10 ∷ 9 ∷ 9 ∷ []))))

abbrev pub email_templates : MessageType → Text
email_templates otp_login =
    lines (codes "<span>Code: <strong>{{code}}</strong></span>")
      (codes "<p>Enter the code above to login</p>")
email_templates otp_signup =
    lines (codes "<span>Code: <strong>{{code}}</strong></span>")
      (codes "<p>Enter the code above to signup</p>")
email_templates otp_resend =
    lines (codes "<span>Here's your new code</span>")
      (codes "<p>Code: <strong>{{code}}</strong></p>")
email_templates otp_address =
    lines (codes "<span>Code: <strong>{{code}}</strong></span>")
      (codes "<p>Enter the code above to verify your new contact address</p>")

abbrev pub subjects : MessageType → Text
subjects otp_address = codes "Verify your contact details"
subjects otp_login = codes "Your login verification code"
subjects otp_resend = codes "You've requested a new verification code"
subjects otp_signup = codes "Your signup verification code"

unfoldable pub template : MessageType → DeliveryMethod → Text
template t phone = sms_templates t
template t email = email_templates t
template t _ = []

-- The loop over the variables.
unfoldable pub fill : List (Text × Text) → Text → Text
fill [] s = s
fill ((k, v) ∷ vars) s = fill vars (replace s (codes "{{" ++ (k ++ codes "}}")) v)

abbrev filled : Posting → Text → Result Posting
filled m s =
    if contains (codes "{{") s || contains (codes "}}") s
    then bad (other "all variables not set for template")
    else good (record m { content = s; subject = subjects m.type })

abbrev from_template : Posting → Text → Result Posting
from_template m s = if is_empty s then bad (other "no template set") else filled m (fill m.vars s)

-- The caller's content is not overwritten.
abbrev with_content : Posting → Result Posting
with_content m = if is_empty m.content then from_template m (template m.type m.delivery) else good m

unfoldable pub set_message_fields : ℕ → ℕ → Posting → Result Posting
set_message_fields now expire_after m = with_content (record m { expires_at = now + expire_after })
