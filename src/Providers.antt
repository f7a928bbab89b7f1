-- ===== src/Providers.antt =====
-- internal/mail, internal/sendgrid and internal/twilio, and how internal/msgconsumer calls them.
pub mod Acceptance
use authenticator.Common.{
  ℕ, ◌==◌, Bool, true, false, Option, none, some, List, [], ◌∷◌, ◌++◌, Text, codes, text_eq,
  has_prefix, length, take, ◌-◌, if◌then◌else◌,
}
use authenticator.Errors.{Err, other}
use authenticator.Effect.{Exec, Result, pure, guard, wrapped, from_result, ◌>>=◌, ◌>>◌}
use authenticator.Domain.{DeliveryMethod, phone, email}
use authenticator.Publisher.{Posting}

-- `auth.Emailer`: address, subject and message.
pub record Emailer (W : Type 0) : Type 0 where
  pub email : Text → Text → Text → Exec W (Unit {0})

-- `auth.SMSer`: phone number and message.
pub record Smser (W : Type 0) : Type 0 where
  pub sms : Text → Text → Exec W (Unit {0})

-- The mail service; `A` is the type of SMTP credentials.
pub record MailConfig (W A : Type 0) : Type 0 where
  pub server_addr : Text
  pub from_addr : Text
  pub auth : A
  pub mail_fn : Text → A → Text → List Text → Text → Exec W (Unit {0})

abbrev crlf : Text
crlf = 13 ∷ 10 ∷ []

abbrev quote : Text
quote = 34 ∷ []

abbrev pub mime_headers : Text
mime_headers =
    codes "MIME-version: 1.0;"
    ++ (10
        ∷ (codes "Content-Type: text/html; charset="
            ++ (quote ++ (codes "UTF-8" ++ (quote ++ codes ";")))))

abbrev pub mail_content : Text → Text → Text → Text
mail_content address subject message =
    (codes "To: " ++ (address ++ crlf))
    ++ ((codes "Subject: " ++ (subject ++ crlf)) ++ ((mime_headers ++ (10 ∷ 10 ∷ [])) ++ message))

unfoldable pub mail_service : {W A : Type 0} → MailConfig W A → Emailer W
mail_service s = record {
  email = λ address subject message.
      s.mail_fn s.server_addr s.auth s.from_addr (address ∷ [])
        (mail_content address subject message);
}

-- A mail as sendgrid's helper makes it: the message as plain text and as HTML.
pub record SingleEmail : Type 0 where
  pub from_name : Text
  pub from_addr : Text
  pub subject : Text
  pub to_addr : Text
  pub plain_text : Text
  pub html : Text

-- Sendgrid's client, by its key; it returns the status of the response.
module _ {W : Type 0} (send : Text → SingleEmail → Exec W ℕ) where
  unfoldable pub sendgrid_client : Text → Text → Text → Emailer W
  sendgrid_client api_key from_addr from_name = record {
    email = λ address subject message. do
      status ← wrapped "sendgrid client failed" (
          send api_key (record {
            from_name = from_name;
            from_addr = from_addr;
            subject = subject;
            to_addr = address;
            plain_text = message;
            html = message;
          }))
      guard (status == 202) (other "sendgrid failure received");
  }

pub record TwilioConfig : Type 0 where
  pub base_url : Text
  pub account_sid : Text
  pub auth_token : Text
  pub sms_sender : Text

-- `strings.TrimSuffix(s, "/")`.
abbrev pub trim_slash : Text → Text
trim_slash [] = []
trim_slash (x ∷ []) = if x == b'/' then [] else x ∷ []
trim_slash (x ∷ s) = x ∷ trim_slash s

abbrev pub with_config : TwilioConfig → TwilioConfig
with_config config = record config { base_url = trim_slash config.base_url }

abbrev pub with_defaults : Text → Text → Text → TwilioConfig
with_defaults account_sid auth_token sms_sender = record {
  base_url = codes "https://api.twilio.com/2010-04-01";
  account_sid = account_sid;
  auth_token = auth_token;
  sms_sender = sms_sender;
}

-- An HTTP request as the client builds it.
pub record SmsRequest : Type 0 where
  pub method : Text
  pub url : Text
  pub username : Text
  pub password : Text
  pub content_type : Text
  pub body : Text

-- The order in which a loop over a map takes its entries; a multipart writer's part for a field, its end, and its content type; building a request, and
-- sending it, which returns the status of the response.
pub record SmsTransport (W : Type 0) : Type 0 where
  pub iterate : List (Text × Text) → List (Text × Text)
  pub write_field : Text → Text → Text → Result Text
  pub close : Text → Result Text
  pub form_data_content_type : Text
  pub new_request : SmsRequest → Result SmsRequest
  pub do_request : SmsRequest → Exec W ℕ

module _ {W : Type 0} (http : SmsTransport W) (c : TwilioConfig) where
  unfoldable pub write_fields : List (Text × Text) → Text → Exec W Text
  write_fields [] body = pure body
  write_fields ((k, v) ∷ fields) body = do
    longer ← wrapped "failed to write %s to %s" (from_result (http.write_field k v body))
    write_fields fields longer

  unfoldable pub request : Text → Text → Exec W ℕ
  request url body = do
    req ← wrapped "cannot create HTTP request" (
        from_result (
          http.new_request (record {
            method = codes "POST";
            url = url;
            username = c.account_sid;
            password = c.auth_token;
            content_type = http.form_data_content_type;
            body = body;
          })))
    wrapped "failed to send HTTP request" (http.do_request req)

  abbrev pub sms_template : Text → Text → List (Text × Text)
  sms_template phone_number message =
      (codes "To", phone_number) ∷ (codes "From", c.sms_sender) ∷ (codes "Body", message) ∷ []

  abbrev pub messages_url : Text
  messages_url = c.base_url ++ (codes "/Accounts/" ++ (c.account_sid ++ codes "/Messages.json"))

  unfoldable pub sms : Text → Text → Exec W (Unit {0})
  sms phone_number message = do
    written ← write_fields (http.iterate (sms_template phone_number message)) []
    body ← wrapped "failed to close writer" (from_result (http.close written))
    status ← request messages_url body
    guard (status == 201) (other "expected status %v, got %v: %s")

  unfoldable pub twilio_client : Smser W
  twilio_client = record { sms = sms }

-- The provider that `processMessage` calls for a message; there may be none.
unfoldable pub deliver : {W : Type 0} → Smser W → Emailer W → Posting → Exec W (Unit {0})
deliver sms_lib email_lib m = elim m.delivery [
  | phone ↦ sms_lib.sms m.address m.content
  | email ↦ email_lib.email m.address m.subject m.content
  | _ ↦ pure tt
]

-- The library that main.go chooses by the flag `maillib`.
abbrev pub choose_email_lib : {W : Type 0} → Text → Emailer W → Emailer W → Emailer W
choose_email_lib maillib send_grid std_mailer =
    if text_eq maillib (codes "sendgrid") then send_grid else std_mailer
