-- ===== src/Providers/Acceptance.antt =====
-- What a provider has answered when a delivery succeeds.
use authenticator.Common.{
  ℕ, ◌≡◌, subst, eq_sound, Bool, true, false, List, [], ◌∷◌, ◌++◌, refl, sym, Text, codes, text_eq,
  if◌then◌else◌,
}
use authenticator.Effect.{Exec, ok, good}
use authenticator.Effect.Ensures.{
  Ensures, Ensures-bind, Ensures-wrapped, Ensures-guard_last, Ensures-map_err,
  Ensures-wrapped_result, Ensures-pure,
}
use authenticator.Domain.{DeliveryMethod, phone, email, no_method, other_method}
use authenticator.Publisher.{Posting}
use authenticator.Providers.{
  Emailer, MailConfig, mime_headers, mail_service, SingleEmail, sendgrid_client, TwilioConfig,
  SmsTransport, SmsRequest, write_fields, request, messages_url, sms, twilio_client, deliver,
  choose_email_lib,
}

module _ {W : Type 0} (http : SmsTransport W) (c : TwilioConfig) where
  -- The request that carries a form, under the account's credentials.
  abbrev pub message_request : Text → SmsRequest
  message_request body = record {
    method = codes "POST";
    url = c.base_url ++ (codes "/Accounts/" ++ (c.account_sid ++ codes "/Messages.json"));
    username = c.account_sid;
    password = c.auth_token;
    content_type = http.form_data_content_type;
    body = body;
  }

  -- The form that the writer makes of a body when it writes fields, one after the other.
  abbrev pub Written : List (Text × Text) → Text → Text → Type 0
  Written [] body form = body ≡ form
  Written ((k, v) ∷ fields) body form =
      (longer : Text) × (http.write_field k v body ≡ good longer) × Written fields longer form

  write_fields-Written :
      (fields : List (Text × Text)) (body : Text) (w : W)
      → Ensures (write_fields http c fields body w) (λ form v. Written fields body form × (w ≡ v))
  unfolding write_fields
  write_fields-Written [] body w =
      Ensures-pure (λ form v. (body ≡ form) × (w ≡ v)) body w (refl, refl)
  write_fields-Written ((k, v) ∷ fields) body w = Ensures-wrapped_result _ _ _ λ longer written.
      λ form u rest.
        let (others, same) = write_fields-Written fields longer w form u rest in
        ((longer, written, others), same)

  -- Twilio created a message from a form of three fields: the number, the sender and the text.
  abbrev pub SmsCreated : Text → Text → W → W → Type 0
  SmsCreated phone_number message w w' =
      (form : Text) × (body : Text) × (req : SmsRequest) × Written
        (http.iterate (
          (codes "To", phone_number) ∷ (codes "From", c.sms_sender) ∷ (codes "Body", message) ∷ []))
        [] form
      × (http.close form ≡ good body)
      × (http.new_request (message_request body) ≡ good req)
      × (http.do_request req w ≡ ok 201 w')

  request-sent :
      (body : Text) (w : W)
      → Ensures (request http c (messages_url http c) body w) (λ status w'.
        (req : SmsRequest) × (http.new_request (message_request body) ≡ good req)
        × (http.do_request req w ≡ ok status w'))
  unfolding request
  request-sent body w =
      Ensures-wrapped_result _ _ _
        λ req built. Ensures-map_err _ (http.do_request req) λ status w' sent. (req, built, sent)

  sms-SmsCreated :
      (phone_number message : Text) (w : W)
      → Ensures (sms http c phone_number message w) (λ _ w'. SmsCreated phone_number message w w')
  unfolding sms
  sms-SmsCreated phone_number message w = Ensures-bind _ _ λ form v written.
      Ensures-wrapped_result _ _ _ λ body closed. Ensures-bind _ _ λ status u answered.
        let (req, built, sent) = request-sent body v status u answered in
        let (fields, same) = write_fields-Written _ [] w form v written in
        Ensures-guard_last _ _ _ λ created. (
          form,
          body,
          req,
          fields,
          closed,
          built,
          subst (λ n. http.do_request req w ≡ ok n u) (eq_sound status 201 created)
              (subst (λ x. http.do_request req x ≡ ok status u) (sym same) sent),
        )

module _ {W A : Type 0} (http : SmsTransport W) (c : TwilioConfig) (mail : MailConfig W A)
    (send : Text → SingleEmail → Exec W ℕ) (api_key from_addr from_name : Text) where
  abbrev single_email : Text → Text → Text → SingleEmail
  single_email address subject message = record {
    from_name = from_name;
    from_addr = from_addr;
    subject = subject;
    to_addr = address;
    plain_text = message;
    html = message;
  }

  abbrev crlf : Text
  crlf = 13 ∷ 10 ∷ []

  -- Recipient and subject, each in a line of its own, the headers for HTML, and after an empty line the
  -- message.
  abbrev mail_text : Text → Text → Text → Text
  mail_text address subject message =
      (codes "To: " ++ (address ++ crlf))
      ++ ((codes "Subject: " ++ (subject ++ crlf)) ++ ((mime_headers ++ (10 ∷ 10 ∷ [])) ++ message))

  -- Sendgrid accepted a mail, or the SMTP function sent it.
  abbrev MailAccepted : Bool → Text → Text → Text → W → W → Type 0
  MailAccepted true address subject message w w' =
      send api_key (single_email address subject message) w ≡ ok 202 w'
  MailAccepted false address subject message w w' =
      mail.mail_fn mail.server_addr mail.auth mail.from_addr (address ∷ [])
        (mail_text address subject message) w
      ≡ ok tt w'

  abbrev email_lib : Bool → Emailer W
  email_lib b = if b then sendgrid_client send api_key from_addr from_name else mail_service mail

  email_lib-MailAccepted :
      (b : Bool) (address subject message : Text) (w : W)
      → Ensures
          ((email_lib b).email address subject message w)
          (λ _ w'. MailAccepted b address subject message w w')
  unfolding sendgrid_client mail_service
  email_lib-MailAccepted true address subject message w = Ensures-wrapped _ _ _ λ status u answered.
      Ensures-guard_last _ _ _ λ accepted.
        subst (λ n. send api_key (single_email address subject message) w ≡ ok n u)
          (eq_sound status 202 accepted) answered
  email_lib-MailAccepted false address subject message w = λ u w' sent. sent

  -- What has happened to a message, by its method.
  abbrev pub Accepted : Text → DeliveryMethod → Posting → W → W → Type 0
  Accepted maillib phone m w w' = SmsCreated http c m.address m.content w w'
  Accepted maillib email m w w' =
      MailAccepted (text_eq maillib (codes "sendgrid")) m.address m.subject m.content w w'
  Accepted maillib _ m w w' = w ≡ w'

  -- If a worker counts a message as delivered, then its provider has accepted it. For a message by
  -- phone, Twilio answered 201 (created) to the request with the form of number, sender and content,
  -- written in the order in which the map of the fields is read, under the account's credentials. For
  -- one by email, Sendgrid answered 202 to a mail with its
  -- address, subject and content, or the SMTP function sent such a mail without an error, as the flag
  -- chooses. Without either method nothing has happened.
  pub delivery_acknowledged :
      (maillib : Text) (m : Posting) (w w' : W)
      → deliver
          (twilio_client http c)
          (choose_email_lib maillib
            (sendgrid_client send api_key from_addr from_name)
            (mail_service mail))
          m
          w
        ≡ ok tt w'
      → Accepted maillib m.delivery m w w'
  unfolding deliver twilio_client
  delivery_acknowledged maillib m w w' delivered = split m.delivery delivered
    where
      split :
          (d : DeliveryMethod)
          → deliver
              (twilio_client http c)
              (choose_email_lib maillib
                (sendgrid_client send api_key from_addr from_name)
                (mail_service mail))
              (record m { delivery = d })
              w
            ≡ ok tt w'
          → Accepted maillib d m w w'
      split phone h = sms-SmsCreated http c m.address m.content w tt w' h
      split email h =
          email_lib-MailAccepted (text_eq maillib (codes "sendgrid")) m.address m.subject m.content
            w tt w' h
      split no_method h = cc
      split (other_method x) h = cc
