-- ===== src/Examples/Providers.antt =====
-- The theorems on providers and on a restart.
use authenticator.Common.{ℕ, ◌≡◌, refl, [], ◌++◌, Text, codes, arith}
use authenticator.Errors.{other}
use authenticator.Effect.{ok, fail, good, Exec}
use authenticator.Domain.{phone, otp_login}
use authenticator.Publisher.{Posting}
use authenticator.Providers.{
  MailConfig, SmsTransport, TwilioConfig, SingleEmail, with_defaults, write_fields, request, sms,
  twilio_client, sendgrid_client, mail_service, deliver, choose_email_lib,
}
use authenticator.Providers.Acceptance.{Accepted, delivery_acknowledged}
use authenticator.Configuration.{Flags, default_flags, started, configured, new_otp}
use authenticator.Configuration.Restart.{service, restart_keeps_secrets}
use authenticator.Otp.{encrypt, decrypt}
use authenticator.Examples.World.{World, system}
use authenticator.Examples.Laws.{base64, cipher}
use authenticator.Examples.Setting.{value_of, world_of, returns, machine, start}

-- Every request is answered, with the status 201 for a message and 202 for a mail; fields are
-- written one after the other.
abbrev pub transport : SmsTransport World
transport = record {
  iterate = λ fields. fields;
  write_field = λ k v body. good (body ++ (k ++ (codes "=" ++ (v ++ codes ";"))));
  close = λ body. good body;
  form_data_content_type = codes "multipart/form-data";
  new_request = λ r. good r;
  do_request = λ r w. ok 201 w;
}

abbrev account : TwilioConfig
account = with_defaults (codes "sid") (codes "token") (codes "+15555555555")

abbrev smtp : MailConfig World Text
smtp = record {
  server_addr = codes "localhost:25";
  from_addr = codes "a@b.org";
  auth = codes "plain";
  mail_fn = λ addr a from to msg w. ok tt w;
}

abbrev accept : Text → SingleEmail → Exec World ℕ
accept key mail w = ok 202 w

abbrev message : Posting
message = record {
  type = otp_login;
  subject = [];
  delivery = phone;
  vars = [];
  content = codes "Your login code is 123456";
  address = codes "+15555555555";
  expires_at = 0;
  delivery_attempts = 1;
}

was_delivered :
    deliver
      (twilio_client transport account)
      (choose_email_lib
        (codes "sendgrid")
        (sendgrid_client accept (codes "key") (codes "a@b.org") (codes "A"))
        (mail_service smtp))
      message
      start
    ≡ ok tt start
unfolding machine deliver twilio_client sms request write_fields
was_delivered = refl

delivery_acknowledged_example :
    Accepted transport account smtp accept
      (codes "key")
      (codes "a@b.org")
      (codes "A")
      (codes "sendgrid")
      phone
      message
      start
      start
delivery_acknowledged_example =
    delivery_acknowledged transport account smtp accept (codes "key") (codes "a@b.org") (codes "A")
      (codes "sendgrid") message start start was_delivered

-- The key that is configured first, and its successor.
abbrev first_key : Flags
first_key = record default_flags { otp_secret_key = codes "old"; otp_secret_version = 1 }

abbrev second_key : Flags
second_key = record default_flags { otp_secret_key = codes "new"; otp_secret_version = 2 }

abbrev kept : Text
kept = value_of [] (encrypt (service 10 system first_key) (codes "JBSWY3DP") start)

was_kept :
    encrypt (service 10 system first_key) (codes "JBSWY3DP") start
    ≡ ok kept (world_of (encrypt (service 10 system first_key) (codes "JBSWY3DP") start))
unfolding machine started configured new_otp
was_kept = returns [] (encrypt (service 10 system first_key) (codes "JBSWY3DP") start) refl

restart_keeps_secrets_example :
    decrypt (service 10 system second_key) kept start
    ≡ fail (other "no secret key found for version %v") start
restart_keeps_secrets_example =
    restart_keeps_secrets 10 system base64 cipher first_key second_key (codes "JBSWY3DP") kept start
      (world_of (encrypt (service 10 system first_key) (codes "JBSWY3DP") start)) start
      (λ same. absurd (ground (arith, same))) was_kept
