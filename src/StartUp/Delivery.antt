-- ===== src/StartUp/Delivery.antt =====
-- internal/mail/config.go, and the providers that cmd/api/main.go makes from its flags.
use authenticator.Common.{ℕ, List, [], Text}
use authenticator.Effect.{Exec}
use authenticator.Providers.{
  Emailer, Smser, MailConfig, mail_service, SingleEmail, sendgrid_client, SmsTransport,
  TwilioConfig, with_defaults, twilio_client, choose_email_lib,
}

-- The flags for Twilio, mail and Sendgrid.
pub record DeliveryFlags : Type 0 where
  pub twilio_account_sid : Text
  pub twilio_token : Text
  pub twilio_sms_sender : Text
  pub mail_server_addr : Text
  pub mail_from_addr : Text
  pub mail_auth_username : Text
  pub mail_auth_password : Text
  pub mail_auth_hostname : Text
  pub sendgrid_api_key : Text
  pub sendgrid_from_addr : Text
  pub sendgrid_from_name : Text
  pub maillib : Text

abbrev pub default_delivery_flags : DeliveryFlags
default_delivery_flags = record {
  twilio_account_sid = [];
  twilio_token = [];
  twilio_sms_sender = [];
  mail_server_addr = [];
  mail_from_addr = [];
  mail_auth_username = [];
  mail_auth_password = [];
  mail_auth_hostname = [];
  sendgrid_api_key = [];
  sendgrid_from_addr = [];
  sendgrid_from_name = [];
  maillib = [];
}

-- net/smtp, with credentials in `A`, the Sendgrid library, and HTTP.
pub record DeliveryLibraries (W A : Type 0) : Type 0 where
  pub transport : SmsTransport W
  -- Identity, name of the user, password and host.
  pub plain_auth : Text → Text → Text → Text → A
  pub send_mail : Text → A → Text → List Text → Text → Exec W (Unit {0})
  pub send_single : Text → SingleEmail → Exec W ℕ

module _ {W A : Type 0} where
  -- `mail.WithDefaults`; its first argument is `smtp.SendMail`.
  abbrev pub mail_with_defaults :
      (Text → A → Text → List Text → Text → Exec W (Unit {0})) → Text → Text → A → MailConfig W A
  mail_with_defaults send_mail server_addr from_addr auth = record {
    server_addr = server_addr;
    from_addr = from_addr;
    auth = auth;
    mail_fn = send_mail;
  }

module _ {W A : Type 0} (libs : DeliveryLibraries W A) (flags : DeliveryFlags) where
  abbrev pub twilio_account : TwilioConfig
  twilio_account = with_defaults flags.twilio_account_sid flags.twilio_token flags.twilio_sms_sender

  abbrev pub sms_lib : Smser W
  sms_lib = twilio_client libs.transport twilio_account

  abbrev pub send_grid : Emailer W
  send_grid =
      sendgrid_client libs.send_single flags.sendgrid_api_key flags.sendgrid_from_addr
        flags.sendgrid_from_name

  abbrev pub smtp_account : MailConfig W A
  smtp_account = mail_with_defaults libs.send_mail flags.mail_server_addr flags.mail_from_addr (
      libs.plain_auth [] flags.mail_auth_username flags.mail_auth_password flags.mail_auth_hostname)

  abbrev pub std_mailer : Emailer W
  std_mailer = mail_service smtp_account

  abbrev pub email_lib : Emailer W
  email_lib = choose_email_lib flags.maillib send_grid std_mailer
