-- ===== src/StartUp/Program.antt =====
-- cmd/api/main.go from the connections to the services: what is created, in which order, from what.
use authenticator.Common.{ℕ, ◌∷◌, [], Text}
use authenticator.Effect.{Exec, Result, good, bad, pure, raise, attempt, from_result, ◌>>=◌, ◌>>◌}
use authenticator.System.{PasswordConfig}
use authenticator.Configuration.{
  Flags, password_service, with_code_length, with_totp_issuer, with_secret, with_token_expiry,
  with_refresh_token_expiry, with_issuer, with_signing_secret, with_cookie_max_age,
  with_cookie_domain, with_display_name, with_domain, with_request_origin, with_max_devices,
  with_workers,
}
use authenticator.Providers.{Emailer, Smser}
use authenticator.StartUp.{Libraries, Connections}
use authenticator.StartUp.Otp
use authenticator.StartUp.Otp.{OtpService}
use authenticator.StartUp.Postgres
use authenticator.StartUp.Postgres.{Client}
use authenticator.StartUp.Token
use authenticator.StartUp.Token.{TokenService}
use authenticator.StartUp.WebAuthn
use authenticator.StartUp.WebAuthn.{WebAuthn}
use authenticator.StartUp.Messages
use authenticator.StartUp.Messages.{MessageRepository, Publisher, Consumer}
use authenticator.StartUp.Delivery
use authenticator.StartUp.Delivery.{DeliveryLibraries, DeliveryFlags}
use authenticator.StartUp.LoginApi
use authenticator.StartUp.SignupApi
use authenticator.StartUp.DeviceApi
use authenticator.StartUp.ContactApi
use authenticator.StartUp.TotpApi
use authenticator.StartUp.TokenApi

-- The local variables of main.go that hold services.
pub record Program (T : Libraries) (W : Type 0) : Type 0 where
  pub pg_db : T.db
  pub redis_db : T.redis
  pub password_svc : PasswordConfig
  pub repo_mngr : Client T
  pub otp_svc : OtpService T
  pub messaging_svc : Publisher T
  pub token_svc : TokenService T
  pub webauthn_svc : WebAuthn T
  pub login_api : LoginApi.LoginService T
  pub signup_api : SignupApi.SignupService T
  pub device_api : DeviceApi.DeviceService T
  pub contact_api : ContactApi.ContactService T
  pub totp_api : TotpApi.TotpService T
  pub token_api : TokenApi.TokenApiService T
  pub msgd : Consumer T W

module _ {T : Libraries} {W : Type 0} (io : Connections T W) where
  unfoldable pub connect_postgres : Text → Exec W T.db
  connect_postgres conn_string = do pg_db ← io.sql_open conn_string; io.ping_db pg_db; pure pg_db

  -- An error of `Close` is only logged.
  abbrev pub after_ping : T.redis → Result (Unit {0}) → Exec W T.redis
  after_ping redis_db (good answered) = pure redis_db
  after_ping redis_db (bad e) = attempt (io.close_redis redis_db) >> raise e

  unfoldable pub connect_redis : Text → Exec W T.redis
  connect_redis conn_string = do
    redis_conf ← from_result (io.parse_url conn_string)
    let redis_db = T.new_client redis_conf
    answer ← attempt (io.ping_redis redis_db)
    after_ping redis_db answer

module _ {T : Libraries} (logger : T.logger) (flags : Flags) where
  abbrev pub repository_manager : T.db → PasswordConfig → Client T
  repository_manager pg_db password_svc = Postgres.new_client (
      Postgres.with_logger logger
      ∷ Postgres.with_password password_svc
      ∷ Postgres.with_db pg_db
      ∷ [])

  abbrev pub otp_of : T.redis → OtpService T
  otp_of redis_db = Otp.new_otp (
      Otp.with_setting (with_code_length flags.otp_code_length)
      ∷ Otp.with_setting (with_totp_issuer flags.otp_issuer)
      ∷ Otp.with_setting
          (with_secret (record { version = flags.otp_secret_version; key = flags.otp_secret_key }))
      ∷ Otp.with_db redis_db
      ∷ [])

  abbrev pub token_of : T.redis → OtpService T → Client T → TokenService T
  token_of redis_db otp_svc repo_mngr = Token.new_service (
      Token.with_logger logger
      ∷ Token.with_db redis_db
      ∷ Token.with_setting (with_token_expiry flags.token_expires_in)
      ∷ Token.with_setting (with_refresh_token_expiry flags.token_refresh_expires_in)
      ∷ Token.with_setting (with_issuer flags.token_issuer)
      ∷ Token.with_setting (with_signing_secret flags.token_secret)
      ∷ Token.with_otp otp_svc
      ∷ Token.with_setting (with_cookie_max_age flags.cookie_max_age)
      ∷ Token.with_setting (with_cookie_domain flags.cookie_domain)
      ∷ Token.with_repo_manager repo_mngr
      ∷ [])

  unfoldable pub webauthn_of :
      (Text → Text → Text → Result T.webauthn) → T.redis → Client T → Result (WebAuthn T)
  webauthn_of new_lib redis_db repo_mngr = WebAuthn.new_service new_lib (
      WebAuthn.with_db redis_db
      ∷ WebAuthn.with_setting (with_display_name flags.webauthn_display_name)
      ∷ WebAuthn.with_setting (with_domain flags.webauthn_domain)
      ∷ WebAuthn.with_setting (with_request_origin flags.webauthn_request_origin)
      ∷ WebAuthn.with_repo_manager repo_mngr
      ∷ WebAuthn.with_setting (with_max_devices flags.webauthn_max_devices)
      ∷ [])

  module _ {W : Type 0} where
    -- The services of the APIs and the workers.
    unfoldable pub assembled :
        T.db
        → T.redis
        → PasswordConfig
        → MessageRepository T
        → Client T
        → OtpService T
        → TokenService T
        → WebAuthn T
        → Smser W
        → Emailer W
        → Program T W
    assembled pg_db redis_db password_svc message_repo repo_mngr otp_svc token_svc webauthn_svc
          sms_lib email_lib =
        let messaging_svc =
          Messages.new_publisher_service message_repo
            (Messages.publisher_with_logger logger ∷ []) in
        record {
          pg_db = pg_db;
          redis_db = redis_db;
          password_svc = password_svc;
          repo_mngr = repo_mngr;
          otp_svc = otp_svc;
          messaging_svc = messaging_svc;
          token_svc = token_svc;
          webauthn_svc = webauthn_svc;
          login_api = LoginApi.new_service (
              LoginApi.with_logger logger
              ∷ LoginApi.with_token_service token_svc
              ∷ LoginApi.with_repo_manager repo_mngr
              ∷ LoginApi.with_webauthn webauthn_svc
              ∷ LoginApi.with_otp otp_svc
              ∷ LoginApi.with_messaging messaging_svc
              ∷ LoginApi.with_password password_svc
              ∷ []);
          signup_api = SignupApi.new_service (
              SignupApi.with_logger logger
              ∷ SignupApi.with_token_service token_svc
              ∷ SignupApi.with_repo_manager repo_mngr
              ∷ SignupApi.with_messaging messaging_svc
              ∷ SignupApi.with_otp otp_svc
              ∷ []);
          device_api = DeviceApi.new_service (
              DeviceApi.with_logger logger
              ∷ DeviceApi.with_webauthn webauthn_svc
              ∷ DeviceApi.with_repo_manager repo_mngr
              ∷ DeviceApi.with_token_service token_svc
              ∷ []);
          contact_api = ContactApi.new_service (
              ContactApi.with_logger logger
              ∷ ContactApi.with_otp otp_svc
              ∷ ContactApi.with_repo_manager repo_mngr
              ∷ ContactApi.with_messaging messaging_svc
              ∷ ContactApi.with_token_service token_svc
              ∷ []);
          totp_api = TotpApi.new_service (
              TotpApi.with_logger logger
              ∷ TotpApi.with_otp otp_svc
              ∷ TotpApi.with_repo_manager repo_mngr
              ∷ TotpApi.with_token_service token_svc
              ∷ []);
          token_api = TokenApi.new_service (
              TokenApi.with_logger logger
              ∷ TokenApi.with_token_service token_svc
              ∷ TokenApi.with_repo_manager repo_mngr
              ∷ []);
          msgd = Messages.new_consumer_service message_repo sms_lib email_lib (
              Messages.with_setting (with_workers flags.consumer_workers)
              ∷ Messages.consumer_with_logger logger
              ∷ []);
        }

  module _ {W A : Type 0} (io : Connections T W) (default_cost channel : ℕ) where
    -- An error ends the process. `pg` and `redis` are the connection strings, `channel` is the new
    -- channel of the queue.
    unfoldable pub start :
        Text → Text → DeliveryLibraries W A → DeliveryFlags → Exec W (Program T W)
    start pg redis libs delivery = do
      let password_svc = password_service default_cost flags
      pg_db ← connect_postgres io pg
      redis_db ← connect_redis io redis
      let message_repo =
          Messages.new_repository channel (Messages.repository_with_logger logger ∷ [])
      let repo_mngr = repository_manager pg_db password_svc
      let otp_svc = otp_of redis_db
      let token_svc = token_of redis_db otp_svc repo_mngr
      webauthn_svc ← from_result (webauthn_of io.new_webauthn redis_db repo_mngr)
      pure (
          assembled pg_db redis_db password_svc message_repo repo_mngr otp_svc token_svc
            webauthn_svc (Delivery.sms_lib libs delivery) (Delivery.email_lib libs delivery))
