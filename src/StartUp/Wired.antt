-- ===== src/StartUp/Wired.antt =====
-- What main.go has put together when its connections answer.
use authenticator.Common.{ℕ, ◌≡◌, ◌↔◌, refl, [], ◌∷◌, some, Text}
use authenticator.Effect.{good, ok, ◌>>=◌}
use authenticator.System.{System}
use authenticator.Configuration.{
  Flags, configured, new_otp, new_token_service, new_consumer, webauthn_service, started,
  consumer_service, publisher_service,
}
use authenticator.Configuration
use authenticator.StartUp.Delivery
use authenticator.StartUp.Delivery.{DeliveryLibraries, DeliveryFlags}
use authenticator.StartUp.{Libraries, Connections}
use authenticator.StartUp.Otp
use authenticator.StartUp.Postgres
use authenticator.StartUp.Token
use authenticator.StartUp.Messages
use authenticator.StartUp.Connected.{
  start-Answers, Answers, connect_postgres-returns, connect_redis-returns, webauthn_without,
  webauthn_of-built,
}
use authenticator.StartUp.Messages.{new_repository, new_publisher_service, new_consumer_service}
use authenticator.StartUp.LoginApi
use authenticator.StartUp.SignupApi
use authenticator.StartUp.DeviceApi
use authenticator.StartUp.ContactApi
use authenticator.StartUp.TotpApi
use authenticator.StartUp.TokenApi
use authenticator.StartUp.Program.{Program, assembled, start, repository_manager, token_of, otp_of}

module _ {T : Libraries} {W A : Type 0} (logger : T.logger) (flags : Flags) (io : Connections T W)
    (default_cost : ℕ) (sys : System W) (libs : DeliveryLibraries W A)
    (delivery : DeliveryFlags) where
  -- Every field of every service is set, to the one service that main.go has created for it, and
  -- the settings are those of `sys` when it is started with the flags.
  pub record IsWired (p : Program T W) : Type 0 where
    pub password_settings : p.password_svc ≡ (started default_cost flags sys).password_conf
    pub otp_settings : p.otp_svc.conf ≡ (started default_cost flags sys).otp_conf
    pub token_settings : p.token_svc.conf ≡ (started default_cost flags sys).token_conf
    pub repositories : p.repo_mngr ≡ record {
      db = some p.pg_db;
      entropy = some T.new_reader;
      logger = logger;
      password = some p.password_svc;
    }
    pub otp_db : p.otp_svc.db ≡ some p.redis_db
    pub token_db : p.token_svc.db ≡ some p.redis_db
    pub token_repositories : p.token_svc.repo_mngr ≡ some p.repo_mngr
    pub token_otp : p.token_svc.otp ≡ some p.otp_svc
    pub token_logger : p.token_svc.logger ≡ logger
    pub webauthn_settings : p.webauthn_svc.conf ≡ record {
      max_devices = flags.webauthn_max_devices;
      display_name = flags.webauthn_display_name;
      domain = flags.webauthn_domain;
      request_origin = flags.webauthn_request_origin;
    }
    pub webauthn_lib :
        (lib : T.webauthn) × (p.webauthn_svc.lib ≡ some lib)
        × (io.new_webauthn p.webauthn_svc.conf.display_name p.webauthn_svc.conf.domain
              p.webauthn_svc.conf.request_origin
            ≡ good lib)
    pub webauthn_db : p.webauthn_svc.db ≡ some p.redis_db
    pub webauthn_repositories : p.webauthn_svc.repo_mngr ≡ some p.repo_mngr
    pub login : p.login_api ≡ record {
      logger = logger;
      token = some p.token_svc;
      repo_mngr = some p.repo_mngr;
      webauthn = some p.webauthn_svc;
      otp = some p.otp_svc;
      message = some p.messaging_svc;
      password = some p.password_svc;
    }
    pub signup : p.signup_api ≡ record {
      logger = logger;
      token = some p.token_svc;
      repo_mngr = some p.repo_mngr;
      message = some p.messaging_svc;
      otp = some p.otp_svc;
    }
    pub device : p.device_api ≡ record {
      logger = logger;
      webauthn = some p.webauthn_svc;
      repo_mngr = some p.repo_mngr;
      token = some p.token_svc;
    }
    pub contact : p.contact_api ≡ record {
      logger = logger;
      otp = some p.otp_svc;
      repo_mngr = some p.repo_mngr;
      message = some p.messaging_svc;
      token = some p.token_svc;
    }
    pub totp : p.totp_api ≡ record {
      logger = logger;
      otp = some p.otp_svc;
      repo_mngr = some p.repo_mngr;
      token = some p.token_svc;
    }
    pub tokens :
        p.token_api
        ≡ record { logger = logger; token = some p.token_svc; repo_mngr = some p.repo_mngr }
    -- The workers take what the publisher puts into the queue.
    pub same_queue : p.msgd.message_repo ≡ p.messaging_svc.message_repo
    pub consumer_logger : p.msgd.logger ≡ logger
    pub publisher_logger : p.messaging_svc.logger ≡ logger
    pub sms : p.msgd.sms_lib ≡ Delivery.sms_lib libs delivery
    pub email : p.msgd.email_lib ≡ Delivery.email_lib libs delivery
    pub workers : p.msgd.total_workers ≡ consumer_service flags
    pub expiry : p.messaging_svc.expire_after ≡ publisher_service

module _ {T : Libraries} {W A : Type 0} (logger : T.logger) (flags : Flags) (io : Connections T W)
    (default_cost channel : ℕ) (sys : System W) (pg redis : Text) (libs : DeliveryLibraries W A)
    (delivery : DeliveryFlags) {w w' : W} where
  started_program : Answers io flags pg redis w w' → Program T W
  started_program a =
      let redis_db = T.new_client a.redis_conf in
      let password_svc = Configuration.password_service default_cost flags in
      let repo_mngr = repository_manager logger flags a.pg_db password_svc in
      let otp_svc = otp_of logger flags redis_db in
      assembled logger flags a.pg_db redis_db password_svc
        (new_repository channel (Messages.repository_with_logger logger ∷ [])) repo_mngr otp_svc
        (token_of logger flags redis_db otp_svc repo_mngr)
        (record (webauthn_without logger flags redis_db repo_mngr) { lib = some a.lib })
        (Delivery.sms_lib libs delivery) (Delivery.email_lib libs delivery)

  start-returns :
      (a : Answers io flags pg redis w w')
      → start logger flags io default_cost channel pg redis libs delivery w
        ≡ ok (started_program a) w'
  unfolding start ◌>>=◌ started_program
  start-returns a =
      rw
        (
          connect_postgres-returns io pg a.pg_db a.opened a.pg_answers,
          connect_redis-returns io redis a.redis_conf a.parsed a.redis_answers,
          webauthn_of-built {T = T} logger flags io.new_webauthn a.lib (T.new_client a.redis_conf)
              (repository_manager logger flags a.pg_db
                (Configuration.password_service default_cost flags))
              a.built,
        )
        refl

  started_program-IsWired :
      (a : Answers io flags pg redis w w')
      → IsWired logger flags io default_cost sys libs delivery (started_program a)
  unfolding started_program assembled configured started LoginApi.new_service SignupApi.new_service
      DeviceApi.new_service ContactApi.new_service TotpApi.new_service TokenApi.new_service
      Token.new_service Otp.new_otp new_otp new_token_service Postgres.new_client
      new_publisher_service new_consumer_service new_consumer
  started_program-IsWired a = record {
    password_settings = refl;
    otp_settings = refl;
    token_settings = refl;
    repositories = refl;
    otp_db = refl;
    token_db = refl;
    token_repositories = refl;
    token_otp = refl;
    token_logger = refl;
    webauthn_settings = refl;
    webauthn_lib = (a.lib, refl, a.built);
    webauthn_db = refl;
    webauthn_repositories = refl;
    login = refl;
    signup = refl;
    device = refl;
    contact = refl;
    totp = refl;
    tokens = refl;
    same_queue = refl;
    consumer_logger = refl;
    publisher_logger = refl;
    sms = refl;
    email = refl;
    workers = refl;
    expiry = refl;
  }

  -- main.go gets past its connections and returns its services exactly if the database opens and
  -- answers, then the connection string of Redis is valid and Redis answers, and then the WebAuthn
  -- library accepts its settings. Each field of each service is then set: the APIs share one token
  -- service, one set of repositories, one OTP service and one publisher, whose queue the workers
  -- read; the token service and the WebAuthn service use the same repositories and the same Redis,
  -- the first also the OTP service of the APIs; the workers deliver by the Twilio client and the
  -- mailer that the flags name; and the settings are those of the modelled system that is started
  -- with the flags.
  pub start_wires : Answers io flags pg redis w w' ↔ (
      (p : Program T W) × (start logger flags io default_cost channel pg redis libs delivery w
        ≡ ok p w')
      × IsWired logger flags io default_cost sys libs delivery p)
  start_wires = (
    λ a. (started_program a, start-returns a, started_program-IsWired a),
    λ r. start-Answers logger flags io default_cost channel pg redis libs delivery w r.0 w' r.1,
  )
