-- ===== src/Configuration.antt =====
-- The config.go files of the services and the flags of cmd/api/main.go from which it configures them.
pub mod Restart
use authenticator.Common.{ℕ, ◌*◌, Bool, List, [], ◌∷◌, ◌++◌, Text, codes, text_eq}
use authenticator.Domain.{second}
use authenticator.Effect.{Result, good, bad}
use authenticator.System.{Secret, OtpConfig, PasswordConfig, TokenConfig, System}

-- The loop over the options.
unfoldable pub configured : {A : Type 0} → A → List (A → A) → A
configured s [] = s
configured s (opt ∷ options) = configured (opt s) options

-- bcrypt's default cost is the library's.
unfoldable pub new_password : ℕ → List (PasswordConfig → PasswordConfig) → PasswordConfig
new_password default_cost =
    configured (record { cost = default_cost; min_length = 8; max_length = 1000 })

abbrev pub with_cost : ℕ → PasswordConfig → PasswordConfig
with_cost cost s = record s { cost = cost }

abbrev pub with_min_length : ℕ → PasswordConfig → PasswordConfig
with_min_length length s = record s { min_length = length }

abbrev pub with_max_length : ℕ → PasswordConfig → PasswordConfig
with_max_length length s = record s { max_length = length }

unfoldable pub new_otp : List (OtpConfig → OtpConfig) → OtpConfig
new_otp = configured (record { code_length = 6; totp_issuer = []; secrets = [] })

abbrev pub with_code_length : ℕ → OtpConfig → OtpConfig
with_code_length length s = record s { code_length = length }

abbrev pub with_totp_issuer : Text → OtpConfig → OtpConfig
with_totp_issuer issuer s = record s { totp_issuer = issuer }

abbrev pub with_secret : Secret → OtpConfig → OtpConfig
with_secret x s = record s { secrets = s.secrets ++ (x ∷ []) }

unfoldable pub new_token_service : List (TokenConfig → TokenConfig) → TokenConfig
new_token_service = configured (record {
  token_expiry = 20 * 60 * second;
  refresh_token_expiry = 15 * 24 * 3600 * second;
  secret = [];
  issuer = codes "authenticator";
  cookie_max_age = 0;
  cookie_domain = [];
})

abbrev pub with_token_expiry : ℕ → TokenConfig → TokenConfig
with_token_expiry expires_in s = record s { token_expiry = expires_in }

abbrev pub with_refresh_token_expiry : ℕ → TokenConfig → TokenConfig
with_refresh_token_expiry expires_in s = record s { refresh_token_expiry = expires_in }

abbrev pub with_signing_secret : Text → TokenConfig → TokenConfig
with_signing_secret secret s = record s { secret = secret }

abbrev pub with_issuer : Text → TokenConfig → TokenConfig
with_issuer issuer s = record s { issuer = issuer }

abbrev pub with_cookie_domain : Text → TokenConfig → TokenConfig
with_cookie_domain domain s = record s { cookie_domain = domain }

abbrev pub with_cookie_max_age : ℕ → TokenConfig → TokenConfig
with_cookie_max_age age s = record s { cookie_max_age = age }

-- The fields of `webauthn.WebAuthn` that options set.
pub record WebAuthnConfig : Type 0 where
  pub max_devices : ℕ
  pub display_name : Text
  pub domain : Text
  pub request_origin : Text

-- The library is made of the display name, the domain and the origin.
unfoldable pub new_webauthn :
    {L : Type 0}
    → (Text → Text → Text → Result L)
    → List (WebAuthnConfig → WebAuthnConfig)
    → Result (WebAuthnConfig × L)
new_webauthn new_lib options =
    let s =
      configured (record { max_devices = 5; display_name = []; domain = []; request_origin = [] })
        options in
    elim (new_lib s.display_name s.domain s.request_origin) [
      | good lib ↦ good (s, lib)
      | bad e ↦ bad e
    ]

abbrev pub with_max_devices : ℕ → WebAuthnConfig → WebAuthnConfig
with_max_devices max s = record s { max_devices = max }

abbrev pub with_display_name : Text → WebAuthnConfig → WebAuthnConfig
with_display_name name s = record s { display_name = name }

abbrev pub with_domain : Text → WebAuthnConfig → WebAuthnConfig
with_domain domain s = record s { domain = domain }

abbrev pub with_request_origin : Text → WebAuthnConfig → WebAuthnConfig
with_request_origin origin s = record s { request_origin = origin }

-- The time after which messages expire.
unfoldable pub new_publisher : List (ℕ → ℕ) → ℕ
new_publisher = configured (600 * second)

abbrev pub with_expiry : ℕ → ℕ → ℕ
with_expiry t s = t

-- The number of workers.
unfoldable pub new_consumer : List (ℕ → ℕ) → ℕ
new_consumer = configured 4

abbrev pub with_workers : ℕ → ℕ → ℕ
with_workers n s = n

-- The flags that main.go gives to the services above.
pub record Flags : Type 0 where
  pub consumer_workers : ℕ
  pub webauthn_max_devices : ℕ
  pub webauthn_display_name : Text
  pub webauthn_domain : Text
  pub webauthn_request_origin : Text
  pub cookie_domain : Text
  pub cookie_max_age : ℕ
  pub password_min_length : ℕ
  pub password_max_length : ℕ
  pub otp_code_length : ℕ
  pub otp_issuer : Text
  pub otp_secret_key : Text
  pub otp_secret_version : ℕ
  pub token_expires_in : ℕ
  pub token_refresh_expires_in : ℕ
  pub token_issuer : Text
  pub token_secret : Text

abbrev pub default_flags : Flags
default_flags = record {
  consumer_workers = 4;
  webauthn_max_devices = 5;
  webauthn_display_name = codes "Authenticator";
  webauthn_domain = codes "authenticator.local";
  webauthn_request_origin = codes "authenticator.local";
  cookie_domain = [];
  cookie_max_age = 605800;
  password_min_length = 8;
  password_max_length = 1000;
  otp_code_length = 6;
  otp_issuer = [];
  otp_secret_key = [];
  otp_secret_version = 1;
  token_expires_in = 20 * 60 * second;
  token_refresh_expires_in = 24 * 15 * 3600 * second;
  token_issuer = codes "authenticator";
  token_secret = [];
}

abbrev pub password_service : ℕ → Flags → PasswordConfig
password_service default_cost flags =
    new_password default_cost
      (with_min_length flags.password_min_length ∷ with_max_length flags.password_max_length ∷ [])

abbrev pub otp_service : Flags → OtpConfig
otp_service flags = new_otp (
    with_code_length flags.otp_code_length
    ∷ with_totp_issuer flags.otp_issuer
    ∷ with_secret (record { version = flags.otp_secret_version; key = flags.otp_secret_key })
    ∷ [])

abbrev pub token_service : Flags → TokenConfig
token_service flags = new_token_service (
    with_token_expiry flags.token_expires_in
    ∷ with_refresh_token_expiry flags.token_refresh_expires_in
    ∷ with_issuer flags.token_issuer
    ∷ with_signing_secret flags.token_secret
    ∷ with_cookie_max_age flags.cookie_max_age
    ∷ with_cookie_domain flags.cookie_domain
    ∷ [])

abbrev pub webauthn_service :
    {L : Type 0} → (Text → Text → Text → Result L) → Flags → Result (WebAuthnConfig × L)
webauthn_service new_lib flags = new_webauthn new_lib (
    with_display_name flags.webauthn_display_name
    ∷ with_domain flags.webauthn_domain
    ∷ with_request_origin flags.webauthn_request_origin
    ∷ with_max_devices flags.webauthn_max_devices
    ∷ [])

-- `msgpublisher.NewService` is given no expiry.
abbrev pub publisher_service : ℕ
publisher_service = new_publisher []

abbrev pub consumer_service : Flags → ℕ
consumer_service flags = new_consumer (with_workers flags.consumer_workers ∷ [])

-- The services with the flags' configuration, on what else they are given.
unfoldable pub started : {W : Type 0} → ℕ → Flags → System W → System W
started default_cost flags sys = record sys {
  password_conf = password_service default_cost flags;
  otp_conf = otp_service flags;
  token_conf = token_service flags;
}
