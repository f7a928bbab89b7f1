-- ===== src/System.antt =====
-- The services as main.go puts them together: each has its configuration and shares the rest.
use authenticator.Common.{ℕ, List, Option, Text}
use authenticator.Domain.{Cookie, Reply}
use authenticator.Effect.{Exec}
use authenticator.Errors.{ErrCode}
use authenticator.External.{External}
use authenticator.Requests.{RequestDecoder}
use authenticator.Repository.{RepositoryManager, MessagingService, WebAuthnService}

-- `otp.Secret`.
pub record Secret : Type 0 where
  pub version : ℕ
  pub key : Text

-- `otp.OTP`.
pub record OtpConfig : Type 0 where
  pub code_length : ℕ
  pub totp_issuer : Text
  pub secrets : List Secret

-- `password.Password`.
pub record PasswordConfig : Type 0 where
  pub cost : ℕ
  pub min_length : ℕ
  pub max_length : ℕ

-- `token.service`; durations are nanoseconds.
pub record TokenConfig : Type 0 where
  pub token_expiry : ℕ
  pub refresh_token_expiry : ℕ
  pub secret : Text
  pub issuer : Text
  pub cookie_max_age : ℕ
  pub cookie_domain : Text

pub record System (W : Type 0) : Type 0 where
  pub ext : External W
  pub repos : RepositoryManager W
  -- The address of the client that the services were given.
  pub repo_mngr : ℕ
  pub message : MessagingService W
  pub webauthn : WebAuthnService W
  pub decoder : RequestDecoder
  -- `http.SetCookie` on the response that is being written.
  pub set_cookie : Cookie → Exec W (Unit {0})
  pub marshal_reply : Reply → Option Text
  pub marshal_error : ErrCode → Text → Option Text
  pub otp_conf : OtpConfig
  pub password_conf : PasswordConfig
  pub token_conf : TokenConfig
