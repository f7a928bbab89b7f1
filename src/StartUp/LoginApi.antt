-- ===== src/StartUp/LoginApi.antt =====
-- internal/loginapi/config.go: what the service is given.
use authenticator.Common.{List, Option, none, some}
use authenticator.System.{PasswordConfig}
use authenticator.Configuration.{configured}
use authenticator.StartUp.{Libraries}
use authenticator.StartUp.Token.{TokenService}
use authenticator.StartUp.Postgres.{Client}
use authenticator.StartUp.WebAuthn.{WebAuthn}
use authenticator.StartUp.Otp.{OtpService}
use authenticator.StartUp.Messages.{Publisher}

pub record LoginService (T : Libraries) : Type 0 where
  pub logger : T.logger
  pub token : Option (TokenService T)
  pub repo_mngr : Option (Client T)
  pub webauthn : Option (WebAuthn T)
  pub otp : Option (OtpService T)
  pub message : Option (Publisher T)
  pub password : Option PasswordConfig

module _ {T : Libraries} where
  unfoldable pub new_service : List (LoginService T → LoginService T) → LoginService T
  new_service = configured (record {
    logger = T.nop_logger;
    token = none;
    repo_mngr = none;
    webauthn = none;
    otp = none;
    message = none;
    password = none;
  })

  abbrev pub with_logger : T.logger → LoginService T → LoginService T
  with_logger l s = record s { logger = l }

  abbrev pub with_token_service : TokenService T → LoginService T → LoginService T
  with_token_service t s = record s { token = some t }

  abbrev pub with_repo_manager : Client T → LoginService T → LoginService T
  with_repo_manager r s = record s { repo_mngr = some r }

  abbrev pub with_webauthn : WebAuthn T → LoginService T → LoginService T
  with_webauthn w s = record s { webauthn = some w }

  abbrev pub with_otp : OtpService T → LoginService T → LoginService T
  with_otp o s = record s { otp = some o }

  abbrev pub with_messaging : Publisher T → LoginService T → LoginService T
  with_messaging m s = record s { message = some m }

  abbrev pub with_password : PasswordConfig → LoginService T → LoginService T
  with_password p s = record s { password = some p }
