-- ===== src/StartUp/SignupApi.antt =====
-- internal/signupapi/config.go: what the service is given.
use authenticator.Common.{List, Option, none, some}
use authenticator.Configuration.{configured}
use authenticator.StartUp.{Libraries}
use authenticator.StartUp.Token.{TokenService}
use authenticator.StartUp.Postgres.{Client}
use authenticator.StartUp.Messages.{Publisher}
use authenticator.StartUp.Otp.{OtpService}

pub record SignupService (T : Libraries) : Type 0 where
  pub logger : T.logger
  pub token : Option (TokenService T)
  pub repo_mngr : Option (Client T)
  pub message : Option (Publisher T)
  pub otp : Option (OtpService T)

module _ {T : Libraries} where
  unfoldable pub new_service : List (SignupService T → SignupService T) → SignupService T
  new_service =
      configured (record {
        logger = T.nop_logger;
        token = none;
        repo_mngr = none;
        message = none;
        otp = none;
      })

  abbrev pub with_logger : T.logger → SignupService T → SignupService T
  with_logger l s = record s { logger = l }

  abbrev pub with_token_service : TokenService T → SignupService T → SignupService T
  with_token_service t s = record s { token = some t }

  abbrev pub with_repo_manager : Client T → SignupService T → SignupService T
  with_repo_manager r s = record s { repo_mngr = some r }

  abbrev pub with_messaging : Publisher T → SignupService T → SignupService T
  with_messaging m s = record s { message = some m }

  abbrev pub with_otp : OtpService T → SignupService T → SignupService T
  with_otp o s = record s { otp = some o }
