-- ===== src/StartUp/ContactApi.antt =====
-- internal/contactapi/config.go: what the service is given.
use authenticator.Common.{List, Option, none, some}
use authenticator.Configuration.{configured}
use authenticator.StartUp.{Libraries}
use authenticator.StartUp.Otp.{OtpService}
use authenticator.StartUp.Postgres.{Client}
use authenticator.StartUp.Messages.{Publisher}
use authenticator.StartUp.Token.{TokenService}

pub record ContactService (T : Libraries) : Type 0 where
  pub logger : T.logger
  pub otp : Option (OtpService T)
  pub repo_mngr : Option (Client T)
  pub message : Option (Publisher T)
  pub token : Option (TokenService T)

module _ {T : Libraries} where
  unfoldable pub new_service : List (ContactService T → ContactService T) → ContactService T
  new_service =
      configured (record {
        logger = T.nop_logger;
        otp = none;
        repo_mngr = none;
        message = none;
        token = none;
      })

  abbrev pub with_logger : T.logger → ContactService T → ContactService T
  with_logger l s = record s { logger = l }

  abbrev pub with_otp : OtpService T → ContactService T → ContactService T
  with_otp o s = record s { otp = some o }

  abbrev pub with_repo_manager : Client T → ContactService T → ContactService T
  with_repo_manager r s = record s { repo_mngr = some r }

  abbrev pub with_messaging : Publisher T → ContactService T → ContactService T
  with_messaging m s = record s { message = some m }

  abbrev pub with_token_service : TokenService T → ContactService T → ContactService T
  with_token_service t s = record s { token = some t }
