-- ===== src/StartUp/TotpApi.antt =====
-- internal/totpapi/config.go: what the service is given.
use authenticator.Common.{List, Option, none, some}
use authenticator.Configuration.{configured}
use authenticator.StartUp.{Libraries}
use authenticator.StartUp.Otp.{OtpService}
use authenticator.StartUp.Postgres.{Client}
use authenticator.StartUp.Token.{TokenService}

pub record TotpService (T : Libraries) : Type 0 where
  pub logger : T.logger
  pub otp : Option (OtpService T)
  pub repo_mngr : Option (Client T)
  pub token : Option (TokenService T)

module _ {T : Libraries} where
  unfoldable pub new_service : List (TotpService T → TotpService T) → TotpService T
  new_service =
      configured (record { logger = T.nop_logger; otp = none; repo_mngr = none; token = none })

  abbrev pub with_logger : T.logger → TotpService T → TotpService T
  with_logger l s = record s { logger = l }

  abbrev pub with_otp : OtpService T → TotpService T → TotpService T
  with_otp o s = record s { otp = some o }

  abbrev pub with_repo_manager : Client T → TotpService T → TotpService T
  with_repo_manager r s = record s { repo_mngr = some r }

  abbrev pub with_token_service : TokenService T → TotpService T → TotpService T
  with_token_service t s = record s { token = some t }
