-- ===== src/StartUp/DeviceApi.antt =====
-- internal/deviceapi/config.go: what the service is given.
use authenticator.Common.{List, Option, none, some}
use authenticator.Configuration.{configured}
use authenticator.StartUp.{Libraries}
use authenticator.StartUp.WebAuthn.{WebAuthn}
use authenticator.StartUp.Postgres.{Client}
use authenticator.StartUp.Token.{TokenService}

pub record DeviceService (T : Libraries) : Type 0 where
  pub logger : T.logger
  pub webauthn : Option (WebAuthn T)
  pub repo_mngr : Option (Client T)
  pub token : Option (TokenService T)

module _ {T : Libraries} where
  unfoldable pub new_service : List (DeviceService T → DeviceService T) → DeviceService T
  new_service =
      configured (record { logger = T.nop_logger; webauthn = none; repo_mngr = none; token = none })

  abbrev pub with_logger : T.logger → DeviceService T → DeviceService T
  with_logger l s = record s { logger = l }

  abbrev pub with_webauthn : WebAuthn T → DeviceService T → DeviceService T
  with_webauthn w s = record s { webauthn = some w }

  abbrev pub with_repo_manager : Client T → DeviceService T → DeviceService T
  with_repo_manager r s = record s { repo_mngr = some r }

  abbrev pub with_token_service : TokenService T → DeviceService T → DeviceService T
  with_token_service t s = record s { token = some t }
