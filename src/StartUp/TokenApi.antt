-- ===== src/StartUp/TokenApi.antt =====
-- internal/tokenapi/config.go: what the service is given.
use authenticator.Common.{List, Option, none, some}
use authenticator.Configuration.{configured}
use authenticator.StartUp.{Libraries}
use authenticator.StartUp.Token.{TokenService}
use authenticator.StartUp.Postgres.{Client}

pub record TokenApiService (T : Libraries) : Type 0 where
  pub logger : T.logger
  pub token : Option (TokenService T)
  pub repo_mngr : Option (Client T)

module _ {T : Libraries} where
  unfoldable pub new_service : List (TokenApiService T → TokenApiService T) → TokenApiService T
  new_service = configured (record { logger = T.nop_logger; token = none; repo_mngr = none })

  abbrev pub with_logger : T.logger → TokenApiService T → TokenApiService T
  with_logger l s = record s { logger = l }

  abbrev pub with_token_service : TokenService T → TokenApiService T → TokenApiService T
  with_token_service t s = record s { token = some t }

  abbrev pub with_repo_manager : Client T → TokenApiService T → TokenApiService T
  with_repo_manager r s = record s { repo_mngr = some r }
