-- ===== src/StartUp/Token.antt =====
-- internal/token/config.go: the settings of Configuration and what the service is given.
use authenticator.Common.{List, [], Option, none, some}
use authenticator.System.{TokenConfig}
use authenticator.Configuration.{configured, new_token_service}
use authenticator.StartUp.{Libraries}
use authenticator.StartUp.Otp.{OtpService}
use authenticator.StartUp.Postgres.{Client}

pub record TokenService (T : Libraries) : Type 0 where
  pub logger : T.logger
  pub conf : TokenConfig
  pub entropy : T.reader
  pub db : Option T.redis
  pub repo_mngr : Option (Client T)
  pub otp : Option (OtpService T)

module _ {T : Libraries} where
  unfoldable pub new_service : List (TokenService T → TokenService T) → TokenService T
  new_service = configured (record {
    logger = T.nop_logger;
    conf = new_token_service [];
    entropy = T.new_reader;
    db = none;
    repo_mngr = none;
    otp = none;
  })

  -- An option that changes a setting.
  abbrev pub with_setting : (TokenConfig → TokenConfig) → TokenService T → TokenService T
  with_setting opt s = record s { conf = opt s.conf }

  abbrev pub with_logger : T.logger → TokenService T → TokenService T
  with_logger l s = record s { logger = l }

  abbrev pub with_db : T.redis → TokenService T → TokenService T
  with_db db s = record s { db = some db }

  abbrev pub with_otp : OtpService T → TokenService T → TokenService T
  with_otp o s = record s { otp = some o }

  abbrev pub with_repo_manager : Client T → TokenService T → TokenService T
  with_repo_manager r s = record s { repo_mngr = some r }
