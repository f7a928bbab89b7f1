-- ===== src/StartUp/WebAuthn.antt =====
-- internal/webauthn/config.go: the settings of Configuration and what the service is given.
use authenticator.Common.{List, [], Option, none, some, Text}
use authenticator.Effect.{Result, good, bad}
use authenticator.Configuration.{configured, WebAuthnConfig}
use authenticator.StartUp.{Libraries}
use authenticator.StartUp.Postgres.{Client}

pub record WebAuthn (T : Libraries) : Type 0 where
  pub conf : WebAuthnConfig
  pub lib : Option T.webauthn
  pub db : Option T.redis
  pub repo_mngr : Option (Client T)

module _ {T : Libraries} where
  abbrev pub with_lib : WebAuthn T → Result T.webauthn → Result (WebAuthn T)
  with_lib s (good lib) = good (record s { lib = some lib })
  with_lib s (bad e) = bad e

  unfoldable pub new_service :
      (Text → Text → Text → Result T.webauthn)
      → List (WebAuthn T → WebAuthn T)
      → Result (WebAuthn T)
  new_service new_lib options =
      let s : WebAuthn T =
        configured
          (record {
            conf = record { max_devices = 5; display_name = []; domain = []; request_origin = [] };
            lib = none;
            db = none;
            repo_mngr = none;
          })
          options in
      with_lib s (new_lib s.conf.display_name s.conf.domain s.conf.request_origin)

  -- An option that changes a setting.
  abbrev pub with_setting : (WebAuthnConfig → WebAuthnConfig) → WebAuthn T → WebAuthn T
  with_setting opt s = record s { conf = opt s.conf }

  abbrev pub with_db : T.redis → WebAuthn T → WebAuthn T
  with_db db s = record s { db = some db }

  abbrev pub with_repo_manager : Client T → WebAuthn T → WebAuthn T
  with_repo_manager r s = record s { repo_mngr = some r }
