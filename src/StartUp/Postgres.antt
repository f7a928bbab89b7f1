-- ===== src/StartUp/Postgres.antt =====
-- internal/postgres/config.go: the client as it is before any request.
use authenticator.Common.{List, Option, none, some}
use authenticator.System.{PasswordConfig}
use authenticator.Configuration.{configured}
use authenticator.StartUp.{Libraries}

-- `password` is a field of the repository of users, which points back to the client.
pub record Client (T : Libraries) : Type 0 where
  pub db : Option T.db
  pub entropy : Option T.reader
  pub logger : T.logger
  pub password : Option PasswordConfig

module _ {T : Libraries} where
  -- The reader is set after the options.
  unfoldable pub new_client : List (Client T → Client T) → Client T
  new_client options =
      let c =
        configured (record { db = none; entropy = none; logger = T.nop_logger; password = none })
          options in
      record c { entropy = some T.new_reader }

  abbrev pub with_logger : T.logger → Client T → Client T
  with_logger l c = record c { logger = l }

  abbrev pub with_password : PasswordConfig → Client T → Client T
  with_password p c = record c { password = some p }

  abbrev pub with_db : T.db → Client T → Client T
  with_db db c = record c { db = some db }
