-- ===== src/StartUp.antt =====
-- The libraries behind the services that cmd/api/main.go creates. The child modules have, for each
-- package with a config.go, the struct that its options fill: a field that no option has set is nil.
pub mod Otp
pub mod Postgres
pub mod Token
pub mod WebAuthn
pub mod Messages
pub mod Delivery
pub mod LoginApi
pub mod SignupApi
pub mod DeviceApi
pub mod ContactApi
pub mod TotpApi
pub mod TokenApi
pub mod Program
pub mod Connected
pub mod Wired
use authenticator.Common.{Text}
use authenticator.Effect.{Exec, Result}

-- Types of the libraries, and what they create without an error.
pub record Libraries : Type 1 where
  pub logger : Type 0
  pub db : Type 0
  pub redis_options : Type 0
  pub redis : Type 0
  pub webauthn : Type 0
  pub reader : Type 0
  -- `log.NewNopLogger`.
  pub nop_logger : logger
  -- `entropy.New`.
  pub new_reader : reader
  -- `redis.NewClient`.
  pub new_client : redis_options → redis

-- The calls of main.go that connect to the outside.
pub record Connections (T : Libraries) (W : Type 0) : Type 0 where
  pub sql_open : Text → Exec W T.db
  pub ping_db : T.db → Exec W (Unit {0})
  pub parse_url : Text → Result T.redis_options
  pub ping_redis : T.redis → Exec W (Unit {0})
  pub close_redis : T.redis → Exec W (Unit {0})
  -- `webauthnLib.New` of the display name, the domain and the origin.
  pub new_webauthn : Text → Text → Text → Result T.webauthn
