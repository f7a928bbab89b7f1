-- ===== src/StartUp/Otp.antt =====
-- internal/otp/config.go: the settings of Configuration and the connection to Redis.
use authenticator.Common.{List, [], Option, none, some}
use authenticator.System.{OtpConfig}
use authenticator.Configuration
use authenticator.Configuration.{configured}
use authenticator.StartUp.{Libraries}

pub record OtpService (T : Libraries) : Type 0 where
  pub conf : OtpConfig
  pub db : Option T.redis

module _ {T : Libraries} where
  unfoldable pub new_otp : List (OtpService T → OtpService T) → OtpService T
  new_otp = configured (record { conf = Configuration.new_otp []; db = none })

  -- An option that changes a setting.
  abbrev pub with_setting : (OtpConfig → OtpConfig) → OtpService T → OtpService T
  with_setting opt s = record s { conf = opt s.conf }

  abbrev pub with_db : T.redis → OtpService T → OtpService T
  with_db db s = record s { db = some db }
