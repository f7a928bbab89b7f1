-- ===== src/StartUp/Messages.antt =====
-- The config.go files of internal/msgrepo, internal/msgpublisher and internal/msgconsumer.
use authenticator.Common.{ℕ, List, []}
use authenticator.Configuration.{configured, new_publisher, new_consumer}
use authenticator.Providers.{Emailer, Smser}
use authenticator.StartUp.{Libraries}

-- `message_queue` is the channel that the service was made with.
pub record MessageRepository (T : Libraries) : Type 0 where
  pub logger : T.logger
  pub message_queue : ℕ

-- The templates of a publisher are constants of its package.
pub record Publisher (T : Libraries) : Type 0 where
  pub logger : T.logger
  pub message_repo : MessageRepository T
  pub expire_after : ℕ

pub record Consumer (T : Libraries) (W : Type 0) : Type 0 where
  pub logger : T.logger
  pub sms_lib : Smser W
  pub email_lib : Emailer W
  pub total_workers : ℕ
  pub message_repo : MessageRepository T

module _ {T : Libraries} where
  unfoldable pub new_repository :
      ℕ → List (MessageRepository T → MessageRepository T) → MessageRepository T
  new_repository channel = configured (record { logger = T.nop_logger; message_queue = channel })

  abbrev pub repository_with_logger : T.logger → MessageRepository T → MessageRepository T
  repository_with_logger l s = record s { logger = l }

  unfoldable pub new_publisher_service :
      MessageRepository T → List (Publisher T → Publisher T) → Publisher T
  new_publisher_service r =
      configured
        (record { logger = T.nop_logger; message_repo = r; expire_after = new_publisher [] })

  abbrev pub publisher_with_logger : T.logger → Publisher T → Publisher T
  publisher_with_logger l s = record s { logger = l }

  module _ {W : Type 0} where
    unfoldable pub new_consumer_service :
        MessageRepository T
        → Smser W
        → Emailer W
        → List (Consumer T W → Consumer T W)
        → Consumer T W
    new_consumer_service r sms_lib email_lib = configured (record {
      logger = T.nop_logger;
      sms_lib = sms_lib;
      email_lib = email_lib;
      total_workers = new_consumer [];
      message_repo = r;
    })

    abbrev pub consumer_with_logger : T.logger → Consumer T W → Consumer T W
    consumer_with_logger l s = record s { logger = l }

    -- An option that changes the number of workers.
    abbrev pub with_setting : (ℕ → ℕ) → Consumer T W → Consumer T W
    with_setting opt s = record s { total_workers = opt s.total_workers }
