-- ===== src/Repository.antt =====
-- authenticator.go: the interfaces of storage, messaging and WebAuthn that the services call.
-- A repository manager is a pointer: a client is its address. A method that fills in the entity
-- it was given returns that entity.
pub mod Atomic
use authenticator.Common.{ℕ, List, Text}
use authenticator.Effect.{Exec, pure, crash}
use authenticator.Domain.{User, Device, LoginHistory, DeliveryMethod, Message}

-- What an operation inside `WithAtomic` returns, as an `interface{}`.
pub data Entity : Type 0 where
  user_entity : User → Entity
  device_entity : Device → Entity
  login_entity : LoginHistory → Entity

-- `entity.(*auth.User)` and `entity.(*auth.Device)` panic on another type.
abbrev pub as_user : {W : Type 0} → Entity → Exec W User
as_user (user_entity u) = pure u
as_user _ = crash

abbrev pub as_device : {W : Type 0} → Entity → Exec W Device
as_device (device_entity d) = pure d
as_device _ = crash

-- The attributes of `ByIdentity`; `other_attribute` is any other string.
pub data Attribute : Type 0 where
  by_phone by_email by_id : Attribute
  other_attribute : Text → Attribute

pub record RepositoryManager (W : Type 0) : Type 0 where
  pub new_with_transaction : ℕ → Exec W ℕ
  pub with_atomic : ℕ → Exec W Entity → Exec W Entity
  pub user_by_identity : ℕ → Attribute → Text → Exec W User
  pub user_get_for_update : ℕ → Text → Exec W User
  pub user_create : ℕ → User → Exec W User
  pub user_re_create : ℕ → User → Exec W User
  pub user_update : ℕ → User → Exec W User
  pub user_disable_otp : ℕ → Text → DeliveryMethod → Exec W User
  pub user_remove_delivery_method : ℕ → Text → DeliveryMethod → Exec W User
  pub device_by_id : ℕ → Text → Exec W Device
  pub device_by_client_id : ℕ → Text → Text → Exec W Device
  pub device_by_user_id : ℕ → Text → Exec W (List Device)
  pub device_create : ℕ → Device → Exec W Device
  pub device_get_for_update : ℕ → Text → Exec W Device
  pub device_update : ℕ → Device → Exec W Device
  -- The device, then its owner.
  pub device_remove : ℕ → Text → Text → Exec W (Unit {0})
  pub login_by_token_id : ℕ → Text → Exec W LoginHistory
  pub login_create : ℕ → LoginHistory → Exec W LoginHistory
  pub login_get_for_update : ℕ → Text → Exec W LoginHistory
  pub login_update : ℕ → LoginHistory → Exec W LoginHistory

pub record MessagingService (W : Type 0) : Type 0 where
  pub send : Message → Exec W (Unit {0})

-- The request body stands for the request that WebAuthn parses.
pub record WebAuthnService (W : Type 0) : Type 0 where
  pub begin_sign_up : User → Exec W Text
  -- The user is changed through its pointer.
  pub finish_sign_up : User → Text → Exec W (User × Device)
  pub begin_login : User → Exec W Text
  pub finish_login : User → Text → Exec W (Unit {0})
