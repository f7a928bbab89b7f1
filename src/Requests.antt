-- ===== src/Requests.antt =====
-- The JSON bodies that the handlers read, and their decoders; `encoding/json` is a parameter. A field
-- that is missing has its zero value, also a delivery method.
use authenticator.Common.{Bool, Option, Text}
use authenticator.Domain.{DeliveryMethod}

pub record LoginRequest : Type 0 where
  pub password : Text
  pub identity : Text
  pub type : DeliveryMethod

-- `verifyCodeRequest`, `signupVerifyRequest` and `totpRequest` hold a code only.
pub record CodeRequest : Type 0 where
  pub code : Text

pub record SignupRequest : Type 0 where
  pub password : Text
  pub identity : Text
  pub type : DeliveryMethod

pub record VerifyRequest : Type 0 where
  pub code : Text
  pub is_disabled : Bool
  pub is_otp_enabled : Bool

pub record DeactivateRequest : Type 0 where
  pub delivery_method : DeliveryMethod

pub record DeliveryRequest : Type 0 where
  pub address : Text
  pub delivery_method : DeliveryMethod

pub record SendRequest : Type 0 where
  pub delivery_method : DeliveryMethod

pub record RenameRequest : Type 0 where
  pub name : Text

pub record RequestDecoder : Type 0 where
  pub login : Text → Option LoginRequest
  pub code : Text → Option CodeRequest
  pub signup : Text → Option SignupRequest
  pub verify : Text → Option VerifyRequest
  pub deactivate : Text → Option DeactivateRequest
  pub delivery : Text → Option DeliveryRequest
  pub send : Text → Option SendRequest
  pub rename : Text → Option RenameRequest
