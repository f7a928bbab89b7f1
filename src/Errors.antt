-- ===== src/Errors.antt =====
-- errors.go: the errors of the domain, and how a wrapped error is classified.
use authenticator.Common.{String, Option, none, some}

-- `ErrCode`; `no_code` is the empty code of a nil error.
pub data ErrCode : Type 0 where
  no_code e_invalid_token e_invalid_code e_invalid_field e_internal : ErrCode
  e_bad_request e_not_found e_web_authn e_throttle : ErrCode

-- The types that implement `Error`. Where a message is a format string, its argument is left out.
pub data DomainErr : Type 0 where
  invalid_code invalid_token invalid_field bad_request : String → DomainErr
  not_found web_authn throttle : String → DomainErr

-- A Go error: of the domain, a sentinel of a library, another one, or one wrapped by `%w`.
pub data Err : Type 0 where
  domain : DomainErr → Err
  no_rows : Err
  redis_nil : Err
  other : String → Err
  wrap : String → Err → Err

abbrev pub code : DomainErr → ErrCode
code (invalid_code m) = e_invalid_code
code (invalid_token m) = e_invalid_token
code (invalid_field m) = e_invalid_field
code (bad_request m) = e_bad_request
code (not_found m) = e_not_found
code (web_authn m) = e_web_authn
code (throttle m) = e_throttle

abbrev pub message : DomainErr → String
message (invalid_code m) = m
message (invalid_token m) = m
message (invalid_field m) = m
message (bad_request m) = m
message (not_found m) = m
message (web_authn m) = m
message (throttle m) = m

-- `errors.As` walks down the chain of wrapped errors.
unfoldable pub errors_as : Err → Option DomainErr
errors_as (domain e) = some e
errors_as no_rows = none
errors_as redis_nil = none
errors_as (other m) = none
errors_as (wrap m e) = errors_as e

unfoldable pub domain_error : Option Err → Option DomainErr
unfolding errors_as
domain_error none = none
domain_error (some e) = errors_as e

abbrev code_or_internal : Option DomainErr → ErrCode
code_or_internal none = e_internal
code_or_internal (some e) = code e

unfoldable pub error_code : Option Err → ErrCode
unfolding domain_error
error_code none = no_code
error_code (some e) = code_or_internal (domain_error (some e))
