-- ===== src/Password.antt =====
-- internal/password/service.go: passwords by bcrypt, and their length limits.
use authenticator.Common.{Text, length, ltb, if◌then◌else◌}
use authenticator.Errors.{domain, invalid_field}
use authenticator.Effect.{Exec, Result, good, bad}
use authenticator.Domain.{User}
use authenticator.System.{System}

module _ {W : Type 0} (sys : System W) where
  -- `Hash`.
  unfoldable pub hash_password : Text → Exec W Text
  hash_password password = sys.ext.bcrypt_generate password sys.password_conf.cost

  -- `Validate`.
  unfoldable pub validate_password : User → Text → Result (Unit {0})
  validate_password user password = sys.ext.bcrypt_compare user.password password

  unfoldable pub ok_for_user : Text → Result (Unit {0})
  ok_for_user password =
      if ltb (length password) sys.password_conf.min_length
      then bad (domain (invalid_field "password must be at least %v characters long"))
      else if ltb sys.password_conf.max_length (length password)
      then bad (domain (invalid_field "password cannot be longer than %v characters"))
      else good tt
