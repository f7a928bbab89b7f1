-- ===== src/Postgres/Users.antt =====
-- internal/postgres/user_repo.go: the user repository.
use authenticator.Common.{
  ℕ, ◌==◌, Bool, true, false, not, ◌&&◌, Option, none, some, List, [], ◌∷◌, Text, is_empty,
  if◌then◌else◌,
}
use authenticator.Errors.{domain, invalid_field, other}
use authenticator.Effect.{
  Exec, Result, good, bad, pure, raise, guard, wrapped, from_result, ◌>>=◌, ◌>>◌,
}
use authenticator.Domain.{User, NullString, DeliveryMethod, is_phone, is_email}
use authenticator.External.{now}
use authenticator.Repository.{Attribute, by_phone, by_email, by_id, user_entity, as_user}
use authenticator.System.{System}
use authenticator.Password.{hash_password, ok_for_user}
use authenticator.Postgres.{
  Database, State, UserQuery, users_by_phone, users_by_email, users_by_id, users_for_update, in_tx,
  new_with_transaction, with_atomic,
}

abbrev pub null_string : NullString
null_string = record { string = []; valid = false }

-- `isTFADisabled`.
unfoldable pub is_tfa_disabled : User → Bool
is_tfa_disabled user =
    not user.is_phone_otp_allowed
    && (not user.is_email_otp_allowed && (not user.is_device_allowed && not user.is_totp_allowed))

-- `isContactDisabled`.
unfoldable pub is_contact_disabled : User → Bool
is_contact_disabled user = not user.phone.valid && not user.email.valid

unfoldable pub without_method : DeliveryMethod → User → User
without_method m user =
    if is_phone m
    then record user { is_phone_otp_allowed = false; phone = null_string }
    else if is_email m
    then record user { is_email_otp_allowed = false; email = null_string }
    else user

unfoldable pub without_otp : DeliveryMethod → User → User
without_otp m user =
    if is_phone m
    then record user { is_phone_otp_allowed = false }
    else if is_email m
    then record user { is_email_otp_allowed = false }
    else user

abbrev pub attribute_query : Attribute → Text → Option UserQuery
attribute_query by_phone value = some (users_by_phone value)
attribute_query by_email value = some (users_by_email value)
attribute_query by_id value = some (users_by_id value)
attribute_query _ value = none

module _ {W : Type 0} (db : Database W) (sys : System (State W)) where
  unfoldable pub by_identity : Attribute → Text → Exec (State W) User
  by_identity attribute value = elim (attribute_query attribute value) [
    | none ↦ raise (other "%s is not a valid query parameter")
    | some q ↦ in_tx (λ tx. db.query_user tx q)
  ]

  unfoldable pub sanitize_user : User → User
  sanitize_user user = record user {
    phone = record user.phone { string = sys.ext.trim_space user.phone.string };
    email = record user.email { string = sys.ext.to_lower (sys.ext.trim_space user.email.string) };
  }

  unfoldable pub validate_identity : User → Result (Unit {0})
  validate_identity user =
      if is_empty user.email.string && is_empty user.phone.string
      then bad (domain (invalid_field "user must have either an email or phone"))
      else good tt

  unfoldable pub validate_email : User → Result (Unit {0})
  validate_email user =
      if is_empty user.email.string
      then good tt
      else if sys.ext.is_mail_address user.email.string
      then good tt
      else bad (domain (invalid_field "email address is invalid"))

  unfoldable pub validate_phone : User → Result (Unit {0})
  validate_phone user =
      if is_empty user.phone.string
      then good tt
      else if sys.ext.is_valid_number user.phone.string
      then good tt
      else bad (domain (invalid_field "phone number is invalid"))

  unfoldable pub validate_user_unverified : User → Result (Unit {0})
  validate_user_unverified user =
      if user.is_verified then bad (other "cannot re-create already verified user") else good tt

  -- The loop stops at the first error.
  unfoldable pub validate_user_fields : User → List (User → Result (Unit {0})) → Result (Unit {0})
  validate_user_fields user [] = good tt
  validate_user_fields user (v ∷ vs) = elim (v user) [
    | good u ↦ validate_user_fields user vs
    | bad e ↦ bad e
  ]

  unfoldable pub hash_user_password : User → Exec (State W) User
  hash_user_password user = do
    from_result (ok_for_user sys user.password)
    password_hash ← wrapped "failed to hash password" (hash_password sys user.password)
    pure (record user { password = password_hash })

  -- `update`: the row under an ID, which may change.
  unfoldable pub update_row : Text → User → Exec (State W) User
  update_row user_id user = do
    t ← now sys.ext
    let user' : User = record user { updated_at = t }
    updated_rows ←
        wrapped "failed to execute update" (in_tx (λ tx. db.update_user tx user_id user'))
    guard (updated_rows == 1) (other "wrong number of users updated: %d")
    pure user'

  unfoldable pub create : User → Exec (State W) User
  create user₀ = do
    let user : User = sanitize_user user₀
    from_result
        (validate_user_fields user (validate_identity ∷ validate_email ∷ validate_phone ∷ []))
    user_id ← wrapped "cannot generate unique user ID" sys.ext.ulid_new
    hashed ← hash_user_password user
    let user' : User = record hashed {
      id = user_id;
      is_phone_otp_allowed =
          if is_empty hashed.phone.string then hashed.is_phone_otp_allowed else true;
      is_email_otp_allowed =
          if is_empty hashed.email.string then hashed.is_email_otp_allowed else true;
    }
    times ← in_tx (λ tx. db.insert_user tx user')
    pure (record user' { created_at = times.0; updated_at = times.1 })

  unfoldable pub re_create : User → Exec (State W) User
  re_create user₀ = do
    let user : User = sanitize_user user₀
    from_result (
        validate_user_fields user
          (validate_identity ∷ validate_email ∷ validate_phone ∷ validate_user_unverified ∷ []))
    user_id ← wrapped "cannot generate unique user ID" sys.ext.ulid_new
    hashed ← hash_user_password user
    t ← now sys.ext
    update_row hashed.id (record hashed { id = user_id; updated_at = t; created_at = t })

  unfoldable pub update : User → Exec (State W) User
  update user = update_row user.id user

  unfoldable pub get_for_update : Text → Exec (State W) User
  get_for_update user_id =
      wrapped "failed to retrieve record for update"
        (in_tx (λ tx. db.query_user tx (users_for_update user_id)))

  -- The repository's client is the one that the repositories point to.
  unfoldable pub new_for_repository : Exec (State W) ℕ
  new_for_repository d = new_with_transaction db d.1.current d

  unfoldable pub remove_delivery_method : Text → DeliveryMethod → Exec (State W) User
  remove_delivery_method user_id m = do
    tx_client ← new_for_repository
    entity ← with_atomic db tx_client (do
      row ← get_for_update user_id
      let user : User = without_method m row
      guard (not (is_tfa_disabled user))
          (domain (invalid_field "a 2FA option must be enabled to remove %s"))
      guard (not (is_contact_disabled user))
          (domain (invalid_field "a contact address must be enabled to remove %s"))
      user' ← update user
      pure (user_entity user'))
    as_user entity

  unfoldable pub disable_otp : Text → DeliveryMethod → Exec (State W) User
  disable_otp user_id m = do
    tx_client ← new_for_repository
    entity ← with_atomic db tx_client (do
      row ← get_for_update user_id
      let user : User = without_otp m row
      guard (not (is_tfa_disabled user))
          (domain (invalid_field "a 2FA option must be enabled to disable %s OTP"))
      user' ← update user
      pure (user_entity user'))
    as_user entity
