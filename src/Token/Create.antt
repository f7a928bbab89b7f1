-- ===== src/Token/Create.antt =====
-- internal/token/service.go: `Create`, its options and what it generates.
pub mod Carried
pub mod Clock
pub mod Delivery
use authenticator.Common.{
  ℕ, ◌+◌, Bool, true, false, not, ◌&&◌, List, [], ◌∷◌, ◌++◌, Option, none, some, Text, codes,
  is_empty, if◌then◌else◌,
}
use authenticator.Errors.{domain, invalid_field, other}
use authenticator.Effect.{Exec, pure, guard, wrapped, from_option, ◌>>=◌, ◌>>◌}
use authenticator.Domain.{
  User, Token, TokenState, DeliveryMethod, no_method, is_phone, is_email, is_no_method, TfaOption,
  otp_phone, otp_email, totp, fido_device, default_tfa, unix,
}
use authenticator.External.{now, number}
use authenticator.Crypto.{random_string, hash}
use authenticator.System.{System}
use authenticator.Otp.{otp_code}

-- `TokenConfiguration`; a nil token is `none`.
pub record TokenConfiguration : Type 0 where
  pub delivery_method : DeliveryMethod
  pub delivery_address : Text
  pub refreshable_token : Option Token

pub data TokenOption : Type 0 where
  with_otp_delivery_method : DeliveryMethod → TokenOption
  with_otp_address : Text → TokenOption
  with_refreshable_token : Option Token → TokenOption

abbrev pub configure : TokenOption → TokenConfiguration → TokenConfiguration
configure (with_otp_delivery_method m) conf = record conf { delivery_method = m }
configure (with_otp_address a) conf = record conf { delivery_address = a }
configure (with_refreshable_token t) conf = record conf { refreshable_token = t }

-- The loop over the options.
abbrev pub configure_all : List TokenOption → TokenConfiguration → TokenConfiguration
configure_all [] conf = conf
configure_all (o ∷ os) conf = configure_all os (configure o conf)

abbrev pub new_configuration : TokenConfiguration
new_configuration = record {
  delivery_method = no_method;
  delivery_address = [];
  refreshable_token = none;
}

abbrev pub client_id_len : ℕ
client_id_len = 40

abbrev pub refresh_token_len : ℕ
refresh_token_len = 40

abbrev pub when_allowed : Bool → TfaOption → List TfaOption
when_allowed true o = o ∷ []
when_allowed false o = []

unfoldable pub gen_tfa_options : User → List TfaOption
gen_tfa_options user =
    when_allowed user.is_phone_otp_allowed otp_phone
    ++ (when_allowed user.is_email_otp_allowed otp_email
        ++ (when_allowed user.is_totp_allowed totp
            ++ when_allowed user.is_device_allowed fido_device))

-- Where a code is sent: the address that was asked for, or one on file that may receive codes.
unfoldable pub delivery_address_of : TokenConfiguration → User → Text
delivery_address_of conf user =
    let use_phone_number =
      is_phone conf.delivery_method
      && (user.is_phone_otp_allowed && is_empty conf.delivery_address) in
    let use_email_address =
      is_email conf.delivery_method
      && (user.is_email_otp_allowed && is_empty conf.delivery_address) in
    if use_email_address
    then user.email.string
    else if use_phone_number
    then user.phone.string
    else conf.delivery_address

abbrev pub invalidation_key : Text → Text
invalidation_key token_id = token_id ++ codes "_invalid_after"

module _ {W : Type 0} (sys : System W) where
  unfoldable pub gen_ulid : Option Token → Exec W Text
  gen_ulid (some old) = pure old.id
  gen_ulid none = wrapped "cannot generate unique token ID" sys.ext.ulid_new

  unfoldable pub gen_client_id_and_hash : Option Token → Exec W (Text × Text)
  gen_client_id_and_hash (some old) = pure ([], old.client_id_hash)
  gen_client_id_and_hash none = do
    client_id ← wrapped "failed to generate client ID" (random_string sys.ext client_id_len [])
    pure (sys.ext.base64url_encode client_id, hash sys.ext client_id)

  unfoldable pub send_otp : TokenConfiguration → User → Exec W (Text × Text)
  send_otp conf user = do
    let address = delivery_address_of conf user
    guard (not (is_empty address)) (domain (invalid_field "delivery address is not valid"))
    wrapped "failed to generate OTP code" (otp_code sys address conf.delivery_method)

  unfoldable pub gen_otp_and_hash : TokenConfiguration → User → Exec W (Text × Text)
  gen_otp_and_hash conf user =
      if is_no_method conf.delivery_method then pure ([], []) else send_otp conf user

  unfoldable pub gen_refresh_token_and_hash : Option Token → Exec W (Text × Text)
  gen_refresh_token_and_hash (some old) = pure ([], old.refresh_token_hash)
  gen_refresh_token_and_hash none = do
    code ← random_string sys.ext refresh_token_len []
    t ← now sys.ext
    b ← from_option (other "json") (
        sys.ext.marshal_refresh_token
          (record { code = code; expires_at = unix (t + sys.token_conf.refresh_token_expiry) }))
    pure (sys.ext.base64url_encode b, hash sys.ext b)

  abbrev pub is_some : {A : Type 0} → Option A → Bool
  is_some none = false
  is_some (some a) = true

  unfoldable pub invalidate_old_tokens : TokenConfiguration → Token → Exec W (Unit {0})
  invalidate_old_tokens conf token =
      let proceed =
        is_some conf.refreshable_token
        && (not (is_no_method conf.delivery_method) && not (is_empty conf.delivery_address)) in
      if proceed
      then sys.ext.redis_set (invalidation_key token.id) (number token.issued_at)
          sys.token_conf.token_expiry
      else pure tt

  unfoldable pub create_from : TokenConfiguration → User → TokenState → Exec W Token
  create_from conf user state = do
    token_ulid ← gen_ulid conf.refreshable_token
    (client_id, client_id_hash) ← gen_client_id_and_hash conf.refreshable_token
    (code, code_hash) ← gen_otp_and_hash conf user
    (refresh_token, refresh_token_hash) ← gen_refresh_token_and_hash conf.refreshable_token
    t ← now sys.ext
    t' ← now sys.ext
    let token : Token = record {
      issued_at = unix t';
      expires_at = unix (t + sys.token_conf.token_expiry);
      id = token_ulid;
      issuer = sys.token_conf.issuer;
      client_id = client_id;
      client_id_hash = client_id_hash;
      user_id = user.id;
      email = user.email.string;
      phone = user.phone.string;
      state = state;
      code_hash = code_hash;
      code = code;
      refresh_token = refresh_token;
      refresh_token_hash = refresh_token_hash;
      tfa_options = gen_tfa_options user;
      default_tfa = default_tfa user;
    }
    wrapped "cannot invalidate old tokens" (invalidate_old_tokens conf token)
    pure token

  -- `Create`.
  unfoldable pub create : User → TokenState → List TokenOption → Exec W Token
  create user state options = create_from (configure_all options new_configuration) user state
