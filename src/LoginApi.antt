-- ===== src/LoginApi.antt =====
-- internal/loginapi: authentication by password, then by a code or a device.
pub mod Authorization
pub mod SecondStep
use authenticator.Common.{
  Bool, true, false, not, List, [], ◌∷◌, Option, none, some, Text, is_empty, if◌then◌else◌,
}
use authenticator.Errors.{Err, domain, bad_request, no_rows, wrap}
use authenticator.Effect.{
  Exec, pure, crash, guard, wrapped, recast, map_err, from_option, from_result, ◌>>=◌, ◌>>◌,
}
use authenticator.Domain.{
  User, Token, TokenState, DeliveryMethod, email, phone, jwt_authorized, jwt_pre_authorized,
  state_eq, can_send_default_otp, default_otp_delivery, MessageType, otp_login, Cookie, Reply,
  token_reply, bytes_reply,
}
use authenticator.Requests.{LoginRequest, CodeRequest}
use authenticator.Repository.{Attribute, by_phone, by_email, by_id, other_attribute}
use authenticator.System.{System}
use authenticator.Password.{validate_password}
use authenticator.Otp.{validate_otp, validate_totp, from_otp_hash}
use authenticator.Token.Create.{TokenOption, with_otp_delivery_method, create}
use authenticator.Token.Validate.{sign}
use authenticator.Token.Refresh.{cookies, refreshable_till}
use authenticator.Http.{Request, Handler, get_user_id, get_token, read_body, or_blank}

-- `UserAttribute`.
abbrev pub user_attribute : DeliveryMethod → Attribute
user_attribute email = by_email
user_attribute phone = by_phone
user_attribute _ = other_attribute []

abbrev pub is_known : Attribute → Bool
is_known (other_attribute s) = not (is_empty s)
is_known _ = true

-- A missing user is reported like a wrong password.
abbrev pub login_error : Err → Err
login_error no_rows = wrap "%v" (domain (bad_request "invalid username or password"))
login_error e = e

-- A nil token is dereferenced.
abbrev pub deref : {W : Type 0} → Option Token → Exec W Token
deref none = crash
deref (some t) = pure t

module _ {W : Type 0} (sys : System W) where
  unfoldable pub decode_login_request : Request → Exec W LoginRequest
  decode_login_request r = do
    req ← read_body sys.decoder.login r
    guard (is_known (user_attribute req.type))
        (domain (bad_request "identity type must be email or phone"))
    pure (record req { identity = sys.ext.trim_space req.identity })

  unfoldable pub decode_verify_code_request : Request → Exec W CodeRequest
  decode_verify_code_request r = do
    req ← read_body sys.decoder.code r
    pure (record { code = sys.ext.trim_space req.code })

  unfoldable pub set_cookies : List Cookie → Exec W (Unit {0})
  set_cookies [] = pure tt
  set_cookies (c ∷ cs) = sys.set_cookie c >>= λ _. set_cookies cs

  -- A code goes to the address that its hash holds.
  unfoldable pub send_code : MessageType → Token → Exec W (Unit {0})
  send_code type token = do
    h ← wrapped "invalid OTP created" (from_result (from_otp_hash sys token.code_hash))
    sys.message.send (record {
      type = type;
      delivery = h.delivery_method;
      code = token.code;
      address = h.address;
    })

  unfoldable pub respond : Token → Exec W Reply
  respond token = do
    token_str ← sign sys token
    set_cookies (cookies sys token)
    if is_empty token.code_hash then pure tt else send_code otp_login token
    pure (
        token_reply (record {
          token = token_str;
          client_id = token.client_id;
          refresh_token = if state_eq token.state jwt_authorized then token.refresh_token else [];
        }))

  -- The login record of a token that was just created, and the response.
  unfoldable pub record_login : Text → Token → Exec W (Unit {0})
  record_login user_id token = do
    till ← refreshable_till sys token token.refresh_token
    sys.repos.login_create sys.repo_mngr (record {
      token_id = token.id;
      user_id = user_id;
      is_revoked = false;
      expires_at = till;
      created_at = 0;
      updated_at = 0;
    })
    pure tt

  unfoldable pub login : Handler W
  login r = do
    req ← decode_login_request r
    user ←
        map_err login_error
          (sys.repos.user_by_identity sys.repo_mngr (user_attribute req.type) req.identity)
    recast (domain (bad_request "invalid username or password"))
        (from_result (validate_password sys user req.password))
    jwt_token ← create sys user jwt_pre_authorized (
        if can_send_default_otp user
        then with_otp_delivery_method (default_otp_delivery user) ∷ []
        else [])
    respond jwt_token

  unfoldable pub device_challenge : Handler W
  device_challenge r = do
    user ← sys.repos.user_by_identity sys.repo_mngr by_id (get_user_id r)
    challenge ← sys.webauthn.begin_login user
    pure (bytes_reply challenge)

  unfoldable pub authorize : Text → User → Exec W Reply
  authorize user_id user = do
    jwt_token ← create sys user jwt_authorized []
    record_login user_id jwt_token
    respond jwt_token

  unfoldable pub verify_device : Handler W
  verify_device r = do
    user ← sys.repos.user_by_identity sys.repo_mngr by_id (get_user_id r)
    sys.webauthn.finish_login user (or_blank r.body)
    authorize (get_user_id r) user

  -- A token that holds a code is verified by it, any other by a TOTP code.
  unfoldable pub check_code : Token → User → Text → Exec W (Unit {0})
  check_code token user code =
      if is_empty token.code_hash
      then validate_totp sys user code
      else validate_otp sys code token.code_hash

  unfoldable pub verify_code : Handler W
  verify_code r = do
    req ← decode_verify_code_request r
    user ← sys.repos.user_by_identity sys.repo_mngr by_id (get_user_id r)
    token ← deref (get_token r)
    check_code token user req.code
    authorize (get_user_id r) user
