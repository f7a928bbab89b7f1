-- ===== src/SignupApi.antt =====
-- internal/signupapi: the registration of a user, and its verification by a code.
pub mod Registration
use authenticator.Common.{
  Bool, true, false, not, ◌&&◌, List, [], ◌∷◌, Option, none, some, Text, is_empty, if◌then◌else◌,
}
use authenticator.Errors.{Err, domain, bad_request, no_rows, wrap}
use authenticator.Effect.{
  Exec, Result, good, bad, pure, raise, guard, attempt, wrapped, ◌>>=◌, ◌>>◌,
}
use authenticator.Domain.{
  User, NullString, Token, DeliveryMethod, email, phone, is_email, is_phone, jwt_authorized,
  jwt_pre_authorized, state_eq, otp_signup, Reply, token_reply,
}
use authenticator.Requests.{SignupRequest, CodeRequest}
use authenticator.Repository.{by_id, user_entity, as_user}
use authenticator.System.{System}
use authenticator.Otp.{validate_otp}
use authenticator.Token.Create.{with_otp_delivery_method, create}
use authenticator.Token.Validate.{sign}
use authenticator.Token.Refresh.{cookies}
use authenticator.Http.{Request, Handler, get_user_id, get_token, read_body}
use authenticator.LoginApi.{user_attribute, is_known, set_cookies, send_code, record_login, deref}

abbrev pub blank_string : NullString
blank_string = record { string = []; valid = false }

-- `ToUser`: the password is still in the clear.
unfoldable pub to_user : SignupRequest → User
to_user req =
    let identity : NullString = record { string = req.identity; valid = true } in
    record {
      id = [];
      phone = if is_phone req.type then identity else blank_string;
      email = if is_email req.type then identity else blank_string;
      password = req.password;
      tfa_secret = [];
      is_phone_otp_allowed = false;
      is_email_otp_allowed = false;
      is_totp_allowed = false;
      is_device_allowed = false;
      is_verified = false;
      created_at = 0;
      updated_at = 0;
    }

module _ {W : Type 0} (sys : System W) where
  unfoldable pub decode_signup_request : Request → Exec W SignupRequest
  decode_signup_request r = do
    req ← read_body sys.decoder.signup r
    guard (is_known (user_attribute req.type))
        (domain (bad_request "identity type must be email or phone"))
    pure (record req { identity = sys.ext.trim_space req.identity })

  unfoldable pub decode_signup_verify_request : Request → Exec W CodeRequest
  decode_signup_verify_request r = do
    req ← read_body sys.decoder.code r
    pure (record { code = sys.ext.trim_space req.code })

  -- The account that a row holds when it is re-created; `client` is the transaction.
  unfoldable pub re_create_user : Text → User → Exec W User
  re_create_user user_id new_user = do
    client ← sys.repos.new_with_transaction sys.repo_mngr
    entity ← sys.repos.with_atomic client (do
      user ← sys.repos.user_get_for_update client user_id
      guard (not user.is_verified) (domain (bad_request "cannot register user"))
      user' ← wrapped "cannot re-create user" (
          sys.repos.user_re_create client (record user {
            email = new_user.email;
            phone = new_user.phone;
            password = new_user.password;
          }))
      pure (user_entity user'))
    as_user entity

  unfoldable pub create_user : User → Exec W User
  create_user new_user = sys.repos.user_create sys.repo_mngr new_user

  -- What becomes of the new user, by what the lookup of the identity gave. A lookup that fails gives
  -- no user.
  unfoldable pub register : User → Result User → Exec W User
  register new_user (good user) =
      if user.is_verified
      then raise (domain (bad_request "cannot register user"))
      else re_create_user user.id new_user
  register new_user (bad no_rows) = create_user new_user
  register new_user (bad e) = raise (wrap "failed to check user identity" e)

  unfoldable pub respond : Token → Exec W Reply
  respond token = do
    token_str ← sign sys token
    set_cookies sys (cookies sys token)
    if is_empty token.code_hash then pure tt else send_code sys otp_signup token
    pure (
        token_reply (record {
          token = token_str;
          client_id = token.client_id;
          refresh_token = if state_eq token.state jwt_authorized then token.refresh_token else [];
        }))

  unfoldable pub sign_up : Handler W
  sign_up r = do
    req ← decode_signup_request r
    found ←
        attempt (sys.repos.user_by_identity sys.repo_mngr (user_attribute req.type) req.identity)
    user ← register (to_user req) found
    jwt_token ← create sys user jwt_pre_authorized (with_otp_delivery_method req.type ∷ [])
    respond jwt_token

  -- The caller's `user` is not changed: the entity is assigned to the parameter only.
  unfoldable pub mark_user_verified : User → Exec W (Unit {0})
  mark_user_verified user = do
    client ← wrapped "failed to start transaction" (sys.repos.new_with_transaction sys.repo_mngr)
    entity ← sys.repos.with_atomic client (do
      row ← wrapped "failed to get user for update" (sys.repos.user_get_for_update client user.id)
      row' ←
          wrapped "failed to save verified user"
            (sys.repos.user_update client (record row { is_verified = true }))
      pure (user_entity row'))
    as_user entity
    pure tt

  unfoldable pub verify : Handler W
  verify r = do
    req ← decode_signup_verify_request r
    user ← sys.repos.user_by_identity sys.repo_mngr by_id (get_user_id r)
    token ← deref (get_token r)
    validate_otp sys req.code token.code_hash
    jwt_token ← create sys user jwt_authorized []
    mark_user_verified user
    record_login sys (get_user_id r) jwt_token
    respond jwt_token
