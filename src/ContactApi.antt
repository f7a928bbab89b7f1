-- ===== src/ContactApi.antt =====
-- internal/contactapi and internal/contactchecker: the addresses that codes are sent to.
pub mod Ownership
use authenticator.Common.{
  Bool, true, false, not, ◌||◌, List, [], ◌∷◌, Option, none, some, Text, is_empty, if◌then◌else◌,
}
use authenticator.Errors.{Err, domain, bad_request, invalid_field}
use authenticator.Effect.{Exec, pure, guard, recast, wrapped, from_result, ◌>>=◌, ◌>>◌}
use authenticator.Domain.{
  User, Token, TokenState, DeliveryMethod, email, phone, is_email, is_phone, jwt_authorized,
  jwt_pre_authorized, OtpHash, MessageType, otp_address, otp_resend, Reply, token_reply,
}
use authenticator.Requests.{SendRequest, DeliveryRequest, DeactivateRequest, VerifyRequest}
use authenticator.Repository.{by_id, user_entity, as_user}
use authenticator.System.{System}
use authenticator.Otp.{validate_otp, from_otp_hash}
use authenticator.Token.Create.{
  TokenOption, with_otp_delivery_method, with_otp_address, with_refreshable_token, create,
}
use authenticator.Token.Validate.{sign}
use authenticator.Http.{Request, Handler, get_user_id, get_token, read_body}
use authenticator.LoginApi.{send_code, deref}
use authenticator.TokenApi.{reissue}

-- The codes of a verified address: it takes the place of the address on file.
unfoldable pub set_address : OtpHash → Bool → User → User
set_address h enabled user =
    if is_phone h.delivery_method
    then record user {
      phone = record { string = h.address; valid = true };
      is_phone_otp_allowed = enabled;
    }
    else if is_email h.delivery_method
    then record user {
      email = record { string = h.address; valid = true };
      is_email_otp_allowed = enabled;
    }
    else user

module _ {W : Type 0} (sys : System W) where
  -- `contactchecker.Validator`.
  unfoldable pub is_valid_address : DeliveryMethod → Text → Bool
  is_valid_address email a = sys.ext.is_mail_address a
  is_valid_address phone a = sys.ext.is_valid_number a
  is_valid_address _ a = false

  unfoldable pub check_method : DeliveryMethod → Exec W (Unit {0})
  check_method m =
      guard (is_phone m || is_email m)
        (domain (invalid_field "deliveryMethod must be `phone` or `email`"))

  unfoldable pub decode_send_request : Request → Exec W SendRequest
  decode_send_request r = do
    req ← read_body sys.decoder.send r
    check_method req.delivery_method
    pure req

  -- The address is checked before white space is cut off.
  unfoldable pub decode_delivery_request : Request → Exec W DeliveryRequest
  decode_delivery_request r = do
    req ← read_body sys.decoder.delivery r
    guard (not (is_empty req.address)) (domain (invalid_field "address cannot be empty"))
    check_method req.delivery_method
    guard (is_valid_address req.delivery_method req.address)
        (domain (invalid_field "address format is invalid"))
    pure (record req { address = sys.ext.to_lower (sys.ext.trim_space req.address) })

  unfoldable pub decode_deactivate_request : Request → Exec W DeactivateRequest
  decode_deactivate_request r = do
    req ← read_body sys.decoder.deactivate r
    check_method req.delivery_method
    pure req

  unfoldable pub decode_verify_request : Request → Exec W VerifyRequest
  decode_verify_request r = do
    req ← read_body sys.decoder.verify r
    guard (not (is_empty req.code)) (domain (invalid_field "code cannot be empty"))
    pure (record req { is_otp_enabled = not req.is_disabled; code = sys.ext.trim_space req.code })

  -- A token with a code, which is sent, and the token as the reply.
  unfoldable pub send_new_code : MessageType → Token → Exec W Reply
  send_new_code type token = do
    signed_token ← sign sys token
    send_code sys type token
    pure (token_reply (record { token = signed_token; client_id = []; refresh_token = [] }))

  unfoldable pub check_address : Handler W
  check_address r = do
    req ← decode_delivery_request r
    user ← sys.repos.user_by_identity sys.repo_mngr by_id (get_user_id r)
    token ← create sys user jwt_authorized (
        with_otp_delivery_method req.delivery_method
        ∷ with_otp_address req.address
        ∷ with_refreshable_token (get_token r)
        ∷ [])
    send_new_code otp_address token

  unfoldable pub disable : Handler W
  disable r = do
    req ← decode_deactivate_request r
    user ← sys.repos.user_disable_otp sys.repo_mngr (get_user_id r) req.delivery_method
    reissue sys r user

  unfoldable pub verify : Handler W
  verify r = do
    req ← decode_verify_request r
    token ← deref (get_token r)
    validate_otp sys req.code token.code_hash
    otp_hash ← from_result (from_otp_hash sys token.code_hash)
    tx_client ← sys.repos.new_with_transaction sys.repo_mngr
    entity ← recast (domain (bad_request "sorry we can't update your contact details")) (
        sys.repos.with_atomic tx_client (do
          user ← sys.repos.user_get_for_update tx_client (get_user_id r)
          user' ← sys.repos.user_update tx_client (set_address otp_hash req.is_otp_enabled user)
          pure (user_entity user')))
    user ← as_user entity
    reissue sys r user

  unfoldable pub remove : Handler W
  remove r = do
    req ← decode_deactivate_request r
    user ← sys.repos.user_remove_delivery_method sys.repo_mngr (get_user_id r) req.delivery_method
    reissue sys r user

  unfoldable pub send : Handler W
  send r = do
    req ← decode_send_request r
    user ← sys.repos.user_by_identity sys.repo_mngr by_id (get_user_id r)
    token ←
        create sys user jwt_pre_authorized
          (with_otp_delivery_method req.delivery_method ∷ with_refreshable_token (get_token r) ∷ [])
    send_new_code otp_resend token
