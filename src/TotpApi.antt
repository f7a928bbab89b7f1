-- ===== src/TotpApi.antt =====
-- internal/totpapi: setting up and removing codes of a TOTP generator.
pub mod Setup
use authenticator.Common.{Bool, true, false, not, List, [], ◌∷◌, Text, is_empty}
use authenticator.Errors.{domain, bad_request}
use authenticator.Effect.{Exec, pure, guard, wrapped, ◌>>=◌, ◌>>◌}
use authenticator.Domain.{User, Reply, totp_reply}
use authenticator.Requests.{CodeRequest}
use authenticator.Repository.{by_id, user_entity, as_user}
use authenticator.System.{System}
use authenticator.Otp.{totp_secret, totp_qr_string, validate_totp}
use authenticator.Http.{Request, Handler, get_user_id, read_body}
use authenticator.TokenApi.{reissue}

module _ {W : Type 0} (sys : System W) where
  unfoldable pub decode_totp_request : Request → Exec W CodeRequest
  decode_totp_request r = do
    req ← read_body sys.decoder.code r
    guard (not (is_empty req.code)) (domain (bad_request "code must be provided"))
    pure (record { code = sys.ext.trim_space req.code })

  unfoldable pub secret : Handler W
  secret r = do
    user ← sys.repos.user_by_identity sys.repo_mngr by_id (get_user_id r)
    guard (not user.is_totp_allowed) (domain (bad_request "TOTP is already configured"))
    client ← sys.repos.new_with_transaction sys.repo_mngr
    entity ← sys.repos.with_atomic client (do
      row ← sys.repos.user_get_for_update client (get_user_id r)
      tfa_secret ← totp_secret sys row
      row' ←
          wrapped "cannot set tfa secret"
            (sys.repos.user_update client (record row { tfa_secret = tfa_secret }))
      pure (user_entity row'))
    user' ← as_user entity
    qr ← totp_qr_string sys user'
    pure (totp_reply qr)

  -- The row is locked by the ID of the user that was found.
  unfoldable pub configure_totp : Request → User → Bool → Exec W Reply
  configure_totp r user is_enabled = do
    req ← decode_totp_request r
    validate_totp sys user req.code
    client ← sys.repos.new_with_transaction sys.repo_mngr
    entity ← sys.repos.with_atomic client (do
      row ← sys.repos.user_get_for_update client user.id
      row' ←
          wrapped "cannot update TOTP setting"
            (sys.repos.user_update client (record row { is_totp_allowed = is_enabled }))
      pure (user_entity row'))
    user' ← as_user entity
    reissue sys r user'

  unfoldable pub verify : Handler W
  verify r = do
    user ← sys.repos.user_by_identity sys.repo_mngr by_id (get_user_id r)
    guard (not user.is_totp_allowed) (domain (bad_request "TOTP is already configured"))
    configure_totp r user true

  unfoldable pub remove : Handler W
  remove r = do
    user ← sys.repos.user_by_identity sys.repo_mngr by_id (get_user_id r)
    guard user.is_totp_allowed (domain (bad_request "TOTP is not enabled"))
    configure_totp r user false
