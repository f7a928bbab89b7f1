-- ===== src/Token/Refresh.antt =====
-- internal/token/service.go: refresh tokens, revocation and cookies.
use authenticator.Common.{ℕ, ◌*◌, true, not, List, [], ◌∷◌, Option, none, some, Text, codes, ltb}
use authenticator.Errors.{Err, domain, invalid_token, bad_request, other, wrap, no_rows}
use authenticator.Effect.{
  Exec, Result, good, bad, pure, guard, attempt, wrapped, map_err, from_option, ◌>>=◌, ◌>>◌,
}
use authenticator.Domain.{Cookie, Token, RefreshToken, unix, second}
use authenticator.External.{now, flag}
use authenticator.Repository.{login_entity}
use authenticator.System.{System}
use authenticator.Token.Validate.{is_hash_valid, revocation_key}

abbrev pub client_id_cookie : Text
client_id_cookie = codes "CLIENTID"

abbrev pub refresh_token_cookie : Text
refresh_token_cookie = codes "REFRESHTOKEN"

-- A missing login record is the client's error.
abbrev pub revoke_error : Err → Err
revoke_error no_rows = wrap "%v" (domain (bad_request "invalid token ID"))
revoke_error e = e

-- `time.Unix(s, 0)`, or the zero time after an error.
abbrev pub valid_till : Result RefreshToken → Option ℕ
valid_till (good r) = some (r.expires_at * second)
valid_till (bad e) = none

module _ {W : Type 0} (sys : System W) where
  unfoldable pub unpack_refresh_token : Text → Text → Exec W RefreshToken
  unpack_refresh_token refresh_token refresh_token_hash = do
    decoded ←
        from_option (wrap "cannot decode refresh token" (other "base64"))
          (sys.ext.base64url_decode refresh_token)
    guard (is_hash_valid sys decoded refresh_token_hash)
        (domain (invalid_token "refresh token is invalid"))
    t ←
        from_option (wrap "invalid refresh token format" (other "json"))
          (sys.ext.unmarshal_refresh_token decoded)
    n ← now sys.ext
    guard (ltb (unix n) t.expires_at) (domain (invalid_token "refresh token is expired"))
    pure t

  unfoldable pub refreshable : Token → Text → Exec W (Unit {0})
  refreshable token refresh_token = do
    unpack_refresh_token refresh_token token.refresh_token_hash
    lh ←
        wrapped "failed to retrieve login history record"
          (sys.repos.login_by_token_id sys.repo_mngr token.id)
    guard (not lh.is_revoked) (domain (invalid_token "token is revoked"))

  unfoldable pub refreshable_till : Token → Text → Exec W (Option ℕ)
  refreshable_till token refresh_token = do
    r ← attempt (unpack_refresh_token refresh_token token.refresh_token_hash)
    pure (valid_till r)

  unfoldable pub revoke : Text → Exec W (Unit {0})
  revoke token_id = do
    map_err revoke_error (sys.repos.login_by_token_id sys.repo_mngr token_id)
    tx ← wrapped "cannot start transaction" (sys.repos.new_with_transaction sys.repo_mngr)
    wrapped "failed to invalidate login history record" (
        sys.repos.with_atomic tx (do
          lh ← sys.repos.login_get_for_update tx token_id
          lh' ← sys.repos.login_update tx (record lh { is_revoked = true })
          pure (login_entity lh')))
    sys.ext.redis_set (revocation_key token_id) flag sys.token_conf.token_expiry

  abbrev pub secure_cookie : Text → Text → Cookie
  secure_cookie name value = record {
    name = name;
    value = value;
    max_age = sys.token_conf.cookie_max_age;
    domain = sys.token_conf.cookie_domain;
    path = codes "/";
    secure = true;
    http_only = true;
  }

  unfoldable pub cookies : Token → List Cookie
  cookies token =
      secure_cookie client_id_cookie token.client_id
      ∷ secure_cookie refresh_token_cookie token.refresh_token
      ∷ []
