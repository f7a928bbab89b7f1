-- ===== src/TokenApi.antt =====
-- internal/tokenapi: revoking, verifying and refreshing a token.
pub mod Refreshed
use authenticator.Common.{List, [], ◌∷◌, Text, codes, trim_prefix}
use authenticator.Effect.{Exec, pure, ◌>>=◌, ◌>>◌}
use authenticator.Domain.{User, jwt_authorized, Reply, result_reply, token_reply}
use authenticator.Repository.{by_id}
use authenticator.System.{System}
use authenticator.Token.Create.{TokenOption, with_refreshable_token, create}
use authenticator.Token.Validate.{sign}
use authenticator.Token.Refresh.{revoke, refreshable}
use authenticator.Http.{Request, Handler, get_user_id, get_token, get_refresh_token}
use authenticator.LoginApi.{deref}

abbrev pub token_path : Text
token_path = codes "/api/v1/token/"

module _ {W : Type 0} (sys : System W) where
  unfoldable pub revoke_token : Handler W
  revoke_token r = do
    revoke sys (trim_prefix token_path r.path)
    pure (result_reply (codes "success"))

  -- Middleware has validated the token.
  unfoldable pub verify : Handler W
  verify r = pure (result_reply (codes "success"))

  -- The end of every handler that gives an authorized user a token with newer details: it is
  -- created on the basis of the request's token, which may be nil.
  unfoldable pub reissue : Request → User → Exec W Reply
  reissue r user = do
    token ← create sys user jwt_authorized (with_refreshable_token (get_token r) ∷ [])
    signed_token ← sign sys token
    pure (token_reply (record { token = signed_token; client_id = []; refresh_token = [] }))

  unfoldable pub refresh : Handler W
  refresh r = do
    token ← deref (get_token r)
    refreshable sys token (get_refresh_token r)
    user ← sys.repos.user_by_identity sys.repo_mngr by_id (get_user_id r)
    reissue r user
