-- ===== src/Token/Validate.antt =====
-- internal/token/service.go: `Sign` and `Validate`, with the checks against Redis.
pub mod Sound
use authenticator.Common.{
  ℕ, Bool, true, false, not, List, [], ◌++◌, Option, none, some, Text, codes, is_empty, text_eq,
  has_prefix, trim_prefix, leb, if◌then◌else◌,
}
use authenticator.Errors.{Err, domain, invalid_token, other, wrap, redis_nil}
use authenticator.Effect.{
  Exec, Result, good, bad, pure, raise, guard, attempt, wrapped, recast, from_option, from_result,
  ◌>>=◌, ◌>>◌,
}
use authenticator.Domain.{Token, to_claims}
use authenticator.External.{SigningMethod, hmac, other_signing, RedisValue, as_int64}
use authenticator.Crypto.{hash}
use authenticator.System.{System}
use authenticator.Token.Create.{invalidation_key}

abbrev pub revocation_key : Text → Text
revocation_key token_id = token_id ++ codes "_is_revoked"

abbrev pub bearer : Text
bearer = codes "Bearer "

-- The key function that `jwt.Parse` is given.
abbrev pub token_parser : Text → SigningMethod → Result Text
token_parser secret hmac = good secret
token_parser secret (other_signing alg) = bad (other "unexpected signing method %v")

-- A found revocation, none, or a failed lookup.
unfoldable pub after_revocation : {W : Type 0} → Result RedisValue → Exec W (Unit {0})
after_revocation (good v) = raise (domain (invalid_token "token is revoked"))
after_revocation (bad redis_nil) = pure tt
after_revocation (bad e) = raise (wrap "cannot lookup token revocation history" e)

-- A token issued before the recorded time is invalid.
unfoldable pub after_invalidation : {W : Type 0} → ℕ → Result RedisValue → Exec W (Unit {0})
after_invalidation issued_at (good v) =
    guard (leb (as_int64 v) issued_at) (domain (invalid_token "token is revoked"))
after_invalidation issued_at (bad redis_nil) = pure tt
after_invalidation issued_at (bad e) = raise (wrap "cannot lookup token invalidation history" e)

module _ {W : Type 0} (sys : System W) where
  unfoldable pub is_hash_valid : Text → Text → Bool
  is_hash_valid str h = text_eq (hash sys.ext str) h

  unfoldable pub sign : Token → Exec W Text
  sign token =
      from_option (wrap "failed to sign JWT token" (other "jwt"))
        (sys.ext.jwt_sign sys.token_conf.secret (to_claims token))

  unfoldable pub check_revocation : Token → Exec W (Unit {0})
  check_revocation token = do
    reply ← attempt (sys.ext.redis_get (revocation_key token.id))
    after_revocation reply

  unfoldable pub lookup_invalidation : Token → Exec W (Unit {0})
  lookup_invalidation token = do
    reply ← attempt (sys.ext.redis_get (invalidation_key token.id))
    after_invalidation token.issued_at reply

  unfoldable pub check_invalidation : Token → Exec W (Unit {0})
  check_invalidation token = if is_empty token.code_hash then pure tt else lookup_invalidation token

  -- The claims of a parsed JWT as a token.
  unfoldable pub unpack_token : Text → Exec W Token
  unpack_token signed = do
    parsed ←
        recast (domain (invalid_token "token is invalid"))
          (sys.ext.jwt_parse (token_parser sys.token_conf.secret) signed)
    claims ← from_option (other "token claims unavailable") parsed.claims
    guard parsed.valid (other "token claims unavailable")
    b ←
        from_option (wrap "cannot marshal token to JSON" (other "json"))
          (sys.ext.marshal_claims claims)
    from_option (wrap "cannot unmarshall token to struct" (other "json"))
        (sys.ext.unmarshal_token b)

  unfoldable pub validate : Text → Text → Exec W Token
  validate signed_token client_id = do
    guard (has_prefix bearer signed_token) (domain (invalid_token "bearer token expected"))
    token ← unpack_token (trim_prefix bearer signed_token)
    guard (not (is_empty token.user_id))
        (domain (invalid_token "token is not associated with user"))
    decoded ←
        from_option (wrap "cannot decode client ID" (other "base64"))
          (sys.ext.base64url_decode client_id)
    guard (is_hash_valid decoded token.client_id_hash)
        (domain (invalid_token "token source is invalid"))
    check_revocation token
    check_invalidation token
    pure token
