-- ===== src/Token/RoundTrip.antt =====
-- internal/token: Create, Sign and Validate together.
use authenticator.Common.{
  ◌≤◌, ◌≡◌, refl, sym, Bool, true, false, List, ◌++◌, none, some, Text, is_empty, text_eq_refl,
  has_prefix, trim_prefix, has_prefix-append, trim_prefix-append,
}
use authenticator.Errors.{redis_nil}
use authenticator.Effect.{ok, fail, ◌>>=◌, from_option-eq-ok}
use authenticator.Effect.Ensures.{Ensures, Ensures-wrapped, Ensures-pure}
use authenticator.Domain.{User, Token, TokenState, to_claims, unix}
use authenticator.External.Laws.{RedisModel, IsJwt, IsBase64}
use authenticator.Crypto.{hash}
use authenticator.System.{System}
use authenticator.Token.Create.{
  TokenOption, configure_all, new_configuration, invalidation_key, gen_client_id_and_hash, create,
}
use authenticator.Token.Create.Carried.{create-Created}
use authenticator.Token.Validate.{
  revocation_key, bearer, token_parser, after_revocation, after_invalidation, is_hash_valid, sign,
  check_revocation, check_invalidation, lookup_invalidation, unpack_token, validate,
}

module _ {W : Type 0} (sys : System W) where
  -- A fresh client ID: the encoded bytes, and their hash.
  fresh_client_id :
      (c h : Text) (w w' : W)
      → gen_client_id_and_hash sys none w ≡ ok (c, h) w'
      → (raw : Text) × (c ≡ sys.ext.base64url_encode raw) × (h ≡ hash sys.ext raw)
  unfolding gen_client_id_and_hash
  fresh_client_id c h w w' returned =
      let fresh : Ensures (gen_client_id_and_hash sys none w)
          (λ p _. (raw : Text) × (p.0 ≡ sys.ext.base64url_encode raw) × (p.1 ≡ hash sys.ext raw)) =
        Ensures-wrapped _ _ _ λ raw v drawn. Ensures-pure _ _ v (raw, refl, refl) in
      fresh (c, h) w' returned

  check_revocation_absent :
      (t : Token) (w w' : W)
      → sys.ext.redis_get (revocation_key t.id) w ≡ fail redis_nil w'
      → check_revocation sys t w ≡ ok tt w'
  unfolding check_revocation after_revocation ◌>>=◌
  check_revocation_absent t w w' missed = rw missed

  lookup_invalidation_absent :
      (t : Token) (w w' : W)
      → sys.ext.redis_get (invalidation_key t.id) w ≡ fail redis_nil w'
      → lookup_invalidation sys t w ≡ ok tt w'
  unfolding lookup_invalidation after_invalidation ◌>>=◌
  lookup_invalidation_absent t w w' missed = rw missed

  -- Each step of a validation, passed.
  validate_of_steps :
      (signed_token client_id raw : Text) (t : Token) (w v v₁ v₂ : W)
      → has_prefix bearer signed_token ≡ true
      → unpack_token sys (trim_prefix bearer signed_token) w ≡ ok t v
      → is_empty t.user_id ≡ false
      → sys.ext.base64url_decode client_id ≡ some raw
      → is_hash_valid sys raw t.client_id_hash ≡ true
      → check_revocation sys t v ≡ ok tt v₁
      → check_invalidation sys t v₁ ≡ ok tt v₂
      → validate sys signed_token client_id w ≡ ok t v₂
  unfolding validate ◌>>=◌
  validate_of_steps signed_token client_id raw t w v v₁ v₂ a b c d e f g = rw (a, b, c, d, e, f, g)

  module _ (redis : RedisModel sys.ext) (base64 : IsBase64 sys.ext) where
    check_invalidation_absent :
        (t : Token) (w : W)
        → redis.Absent (invalidation_key t.id) w
        → (w' : W) × (check_invalidation sys t w ≡ ok tt w')
    unfolding check_invalidation
    check_invalidation_absent t w absent = split (is_empty t.code_hash) refl
      where
        split :
            (b : Bool)
            → is_empty t.code_hash ≡ b
            → (w' : W) × (check_invalidation sys t w ≡ ok tt w')
        split true e = (w, rw e)
        split false e =
            let (w', missed) = redis.absent_misses _ w absent in
            (w', rw e (lookup_invalidation_absent t w w' missed))

    unpack_signed :
        (t : Token) (s : Text) (w : W)
        → IsJwt sys.ext t
        → sys.ext.jwt_sign sys.token_conf.secret (to_claims t) ≡ some s
        → t.issued_at ≤ unix (sys.ext.clock w)
        → unix (sys.ext.clock w) ≤ t.expires_at
        → (w' : W) × (unpack_token sys s w ≡ ok (to_claims t) w')
          × ((k : Text) → redis.Quiet k w w')
    unfolding unpack_token ◌>>=◌
    unpack_signed t s w jwt signed issued early =
        let (claims, b, v, parses, marshals, unmarshals) =
          jwt sys.token_conf.secret s (token_parser sys.token_conf.secret) w signed refl issued
            early in
        (v, rw (parses, marshals, unmarshals), λ k. redis.jwt_quiet k _ _ _ w v parses)

    validate_signed :
        (t : Token) (s raw : Text) (w : W)
        → IsJwt sys.ext t
        → sys.ext.jwt_sign sys.token_conf.secret (to_claims t) ≡ some s
        → t.issued_at ≤ unix (sys.ext.clock w)
        → unix (sys.ext.clock w) ≤ t.expires_at
        → is_empty t.user_id ≡ false
        → sys.ext.base64url_decode t.client_id ≡ some raw
        → hash sys.ext raw ≡ t.client_id_hash
        → redis.Absent (revocation_key t.id) w
        → redis.Absent (invalidation_key t.id) w
        → (w' : W) × (validate sys (bearer ++ s) t.client_id w ≡ ok (to_claims t) w')
    unfolding is_hash_valid
    validate_signed t s raw w jwt signed issued early named decodes hashes unrevoked valid =
        let (v, unpacked, quiet) = unpack_signed t s w jwt signed issued early in
        let (v₁, missed) =
          redis.absent_misses _ v
            (redis.Quiet-Absent _ w v unrevoked (quiet (revocation_key t.id))) in
        let (v₂, checked) = check_invalidation_absent (to_claims t) v₁ (
          redis.Quiet-Absent _ v v₁ (redis.Quiet-Absent _ w v valid (quiet (invalidation_key t.id)))
            (redis.miss_quiet _ _ v v₁ missed)) in
        (
          v₂,
          validate_of_steps (bearer ++ s) t.client_id raw (to_claims t) w v v₁ v₂
              (has_prefix-append bearer s) (rw (trim_prefix-append bearer s) unpacked) named decodes
              (rw hashes (text_eq_refl t.client_id_hash))
              (check_revocation_absent (to_claims t) v v₁ missed) checked,
        )

    -- Suppose a token was created for a user with an ID, on the basis of no older token, and was then
    -- signed, and the JWT library gives it back. Behind `Bearer `, with the client ID that was created
    -- with it, it is accepted in every world whose clock has reached the second of its issue and not
    -- passed the second in which it expires, and in which Redis answers and has neither key of it. What
    -- comes back is the token less what JSON leaves out of it.
    pub validate-sign-create :
        (user : User) (state : TokenState) (options : List TokenOption) (t : Token) (s : Text)
        (w w' u u' v : W)
        → is_empty user.id ≡ false
        → (configure_all options new_configuration).refreshable_token ≡ none
        → create sys user state options w ≡ ok t w'
        → sign sys t u ≡ ok s u'
        → IsJwt sys.ext t
        → t.issued_at ≤ unix (sys.ext.clock v)
        → unix (sys.ext.clock v) ≤ t.expires_at
        → redis.Absent (revocation_key t.id) v
        → redis.Absent (invalidation_key t.id) v
        → (v' : W) × (validate sys (bearer ++ s) t.client_id v ≡ ok (to_claims t) v')
    unfolding sign
    validate-sign-create user state options t s w w' u u' v named fresh created signed jwt issued
          early unrevoked valid =
        let c = create-Created sys user state options t w w' created in
        let (raw, encoded, hashed) =
          fresh_client_id t.client_id t.client_id_hash _ _ (rw fresh at c.client) in
        validate_signed t s raw v jwt (from_option-eq-ok _ _ signed).0 issued early
          (rw c.user_id named) (rw encoded (base64.url_decode-encode raw)) (sym hashed) unrevoked
          valid
