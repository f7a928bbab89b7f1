-- ===== src/Token/Validate/Sound.antt =====
-- What is known of a token that `Validate` accepts.
use authenticator.Common.{
  ℕ, ◌≤◌, ◌≡◌, ◌≢◌, ◌⊎◌, inl, inr, refl, true, false, some, Text, is_empty, text_eq_sound,
  has_prefix, trim_prefix, arith, Bool-cases,
}
use authenticator.Errors.{Err, redis_nil}
use authenticator.Effect.{ok, fail, good, bad, guard, from_option-eq-ok}
use authenticator.Effect.Ensures.{
  Ensures, Ensures-bind, Ensures-guard, Ensures-option, Ensures-wrapped, Ensures-attempt,
  Ensures-pure,
}
use authenticator.Domain.{Token}
use authenticator.External.{ParsedJwt, RedisValue, as_int64}
use authenticator.Crypto.{hash}
use authenticator.System.{System}
use authenticator.Token.Create.{invalidation_key}
use authenticator.Token.Validate.{
  revocation_key, bearer, token_parser, after_revocation, after_invalidation, is_hash_valid,
  check_revocation, check_invalidation, lookup_invalidation, unpack_token, validate,
}

module _ {W : Type 0} (sys : System W) where
  -- The token was read from a JWT that the library found valid under the service's secret.
  pub record Unpacked (signed : Text) (t : Token) (w w' : W) : Type 0 where
    pub claims : Text
    pub json : Text
    pub parses :
        sys.ext.jwt_parse (token_parser sys.token_conf.secret) signed w
        ≡ ok (record { claims = some claims; valid = true }) w'
    pub marshals : sys.ext.marshal_claims claims ≡ some json
    pub unmarshals : sys.ext.unmarshal_token json ≡ some t

  -- The token holds no code, or Redis has no time from which its codes are valid, or it is not older.
  abbrev pub Invalidation : Token → W → W → Type 0
  Invalidation t w w' =
      (is_empty t.code_hash ≡ true) × (w ≡ w')
      ⊎ (sys.ext.redis_get (invalidation_key t.id) w ≡ fail redis_nil w')
      ⊎ ((v : RedisValue) × (sys.ext.redis_get (invalidation_key t.id) w ≡ ok v w')
          × (as_int64 v ≤ t.issued_at))

  -- Redis holds no revocation of the token, and no later time from which its codes are valid.
  pub record Current (t : Token) (w w' : W) : Type 0 where
    pub checked : W
    pub unrevoked : sys.ext.redis_get (revocation_key t.id) w ≡ fail redis_nil checked
    pub valid : Invalidation t checked w'

  unpack_token-Unpacked :
      (signed : Text) (w : W) → Ensures (unpack_token sys signed w) (λ t w'. Unpacked signed t w w')
  unfolding unpack_token
  unpack_token-Unpacked signed w = Ensures-wrapped _ _ _ λ parsed v parses.
      Ensures-option _ _ _ λ claims mapped. Ensures-guard _ _ _ λ valid.
        Ensures-option _ _ _ λ json marshals. λ t v' last.
          let (unmarshals, same) = from_option-eq-ok _ _ last in
          record {
            claims = claims;
            json = json;
            parses = rw (← same) (rw (Parsed_eq parsed claims mapped valid) at parses);
            marshals = marshals;
            unmarshals = unmarshals;
          }
    where
      Parsed_eq :
          (p : ParsedJwt) (c : Text)
          → p.claims ≡ some c
          → p.valid ≡ true
          → p ≡ record { claims = some c; valid = true }
      Parsed_eq p c e f = ground arith

  after_revocation-eq-ok :
      (e : Err) (v w' : W) → after_revocation (bad e) v ≡ ok tt w' → (e ≡ redis_nil) × (v ≡ w')
  unfolding after_revocation
  after_revocation-eq-ok redis_nil v w' h = (refl, cc)
  after_revocation-eq-ok _ v w' h = cc

  after_revocation-ne-ok : (r : RedisValue) (v w' : W) → after_revocation (good r) v ≢ ok tt w'
  unfolding after_revocation
  after_revocation-ne-ok r v w' h = cc

  check_revocation-misses :
      (t : Token) (w : W)
      → Ensures
          (check_revocation sys t w)
          (λ _ w'. sys.ext.redis_get (revocation_key t.id) w ≡ fail redis_nil w')
  unfolding check_revocation
  check_revocation-misses t w =
      Ensures-attempt _ _ (λ r v found u w' h. absurd (after_revocation-ne-ok r v w' h))
        (λ e v failed u w' h.
          let (missed, same) = after_revocation-eq-ok e v w' h in rw (missed, same) at failed)

  after_invalidation_bad :
      (n : ℕ) (e : Err) (v w' : W)
      → after_invalidation n (bad e) v ≡ ok tt w'
      → (e ≡ redis_nil) × (v ≡ w')
  unfolding after_invalidation
  after_invalidation_bad n redis_nil v w' h = (refl, cc)
  after_invalidation_bad n _ v w' h = cc

  after_invalidation_good :
      (n : ℕ) (r : RedisValue) (v w' : W)
      → after_invalidation n (good r) v ≡ ok tt w'
      → (as_int64 r ≤ n) × (v ≡ w')
  unfolding after_invalidation guard
  after_invalidation_good n r v w' h = ground arith

  lookup_invalidation-Invalidation :
      (t : Token) (w : W) → Ensures (lookup_invalidation sys t w) (λ _ w'. Invalidation t w w')
  unfolding lookup_invalidation
  lookup_invalidation-Invalidation t w =
      Ensures-attempt _ _
        (λ r v found u w' h.
          let (recent, same) = after_invalidation_good t.issued_at r v w' h in
          inr (inr (r, rw same at found, recent)))
        (λ e v failed u w' h.
          let (missed, same) = after_invalidation_bad t.issued_at e v w' h in
          inr (inl (rw (missed, same) at failed)))

  check_invalidation-Invalidation :
      (t : Token) (w w' : W) → check_invalidation sys t w ≡ ok tt w' → Invalidation t w w'
  unfolding check_invalidation
  check_invalidation-Invalidation t w w' h = elim (Bool-cases (is_empty t.code_hash)) [
    | inl codeless ↦ inl (codeless, ground arith)
    | inr hashed ↦ lookup_invalidation-Invalidation t w tt w' (rw hashed at h)
  ]

  -- What every accepted token satisfies.
  pub record Validated (signed_token client_id : Text) (t : Token) (w w' : W) : Type 0 where
    pub parsed_at : W
    pub is_bearer : has_prefix bearer signed_token ≡ true
    pub unpacked : Unpacked (trim_prefix bearer signed_token) t w parsed_at
    pub has_user : is_empty t.user_id ≡ false
    pub decoded : Text
    pub decodes : sys.ext.base64url_decode client_id ≡ some decoded
    pub from_client : hash sys.ext decoded ≡ t.client_id_hash
    pub current : Current t parsed_at w'

  pub validate-Validated :
      (signed_token client_id : Text) (t : Token) (w w' : W)
      → validate sys signed_token client_id w ≡ ok t w'
      → Validated signed_token client_id t w w'
  unfolding validate is_hash_valid
  validate-Validated signed_token client_id t w w' returned =
      let validated : Ensures (validate sys signed_token client_id w)
          (λ s v. Validated signed_token client_id s w v) =
        Ensures-guard _ _ _ λ is_bearer. Ensures-bind _ _ λ s parsed_at read.
          Ensures-guard _ _ _ λ has_user. Ensures-option _ _ _ λ decoded decodes.
            Ensures-guard _ _ _ λ same_hash. Ensures-bind _ _ λ _ checked unrevoked.
              Ensures-bind _ _ λ _ v valid. Ensures-pure _ s v (record {
                parsed_at = parsed_at;
                is_bearer = is_bearer;
                unpacked = unpack_token-Unpacked _ w s parsed_at read;
                has_user = ground arith;
                decoded = decoded;
                decodes = decodes;
                from_client = text_eq_sound _ _ same_hash;
                current = record {
                  checked = checked;
                  unrevoked = check_revocation-misses s parsed_at tt checked unrevoked;
                  valid = check_invalidation-Invalidation s checked v valid;
                };
              }) in
      validated t w' returned

  abbrev pub Accepted : Text → Text → Token → W → W → Type 0
  Accepted signed_token client_id t w w' =
      (v : W) × (c : W) × (raw : Text) × (has_prefix bearer signed_token ≡ true)
      × Unpacked (trim_prefix bearer signed_token) t w v
      × (is_empty t.user_id ≡ false)
      × (sys.ext.base64url_decode client_id ≡ some raw)
      × (hash sys.ext raw ≡ t.client_id_hash)
      × (sys.ext.redis_get (revocation_key t.id) v ≡ fail redis_nil c)
      × Invalidation t c w'

  -- If a token is accepted, then it came behind `Bearer `; it was read from a JWT that the library
  -- found valid under the secret; it names a user; the client ID that came with it decodes to bytes
  -- with the SHA-512 that it holds; no revocation of its ID was found in Redis; and it holds no code,
  -- or no invalidation time was found, or it was issued at that time or later.
  pub validate_sound :
      (signed_token client_id : Text) (t : Token) (w w' : W)
      → validate sys signed_token client_id w ≡ ok t w'
      → Accepted signed_token client_id t w w'
  validate_sound signed_token client_id t w w' h =
      let p = validate-Validated signed_token client_id t w w' h in
      (
        p.parsed_at, p.current.checked, p.decoded, p.is_bearer, p.unpacked, p.has_user, p.decodes,
        p.from_client, p.current.unrevoked, p.current.valid,
      )
