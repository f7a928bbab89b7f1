-- ===== src/Token/Refreshing.antt =====
-- Refresh tokens: which are accepted, and for how long.
use authenticator.Common.{
  ℕ, ◌+◌, ◌*◌, ◌≤◌, ◌<◌, ◌≡◌, refl, true, false, List, [], All, none, some, Text, ltb, text_eq_refl,
  text_eq_sound, arith, if◌then◌else◌,
}
use authenticator.Effect.{ok, ◌>>=◌}
use authenticator.Effect.Ensures.{
  Ensures, Ensures-bind, Ensures-wrapped, Ensures-option, Ensures-guard, Ensures-guard_last,
  Ensures-pure,
}
use authenticator.Domain.{User, Token, TokenState, RefreshToken, LoginHistory, unix, second}
use authenticator.External.Laws.{Ensures-now, IsMonotone, IsBase64, HasRefreshJson, Advances}
use authenticator.Crypto.{hash, default_sample, sample_of}
use authenticator.Crypto.Sample.{IsIn, random_string-IsIn, random_string-Advances}
use authenticator.System.{System}
use authenticator.Token.Create.{
  TokenOption, configure_all, new_configuration, gen_refresh_token_and_hash, create,
}
use authenticator.Token.Create.Clock.{gen_ulid-Advances, gen_client_id-Advances, gen_otp-Advances}
use authenticator.Token.Create.Carried.{create-Created}
use authenticator.Token.Validate.{is_hash_valid}
use authenticator.Token.Refresh.{unpack_refresh_token, refreshable, refreshable_till}

module _ {W : Type 0} (sys : System W) where
  -- An accepted refresh token decodes to bytes with the SHA-512 that is asked for, and expires in a
  -- later second.
  record Accepts (refresh_token h : Text) (r : RefreshToken) (w : W) : Type 0 where
    pub raw : Text
    pub decodes : sys.ext.base64url_decode refresh_token ≡ some raw
    pub hashes : hash sys.ext raw ≡ h
    pub unmarshals : sys.ext.unmarshal_refresh_token raw ≡ some r
    pub unexpired : unix (sys.ext.clock w) < r.expires_at

  unpack_refresh_token-Accepts :
      (refresh_token h : Text) (w : W)
      → Ensures (unpack_refresh_token sys refresh_token h w) (λ r _. Accepts refresh_token h r w)
  unfolding unpack_refresh_token is_hash_valid
  unpack_refresh_token-Accepts refresh_token h w = Ensures-option _ _ _ λ raw decodes.
      Ensures-guard _ _ _ λ same. Ensures-option _ _ _ λ r unmarshals. Ensures-now sys.ext _ (
        Ensures-guard _ _ _ λ unexpired. Ensures-pure _ r _ (record {
          raw = raw;
          decodes = decodes;
          hashes = text_eq_sound _ _ same;
          unmarshals = unmarshals;
          unexpired = ground arith;
        }))

  abbrev pub IsRefreshable : Token → Text → W → Type 0
  IsRefreshable t refresh_token w =
      (raw : Text) × (r : RefreshToken) × (lh : LoginHistory) × (v : W) × (v' : W)
      × (sys.ext.base64url_decode refresh_token ≡ some raw)
      × (hash sys.ext raw ≡ t.refresh_token_hash)
      × (sys.ext.unmarshal_refresh_token raw ≡ some r)
      × (unix (sys.ext.clock w) < r.expires_at)
      × (sys.repos.login_by_token_id sys.repo_mngr t.id v ≡ ok lh v')
      × (lh.is_revoked ≡ false)

  -- If a token may be refreshed, then the refresh token decodes to bytes with the SHA-512 that the
  -- token holds, and to an expiry in a later second than now; and storage returned a login record for
  -- the token's ID that is not revoked.
  pub refreshable_sound :
      (t : Token) (refresh_token : Text) (w w' : W)
      → refreshable sys t refresh_token w ≡ ok tt w'
      → IsRefreshable t refresh_token w
  unfolding refreshable
  refreshable_sound t refresh_token w w' returned =
      let sound : Ensures (refreshable sys t refresh_token w) (λ _ _.
        (raw : Text) × (r : RefreshToken) × (lh : LoginHistory) × (v : W) × (v' : W)
        × (sys.ext.base64url_decode refresh_token ≡ some raw)
        × (hash sys.ext raw ≡ t.refresh_token_hash)
        × (sys.ext.unmarshal_refresh_token raw ≡ some r)
        × (unix (sys.ext.clock w) < r.expires_at)
        × (sys.repos.login_by_token_id sys.repo_mngr t.id v ≡ ok lh v')
        × (lh.is_revoked ≡ false)) =
        Ensures-bind _ _ λ r v unpacked. Ensures-wrapped _ _ _ λ lh v' found.
          Ensures-guard_last _ _ _ λ kept.
            (let a =
                unpack_refresh_token-Accepts refresh_token t.refresh_token_hash w r v unpacked in
              (
                a.raw,
                r,
                lh,
                v,
                v',
                a.decodes,
                a.hashes,
                a.unmarshals,
                a.unexpired,
                found,
                ground arith,
              )) in
      sound tt w' returned

  refreshable_till_of_parts :
      (t : Token) (refresh_token raw : Text) (r : RefreshToken) (w : W)
      → sys.ext.base64url_decode refresh_token ≡ some raw
      → is_hash_valid sys raw t.refresh_token_hash ≡ true
      → sys.ext.unmarshal_refresh_token raw ≡ some r
      → refreshable_till sys t refresh_token w
        ≡ ok
            (if ltb (unix (sys.ext.clock w)) r.expires_at
              then some (r.expires_at * second)
              else none)
            (sys.ext.tick w)
  unfolding refreshable_till unpack_refresh_token ◌>>=◌
  refreshable_till_of_parts t refresh_token raw r w decodes same unmarshals =
      rw (decodes, same, unmarshals) (ground arith)

  -- A fresh refresh token and the hash that goes with it.
  record Fresh (refresh_token h : Text) (w w' : W) : Type 0 where
    pub code : Text
    pub made : ℕ
    pub raw : Text
    pub since : sys.ext.clock w ≤ made
    pub until : made ≤ sys.ext.clock w'
    pub printable : All (IsIn default_sample) code
    pub marshals :
        sys.ext.marshal_refresh_token
          (record { code = code; expires_at = unix (made + sys.token_conf.refresh_token_expiry) })
        ≡ some raw
    pub encodes : refresh_token ≡ sys.ext.base64url_encode raw
    pub hashes : h ≡ hash sys.ext raw

  gen_refresh_token-Fresh :
      (w : W)
      → IsMonotone sys.ext
      → Ensures (gen_refresh_token_and_hash sys none w) (λ p w'. Fresh p.0 p.1 w w')
  unfolding gen_refresh_token_and_hash sample_of
  gen_refresh_token-Fresh w monotone = Ensures-bind _ _ λ code v drawn. Ensures-now sys.ext _ (
      Ensures-option _ _ _ λ raw marshals.
        Ensures-pure _ (sys.ext.base64url_encode raw, hash sys.ext raw) _
          (record {
            code = code;
            made = sys.ext.clock v;
            raw = raw;
            since = random_string-Advances sys.ext monotone _ _ code w v drawn;
            until = monotone.tick_advances v;
            printable = random_string-IsIn sys.ext _ [] w (omega arith) code v drawn;
            marshals = marshals;
            encodes = refl;
            hashes = refl;
          }))

  abbrev pub Lifetime : Token → W → Type 0
  Lifetime t w =
      (made : ℕ) × (sys.ext.clock w ≤ made)
      × (unix made ≤ t.issued_at)
      × ((v : W)
          → refreshable_till sys t t.refresh_token v
            ≡ ok
                (if ltb (unix (sys.ext.clock v)) (unix (made + sys.token_conf.refresh_token_expiry))
                  then some (unix (made + sys.token_conf.refresh_token_expiry) * second)
                  else none)
                (sys.ext.tick v))

  -- A token that is created on the basis of no older one comes with a refresh token, made no earlier
  -- than the creation began and no later than the second of its issue, which can be used until the second in which the configured lifetime
  -- has passed since: until then its expiry is reported, and from then on the zero time.
  pub refresh_token-Lifetime :
      (user : User) (state : TokenState) (options : List TokenOption) (t : Token) (w w' : W)
      → IsMonotone sys.ext
      → Advances sys.ext sys.ext.ulid_new
      → IsBase64 sys.ext
      → HasRefreshJson sys.ext
      → (configure_all options new_configuration).refreshable_token ≡ none
      → create sys user state options w ≡ ok t w'
      → Lifetime t w
  unfolding is_hash_valid
  refresh_token-Lifetime user state options t w w' monotone ulid base64 json fresh created =
      let c = create-Created sys user state options t w w' created in
      let f =
        gen_refresh_token-Fresh c.w₃ monotone (t.refresh_token, t.refresh_token_hash) c.w₄
          (rw fresh at c.refresh) in
      (
        f.made,
        omega (
          arith,
          gen_ulid-Advances sys ulid t.id w c.w₁ (rw fresh at c.ulid),
          gen_client_id-Advances sys monotone (t.client_id, t.client_id_hash) c.w₁ c.w₂
              (rw fresh at c.client),
          gen_otp-Advances sys monotone _ user (t.code, t.code_hash) c.w₂ c.w₃ c.otp,
          f.since,
        ),
        omega (arith, c.issued, f.until, monotone.tick_advances c.w₄),
        λ v.
            refreshable_till_of_parts t t.refresh_token f.raw _ v
              (rw f.encodes (base64.url_decode-encode f.raw))
              (rw f.hashes (text_eq_refl (hash sys.ext f.raw))) (json _ _ f.printable f.marshals),
      )
