-- ===== src/Token/Create/Carried.antt =====
-- What a created token carries: the identity of an older token, or fresh values.
use authenticator.Common.{arith, ◌+◌, ◌≡◌, refl, List, [], some}
use authenticator.Effect.{ok}
use authenticator.Effect.Ensures.{Ensures, Ensures-bind, Ensures-wrapped, Ensures-pure}
use authenticator.Domain.{User, Token, TokenState, default_tfa, unix}
use authenticator.External.Laws.{Ensures-now}
use authenticator.System.{System}
use authenticator.Token.Create.{
  TokenConfiguration, TokenOption, configure_all, new_configuration, gen_ulid,
  gen_client_id_and_hash, gen_refresh_token_and_hash, gen_otp_and_hash, gen_tfa_options,
  create_from, create, invalidate_old_tokens,
}

module _ {W : Type 0} (sys : System W) where
  -- How the fields of a created token came about.
  pub record Created (conf : TokenConfiguration) (user : User) (state : TokenState) (t : Token)
      (w w' : W) : Type 0 where
    pub w₁ : W
    pub w₂ : W
    pub w₃ : W
    pub w₄ : W
    pub ulid : gen_ulid sys conf.refreshable_token w ≡ ok t.id w₁
    pub client :
        gen_client_id_and_hash sys conf.refreshable_token w₁ ≡ ok (t.client_id, t.client_id_hash) w₂
    pub otp : gen_otp_and_hash sys conf user w₂ ≡ ok (t.code, t.code_hash) w₃
    pub refresh :
        gen_refresh_token_and_hash sys conf.refreshable_token w₃
        ≡ ok (t.refresh_token, t.refresh_token_hash) w₄
    pub issued : t.issued_at ≡ unix (sys.ext.clock (sys.ext.tick w₄))
    pub expires : t.expires_at ≡ unix (sys.ext.clock w₄ + sys.token_conf.token_expiry)
    pub invalidates : invalidate_old_tokens sys conf t (sys.ext.tick (sys.ext.tick w₄)) ≡ ok tt w'
    pub user_id : t.user_id ≡ user.id
    pub state_is : t.state ≡ state
    pub options : t.tfa_options ≡ gen_tfa_options user
    pub default_is : t.default_tfa ≡ default_tfa user

  create_from-Created :
      (conf : TokenConfiguration) (user : User) (state : TokenState) (w : W)
      → Ensures (create_from sys conf user state w) (λ t w'. Created conf user state t w w')
  unfolding create_from
  create_from-Created conf user state w = Ensures-bind _ _ λ id w₁ ulid.
      Ensures-bind _ _ λ ids w₂ client. Ensures-bind _ _ λ codes w₃ otp.
        Ensures-bind _ _ λ refreshes w₄ refresh. Ensures-now sys.ext _ (
          Ensures-now sys.ext _ (
            Ensures-wrapped _ _ _ λ u w' invalidates.
              Ensures-pure (λ t v. Created conf user state t w v) _ _
                (record {
                  w₁ = w₁;
                  w₂ = w₂;
                  w₃ = w₃;
                  w₄ = w₄;
                  ulid = ulid;
                  client = client;
                  otp = otp;
                  refresh = refresh;
                  issued = refl;
                  expires = refl;
                  invalidates = invalidates;
                  user_id = refl;
                  state_is = refl;
                  options = refl;
                  default_is = refl;
                })))

  pub create-Created :
      (user : User) (state : TokenState) (options : List TokenOption) (t : Token) (w w' : W)
      → create sys user state options w ≡ ok t w'
      → Created (configure_all options new_configuration) user state t w w'
  unfolding create
  create-Created user state options t w w' h = create_from-Created _ user state w t w' h

  abbrev Carries : Token → Token → Type 0
  Carries old t =
      (t.id ≡ old.id)
      × (t.client_id_hash ≡ old.client_id_hash)
      × (t.refresh_token_hash ≡ old.refresh_token_hash)
      × (t.client_id ≡ [])
      × (t.refresh_token ≡ [])

  abbrev pub CarriesOn : User → TokenState → Token → Token → Type 0
  CarriesOn user state old t =
      (t.id ≡ old.id)
      × (t.client_id_hash ≡ old.client_id_hash)
      × (t.refresh_token_hash ≡ old.refresh_token_hash)
      × (t.client_id ≡ [])
      × (t.refresh_token ≡ [])
      × (t.user_id ≡ user.id)
      × (t.state ≡ state)
      × (t.tfa_options ≡ gen_tfa_options user)

  -- A token that is created on the basis of an older one keeps its ID, and the hashes of its client
  -- ID and of its refresh token; it holds no client ID and no refresh token in the clear. It is for
  -- the user and the state that were asked for, with the user's present options.
  pub refreshed_token_carries :
      (user : User) (state : TokenState) (options : List TokenOption) (old t : Token) (w w' : W)
      → (configure_all options new_configuration).refreshable_token ≡ some old
      → create sys user state options w ≡ ok t w'
      → CarriesOn user state old t
  refreshed_token_carries user state options old t w w' based h =
      let c = create-Created user state options t w w' h in
      let (a, b, d, e, f) =
        carried _ _ (rw based at c.ulid) (rw based at c.client) (rw based at c.refresh) in
      (a, b, d, e, f, c.user_id, c.state_is, c.options)
    where
      carried :
          (u₂ u₄ : W) {u₁ u₃ u₅ : W}
          → gen_ulid sys (some old) w ≡ ok t.id u₁
          → gen_client_id_and_hash sys (some old) u₂ ≡ ok (t.client_id, t.client_id_hash) u₃
          → gen_refresh_token_and_hash sys (some old) u₄
            ≡ ok (t.refresh_token, t.refresh_token_hash) u₅
          → Carries old t
      carried u₂ u₄ p q r =
          unfold gen_ulid gen_client_id_and_hash gen_refresh_token_and_hash in ground arith
