-- ===== src/TokenApi/Refreshed.antt =====
-- What a refreshed token carries, and the tokens that other handlers issue anew.
use authenticator.Common.{◌≡◌, refl, [], ◌∷◌, some, Text, sym, subst}
use authenticator.Effect.{ok}
use authenticator.Effect.Ensures.{Ensures, Ensures-bind, Ensures-pure}
use authenticator.Domain.{User, Token, jwt_authorized, Reply, token_reply}
use authenticator.Repository.{by_id}
use authenticator.System.{System}
use authenticator.Token.Create.{with_refreshable_token, gen_tfa_options}
use authenticator.Token.Create.Carried.{refreshed_token_carries}
use authenticator.Token.Validate.{sign}
use authenticator.Token.Refresh.{refreshable}
use authenticator.Http.{Request, get_user_id, get_token, get_refresh_token}
use authenticator.LoginApi.Authorization.{deref-eq-ok}
use authenticator.TokenApi.{reissue, refresh}

module _ {W : Type 0} (sys : System W) where
  -- The reply is a signed token for the user, authorized, under the ID and the hashes of an older
  -- token, with the user's present second factors; it shows neither client ID nor refresh token.
  pub record Reissued (old : Token) (user : User) (reply : Reply) : Type 0 where
    pub token : Token
    pub signed_token : Text
    pub u : W
    pub v : W
    pub signed : sign sys token u ≡ ok signed_token v
    pub shows :
        reply ≡ token_reply (record { token = signed_token; client_id = []; refresh_token = [] })
    pub for_user : token.user_id ≡ user.id
    pub state_is : token.state ≡ jwt_authorized
    pub options : token.tfa_options ≡ gen_tfa_options user
    pub id_is : token.id ≡ old.id
    pub client_is : token.client_id_hash ≡ old.client_id_hash
    pub refresh_is : token.refresh_token_hash ≡ old.refresh_token_hash

  pub reissue-Reissued :
      (r : Request) (user : User) (old : Token) (w : W)
      → get_token r ≡ some old
      → Ensures (reissue sys r user w) (λ reply _. Reissued old user reply)
  unfolding reissue
  reissue-Reissued r user old w held = Ensures-bind _ _ λ t v created.
      Ensures-bind _ _ λ s v' signed.
        let (id, client, hash, _, _, for_user, state_is, options) =
          refreshed_token_carries sys user jwt_authorized
            (with_refreshable_token (get_token r) ∷ []) old t w v held created in
        Ensures-pure (λ reply _. Reissued old user reply) _ v'
          (record {
            token = t;
            signed_token = s;
            u = v;
            v = v';
            signed = signed;
            shows = refl;
            for_user = for_user;
            state_is = state_is;
            options = options;
            id_is = id;
            client_is = client;
            refresh_is = hash;
          })

  abbrev pub Refreshed : Request → W → Reply → Type 0
  Refreshed r w reply =
      (old : Token) × (user : User) × (w₁ : W) × (w₂ : W) × (get_token r ≡ some old)
      × (refreshable sys old (get_refresh_token r) w ≡ ok tt w₁)
      × (sys.repos.user_by_identity sys.repo_mngr by_id (get_user_id r) w₁ ≡ ok user w₂)
      × Reissued old user reply

  -- A refresh that succeeds: the request has a token, for which the refresh token of the request is
  -- accepted, and a user is found under the ID in the request's context. The reply is a new token for that user,
  -- authorized, which keeps the ID, the client ID hash and the refresh token hash of the old one.
  pub refresh_sound :
      (r : Request) (reply : Reply) (w w' : W) → refresh sys r w ≡ ok reply w' → Refreshed r w reply
  unfolding refresh
  refresh_sound r reply w w' returned = x reply w' returned
    where
      x : Ensures (refresh sys r w) (λ reply _. Refreshed r w reply)
      x = Ensures-bind _ _ λ old v held.
          let (is, same) = deref-eq-ok (get_token r) held in
          Ensures-bind _ _ λ u w₁ accepted. Ensures-bind _ _ λ user w₂ found. λ reply w₃ answered. (
            old,
            user,
            w₁,
            w₂,
            is,
            subst (λ v. refreshable sys old (get_refresh_token r) v ≡ ok tt w₁) (sym same) accepted,
            found,
            reissue-Reissued r user old w₂ is reply w₃ answered,
          )
