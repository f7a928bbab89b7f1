-- ===== src/SignupApi/Registration.antt =====
-- Which signups succeed.
use authenticator.Common.{
  ◌≡◌, refl, ◌∙◌, ◌⊎◌, inl, inr, false, [], ◌∷◌, some, if◌then◌else◌, Bool-cases,
}
use authenticator.Errors.{Err, domain, no_rows, redis_nil, other, wrap}
use authenticator.Effect.{ok, fail, Result, good, bad, attempt, attempt-eq-ok}
use authenticator.Effect.Ensures.{Ensures, Ensures-bind, Ensures-pure}
use authenticator.Domain.{
  User, Token, jwt_authorized, jwt_pre_authorized, state_eq, Reply, token_reply, TokenResponse,
}
use authenticator.Requests.{SignupRequest, CodeRequest}
use authenticator.Repository.{by_id}
use authenticator.System.{System}
use authenticator.Otp.{validate_otp}
use authenticator.Token.Create.{with_otp_delivery_method, create}
use authenticator.Token.Create.Carried.{create-Created}
use authenticator.Http.{Request, get_user_id, get_token}
use authenticator.LoginApi.{user_attribute, record_login}
use authenticator.LoginApi.Authorization.{IsResponse}
use authenticator.SignupApi.{
  to_user, decode_signup_request, decode_signup_verify_request, re_create_user, create_user,
  register, respond, sign_up, mark_user_verified,
}

module _ {W : Type 0} (sys : System W) where
  respond-IsResponse :
      (t : Token) (w : W)
      → Ensures
          (respond sys t w)
          (λ reply _. (p : TokenResponse) × (reply ≡ token_reply p) × IsResponse sys t p w)
  unfolding respond
  respond-IsResponse t w = Ensures-bind _ _ λ s v signed. Ensures-bind _ _ λ _ v₁ set.
      Ensures-bind _ _ λ _ v₂ sent. Ensures-pure _ _ v₂ (_, refl, (v, signed, refl, refl))

  -- A row for the new user: an unverified user's is used again, or one is made where storage has none.
  abbrev pub Registers : SignupRequest → User → W → W → W → Type 0
  Registers req user w₁ w₂ w₃ =
      ((old : User) × (sys.repos.user_by_identity sys.repo_mngr (user_attribute req.type)
            req.identity w₁
          ≡ ok old w₂)
        × (old.is_verified ≡ false)
        × (re_create_user sys old.id (to_user req) w₂ ≡ ok user w₃))
      ⊎ (sys.repos.user_by_identity sys.repo_mngr (user_attribute req.type) req.identity w₁
          ≡ fail no_rows w₂)
        × (create_user sys (to_user req) w₂ ≡ ok user w₃)

  Registers-row :
      (req : SignupRequest) (old user : User) (w₁ w₂ w₃ : W)
      → sys.repos.user_by_identity sys.repo_mngr (user_attribute req.type) req.identity w₁
        ≡ ok old w₂
      → register sys (to_user req) (good old) w₂ ≡ ok user w₃
      → Registers req user w₁ w₂ w₃
  unfolding register
  Registers-row req old user w₁ w₂ w₃ looked h = elim (Bool-cases old.is_verified) [
    | inl v ↦ absurd (refused (rw v at h))
    | inr v ↦ inl (old, looked, v, rw v at h)
  ]
    where
      refused : {e : Err} → fail e w₂ ≡ ok user w₃ → ⊥
      refused h = cc

  register-Registers :
      (req : SignupRequest) (found : Result User) (user : User) (w₁ w₂ w₃ : W)
      → attempt (sys.repos.user_by_identity sys.repo_mngr (user_attribute req.type) req.identity) w₁
        ≡ ok found w₂
      → register sys (to_user req) found w₂ ≡ ok user w₃
      → Registers req user w₁ w₂ w₃
  unfolding register
  register-Registers req (good old) user w₁ w₂ w₃ tried h = elim (attempt-eq-ok _ tried) [
    | inl (a, is, looked) ↦ Registers-row req old user w₁ w₂ w₃ (cc) h
    | inr (e, is, looked) ↦ absurd cc
  ]
  register-Registers req (bad no_rows) user w₁ w₂ w₃ tried h = elim (attempt-eq-ok _ tried) [
    | inl (a, is, looked) ↦ absurd cc
    | inr (e, is, looked) ↦ inr (cc, h)
  ]
  register-Registers req (bad redis_nil) user w₁ w₂ w₃ tried h = cc
  register-Registers req (bad (domain e)) user w₁ w₂ w₃ tried h = cc
  register-Registers req (bad (other e)) user w₁ w₂ w₃ tried h = cc
  register-Registers req (bad (wrap m e)) user w₁ w₂ w₃ tried h = cc

  abbrev pub SignedUp : Request → W → Reply → Type 0
  SignedUp r w reply =
      (req : SignupRequest) × (user : User) × (t : Token) × (p : TokenResponse) × (w₁ : W)
      × (w₂ : W) × (w₃ : W) × (w₄ : W) × (decode_signup_request sys r w ≡ ok req w₁)
      × Registers req user w₁ w₂ w₃
      × (create sys user jwt_pre_authorized (with_otp_delivery_method req.type ∷ []) w₃ ≡ ok t w₄)
      × (t.user_id ≡ user.id)
      × (t.state ≡ jwt_pre_authorized)
      × (reply ≡ token_reply p)
      × IsResponse sys t p w₄
      × (p.refresh_token ≡ [])

  -- A signup that succeeds: a request that decodes; a row that was made for an identity that storage
  -- does not have, or that of a user who was not verified; and a token that was created for the user of
  -- that row, with a code, and is not authorized yet. The response holds this token, signed, its client
  -- ID, and no refresh token.
  pub sign_up_sound :
      (r : Request) (reply : Reply) (w w' : W) → sign_up sys r w ≡ ok reply w' → SignedUp r w reply
  unfolding sign_up
  sign_up_sound r reply w w' returned = x reply w' returned
    where
      unshown :
          (t : Token)
          → t.state ≡ jwt_pre_authorized
          → (if state_eq t.state jwt_authorized then t.refresh_token else []) ≡ []
      unshown t pre = rw pre refl

      x : Ensures (sign_up sys r w) (λ reply _. SignedUp r w reply)
      x = Ensures-bind _ _ λ req w₁ decoded. Ensures-bind _ _ λ found w₂ tried.
          Ensures-bind _ _ λ user w₃ registered. Ensures-bind _ _ λ t w₄ created.
            λ reply w₅ answered.
              let (p, replies, answer) = respond-IsResponse t w₄ reply w₅ answered in
              let (v₁, signed, client, refresh) = answer in
              let c = create-Created sys user jwt_pre_authorized _ t w₃ w₄ created in
              (
                req,
                user,
                t,
                p,
                w₁,
                w₂,
                w₃,
                w₄,
                decoded,
                register-Registers req found user w₁ w₂ w₃ tried registered,
                created,
                c.user_id,
                c.state_is,
                replies,
                answer,
                refresh ∙ unshown t c.state_is,
              )

  abbrev pub SignupVerified : Request → W → Reply → Type 0
  SignupVerified r w reply =
      (req : CodeRequest) × (user : User) × (token : Token) × (t : Token) × (p : TokenResponse)
      × (w₁ : W) × (w₂ : W) × (w₃ : W) × (w₄ : W) × (w₅ : W) × (w₆ : W)
      × (decode_signup_verify_request sys r w ≡ ok req w₁)
      × (sys.repos.user_by_identity sys.repo_mngr by_id (get_user_id r) w₁ ≡ ok user w₂)
      × (get_token r ≡ some token)
      × (validate_otp sys req.code token.code_hash w₂ ≡ ok tt w₃)
      × (create sys user jwt_authorized [] w₃ ≡ ok t w₄)
      × (t.user_id ≡ user.id)
      × (t.state ≡ jwt_authorized)
      × (mark_user_verified sys user w₄ ≡ ok tt w₅)
      × (record_login sys (get_user_id r) t w₅ ≡ ok tt w₆)
      × (reply ≡ token_reply p)
      × IsResponse sys t p w₆
      × (p.refresh_token ≡ t.refresh_token)
