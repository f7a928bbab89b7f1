-- ===== src/LoginApi/Authorization.antt =====
-- Which requests log a user in.
use authenticator.Common.{
  ◌≡◌, ◌≢◌, refl, true, false, List, [], ◌∷◌, Option, none, some, is_empty, if◌then◌else◌, ◌∙◌, sym,
  subst,
}
use authenticator.Effect.{Outcome, ok, Result, good, from_result-eq-ok}
use authenticator.Effect.Ensures.{Ensures, Ensures-bind, Ensures-wrapped, Ensures-pure}
use authenticator.Domain.{
  User, Token, jwt_authorized, jwt_pre_authorized, state_eq, Reply, token_reply, TokenResponse,
  can_send_default_otp, default_otp_delivery,
}
use authenticator.Requests.{LoginRequest, CodeRequest}
use authenticator.Repository.{by_id}
use authenticator.System.{System}
use authenticator.Password.{validate_password}
use authenticator.Token.Create.{TokenOption, with_otp_delivery_method, create}
use authenticator.Token.Create.Carried.{create-Created}
use authenticator.Token.Create.Delivery.{default_delivery_refused}
use authenticator.Token.Validate.{sign}
use authenticator.Http.{Request, get_user_id, get_token}
use authenticator.LoginApi.{
  user_attribute, decode_login_request, decode_verify_code_request, respond, login, check_code,
  record_login, deref,
}

pub deref-eq-ok :
    {W : Type 0} {v v' : W} (o : Option Token) {t : Token}
    → deref {W = W} o v ≡ ok t v'
    → (o ≡ some t) × (v ≡ v')
deref-eq-ok none h = cc
deref-eq-ok (some t) h = (cc, cc)

-- A step that returns has one value and one world.
ok-injective :
    {W A : Type 0} {a b : A} {v w : W} → ◌≡◌ {A = Outcome W A} (ok a v) (ok b w) → (a ≡ b) × (v ≡ w)
ok-injective h = (cc, cc)

module _ {W : Type 0} (sys : System W) where
  -- The response for a token, made from a world on: it holds the signed token, and its refresh token
  -- if it is authorized.
  abbrev pub IsResponse : Token → TokenResponse → W → Type 0
  IsResponse t p w =
      (v : W) × (sign sys t w ≡ ok p.token v)
      × (p.client_id ≡ t.client_id)
      × (p.refresh_token ≡ (if state_eq t.state jwt_authorized then t.refresh_token else []))

  respond-IsResponse :
      (t : Token) (w : W)
      → Ensures
          (respond sys t w)
          (λ reply _. (p : TokenResponse) × (reply ≡ token_reply p) × IsResponse t p w)
  unfolding respond
  respond-IsResponse t w = Ensures-bind _ _ λ s v signed. Ensures-bind _ _ λ _ v₁ set.
      Ensures-bind _ _ λ _ v₂ sent. Ensures-pure _ _ v₂ (_, refl, (v, signed, refl, refl))

  unshown :
      (t : Token)
      → t.state ≡ jwt_pre_authorized
      → (if state_eq t.state jwt_authorized then t.refresh_token else []) ≡ []
  unshown t pre = rw pre refl

  accepts : {u : Unit {0}} {x : Result (Unit {0})} → x ≡ good u → x ≡ good tt
  accepts h = h

  -- A code for the default method of a user who can be sent one.
  abbrev pub default_delivery : User → List TokenOption
  default_delivery user =
      if can_send_default_otp user
      then with_otp_delivery_method (default_otp_delivery user) ∷ []
      else []

  abbrev pub LoggedIn : Request → W → Reply → Type 0
  LoggedIn r w reply =
      (req : LoginRequest) × (user : User) × (t : Token) × (p : TokenResponse) × (w₁ : W) × (w₂ : W)
      × (w₃ : W) × (decode_login_request sys r w ≡ ok req w₁)
      × (sys.repos.user_by_identity sys.repo_mngr (user_attribute req.type) req.identity w₁
          ≡ ok user w₂)
      × (validate_password sys user req.password ≡ good tt)
      × (create sys user jwt_pre_authorized (default_delivery user) w₂ ≡ ok t w₃)
      × (t.user_id ≡ user.id)
      × (t.state ≡ jwt_pre_authorized)
      × (reply ≡ token_reply p)
      × IsResponse t p w₃
      × (p.refresh_token ≡ [])

  -- A login that succeeds: a request that decodes, a user whom storage returned for its identity, a
  -- password that bcrypt accepts for that user, and a token that was created for that user and is not
  -- authorized yet, with a code for the default method if one can be sent; the response holds this
  -- token, signed, its client ID, and no refresh token.
  pub login_sound :
      (r : Request) (reply : Reply) (w w' : W) → login sys r w ≡ ok reply w' → LoggedIn r w reply
  unfolding login
  login_sound r reply w w' returned = x reply w' returned
    where
      x : Ensures (login sys r w) (λ reply _. LoggedIn r w reply)
      x = Ensures-bind _ _ λ req w₁ decoded. Ensures-wrapped _ _ _ λ user w₂ found.
          Ensures-wrapped _ _ _ λ u w₃ accepted. Ensures-bind _ _ λ t w₄ created.
            λ reply w₅ answered.
              let (p, shown, answer) = respond-IsResponse t w₄ reply w₅ answered in
              let (v₁, signed, client, refresh) = answer in
              let c = create-Created sys user jwt_pre_authorized _ t w₃ w₄ created in
              let (valid, same) = from_result-eq-ok _ accepted in
              (
                req,
                user,
                t,
                p,
                w₁,
                w₂,
                w₄,
                decoded,
                found,
                accepts valid,
                subst (λ v. create sys user jwt_pre_authorized (default_delivery user) v ≡ ok t w₄)
                    (sym same) created,
                c.user_id,
                c.state_is,
                shown,
                answer,
                refresh ∙ unshown t c.state_is,
              )

  -- A user who may be sent a code by default, has an email address on file, and may not be sent codes
  -- there, cannot log in: if storage finds such a user for the request, login returns no reply,
  -- whatever the password.
  pub login_refuses_barred_email :
      (r : Request) (reply : Reply) (req : LoginRequest) (user : User) (w w₁ w₂ w' : W)
      → decode_login_request sys r w ≡ ok req w₁
      → sys.repos.user_by_identity sys.repo_mngr (user_attribute req.type) req.identity w₁
        ≡ ok user w₂
      → can_send_default_otp user ≡ true
      → is_empty user.email.string ≡ false
      → user.is_email_otp_allowed ≡ false
      → login sys r w ≢ ok reply w'
  unfolding login
  login_refuses_barred_email r reply req user w w₁ w₂ w' decoded found sends filed barred returned =
      x reply w' returned
    where
      refused :
          (user₁ : User) (t : Token) (v₃ v₄ : W)
          → user ≡ user₁
          → create sys user₁ jwt_pre_authorized
              (if can_send_default_otp user₁
                then with_otp_delivery_method (default_otp_delivery user₁) ∷ []
                else [])
              v₃
            ≡ ok t v₄
          → ⊥
      refused user₁ t v₃ v₄ same created =
          default_delivery_refused sys user jwt_pre_authorized t v₃ v₄ filed barred
            (rw sends at (rw (← same) at created))

      x : Ensures (login sys r w) (λ _ _. ⊥)
      x = Ensures-bind _ _ λ req₁ v₁ decoded₁. Ensures-wrapped _ _ _ λ user₁ v₂ found₁.
          Ensures-wrapped _ _ _ λ u v₃ accepted. Ensures-bind _ _ λ t v₄ created.
            let (a, b) = ok-injective (sym decoded ∙ decoded₁) in
            let one =
              subst
                (λ v.
                  sys.repos.user_by_identity sys.repo_mngr (user_attribute req.type) req.identity v
                  ≡ ok user₁ v₂)
                (sym b) (rw (← a) at found₁) in
            absurd (refused user₁ t v₃ v₄ (ok-injective (sym found ∙ one)).0 created)

  abbrev pub CodeVerified : Request → W → Reply → Type 0
  CodeVerified r w reply =
      (req : CodeRequest) × (user : User) × (token : Token) × (t : Token) × (p : TokenResponse)
      × (w₁ : W) × (w₂ : W) × (w₃ : W) × (w₄ : W) × (w₅ : W) × (decode_verify_code_request sys r w
          ≡ ok req w₁)
      × (sys.repos.user_by_identity sys.repo_mngr by_id (get_user_id r) w₁ ≡ ok user w₂)
      × (get_token r ≡ some token)
      × (check_code sys token user req.code w₂ ≡ ok tt w₃)
      × (create sys user jwt_authorized [] w₃ ≡ ok t w₄)
      × (t.user_id ≡ user.id)
      × (t.state ≡ jwt_authorized)
      × (record_login sys (get_user_id r) t w₄ ≡ ok tt w₅)
      × (reply ≡ token_reply p)
      × IsResponse t p w₅
      × (p.refresh_token ≡ t.refresh_token)
