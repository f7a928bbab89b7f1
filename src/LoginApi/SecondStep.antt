-- ===== src/LoginApi/SecondStep.antt =====
-- The second step of a login: the token and the code of the first come back.
use authenticator.Common.{
  ℕ, ◌+◌, ◌*◌, ◌≤◌, ◌≡◌, refl, true, false, none, some, List, ◌++◌, Text, is_empty, text_eq_refl,
  ltb, if◌then◌else◌, arith, ◌∙◌,
}
use authenticator.Errors.{domain, invalid_code}
use authenticator.Effect.{ok, fail, Outcome, ◌>>=◌}
use authenticator.Domain.{
  User, Token, TokenState, jwt_pre_authorized, is_no_method, to_claims, unix, second, state_eq,
}
use authenticator.External.Laws.{IsMonotone, IsBase64, IsJwt, HasOtpJson, RedisModel, Advances}
use authenticator.System.{System}
use authenticator.Crypto.{hash}
use authenticator.Otp.{validate_otp}
use authenticator.Otp.Codes.{otp_code-Lifetime, checked}
use authenticator.Token.Create.{
  TokenOption, configure_all, new_configuration, invalidation_key, delivery_address_of, create,
}
use authenticator.Token.Create.Clock.{gen_ulid-Advances, gen_client_id-Advances}
use authenticator.Token.Create.Carried.{create-Created}
use authenticator.Token.Create.Delivery.{gen_otp_and_hash-method}
use authenticator.Token.Validate.{bearer, revocation_key, sign, validate}
use authenticator.Token.RoundTrip.{validate-sign-create}
use authenticator.Http.{Request, Handler, auth_middleware}
use authenticator.LoginApi.{check_code}

module _ {W : Type 0} (sys : System W) where
  auth_middleware_accepts :
      (h : Handler W) (state : TokenState) (r : Request) (client_id : Text) (t : Token) (v v' : W)
      → is_empty r.authorization ≡ false
      → r.client_id_cookie ≡ some client_id
      → validate sys r.authorization client_id v ≡ ok t v'
      → state_eq t.state state ≡ true
      → auth_middleware sys h state r v
        ≡ h (record r { ctx_user_id = some t.user_id; ctx_token = some t }) v'
  unfolding auth_middleware ◌>>=◌
  auth_middleware_accepts h state r client_id t v v' present cookie accepted same =
      rw (present, cookie, accepted, same)

  -- How the token's code is answered, for a code that was made at a time.
  abbrev answered : ℕ → W → Outcome W (Unit {0})
  answered made u =
      if ltb (unix (sys.ext.clock u)) (unix (made + 300 * second))
      then ok tt (sys.ext.tick u)
      else fail (domain (invalid_code "code is expired")) (sys.ext.tick u)

  check_code_answers :
      (t : Token) (user : User) (made : ℕ) (u : W)
      → is_empty t.code_hash ≡ false
      → validate_otp sys t.code t.code_hash u ≡ checked sys t.code made u t.code
      → check_code sys (to_claims t) user t.code u ≡ answered made u
  unfolding check_code
  check_code_answers t user made u hashed answers =
      let same = text_eq_refl (hash sys.ext t.code) in rw hashed (answers ∙ rw same refl)

  abbrev pub SecondStep : Handler W → Request → Token → W → W → Type 0
  SecondStep h r t w v =
      (made : ℕ) × (sys.ext.clock w ≤ made)
      × ((v' : W) × (auth_middleware sys h jwt_pre_authorized r v
            ≡ h (record r { ctx_user_id = some t.user_id; ctx_token = some (to_claims t) }) v'))
      × ((u : W) (user : User) → check_code sys (to_claims t) user t.code u ≡ answered made u)

  module _ (redis : RedisModel sys.ext) (monotone : IsMonotone sys.ext)
      (ulid : Advances sys.ext sys.ext.ulid_new) (base64 : IsBase64 sys.ext) where
    -- Suppose a pre-authorized token with a code was created for a user, on the basis of no older
    -- token, and signed, and that JSON gives back the hash for the code's address and method, and the
    -- JWT library the token. Suppose a request brings it back behind `Bearer ` with its client ID, not
    -- before it was issued nor after it expires, and with neither key of it in Redis. Then every handler behind the middleware for
    -- pre-authorized tokens is run, with the token less what JSON leaves out of it and its user ID.
    -- Checked against that token, the code is accepted until the second in which five minutes have
    -- passed since it was made, which is not before the creation began, and then refused as expired.
    pub sent_code_accepted :
        (user : User) (options : List TokenOption) (t : Token) (s : Text) (h : Handler W)
        (r : Request) (w w' u u' v : W)
        → is_empty user.id ≡ false
        → (configure_all options new_configuration).refreshable_token ≡ none
        → is_no_method (configure_all options new_configuration).delivery_method ≡ false
        → HasOtpJson sys.ext
            (delivery_address_of (configure_all options new_configuration) user)
            (configure_all options new_configuration).delivery_method
        → create sys user jwt_pre_authorized options w ≡ ok t w'
        → is_empty t.code_hash ≡ false
        → sign sys t u ≡ ok s u'
        → r.authorization ≡ bearer ++ s
        → r.client_id_cookie ≡ some t.client_id
        → IsJwt sys.ext t
        → t.issued_at ≤ unix (sys.ext.clock v)
        → unix (sys.ext.clock v) ≤ t.expires_at
        → redis.Absent (revocation_key t.id) v
        → redis.Absent (invalidation_key t.id) v
        → SecondStep h r t w v
    sent_code_accepted user options t s h r w w' u u' v named fresh chosen json created hashed
          signed header cookie jwt issued early unrevoked valid =
        let conf = configure_all options new_configuration in
        let c = create-Created sys user jwt_pre_authorized options t w w' created in
        let (nonempty, sent) =
          gen_otp_and_hash-method sys conf user c.w₂ (t.code, t.code_hash) c.w₃ chosen c.otp in
        let (made, since, upto, answers) =
          otp_code-Lifetime sys monotone base64 json t.code t.code_hash c.w₂ c.w₃ sent in
        let (v', accepted) =
          validate-sign-create sys redis base64 user jwt_pre_authorized options t s w w' u u' v
            named fresh created signed jwt issued early unrevoked valid in
        let first = gen_ulid-Advances sys ulid t.id w c.w₁ (rw fresh at c.ulid) in
        let then_ =
          gen_client_id-Advances sys monotone (t.client_id, t.client_id_hash) c.w₁ c.w₂
            (rw fresh at c.client) in
        (
          made,
          omega (arith, first, then_, since),
          (
            v',
            auth_middleware_accepts h jwt_pre_authorized r t.client_id (to_claims t) v v'
                (rw header refl) cookie (rw header accepted) (rw c.state_is refl),
          ),
          λ x y. check_code_answers t y made x hashed (answers x t.code),
        )
