-- ===== src/Token/Create/Delivery.antt =====
-- Where the code of a created token is sent.
use authenticator.Common.{◌≡◌, ◌≢◌, ◌⊎◌, refl, true, false, List, [], ◌∷◌, Text, is_empty, arith}
use authenticator.Effect.{ok, good}
use authenticator.Effect.Ensures.{Ensures, Ensures-guard, Ensures-map_err}
use authenticator.Domain.{
  User, Token, TokenState, DeliveryMethod, phone, email, is_no_method, OtpHash,
  default_otp_delivery,
}
use authenticator.External.Laws.{IsMonotone, IsBase64, HasOtpJson}
use authenticator.System.{System}
use authenticator.Otp.{otp_code, from_otp_hash}
use authenticator.Otp.Codes.{otp_code-IsHashOf}
use authenticator.Token.Create.{
  TokenConfiguration, TokenOption, with_otp_delivery_method, configure_all, new_configuration,
  delivery_address_of, send_otp, gen_otp_and_hash, create,
}
use authenticator.Token.Create.Carried.{create-Created}

-- The address on file that a user has allowed codes to be sent to.
abbrev pub IsAllowed : User → DeliveryMethod → Text → Type 0
IsAllowed user m a =
    (m ≡ phone) × (user.is_phone_otp_allowed ≡ true) × (a ≡ user.phone.string)
    ⊎ (m ≡ email) × (user.is_email_otp_allowed ≡ true) × (a ≡ user.email.string)

delivery_address_of-IsAllowed :
    (conf : TokenConfiguration) (user : User)
    → conf.delivery_address ≡ []
    → is_empty (delivery_address_of conf user) ≡ false
    → IsAllowed user conf.delivery_method (delivery_address_of conf user)
unfolding delivery_address_of
delivery_address_of-IsAllowed conf user h nonempty = ground arith

module _ {W : Type 0} (sys : System W) where
  pub gen_otp_and_hash-method :
      (conf : TokenConfiguration) (user : User) (w : W) (p : Text × Text) (w' : W)
      → is_no_method conf.delivery_method ≡ false
      → gen_otp_and_hash sys conf user w ≡ ok p w'
      → (is_empty (delivery_address_of conf user) ≡ false)
        × (otp_code sys (delivery_address_of conf user) conf.delivery_method w ≡ ok p w')
  unfolding gen_otp_and_hash send_otp
  gen_otp_and_hash-method conf user w p w' chosen h =
      let sent : Ensures (send_otp sys conf user w) (λ q v.
        (is_empty (delivery_address_of conf user) ≡ false)
        × (otp_code sys (delivery_address_of conf user) conf.delivery_method w ≡ ok q v)) =
        Ensures-guard _ _ _
          λ nonempty. Ensures-map_err _ _ (λ q v returned. (ground arith, returned)) in
      sent p w' (rw chosen at h)

  -- Suppose a token is created with a delivery method, no address was asked for, and JSON gives back a
  -- hash with that method and the address that `Create` chooses. Then the token holds the hash of a
  -- code for that method, which goes to the user's phone number or email address on file, the one
  -- that belongs to the method, and the user has allowed codes to be sent to it.
  pub code_goes_to_allowed_address :
      (user : User) (state : TokenState) (options : List TokenOption) (t : Token) (w w' : W)
      → IsMonotone sys.ext
      → IsBase64 sys.ext
      → HasOtpJson sys.ext
          (delivery_address_of (configure_all options new_configuration) user)
          (configure_all options new_configuration).delivery_method
      → is_no_method (configure_all options new_configuration).delivery_method ≡ false
      → (configure_all options new_configuration).delivery_address ≡ []
      → create sys user state options w ≡ ok t w'
      → (h : OtpHash) × (from_otp_hash sys t.code_hash ≡ good h)
        × (h.delivery_method ≡ (configure_all options new_configuration).delivery_method)
        × IsAllowed user h.delivery_method h.address
  code_goes_to_allowed_address user state options t w w' monotone base64 json chosen unasked h =
      let conf = configure_all options new_configuration in
      let c = create-Created sys user state options t w w' h in
      let (nonempty, sent) =
        gen_otp_and_hash-method conf user c.w₂ (t.code, t.code_hash) c.w₃ chosen c.otp in
      let i = otp_code-IsHashOf sys monotone base64 json t.code t.code_hash c.w₂ c.w₃ sent in
      (_, i.parses, refl, delivery_address_of-IsAllowed conf user unasked nonempty)

  no_address :
      (user : User)
      → is_empty user.email.string ≡ false
      → user.is_email_otp_allowed ≡ false
      → is_empty (
          delivery_address_of
            (configure_all
              (with_otp_delivery_method (default_otp_delivery user) ∷ [])
              new_configuration)
            user)
        ≡ false
      → ⊥
  unfolding default_otp_delivery delivery_address_of
  no_address user filed barred h = ground arith

  -- A user who has an email address on file, but may not be sent codes there, is to be sent a code by
  -- default if phone codes are allowed. The default method is email all the same, so that no token
  -- is created: such a user cannot log in.
  pub default_delivery_refused :
      (user : User) (state : TokenState) (t : Token) (w w' : W)
      → is_empty user.email.string ≡ false
      → user.is_email_otp_allowed ≡ false
      → create sys user state (with_otp_delivery_method (default_otp_delivery user) ∷ []) w
        ≢ ok t w'
  unfolding default_otp_delivery
  default_delivery_refused user state t w w' filed barred h =
      let conf =
        configure_all (with_otp_delivery_method (default_otp_delivery user) ∷ [])
          new_configuration in
      let c =
        create-Created sys user state (with_otp_delivery_method (default_otp_delivery user) ∷ []) t
          w w' h in
      let (nonempty, sent) =
        gen_otp_and_hash-method conf user c.w₂ (t.code, t.code_hash) c.w₃ (ground arith) c.otp in
      no_address user filed barred nonempty
