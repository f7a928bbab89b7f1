-- ===== src/ContactApi/Ownership.antt =====
-- Which addresses a user comes to have.
use authenticator.Common.{ℕ, ◌∙◌, ◌≡◌, refl, sym, subst, Bool, true, some, Text}
use authenticator.Effect.{ok, pure, good, ◌>>=◌}
use authenticator.Effect.Ensures.{
  Ensures, Ensures-bind, Ensures-wrapped, Ensures-pure, Ensures-result,
}
use authenticator.Domain.{
  User, Token, OtpHash, Reply, DeliveryMethod, phone, email, no_method, other_method,
}
use authenticator.Requests.{VerifyRequest}
use authenticator.Repository.{user_entity}
use authenticator.Repository.Atomic.{entity-injective, IsAtomic, Ensures-atomic, as_user-eq-ok}
use authenticator.System.{System}
use authenticator.Otp.{validate_otp, from_otp_hash}
use authenticator.Http.{Request, get_user_id, get_token}
use authenticator.LoginApi.Authorization.{deref-eq-ok}
use authenticator.TokenApi.Refreshed.{Reissued, reissue-Reissued}
use authenticator.ContactApi.{decode_verify_request, set_address, verify}

-- The row of a user who has come to have an address of a method, and is sent codes there or not.
abbrev pub HasAddress : DeliveryMethod → Text → Bool → User → User → Type 0
HasAddress phone address enabled user user' = user' ≡ record user {
  phone = record { string = address; valid = true };
  is_phone_otp_allowed = enabled;
}
HasAddress email address enabled user user' = user' ≡ record user {
  email = record { string = address; valid = true };
  is_email_otp_allowed = enabled;
}
HasAddress _ address enabled user user' = user' ≡ user

set_address-HasAddress :
    (h : OtpHash) (enabled : Bool) (user : User)
    → HasAddress h.delivery_method h.address enabled user (set_address h enabled user)
unfolding set_address
set_address-HasAddress h enabled user = split h.delivery_method
  where
    split :
        (m : DeliveryMethod)
        → HasAddress m h.address enabled user
            (set_address (record h { delivery_method = m }) enabled user)
    split phone = refl
    split email = refl
    split no_method = refl
    split (other_method s) = refl

module _ {W : Type 0} (sys : System W) where
  -- A transaction stored `user` in place of a row that was locked for the user of the request, with the address of the hash.
  pub record Stored (r : Request) (h : OtpHash) (enabled : Bool) (user : User) : Type 0 where
    pub row : User
    pub tx : ℕ
    pub u : W
    pub v : W
    pub v' : W
    pub changed : User
    pub locked : sys.repos.user_get_for_update tx (get_user_id r) u ≡ ok row v
    pub addressed : HasAddress h.delivery_method h.address enabled row changed
    pub updated : sys.repos.user_update tx changed v ≡ ok user v'

  -- The update of an address, as `verify` runs it inside its transaction.
  update-Stored :
      (r : Request) (h : OtpHash) (enabled : Bool) (tx : ℕ) (u : W)
      → Ensures
          ((sys.repos.user_get_for_update tx (get_user_id r) >>= λ user.
              sys.repos.user_update tx (set_address h enabled user) >>= λ user'.
              pure (user_entity user'))
            u)
          (λ e _. (user : User) × (e ≡ user_entity user) × Stored r h enabled user)
  update-Stored r h enabled tx u = Ensures-bind _ _ λ row v locked.
      Ensures-bind _ _ λ user v' updated.
        Ensures-pure (λ e _. (user : User) × (e ≡ user_entity user) × Stored r h enabled user) _ v'
          (
            user,
            refl,
            record {
              row = row;
              tx = tx;
              u = u;
              v = v;
              v' = v';
              changed = set_address h enabled row;
              locked = locked;
              addressed = set_address-HasAddress h enabled row;
              updated = updated;
            },
          )

  abbrev pub AddressVerified : Request → W → Reply → Type 0
  AddressVerified r w reply =
      (req : VerifyRequest) × (token : Token) × (h : OtpHash) × (user : User) × (w₁ : W) × (w₂ : W)
      × (decode_verify_request sys r w ≡ ok req w₁)
      × (get_token r ≡ some token)
      × (validate_otp sys req.code token.code_hash w₁ ≡ ok tt w₂)
      × (from_otp_hash sys token.code_hash ≡ good h)
      × Stored r h req.is_otp_enabled user
      × Reissued sys token user reply

  -- If the verification of an address succeeds, then the code of the request was accepted against the
  -- hash in the request's token, and the address and the delivery method are those that the hash
  -- names, whatever the request says. In the row of the request's user, that address takes the place
  -- of the phone number or the email address, by the method, codes to it are allowed as the request
  -- asks, and all else is left as it was; for any other method the row is left as it was. The reply is
  -- a token for the user so stored, under the ID of the request's token.
  pub contact_verify_sound :
      (r : Request) (reply : Reply) (w w' : W)
      → IsAtomic sys.repos
      → verify sys r w ≡ ok reply w'
      → AddressVerified r w reply
  unfolding verify
  contact_verify_sound r reply w w' atomic returned = x reply w' returned
    where
      x : Ensures (verify sys r w) (λ reply _. AddressVerified r w reply)
      x = Ensures-bind _ _ λ req w₁ decoded. Ensures-bind _ _ λ token v held.
          let (is, same) = deref-eq-ok (get_token r) held in
          Ensures-bind _ _ λ u w₂ checked. Ensures-result _ _ λ h parsed.
            Ensures-bind _ _ λ tx w₃ began. Ensures-wrapped _ _ _ λ e w₄ committed.
              let (stored, entity_is, how) =
                Ensures-atomic sys.repos tx _ atomic (update-Stored r h req.is_otp_enabled tx) e w₄
                  committed in
              Ensures-bind _ _ λ user w₅ cast. λ reply w₆ answered.
                let same_user = as_user-eq-ok e w₄ cast in
                (
                  req,
                  token,
                  h,
                  user,
                  w₁,
                  w₂,
                  decoded,
                  is,
                  subst (λ v. validate_otp sys req.code token.code_hash v ≡ ok tt w₂) (sym same)
                      checked,
                  parsed,
                  subst (Stored r h req.is_otp_enabled)
                      (entity-injective (sym entity_is ∙ same_user)) how,
                  reissue-Reissued sys r user token w₅ is reply w₆ answered,
                )
