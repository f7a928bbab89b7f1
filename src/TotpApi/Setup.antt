-- ===== src/TotpApi/Setup.antt =====
-- When a TOTP setting changes.
use authenticator.Common.{
  ℕ, ◌∙◌, ◌≡◌, refl, sym, subst, ◌⊎◌, inl, inr, Bool, true, false, not, some, Text,
}
use authenticator.Effect.{ok, pure, wrapped, ◌>>=◌}
use authenticator.Effect.Ensures.{
  Ensures, Ensures-bind, Ensures-wrapped, Ensures-pure, Ensures-guard,
}
use authenticator.Domain.{User, Token, Reply}
use authenticator.Requests.{CodeRequest}
use authenticator.Repository.{user_entity, by_id}
use authenticator.Repository.Atomic.{IsAtomic, Ensures-atomic, as_user-eq-ok, entity-injective}
use authenticator.System.{System}
use authenticator.Otp.{validate_totp}
use authenticator.Http.{Request, get_user_id, get_token}
use authenticator.TokenApi.Refreshed.{Reissued, reissue-Reissued}
use authenticator.TotpApi.{decode_totp_request, configure_totp, verify, remove}

module _ {W : Type 0} (sys : System W) where
  -- A transaction stored `user` in place of a row that was locked under an ID, with the setting changed.
  pub record Switched (id : Text) (is_enabled : Bool) (user : User) : Type 0 where
    pub row : User
    pub tx : ℕ
    pub u : W
    pub v : W
    pub v' : W
    pub locked : sys.repos.user_get_for_update tx id u ≡ ok row v
    pub updated :
        sys.repos.user_update tx (record row { is_totp_allowed = is_enabled }) v ≡ ok user v'

  update-Switched :
      (id : Text) (is_enabled : Bool) (tx : ℕ) (u : W)
      → Ensures
          ((sys.repos.user_get_for_update tx id >>= λ row.
              wrapped "cannot update TOTP setting"
                (sys.repos.user_update tx (record row { is_totp_allowed = is_enabled }))
              >>= λ user'. pure (user_entity user'))
            u)
          (λ e _. (user : User) × (e ≡ user_entity user) × Switched id is_enabled user)
  update-Switched id is_enabled tx u = Ensures-bind _ _ λ row v locked.
      Ensures-wrapped _ _ _ λ user v' updated.
        Ensures-pure (λ e _. (user : User) × (e ≡ user_entity user) × Switched id is_enabled user) _
          v'
          (
            user,
            refl,
            record {
              row = row;
              tx = tx;
              u = u;
              v = v;
              v' = v';
              locked = locked;
              updated = updated;
            },
          )

  -- What a successful change of the setting of `user` amounts to.
  abbrev pub Configured : Request → Token → User → Bool → W → Reply → Type 0
  Configured r token user is_enabled w reply =
      (req : CodeRequest) × (user' : User) × (w₁ : W) × (w₂ : W) × (decode_totp_request sys r w
        ≡ ok req w₁)
      × (validate_totp sys user req.code w₁ ≡ ok tt w₂)
      × Switched user.id is_enabled user'
      × Reissued sys token user' reply

  configure_totp-Configured :
      (r : Request) (token : Token) (user : User) (is_enabled : Bool) (w : W)
      → IsAtomic sys.repos
      → get_token r ≡ some token
      → Ensures
          (configure_totp sys r user is_enabled w)
          (λ reply _. Configured r token user is_enabled w reply)
  unfolding configure_totp
  configure_totp-Configured r token user is_enabled w atomic held =
      Ensures-bind _ _ λ req w₁ decoded. Ensures-bind _ _ λ u w₂ checked.
        Ensures-bind _ _ λ tx w₃ began. Ensures-bind _ _ λ e w₄ committed.
          let (stored, entity_is, how) =
            Ensures-atomic sys.repos tx _ atomic (update-Switched user.id is_enabled tx) e w₄
              committed in
          Ensures-bind _ _ λ user' w₅ cast. λ reply w₆ answered.
            let same_user = as_user-eq-ok e w₄ cast in
            (
              req,
              user',
              w₁,
              w₂,
              decoded,
              checked,
              subst (Switched user.id is_enabled) (entity-injective (sym entity_is ∙ same_user))
                  how,
              reissue-Reissued sys r user' token w₅ held reply w₆ answered,
            )

  abbrev pub TotpSwitched : Request → Token → W → Reply → Type 0
  TotpSwitched r token w reply =
      (user : User) × (w₁ : W) × (sys.repos.user_by_identity sys.repo_mngr by_id (get_user_id r) w
        ≡ ok user w₁)
      × Configured r token user (not user.is_totp_allowed) w₁ reply

  -- TOTP is switched on only for a user for whom it is off, and off only for one for whom it is on, as
  -- storage returns the user of the request; either takes a TOTP code that is valid for that user. The row of that user is
  -- stored with nothing but the setting changed, and the reply is a token for the user so stored.
  pub totp_switch_sound :
      (r : Request) (token : Token) (reply : Reply) (w w' : W)
      → IsAtomic sys.repos
      → get_token r ≡ some token
      → (verify sys r w ≡ ok reply w') ⊎ (remove sys r w ≡ ok reply w')
      → TotpSwitched r token w reply
  unfolding verify remove
  totp_switch_sound r token reply w w' atomic held (inl returned) = x reply w' returned
    where
      x : Ensures (verify sys r w) (λ reply _. TotpSwitched r token w reply)
      x = Ensures-bind _ _ λ user w₁ found. Ensures-guard _ _ _ λ off. λ reply w₂ answered. (
        user,
        w₁,
        found,
        rw off (configure_totp-Configured r token user true w₁ atomic held reply w₂ answered),
      )
  totp_switch_sound r token reply w w' atomic held (inr returned) = x reply w' returned
    where
      x : Ensures (remove sys r w) (λ reply _. TotpSwitched r token w reply)
      x = Ensures-bind _ _ λ user w₁ found. Ensures-guard _ _ _ λ on. λ reply w₂ answered. (
        user,
        w₁,
        found,
        subst (λ b. Configured r token user (not b) w₁ reply) (sym on)
            (configure_totp-Configured r token user false w₁ atomic held reply w₂ answered),
      )
