-- ===== src/Postgres/SecondFactor.antt =====
-- internal/postgres/user_repo.go: second factors when an address or its codes are given up.
use authenticator.Common.{
  ℕ, ◌≡◌, inl, inr, refl, sym, ◌∙◌, subst, arith, Bool, true, false, not, ◌&&◌, Bool-cases, ◌++◌,
  Any, Text, if◌then◌else◌,
}
use authenticator.Errors.{domain, invalid_field}
use authenticator.Effect.{ok, pure, guard, ◌>>=◌}
use authenticator.Effect.Ensures.{
  Ensures, Ensures-bind, Ensures-wrapped, Ensures-pure, Ensures-guard,
}
use authenticator.Domain.{User, DeliveryMethod, is_phone, is_email, default_tfa, TfaOption}
use authenticator.External.Laws.{Ensures-now}
use authenticator.Repository.{user_entity}
use authenticator.Repository.Atomic.{as_user-eq-ok, entity-injective}
use authenticator.System.{System}
use authenticator.Token.Create.{gen_tfa_options, when_allowed}
use authenticator.Postgres.{Database, State}
use authenticator.Postgres.Transactions.{with_atomic_commits}
use authenticator.Postgres.Users.{
  is_tfa_disabled, is_contact_disabled, without_method, without_otp, update, update_row,
  get_for_update, remove_delivery_method, disable_otp,
}

-- The default second factor is among the options that a token offers.
abbrev pub HasDefault : User → Type 0
HasDefault user = Any (λ o. o ≡ default_tfa user) (gen_tfa_options user)

HasDefault-enabled : (user : User) → not (is_tfa_disabled user) ≡ true → HasDefault user
unfolding is_tfa_disabled default_tfa gen_tfa_options
HasDefault-enabled user h =
    options user.is_phone_otp_allowed user.is_email_otp_allowed user.is_totp_allowed
      user.is_device_allowed h
  where
    options :
        (p e t d : Bool)
        → not (not p && (not e && (not d && not t))) ≡ true
        → Any
            (λ o. o ≡ (
              if d
              then authenticator.Domain.fido_device
              else if t
              then authenticator.Domain.totp
              else if e
              then authenticator.Domain.otp_email
              else authenticator.Domain.otp_phone))
            (when_allowed p authenticator.Domain.otp_phone
              ++ (when_allowed e authenticator.Domain.otp_email
                  ++ (when_allowed t authenticator.Domain.totp
                      ++ when_allowed d authenticator.Domain.fido_device)))
    options p e t d h = ground arith

-- What is kept by a removal or by the end of its codes, whatever the time of the update.
is_removed :
    (m : DeliveryMethod) (row : User) (t : ℕ)
    → without_method m (record (without_method m row) { updated_at = t })
      ≡ record (without_method m row) { updated_at = t }
unfolding without_method
is_removed m row t = elim (Bool-cases (is_phone m)) [
  | inl a ↦ rw a refl
  | inr a ↦ elim (Bool-cases (is_email m)) [ inl b ↦ rw (a, b) refl | inr b ↦ rw (a, b) refl ]
]

is_disabled :
    (m : DeliveryMethod) (row : User) (t : ℕ)
    → without_otp m (record (without_otp m row) { updated_at = t })
      ≡ record (without_otp m row) { updated_at = t }
unfolding without_otp
is_disabled m row t = elim (Bool-cases (is_phone m)) [
  | inl a ↦ rw a refl
  | inr a ↦ elim (Bool-cases (is_email m)) [ inl b ↦ rw (a, b) refl | inr b ↦ rw (a, b) refl ]
]

contact_at :
    (user : User) (t : ℕ)
    → not (is_contact_disabled user) ≡ true
    → is_contact_disabled (record user { updated_at = t }) ≡ false
unfolding is_contact_disabled
contact_at user t h = ground arith

module _ {W : Type 0} (db : Database W) (sys : System (State W)) where
  update-eq-ok :
      (user : User) (d : State W)
      → Ensures
          (update db sys user d)
          (λ user' _. (t : ℕ) × (user' ≡ record user { updated_at = t }))
  unfolding update update_row
  update-eq-ok user d = Ensures-now sys.ext _ (
      Ensures-wrapped _ _ _
        λ n v updated. Ensures-guard _ _ _ λ one. Ensures-pure _ _ v (sys.ext.clock d, refl))

  abbrev pub FactorKept : (User → User) → User → Type 0
  FactorKept change user = HasDefault user × (change user ≡ user)

  HasDefault-update :
      (user : User) (t : ℕ) → HasDefault user → HasDefault (record user { updated_at = t })
  unfolding gen_tfa_options default_tfa
  HasDefault-update user t h = h

  -- A user who gives up an address keeps a second factor, and the default one is among those a token offers;
  -- the user keeps a phone number or an email address; and the given method has no address and is not allowed to
  -- receive codes: giving it up again changes nothing.
  pub removal_keeps_factor :
      (user_id : Text) (m : DeliveryMethod) (user : User) (d d' : State W)
      → remove_delivery_method db sys user_id m d ≡ ok user d'
      → FactorKept (without_method m) user × (is_contact_disabled user ≡ false)
  unfolding remove_delivery_method
  removal_keeps_factor user_id m user d d' returned = x user d' returned
    where
      Kept : User → Type 0
      Kept user = FactorKept (without_method m) user × (is_contact_disabled user ≡ false)

      kept :
          (row user₁ : User) (t : ℕ)
          → not (is_tfa_disabled (without_method m row)) ≡ true
          → not (is_contact_disabled (without_method m row)) ≡ true
          → user₁ ≡ record (without_method m row) { updated_at = t }
          → Kept user₁
      kept row user₁ t enabled reachable is = subst Kept (sym is) (
        (
          HasDefault-update (without_method m row) t
              (HasDefault-enabled (without_method m row) enabled),
          is_removed m row t,
        ),
        contact_at (without_method m row) t reachable,
      )

      stores :
          (u : State W)
          → Ensures
              ((get_for_update db sys user_id >>= λ row.
                  guard
                    (not (is_tfa_disabled (without_method m row)))
                    (domain (invalid_field "a 2FA option must be enabled to remove %s"))
                  >>= λ _.
                      guard
                        (not (is_contact_disabled (without_method m row)))
                        (domain (invalid_field "a contact address must be enabled to remove %s"))
                      >>= λ _. update db sys (without_method m row) >>= λ user'.
                          pure (user_entity user'))
                u)
              (λ e _. (user : User) × (e ≡ user_entity user) × Kept user)
      stores u = Ensures-bind _ _ λ row v found. Ensures-guard _ _ _ λ enabled.
          Ensures-guard _ _ _ λ reachable. Ensures-bind _ _ λ user₁ v₁ updated.
            Ensures-pure (λ e _. (user : User) × (e ≡ user_entity user) × Kept user) _ v₁
              (let (t, is) = update-eq-ok (without_method m row) v user₁ v₁ updated in
                (user₁, refl, kept row user₁ t enabled reachable is))

      x : Ensures (remove_delivery_method db sys user_id m d) (λ user _. Kept user)
      x = Ensures-bind _ _ λ c u began. Ensures-bind _ _ λ e v committed. λ user₁ w cast.
          let (v₁, tx, ran, there, done, cleared) = with_atomic_commits db c _ e u v committed in
          let (user₂, is, holds) = stores u e v₁ ran in
          subst Kept (entity-injective (sym is ∙ as_user-eq-ok e v cast)) holds

  -- A user who gives up the codes of an address keeps a second factor, and the default one is among
  -- those that a token offers; the given method is not allowed to receive codes: giving them up again
  -- changes nothing.
  pub disabling_keeps_factor :
      (user_id : Text) (m : DeliveryMethod) (user : User) (d d' : State W)
      → disable_otp db sys user_id m d ≡ ok user d'
      → FactorKept (without_otp m) user
  unfolding disable_otp
  disabling_keeps_factor user_id m user d d' returned = x user d' returned
    where
      Kept : User → Type 0
      Kept user = FactorKept (without_otp m) user

      stores :
          (u : State W)
          → Ensures
              ((get_for_update db sys user_id >>= λ row.
                  guard
                    (not (is_tfa_disabled (without_otp m row)))
                    (domain (invalid_field "a 2FA option must be enabled to disable %s OTP"))
                  >>= λ _. update db sys (without_otp m row) >>= λ user'. pure (user_entity user'))
                u)
              (λ e _. (user : User) × (e ≡ user_entity user) × Kept user)
      stores u = Ensures-bind _ _ λ row v found. Ensures-guard _ _ _ λ enabled.
          Ensures-bind _ _ λ user₁ v₁ updated.
            Ensures-pure (λ e _. (user : User) × (e ≡ user_entity user) × Kept user) _ v₁
              (let (t, is) = update-eq-ok (without_otp m row) v user₁ v₁ updated in
                (
                  user₁,
                  refl,
                  subst Kept (sym is) (
                    HasDefault-update (without_otp m row) t
                        (HasDefault-enabled (without_otp m row) enabled),
                    is_disabled m row t,
                  ),
                ))

      x : Ensures (disable_otp db sys user_id m d) (λ user _. Kept user)
      x = Ensures-bind _ _ λ c u began. Ensures-bind _ _ λ e v committed. λ user₁ w cast.
          let (v₁, tx, ran, there, done, cleared) = with_atomic_commits db c _ e u v committed in
          let (user₂, is, holds) = stores u e v₁ ran in
          subst Kept (entity-injective (sym is ∙ as_user-eq-ok e v cast)) holds
