-- ===== src/WebAuthn/Sessions.antt =====
-- What a finished login or registration has checked and stored.
use authenticator.Common.{
  ℕ, ◌≡◌, ◌≢◌, refl, ap, sym, ◌∙◌, subst, arith, Bool, true, false, not, some, List, [], ◌∷◌, ◌++◌,
  All, Text, text_eq, text_eq_refl, text_eq_sound, ◌⊎◌, inl, inr, Bool-cases, if◌then◌else◌,
}
use authenticator.Effect.{ok, pure, map_err-eq-ok, from_option-eq-ok, ◌>>=◌}
use authenticator.Effect.Ensures.{
  Ensures, Ensures-bind, Ensures-wrapped, Ensures-pure, Ensures-guard, Ensures-map_err,
}
use authenticator.Domain.{User, Device}
use authenticator.Repository.{device_entity}
use authenticator.Repository.Atomic.{IsAtomic, Ensures-atomic}
use authenticator.System.{System}
use authenticator.WebAuthn.{
  seen, Webauthner, Credential, new_session_key, device_id, retrieve_session, finish_login,
  finish_sign_up, enable_additional_device, enable_new_device,
}

unwarned : (b : Bool) → not b ≡ true → b ≡ false
unwarned b h = ground arith

-- The ID of the first device with a credential; an empty one if there is none.
abbrev pub IsFirstMatch : List Device → Text → Text → Type 0
IsFirstMatch devices credential_id id =
    ((before : List Device) × (d : Device) × (after : List Device) × (devices
        ≡ before ++ (d ∷ after))
      × All (λ x. x.client_id ≢ credential_id) before
      × (d.client_id ≡ credential_id)
      × (id ≡ d.id))
    ⊎ All (λ x. x.client_id ≢ credential_id) devices × (id ≡ [])

different_texts : (s t : Text) → text_eq s t ≡ false → s ≢ t
different_texts s t h same =
    let e : text_eq s s ≡ false = rw (← same) at h in absurd (clash (sym (text_eq_refl s) ∙ e))
  where
    clash : true ≡ false → ⊥
    clash e = cc

device_id-IsFirstMatch :
    (devices : List Device) (credential_id : Text)
    → IsFirstMatch devices credential_id (device_id devices credential_id)
unfolding device_id
device_id-IsFirstMatch [] credential_id = inr (tt, refl)
device_id-IsFirstMatch (d ∷ ds) credential_id =
    elim (Bool-cases (text_eq d.client_id credential_id)) [
      | inl is ↦ inl ([], d, ds, refl, tt, text_eq_sound _ _ is, rw is refl)
      | inr differs ↦
          let other = different_texts _ _ differs in
          elim (device_id-IsFirstMatch ds credential_id) [
            | inl (before, x, after, split, none, is, same) ↦
                inl (
                  d ∷ before,
                  x,
                  after,
                  ap (λ xs. d ∷ xs) split,
                  (other, none),
                  is,
                  rw differs same,
                )
            | inr (none, empty) ↦ inr ((other, none), rw differs empty)
          ]
    ]

module _ {W C S : Type 0} (sys : System W) (lib : Webauthner W C S) where
  -- A session that was read back from Redis.
  pub record Resumed (user : User) (session : S) (w w' : W) : Type 0 where
    pub session_bytes : Text
    pub stored : lib.session_get (new_session_key user.id) w ≡ ok session_bytes w'
    pub parses : lib.unmarshal_session session_bytes ≡ some session

  retrieve_session-Resumed :
      (max_devices : ℕ) (user : User) (w : W)
      → Ensures (retrieve_session sys lib max_devices user w) (λ s w'. Resumed user s w w')
  unfolding retrieve_session
  retrieve_session-Resumed max_devices user w = Ensures-wrapped _ _ _ λ b v got. λ s v' h.
      let (is, same) = from_option-eq-ok _ _ h in
      record {
        session_bytes = b;
        stored = subst (λ x. lib.session_get (new_session_key user.id) w ≡ ok b x) same got;
        parses = is;
      }

  -- A transaction stored a sign count in the row of a device that it had locked.
  pub record Counted (id : Text) (sign_count : ℕ) : Type 0 where
    pub tx : ℕ
    pub row : Device
    pub device : Device
    pub u : W
    pub v : W
    pub v' : W
    pub locked : sys.repos.device_get_for_update tx id u ≡ ok row v
    pub updated :
        sys.repos.device_update tx (record row { sign_count = sign_count }) v ≡ ok device v'

  update-Counted :
      (id : Text) (sign_count tx : ℕ) (u : W)
      → Ensures
          ((sys.repos.device_get_for_update tx id >>= λ row.
              sys.repos.device_update tx (record row { sign_count = sign_count }) >>= λ device.
              pure (device_entity device))
            u)
          (λ _ _. Counted id sign_count)
  update-Counted id sign_count tx u = Ensures-bind _ _ λ row v locked.
      Ensures-bind _ _ λ device v' updated.
        Ensures-pure (λ _ _. Counted id sign_count) (device_entity device) v'
          (record {
            tx = tx;
            row = row;
            device = device;
            u = u;
            v = v;
            v' = v';
            locked = locked;
            updated = updated;
          })

  abbrev pub LoginFinished : User → Text → W → Type 0
  LoginFinished user r w =
      (devices : List Device) × (session : S) × (credential : Credential) × (w₁ : W) × (w₂ : W)
      × (w₃ : W) × (sys.repos.device_by_user_id sys.repo_mngr user.id w ≡ ok devices w₁)
      × Resumed user session w₁ w₂
      × (lib.finish_login (seen user devices) session r w₂ ≡ ok credential w₃)
      × (credential.clone_warning ≡ false)
      × (id : Text) × IsFirstMatch devices credential.id id
      × Counted id credential.sign_count

  -- A login by a device that succeeds: the library accepted the response for the devices that are stored for the
  -- user and for the session that was read from Redis under the user's key; it gave no warning of a
  -- cloned device; and the new sign count was stored in the row of the first of these devices that has
  -- the credential's ID, or, if none has it, in a row that storage found under the empty ID.
  pub finish_login_sound :
      (max_devices : ℕ) (user : User) (r : Text) (w w' : W)
      → IsAtomic sys.repos
      → finish_login sys lib max_devices user r w ≡ ok tt w'
      → LoginFinished user r w
  unfolding finish_login
  finish_login_sound max_devices user r w w' atomic returned = x tt w' returned
    where
      x : Ensures (finish_login sys lib max_devices user r w) (λ _ _. LoginFinished user r w)
      x = Ensures-wrapped _ _ _ λ devices w₁ listed. Ensures-bind _ _ λ session w₂ resumed.
          Ensures-wrapped _ _ _ λ credential w₃ accepted. Ensures-guard _ _ _ λ unique.
            Ensures-wrapped _ _ _ λ tx w₄ began. Ensures-wrapped _ _ _ λ e w₅ committed.
              λ u w₆ done. (
                devices,
                session,
                credential,
                w₁,
                w₂,
                w₃,
                listed,
                retrieve_session-Resumed max_devices user w₁ session w₂ resumed,
                map_err-eq-ok _ _ accepted,
                unwarned credential.clone_warning unique,
                device_id devices credential.id,
                device_id-IsFirstMatch devices credential.id,
                Ensures-atomic sys.repos tx _ atomic
                    (update-Counted (device_id devices credential.id) credential.sign_count tx) e w₅
                    committed,
              )

  enable_new_device-marks :
      (max_devices : ℕ) (user : User) (device : Device) (w : W)
      → Ensures
          (enable_new_device sys lib max_devices user device w)
          (λ p _. p.0 ≡ record user { is_device_allowed = true })
  unfolding enable_new_device
  enable_new_device-marks max_devices user device w = Ensures-bind _ _ λ tx w₁ began.
      Ensures-bind _ _ λ e w₂ committed. Ensures-bind _ _ λ d w₃ cast. Ensures-pure _ _ w₃ refl

  enable_additional_device-keeps :
      (max_devices : ℕ) (user : User) (device : Device) (w : W)
      → Ensures (enable_additional_device sys lib max_devices user device w) (λ p _. p.0 ≡ user)
  unfolding enable_additional_device
  enable_additional_device-keeps max_devices user device w =
      Ensures-bind _ _ λ d w₁ created. Ensures-pure _ _ w₁ refl

  marks :
      (max_devices : ℕ) (b : Bool) (user : User) (device : Device) (w : W)
      → user.is_device_allowed ≡ b
      → Ensures
          ((if b
              then enable_additional_device sys lib max_devices user device
              else enable_new_device sys lib max_devices user device)
            w)
          (λ p _. p.0 ≡ record user { is_device_allowed = true })
  marks max_devices true user device w is = λ p v h.
      enable_additional_device-keeps max_devices user device w p v h
      ∙ ap (λ b. record user { is_device_allowed = b }) is
  marks max_devices false user device w is = enable_new_device-marks max_devices user device w

  abbrev pub SignUpFinished : User → Text → W → User → Type 0
  SignUpFinished user r w user' =
      (session : S) × (credential : Credential) × (w₁ : W) × (w₂ : W) × Resumed user session w w₁
      × (lib.finish_registration (seen user []) session r w₁ ≡ ok credential w₂)
      × (user' ≡ record user { is_device_allowed = true })

  -- A registration that succeeds: the library accepted the response for the session that was read from
  -- Redis under the user's key; and the caller's user is one whom device authentication is allowed to, and is
  -- otherwise as before, whether or not it was allowed before.
  pub finish_sign_up_sound :
      (max_devices : ℕ) (user user' : User) (device : Device) (r : Text) (w w' : W)
      → finish_sign_up sys lib max_devices user r w ≡ ok (user', device) w'
      → SignUpFinished user r w user'
  unfolding finish_sign_up
  finish_sign_up_sound max_devices user user' device r w w' returned = x (user', device) w' returned
    where
      x : Ensures (finish_sign_up sys lib max_devices user r w) (λ p _. SignUpFinished user r w p.0)
      x = Ensures-bind _ _ λ session w₁ resumed. Ensures-wrapped _ _ _ λ credential w₂ accepted.
          Ensures-map_err _ _ λ p w₃ enabled. (
            session,
            credential,
            w₁,
            w₂,
            retrieve_session-Resumed max_devices user w session w₁ resumed,
            map_err-eq-ok _ _ accepted,
            marks max_devices user.is_device_allowed user _ w₂ refl p w₃ enabled,
          )
