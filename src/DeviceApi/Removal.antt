-- ===== src/DeviceApi/Removal.antt =====
-- The removal of devices.
use authenticator.Common.{
  ℕ, ◌<◌, ◌∙◌, ◌≡◌, refl, sym, subst, Bool, List, some, Text, length, ltb, ltb→lt, trim_prefix,
}
use authenticator.Effect.{ok, pure, ◌>>=◌}
use authenticator.Effect.Ensures.{Ensures, Ensures-bind, Ensures-pure, Ensures-guard}
use authenticator.Domain.{User, Device, Token, Reply}
use authenticator.Repository.{user_entity}
use authenticator.Repository.Atomic.{IsAtomic, Ensures-atomic, as_user-eq-ok, entity-injective}
use authenticator.System.{System}
use authenticator.Http.{Request, get_user_id, get_token}
use authenticator.TokenApi.Refreshed.{Reissued, reissue-Reissued}
use authenticator.DeviceApi.{device_path, remove}

module _ {W : Type 0} (sys : System W) where
  -- A transaction removed a device that belongs to a user, and stored `user` in place of that
  -- user's row, with device authentication allowed or not.
  pub record Removed (device_id user_id : Text) (is_allowed : Bool) (user : User) : Type 0 where
    pub row : User
    pub tx : ℕ
    pub u : W
    pub v : W
    pub v₁ : W
    pub v₂ : W
    pub locked : sys.repos.user_get_for_update tx user_id u ≡ ok row v
    pub removed : sys.repos.device_remove tx device_id user_id v ≡ ok tt v₁
    pub updated :
        sys.repos.user_update tx (record row { is_device_allowed = is_allowed }) v₁ ≡ ok user v₂

  update-Removed :
      (device_id user_id : Text) (is_allowed : Bool) (tx : ℕ) (u : W)
      → Ensures
          ((sys.repos.user_get_for_update tx user_id >>= λ row.
              sys.repos.device_remove tx device_id user_id >>= λ _.
              sys.repos.user_update tx (record row { is_device_allowed = is_allowed }) >>= λ user'.
              pure (user_entity user'))
            u)
          (λ e _.
            (user : User) × (e ≡ user_entity user) × Removed device_id user_id is_allowed user)
  update-Removed device_id user_id is_allowed tx u = Ensures-bind _ _ λ row v locked.
      Ensures-bind _ _ λ _ v₁ removed. Ensures-bind _ _ λ user v₂ updated.
        Ensures-pure
          (λ e _.
            (user : User) × (e ≡ user_entity user) × Removed device_id user_id is_allowed user)
          _ v₂
          (
            user,
            refl,
            record {
              row = row;
              tx = tx;
              u = u;
              v = v;
              v₁ = v₁;
              v₂ = v₂;
              locked = locked;
              removed = removed;
              updated = updated;
            },
          )

  abbrev pub DeviceRemoved : Request → Token → W → Reply → Type 0
  DeviceRemoved r token w reply =
      (devices : List Device) × (user : User) × (w₁ : W) × (sys.repos.device_by_user_id
          sys.repo_mngr (get_user_id r) w
        ≡ ok devices w₁)
      × (0 < length devices)
      × Removed (trim_prefix device_path r.path) (get_user_id r) (ltb 1 (length devices)) user
      × Reissued sys token user reply

  -- A device is removed only for a user who has a device. The device that the path names
  -- is removed from the devices of the request's user, in the transaction that stores the user's row; there, device
  -- authentication stays allowed just when the user had more than one device when
  -- they were counted. The reply is a token for the user so stored.
  pub device_remove_sound :
      (r : Request) (token : Token) (reply : Reply) (w w' : W)
      → IsAtomic sys.repos
      → get_token r ≡ some token
      → remove sys r w ≡ ok reply w'
      → DeviceRemoved r token w reply
  unfolding remove
  device_remove_sound r token reply w w' atomic held returned = x reply w' returned
    where
      x : Ensures (remove sys r w) (λ reply _. DeviceRemoved r token w reply)
      x = Ensures-bind _ _ λ devices w₁ counted. Ensures-guard _ _ _ λ some_left.
          Ensures-bind _ _ λ tx w₂ began. Ensures-bind _ _ λ e w₃ committed.
            let (stored, entity_is, how) =
              Ensures-atomic sys.repos tx _ atomic
                (update-Removed (trim_prefix device_path r.path) (get_user_id r)
                  (ltb 1 (length devices)) tx)
                e w₃ committed in
            Ensures-bind _ _ λ user w₄ cast. λ reply w₅ answered.
              let same_user = as_user-eq-ok e w₃ cast in
              (
                devices,
                user,
                w₁,
                counted,
                ltb→lt 0 (length devices) some_left,
                subst
                    (Removed (trim_prefix device_path r.path) (get_user_id r)
                      (ltb 1 (length devices)))
                    (entity-injective (sym entity_is ∙ same_user)) how,
                reissue-Reissued sys r user token w₄ held reply w₅ answered,
              )
