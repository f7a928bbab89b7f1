-- ===== src/Postgres/Creation.antt =====
-- internal/postgres/user_repo.go: users who are created.
use authenticator.Common.{
  ℕ, ◌≤◌, ◌≡◌, refl, sym, subst, arith, true, false, ◌&&◌, List, ◌∷◌, Text, is_empty, length,
  if◌then◌else◌,
}
use authenticator.Effect.{ok, Result, good, bad}
use authenticator.Effect.Ensures.{
  Ensures, Ensures-bind, Ensures-wrapped, Ensures-pure, Ensures-result,
}
use authenticator.Domain.{User}
use authenticator.System.{System}
use authenticator.Password.{hash_password, ok_for_user}
use authenticator.Postgres.{Database, State, in_tx}
use authenticator.Postgres.Users.{
  sanitize_user, validate_identity, validate_user_fields, hash_user_password, create,
}

module _ {W : Type 0} (db : Database W) (sys : System (State W)) where
  ok_for_user-eq_good :
      (password : Text) {u : Unit {0}}
      → ok_for_user sys password ≡ good u
      → (sys.password_conf.min_length ≤ length password)
        × (length password ≤ sys.password_conf.max_length)
  unfolding ok_for_user
  ok_for_user-eq_good password h = ground arith

  validate_identity-eq_good :
      (user : User) {u : Unit {0}}
      → validate_identity db sys user ≡ good u
      → (is_empty user.email.string && is_empty user.phone.string) ≡ false
  unfolding validate_identity
  validate_identity-eq_good user h = ground arith

  -- The first of several validators has passed.
  first_passes :
      (user : User) (v : User → Result (Unit {0})) (vs : List (User → Result (Unit {0})))
      {u : Unit {0}}
      → validate_user_fields db sys user (v ∷ vs) ≡ good u
      → v user ≡ good tt
  unfolding validate_user_fields
  first_passes user v vs {u} h = split (v user) h
    where
      split :
          (r : Result (Unit {0}))
          → validate_user_fields db sys user ((λ _. r) ∷ vs) ≡ good u
          → r ≡ good tt
      split (good x) h = refl
      split (bad e) h = cc

  abbrev pub Hashed : User → User → State W → State W → Type 0
  Hashed user hashed v w =
      (sys.password_conf.min_length ≤ length user.password)
      × (length user.password ≤ sys.password_conf.max_length)
      × (h : Text) × (hash_password sys user.password v ≡ ok h w)
      × (hashed ≡ record user { password = h })

  hash_user_password-Hashed :
      (user : User) (v : State W)
      → Ensures (hash_user_password db sys user v) (λ hashed w. Hashed user hashed v w)
  unfolding hash_user_password
  hash_user_password-Hashed user v = Ensures-result _ _ λ u allowed.
      Ensures-wrapped _ _ _ λ h w hashed. Ensures-pure _ _ w (
        let (low, high) = ok_for_user-eq_good user.password allowed in (low, high, h, hashed, refl))

  abbrev pub IsCreated : User → User → State W → Type 0
  IsCreated user₀ user d' =
      (v : State W) × (w : State W) × (row : User) × (times : ℕ × ℕ) × (in_tx
          (λ tx. db.insert_user tx row) w
        ≡ ok times d')
      × (user ≡ record row { created_at = times.0; updated_at = times.1 })
      × (sys.password_conf.min_length ≤ length user₀.password)
      × (length user₀.password ≤ sys.password_conf.max_length)
      × (hash_password sys user₀.password v ≡ ok user.password w)
      × (user.email.string ≡ sys.ext.to_lower (sys.ext.trim_space user₀.email.string))
      × (user.phone.string ≡ sys.ext.trim_space user₀.phone.string)
      × ((is_empty user.email.string && is_empty user.phone.string) ≡ false)
      × (user.is_email_otp_allowed
          ≡ (if is_empty user.email.string then user₀.is_email_otp_allowed else true))
      × (user.is_phone_otp_allowed
          ≡ (if is_empty user.phone.string then user₀.is_phone_otp_allowed else true))
      × (user.is_verified ≡ user₀.is_verified)

  -- What is inserted, once the password is hashed.
  abbrev finished : Text → User → User
  finished id x = record x {
    id = id;
    is_phone_otp_allowed = if is_empty x.phone.string then x.is_phone_otp_allowed else true;
    is_email_otp_allowed = if is_empty x.email.string then x.is_email_otp_allowed else true;
  }

  -- A user who was created is the row that was inserted, with the times that the database gave it: the
  -- password that was asked for has an allowed length, and what is kept
  -- is its hash; the addresses are kept without white space around them, the email address in lower
  -- case, and one of them is not empty; codes may be sent to each address that is not empty, and to
  -- an empty one as was asked for; and the user is verified only if that was asked for.
  pub create_sound :
      (user₀ user : User) (d d' : State W)
      → create db sys user₀ d ≡ ok user d'
      → IsCreated user₀ user d'
  unfolding create sanitize_user
  create_sound user₀ user d d' returned = x user d' returned
    where
      x : Ensures (create db sys user₀ d) (λ user v. IsCreated user₀ user v)
      x = Ensures-result _ _ λ u valid. Ensures-wrapped _ _ _ λ id v drawn.
          Ensures-bind _ _ λ hashed w made. Ensures-bind _ _ λ times w' inserted.
            Ensures-pure _ _ w' (
              let (low, high, h, is_hash, is) = hash_user_password-Hashed _ v hashed w made in
              subst
                (λ (x : User).
                  in_tx (λ tx. db.insert_user tx (finished id x)) w ≡ ok times w'
                  → IsCreated user₀
                      (record (finished id x) { created_at = times.0; updated_at = times.1 }) w')
                (sym is)
                (λ stored. (
                  v,
                  w,
                  _,
                  times,
                  stored,
                  refl,
                  low,
                  high,
                  is_hash,
                  refl,
                  refl,
                  validate_identity-eq_good (sanitize_user db sys user₀) (first_passes _ _ _ valid),
                  refl,
                  refl,
                  refl,
                ))
                inserted)
