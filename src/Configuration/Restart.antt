-- ===== src/Configuration/Restart.antt =====
-- TOTP secrets in a service that is started again with other flags.
use authenticator.Common.{
  ℕ, ◌≡◌, refl, sym, ap, Text, false, ◌==◌, [], ◌∷◌, if◌then◌else◌, inl, inr, Bool-cases, arith,
}
use authenticator.Errors.{other}
use authenticator.Effect.{ok, fail, bad}
use authenticator.External.Laws.{IsBase64, IsCipher}
use authenticator.System.{System, Secret}
use authenticator.Otp.{encrypt, decrypt, secret_by_version, find_version}
use authenticator.Otp.Secrets.{latest_secret_highest, DistinctVersions}
use authenticator.Otp.Encryption.{
  Encrypted, encrypt-Encrypted, decrypt-Encrypted, decrypt_of_unknown, Encrypted-named,
}
use authenticator.Configuration.{Flags, started, configured, new_otp}

-- The one secret that is configured.
abbrev configured_secret : Flags → Secret
configured_secret flags = record { version = flags.otp_secret_version; key = flags.otp_secret_key }

unknown_version :
    (x : Secret) (v : ℕ)
    → (x.version == v) ≡ false
    → secret_by_version (x ∷ []) v ≡ bad (other "no secret key found for version %v")
unfolding secret_by_version find_version
unknown_version x v h = rw h refl

module _ {W : Type 0} (default_cost : ℕ) (sys : System W) where
  abbrev pub service : Flags → System W
  service flags = started default_cost flags sys

  Encrypted-version :
      (flags : Flags) (s c : Text)
      → (e : Encrypted (service flags) s c) → e.secret ≡ configured_secret flags
  unfolding started configured new_otp
  Encrypted-version flags s c e = elim (latest_secret_highest _ e.secret e.chosen).0 [
    | inl same ↦ sym same
    | inr m ↦ absurd m
  ]

  -- Only the secrets matter for what was encrypted.
  Encrypted-same :
      (old new : Flags) (s c : Text)
      → configured_secret new ≡ configured_secret old
      → Encrypted (service old) s c
      → Encrypted (service new) s c
  unfolding started configured new_otp
  Encrypted-same old new s c same e = record {
    secret = e.secret;
    iv = e.iv;
    chosen = rw same e.chosen;
    size = e.size;
    form = e.form;
  }

  distinct : (flags : Flags) → DistinctVersions (service flags).otp_conf.secrets
  unfolding started configured new_otp
  distinct flags = (tt, tt)

  module _ (base64 : IsBase64 sys.ext) (cipher : IsCipher sys.ext) where
    restarted_same :
        (old new : Flags) (s c : Text) (v : W)
        → configured_secret new ≡ configured_secret old
        → Encrypted (service old) s c
        → decrypt (service new) c v ≡ ok s v
    unfolding started configured new_otp
    restarted_same old new s c v same e =
        decrypt-Encrypted (service new) (distinct new) base64 cipher s c v
          (Encrypted-same old new s c same e)

    restarted_other :
        (old new : Flags) (s c : Text) (v : W)
        → (new.otp_secret_version == old.otp_secret_version) ≡ false
        → Encrypted (service old) s c
        → decrypt (service new) c v ≡ fail (other "no secret key found for version %v") v
    unfolding started configured new_otp
    restarted_other old new s c v differs e =
        let named = Encrypted-named (service old) s c cipher e in
        let same = ap (λ x. x.version) (Encrypted-version old s c e) in
        decrypt_of_unknown (service new) c old.otp_secret_version _ v (rw same at named)
          (unknown_version (configured_secret new) old.otp_secret_version differs)

    encryption_form :
        (flags : Flags) (s c : Text) (w w' : W)
        → encrypt (service flags) s w ≡ ok c w'
        → Encrypted (service flags) s c
    unfolding started
    encryption_form flags s c w w' encrypted =
        encrypt-Encrypted (service flags) s w cipher c w' encrypted

    -- The flags name one versioned key for TOTP secrets, and the same version has the same key. A
    -- secret that was encrypted is read back after a restart with any other flags if the version is
    -- still the same. After a restart with another version it cannot be decrypted: its version is
    -- unknown.
    pub restart_keeps_secrets :
        (old new : Flags) (s c : Text) (w w' v : W)
        → (new.otp_secret_version ≡ old.otp_secret_version
            → new.otp_secret_key ≡ old.otp_secret_key)
        → encrypt (service old) s w ≡ ok c w'
        → decrypt (service new) c v ≡ (
            if new.otp_secret_version == old.otp_secret_version
            then ok s v
            else fail (other "no secret key found for version %v") v)
    restart_keeps_secrets old new s c w w' v keyed encrypted =
        let e = encryption_form old s c w w' encrypted in
        elim (Bool-cases (new.otp_secret_version == old.otp_secret_version)) [
          | inl same ↦
              let version : new.otp_secret_version ≡ old.otp_secret_version = ground arith in
              let secret : configured_secret new ≡ configured_secret old =
                rw (version, keyed version) refl in
              rw same (restarted_same old new s c v secret e)
          | inr differs ↦ rw differs (restarted_other old new s c v differs e)
        ]
