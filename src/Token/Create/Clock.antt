-- ===== src/Token/Create/Clock.antt =====
-- The steps of Create for a fresh token take time.
use authenticator.Common.{◌≤◌, none, Text, arith, Bool-cases, inl, inr}
use authenticator.Effect.Ensures.{
  Ensures, Ensures-wrapped, Ensures-map_err, Ensures-pure, Ensures-option, Ensures-guard,
}
use authenticator.Domain.{User, DeliveryMethod, is_no_method}
use authenticator.External.Laws.{IsMonotone, Advances, Ensures-now}
use authenticator.System.{System}
use authenticator.Crypto.Sample.{random_string-Advances}
use authenticator.Otp.{otp_code, to_otp_hash}
use authenticator.Token.Create.{
  TokenConfiguration, gen_ulid, gen_client_id_and_hash, send_otp, gen_otp_and_hash,
}

module _ {W : Type 0} (sys : System W) where
  abbrev Later : {A : Type 0} → W → A → W → Type 0
  Later w a v = sys.ext.clock w ≤ sys.ext.clock v

  pub gen_ulid-Advances : Advances sys.ext sys.ext.ulid_new → Advances sys.ext (gen_ulid sys none)
  unfolding gen_ulid
  gen_ulid-Advances takes_time id w w' h =
      Ensures-map_err {Q = Later w} _ sys.ext.ulid_new (λ a v made. takes_time a w v made) id w' h

  module _ (monotone : IsMonotone sys.ext) where
    pub gen_client_id-Advances : Advances sys.ext (gen_client_id_and_hash sys none)
    unfolding gen_client_id_and_hash
    gen_client_id-Advances ids w w' h =
        let x : Ensures (gen_client_id_and_hash sys none w) (Later w) =
          Ensures-wrapped _ _ _ λ raw v drawn.
            Ensures-pure (Later w) _ v
              (random_string-Advances sys.ext monotone _ _ raw w v drawn) in
        x ids w' h

    to_otp_hash-Advances :
        (code address : Text) (m : DeliveryMethod)
        → Advances sys.ext (to_otp_hash sys code address m)
    unfolding to_otp_hash
    to_otp_hash-Advances code address m hashed w w' h =
        let x : Ensures (to_otp_hash sys code address m w) (Later w) = Ensures-now sys.ext _ (
          Ensures-option _ _ _
            λ b marshalled. Ensures-pure (Later w) _ _ (monotone.tick_advances w)) in
        x hashed w' h

    otp_code-Advances :
        (address : Text) (m : DeliveryMethod) → Advances sys.ext (otp_code sys address m)
    unfolding otp_code
    otp_code-Advances address m codes w w' h =
        let x : Ensures (otp_code sys address m w) (Later w) = Ensures-wrapped _ _ _ λ code v drawn.
          Ensures-wrapped _ _ _ λ hashed v' made. Ensures-pure (Later w) _ v' (
            omega (
              arith,
              random_string-Advances sys.ext monotone _ _ code w v drawn,
              to_otp_hash-Advances code address m hashed v v' made,
            )) in
        x codes w' h

    send_otp-Advances :
        (conf : TokenConfiguration) (user : User) → Advances sys.ext (send_otp sys conf user)
    unfolding send_otp
    send_otp-Advances conf user codes w w' h =
        let x : Ensures (send_otp sys conf user w) (Later w) =
          Ensures-guard _ _ _
            λ nonempty. Ensures-map_err _ _ λ p v made. otp_code-Advances _ _ p w v made in
        x codes w' h

    pub gen_otp-Advances :
        (conf : TokenConfiguration) (user : User)
        → Advances sys.ext (gen_otp_and_hash sys conf user)
    unfolding gen_otp_and_hash
    gen_otp-Advances conf user codes w w' h =
        elim (Bool-cases (is_no_method conf.delivery_method)) [
          | inl without ↦ Ensures-pure (Later w) _ w (omega arith) codes w' (rw without at h)
          | inr chosen ↦ send_otp-Advances conf user codes w w' (rw chosen at h)
        ]
