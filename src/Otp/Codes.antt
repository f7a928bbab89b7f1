-- ===== src/Otp/Codes.antt =====
-- One-time codes: what validates them, and for how long.
use authenticator.Common.{
  ℕ, ◌+◌, ◌*◌, ◌≤◌, ◌<◌, ◌≡◌, ◌∙◌, Text, ltb, text_eq, text_eq_sound, arith, if◌then◌else◌,
}
use authenticator.Errors.{domain, invalid_code}
use authenticator.Effect.{Outcome, ok, fail, good, guard, ◌>>=◌, ◌>>◌}
use authenticator.Effect.Ensures.{
  Ensures, Ensures-result, Ensures-option, Ensures-guard, Ensures-wrapped, Ensures-pure,
  Ensures-guard_last,
}
use authenticator.Domain.{DeliveryMethod, OtpHash, unix, second}
use authenticator.External.Laws.{Ensures-now, IsMonotone, IsBase64, HasOtpJson}
use authenticator.System.{System}
use authenticator.Crypto.{hash}
use authenticator.Crypto.Sample.{random_string-Advances}
use authenticator.Otp.{to_otp_hash, from_otp_hash, otp_code, validate_otp}

module _ {W : Type 0} (sys : System W) where
  abbrev Accepts : Text → Text → W → Type 0
  Accepts code otp_hash w =
      (h : OtpHash) × (from_otp_hash sys otp_hash ≡ good h)
      × (unix (sys.ext.clock w) < h.expires_at)
      × (hash sys.ext code ≡ h.code_hash)

  -- If a code is accepted against a hash, then the hash parses, its expiry is in a later second
  -- than now, and the code hashes to what the hash holds.
  validate_otp_sound :
      (code otp_hash : Text) (w w' : W)
      → validate_otp sys code otp_hash w ≡ ok tt w'
      → Accepts code otp_hash w
  unfolding validate_otp
  validate_otp_sound code otp_hash w w' returned =
      let checks : Ensures (validate_otp sys code otp_hash w) (λ u v.
        (h : OtpHash) × (from_otp_hash sys otp_hash ≡ good h)
        × (unix (sys.ext.clock w) < h.expires_at)
        × (hash sys.ext code ≡ h.code_hash)) =
        Ensures-result _ _ λ h parsed. Ensures-now sys.ext _ (
          Ensures-guard _ _ _ λ unexpired.
            Ensures-guard_last _ _ _ λ same. (h, parsed, ground arith, text_eq_sound _ _ same)) in
      checks tt w' returned

  -- What the code of a hash `h` does at a clock `t`, on every branch.
  validate_otp_of_parsed :
      (code otp_hash : Text) (h : OtpHash) (w : W)
      → from_otp_hash sys otp_hash ≡ good h
      → validate_otp sys code otp_hash w
        ≡ (guard
                (ltb (unix (sys.ext.clock w)) h.expires_at)
                (domain (invalid_code "code is expired"))
              >> guard
                  (text_eq (hash sys.ext code) h.code_hash)
                  (domain (invalid_code "incorrect code provided")))
            (sys.ext.tick w)
  unfolding validate_otp ◌>>=◌
  validate_otp_of_parsed code otp_hash h w parsed = rw parsed

  -- How a code `d` is answered at a world `v`, for the hash of a code `c`.
  abbrev pub checked : Text → ℕ → W → Text → Outcome W (Unit {0})
  checked c made v d =
      if ltb (unix (sys.ext.clock v)) (unix (made + 300 * second))
      then (if text_eq (hash sys.ext d) (hash sys.ext c)
          then ok tt (sys.ext.tick v)
          else fail (domain (invalid_code "incorrect code provided")) (sys.ext.tick v))
      else fail (domain (invalid_code "code is expired")) (sys.ext.tick v)

  abbrev pub Lifetime : Text → Text → W → W → Type 0
  Lifetime c h w w' =
      (made : ℕ) × (sys.ext.clock w ≤ made)
      × (made ≤ sys.ext.clock w')
      × ((v : W) (d : Text) → validate_otp sys d h v ≡ checked c made v d)

  module _ (monotone : IsMonotone sys.ext) (base64 : IsBase64 sys.ext) {address : Text}
      {method : DeliveryMethod} (json : HasOtpJson sys.ext address method) where
    -- A hash for a code, made when the clock stood at `made`.
    pub record IsHashOf (code otp_hash : Text) (w w' : W) : Type 0 where
      pub made : ℕ
      pub since : sys.ext.clock w ≤ made
      pub upto : made ≤ sys.ext.clock w'
      pub parses :
          from_otp_hash sys otp_hash
          ≡ good (record {
            code_hash = hash sys.ext code;
            expires_at = unix (made + 300 * second);
            address = address;
            delivery_method = method;
          })

    to_otp_hash-IsHashOf :
        (code : Text) (w : W)
        → Ensures (to_otp_hash sys code address method w) (λ h w'. IsHashOf code h w w')
    unfolding to_otp_hash from_otp_hash
    to_otp_hash-IsHashOf code w = Ensures-now sys.ext _ (
        Ensures-option _ _ _ λ b marshalled. Ensures-pure _ (sys.ext.base64url_encode b) _ (record {
          made = sys.ext.clock w;
          since = omega arith;
          upto = monotone.tick_advances w;
          parses = rw (base64.url_decode-encode b, json _ _ b marshalled, from_otp_hash);
        }))

    pub otp_code-IsHashOf :
        (c h : Text) (w w' : W) → otp_code sys address method w ≡ ok (c, h) w' → IsHashOf c h w w'
    unfolding otp_code
    otp_code-IsHashOf c h w w' returned =
        let made : Ensures (otp_code sys address method w) (λ p v. IsHashOf p.0 p.1 w v) =
          Ensures-wrapped _ _ _ λ code v drawn. Ensures-wrapped _ _ _ λ otp_hash v' hashed.
            Ensures-pure _ (code, otp_hash) _
              (let i = to_otp_hash-IsHashOf code v otp_hash v' hashed in
                record {
                  made = i.made;
                  since =
                      omega (
                        arith,
                        i.since,
                        random_string-Advances sys.ext monotone _ _ code w v drawn,
                      );
                  upto = i.upto;
                  parses = i.parses;
                }) in
        made (c, h) w' returned

    -- A code and its hash are made at a time between the start and the end of the call. Any code at
    -- any time is checked against the hash as follows: from the second on in which five minutes have
    -- passed since, it is refused as expired; until then it is accepted exactly if it has the
    -- SHA-512 of the code, and refused as incorrect if it has another.
    pub otp_code-Lifetime :
        (c h : Text) (w w' : W) → otp_code sys address method w ≡ ok (c, h) w' → Lifetime c h w w'
    unfolding ◌>>=◌
    otp_code-Lifetime c h w w' returned =
        let i = otp_code-IsHashOf c h w w' returned in
        (
          i.made,
          i.since,
          i.upto,
          λ v d. validate_otp_of_parsed d h _ v i.parses ∙ checks i.made v d,
        )
      where
        checks :
            (made : ℕ) (v : W) (d : Text)
            → (guard
                    (ltb (unix (sys.ext.clock v)) (unix (made + 300 * second)))
                    (domain (invalid_code "code is expired"))
                  >> guard
                      (text_eq (hash sys.ext d) (hash sys.ext c))
                      (domain (invalid_code "incorrect code provided")))
                (sys.ext.tick v)
              ≡ checked c made v d
        checks made v d = ground arith
