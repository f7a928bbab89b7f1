-- ===== src/Examples/Codec.antt =====
-- Data as texts and back, for the examples: what stands for JSON and for signed tokens.
use authenticator.Common.{
  ℕ, zero, suc, ◌≡◌, refl, ◌∙◌, ap, Option, none, some, List, [], ◌∷◌, ◌++◌, map, Text, length,
  take, drop, take-append, drop-append,
}
use authenticator.Domain.{
  DeliveryMethod, no_method, phone, email, other_method, OtpHash, RefreshToken, Token, TokenState,
  jwt_authorized, jwt_pre_authorized, other_state, TfaOption, otp_email, otp_phone, totp,
  fido_device,
}

pub record Codec (A : Type 0) : Type 0 where
  pub write : A → Text → Text
  pub read : Text → Option (A × Text)
  pub read-write : (a : A) (rest : Text) → read (write a rest) ≡ some (a, rest)

abbrev read_number : Text → Option (ℕ × Text)
read_number [] = none
read_number (n ∷ rest) = some (n, rest)

abbrev pub number_codec : Codec ℕ
number_codec = record {
  write = λ n rest. n ∷ rest;
  read = read_number;
  read-write = λ n rest. refl;
}

abbrev read_text : Text → Option (Text × Text)
read_text [] = none
read_text (n ∷ rest) = some (take n rest, drop n rest)

pub read-write_text : (s rest : Text) → read_text (length s ∷ (s ++ rest)) ≡ some (s, rest)
read-write_text s rest =
    rw (take-append (length s) s rest refl, drop-append (length s) s rest refl) refl

abbrev pub text_codec : Codec Text
text_codec = record {
  write = λ s rest. length s ∷ (s ++ rest);
  read = read_text;
  read-write = read-write_text;
}

module _ {A B : Type 0} where
  abbrev with_first : A → Option (B × Text) → Option ((A × B) × Text)
  with_first a none = none
  with_first a (some q) = some ((a, q.0), q.1)

  abbrev read_second : Codec B → Option (A × Text) → Option ((A × B) × Text)
  read_second d none = none
  read_second d (some q) = with_first q.0 (d.read q.1)

  pub read-write_pair :
      (c : Codec A) (d : Codec B) (p : A × B) (rest : Text)
      → read_second d (c.read (c.write p.0 (d.write p.1 rest))) ≡ some (p, rest)
  read-write_pair c d p rest =
      ap (read_second d) (c.read-write p.0 (d.write p.1 rest))
      ∙ ap (with_first p.0) (d.read-write p.1 rest)

  abbrev pub pair_codec : Codec A → Codec B → Codec (A × B)
  pair_codec c d = record {
    write = λ p rest. c.write p.0 (d.write p.1 rest);
    read = λ s. read_second d (c.read s);
    read-write = read-write_pair c d;
  }

  abbrev read_as : (A → B) → Option (A × Text) → Option (B × Text)
  read_as f none = none
  read_as f (some q) = some (f q.0, q.1)

  -- Data that has a form as other data.
  abbrev pub codec_of : (f : A → B) (g : B → A) → ((b : B) → f (g b) ≡ b) → Codec A → Codec B
  codec_of f g h c = record {
    write = λ b rest. c.write (g b) rest;
    read = λ s. read_as f (c.read s);
    read-write =
        λ b rest. ap (read_as f) (c.read-write (g b) rest) ∙ ap (λ x. some (x, rest)) (h b);
  }

module _ {A : Type 0} (c : Codec A) where
  abbrev pub to_text : A → Text
  to_text a = c.write a []

  abbrev whole : Option (A × Text) → Option A
  whole none = none
  whole (some q) = some q.0

  abbrev pub from_text : Text → Option A
  from_text s = whole (c.read s)

  pub from_text-to_text : (a : A) → from_text (to_text a) ≡ some a
  from_text-to_text a = ap whole (c.read-write a [])

abbrev method_number : DeliveryMethod → ℕ × Text
method_number no_method = (0, [])
method_number phone = (1, [])
method_number email = (2, [])
method_number (other_method s) = (3, s)

abbrev method_at : ℕ × Text → DeliveryMethod
method_at (zero, s) = no_method
method_at (suc zero, s) = phone
method_at (suc (suc zero), s) = email
method_at (suc (suc (suc n)), s) = other_method s

pub method_at-number : (m : DeliveryMethod) → method_at (method_number m) ≡ m
method_at-number no_method = refl
method_at-number phone = refl
method_at-number email = refl
method_at-number (other_method s) = refl

abbrev method_codec : Codec DeliveryMethod
method_codec =
    codec_of method_at method_number method_at-number (pair_codec number_codec text_codec)

abbrev pub otp_hash_codec : Codec OtpHash
otp_hash_codec =
    codec_of
      (λ p. record {
        code_hash = p.0.0;
        expires_at = p.0.1;
        address = p.1.0;
        delivery_method = p.1.1;
      })
      (λ h. ((h.code_hash, h.expires_at), (h.address, h.delivery_method))) (λ h. refl)
      (pair_codec (pair_codec text_codec number_codec) (pair_codec text_codec method_codec))

abbrev pub refresh_token_codec : Codec RefreshToken
refresh_token_codec =
    codec_of (λ p. record { code = p.0; expires_at = p.1 }) (λ r. (r.code, r.expires_at))
      (λ r. refl) (pair_codec text_codec number_codec)

abbrev state_number : TokenState → ℕ × Text
state_number jwt_pre_authorized = (0, [])
state_number jwt_authorized = (1, [])
state_number (other_state s) = (2, s)

abbrev state_at : ℕ × Text → TokenState
state_at (zero, s) = jwt_pre_authorized
state_at (suc zero, s) = jwt_authorized
state_at (suc (suc n), s) = other_state s

pub state_at-number : (s : TokenState) → state_at (state_number s) ≡ s
state_at-number jwt_pre_authorized = refl
state_at-number jwt_authorized = refl
state_at-number (other_state s) = refl

abbrev option_number : TfaOption → ℕ
option_number otp_email = 0
option_number otp_phone = 1
option_number totp = 2
option_number fido_device = 3

abbrev option_at : ℕ → TfaOption
option_at zero = otp_email
option_at (suc zero) = otp_phone
option_at (suc (suc zero)) = totp
option_at (suc (suc (suc n))) = fido_device

pub option_at-number : (o : TfaOption) → option_at (option_number o) ≡ o
option_at-number otp_email = refl
option_at-number otp_phone = refl
option_at-number totp = refl
option_at-number fido_device = refl

pub options_at-numbers : (os : List TfaOption) → map option_at (map option_number os) ≡ os
options_at-numbers [] = refl
options_at-numbers (o ∷ os) = rw (option_at-number o, options_at-numbers os) refl

abbrev pub token_codec : Codec Token
token_codec =
    codec_of
      (λ p. record {
        issued_at = p.0.0;
        expires_at = p.0.1.0;
        id = p.0.1.1.0;
        issuer = p.0.1.1.1;
        client_id = p.1.0.0;
        client_id_hash = p.1.0.1.0;
        user_id = p.1.0.1.1.0;
        email = p.1.0.1.1.1;
        phone = p.1.1.0.0;
        state = state_at p.1.1.0.1.0;
        code_hash = p.1.1.0.1.1.0;
        code = p.1.1.0.1.1.1;
        refresh_token = p.1.1.1.0;
        refresh_token_hash = p.1.1.1.1.0;
        tfa_options = map option_at p.1.1.1.1.1.0;
        default_tfa = option_at p.1.1.1.1.1.1;
      })
      (λ t. (
        (t.issued_at, (t.expires_at, (t.id, t.issuer))),
        (
          (t.client_id, (t.client_id_hash, (t.user_id, t.email))),
          (
            (t.phone, (state_number t.state, (t.code_hash, t.code))),
            (
              t.refresh_token,
              (
                t.refresh_token_hash,
                (map option_number t.tfa_options, option_number t.default_tfa),
              ),
            ),
          ),
        ),
      ))
      (λ t.
        rw
          (
            state_at-number t.state,
            options_at-numbers t.tfa_options,
            option_at-number t.default_tfa,
          )
          refl)
      (pair_codec
        (pair_codec number_codec (pair_codec number_codec (pair_codec text_codec text_codec)))
        (pair_codec
          (pair_codec text_codec (pair_codec text_codec (pair_codec text_codec text_codec)))
          (pair_codec
            (pair_codec text_codec
              (pair_codec (pair_codec number_codec text_codec) (pair_codec text_codec text_codec)))
            (pair_codec text_codec (pair_codec text_codec (pair_codec text_codec number_codec))))))
