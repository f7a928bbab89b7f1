-- ===== src/Otp/Encryption.antt =====
-- internal/otp/service.go: `encrypt` and `decrypt`.
use mathlib.Core.List.{append_assoc}
use authenticator.Common.{
  ℕ, ◌≤◌, ◌≡◌, refl, ◌∙◌, ◌++◌, Text, codes, length, take, drop, take-append, drop-append,
  length-append, before, trim_prefix, before-append, trim_prefix-append, ltb, false, some, arith,
}
use authenticator.Errors.{Err}
use authenticator.Effect.{ok, fail, good, bad, ◌>>=◌}
use authenticator.Effect.Ensures.{Ensures, Ensures-result, Ensures-wrapped, Ensures-pure}
use authenticator.External.Laws.{IsBase64, IsCipher}
use authenticator.System.{System, Secret}
use authenticator.Otp.{latest_secret, secret_by_version, block_size, encrypt, decrypt, split_block}
use authenticator.Otp.Secrets.{DistinctVersions, secret_by_latest}

module _ {W : Type 0} (sys : System W) where
  -- What stands before the first colon names the secret, and the rest is decoded.
  pub record Parts (encrypted : Text) (secret : Secret) (decoded : Text) : Type 0 where
    pub version : ℕ
    pub named : sys.ext.atoi (before b':' encrypted) ≡ some version
    pub known : secret_by_version sys.otp_conf.secrets version ≡ good secret
    pub long :
        ltb (length (trim_prefix (before b':' encrypted ++ codes ":") encrypted)) block_size ≡ false
    pub decodes :
        sys.ext.base64_decode (trim_prefix (before b':' encrypted ++ codes ":") encrypted)
        ≡ some decoded

  decrypt_of_Parts :
      (encrypted decoded : Text) (secret : Secret) (w : W)
      → Parts encrypted secret decoded
      → block_size ≤ length decoded
      → decrypt sys encrypted w
        ≡ ok (sys.ext.cfb_decrypt secret.key (take block_size decoded) (drop block_size decoded)) w
  unfolding decrypt split_block ◌>>=◌
  decrypt_of_Parts encrypted decoded secret w p h =
      let e : ltb (length decoded) block_size ≡ false = ground arith in
      rw (p.named, p.known, p.long, p.decodes, e)

  -- What `encrypt` returns: the version, a colon, and the encoded iv and ciphertext.
  pub record Encrypted (s c : Text) : Type 0 where
    pub secret : Secret
    pub iv : Text
    pub chosen : latest_secret sys.otp_conf.secrets ≡ good secret
    pub size : length iv ≡ block_size
    pub form :
        c
        ≡ sys.ext.itoa secret.version
          ++ (codes ":" ++ sys.ext.base64_encode (iv ++ sys.ext.cfb_encrypt secret.key iv s))

  pub encrypt-Encrypted :
      (s : Text) (w : W) → IsCipher sys.ext → Ensures (encrypt sys s w) (λ c w'. Encrypted s c)
  unfolding encrypt
  encrypt-Encrypted s w cipher = Ensures-result _ _ λ secret chosen.
      Ensures-wrapped _ _ _ λ iv v read.
        Ensures-pure (λ c w'. Encrypted s c) _ _
          (record {
            secret = secret;
            iv = iv;
            chosen = chosen;
            size = cipher.rand_length block_size iv w v read;
            form = refl;
          })

  -- A text that names a version for which there is no secret.
  pub decrypt_of_unknown :
      (encrypted : Text) (version : ℕ) (e : Err) (w : W)
      → sys.ext.atoi (before b':' encrypted) ≡ some version
      → secret_by_version sys.otp_conf.secrets version ≡ bad e
      → decrypt sys encrypted w ≡ fail e w
  unfolding decrypt ◌>>=◌
  decrypt_of_unknown encrypted version e w named unknown = rw (named, unknown)

  pub Encrypted-named :
      (s c : Text)
      → IsCipher sys.ext
      → (e : Encrypted s c) → sys.ext.atoi (before b':' c) ≡ some e.secret.version
  Encrypted-named s c cipher e =
      rw
        (
          e.form,
          before-append b':' (sys.ext.itoa e.secret.version)
              (sys.ext.base64_encode (e.iv ++ sys.ext.cfb_encrypt e.secret.key e.iv s))
              (cipher.itoa-Free e.secret.version),
        )
        (cipher.atoi-itoa e.secret.version)

  module _ (distinct : DistinctVersions sys.otp_conf.secrets) (base64 : IsBase64 sys.ext)
      (cipher : IsCipher sys.ext) where
    Parts-of_encrypted :
        (secret : Secret) (body : Text)
        → latest_secret sys.otp_conf.secrets ≡ good secret
        → block_size ≤ length body
        → Parts
            (sys.ext.itoa secret.version ++ (codes ":" ++ sys.ext.base64_encode body))
            secret
            body
    Parts-of_encrypted secret body chosen size =
        let encoded = sys.ext.base64_encode body in
        let front : before b':' (sys.ext.itoa secret.version ++ (codes ":" ++ encoded))
            ≡ sys.ext.itoa secret.version =
          before-append b':' _ encoded (cipher.itoa-Free secret.version) in
        let rest : trim_prefix (sys.ext.itoa secret.version ++ codes ":")
              (sys.ext.itoa secret.version ++ (codes ":" ++ encoded))
            ≡ encoded =
          rw (← append_assoc)
            (trim_prefix-append (sys.ext.itoa secret.version ++ codes ":") encoded) in
        record {
          version = secret.version;
          named = rw front (cipher.atoi-itoa secret.version);
          known = secret_by_latest sys.otp_conf.secrets secret distinct chosen;
          long = rw (front, rest) (ground (arith, base64.encode_grows body));
          decodes = rw (front, rest) (base64.decode-encode body);
        }

    pub decrypt-Encrypted : (s c : Text) (w : W) → Encrypted s c → decrypt sys c w ≡ ok s w
    decrypt-Encrypted s c w e =
        let body = e.iv ++ sys.ext.cfb_encrypt e.secret.key e.iv s in
        let long : block_size ≤ length body = omega (arith, length-append {0}, e.size) in
        let decrypted =
          decrypt_of_Parts _ body e.secret w (Parts-of_encrypted e.secret body e.chosen long)
            long in
        rw e.form (
          decrypted
          ∙ rw (
            take-append block_size e.iv _ e.size,
            drop-append block_size e.iv _ e.size,
            cipher.cfb_decrypt-encrypt e.secret.key e.iv s,
          ))

    -- A secret that `encrypt` returns, under the latest of several keys with distinct versions, is
    -- decrypted to what was encrypted, in any later state of the world.
    pub decrypt-encrypt :
        (s c : Text) (w w' v : W) → encrypt sys s w ≡ ok c w' → decrypt sys c v ≡ ok s v
    decrypt-encrypt s c w w' v h = decrypt-Encrypted s c v (encrypt-Encrypted s w cipher c w' h)
