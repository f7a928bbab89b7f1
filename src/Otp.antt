-- ===== src/Otp.antt =====
-- internal/otp/service.go: random codes and their hashes, TOTP codes, and the encryption of TOTP
-- secrets under versioned keys.

pub mod Secrets
pub mod Encryption
pub mod Codes
pub mod Totp
use authenticator.Common.{
  ℕ, ◌+◌, ◌*◌, String, Bool, true, false, List, [], ◌∷◌, ◌++◌, Option, none, some, Text, codes,
  length, take, drop, is_empty, text_eq, before, trim_prefix, leb, ltb, ◌==◌, if◌then◌else◌, not,
}
use authenticator.Errors.{Err, domain, invalid_code, other, wrap, redis_nil}
use authenticator.Effect.{
  Exec, Result, good, bad, pure, raise, crash, guard, attempt, wrapped, from_option, from_result,
  ◌>>=◌, ◌>>◌,
}
use authenticator.Domain.{User, DeliveryMethod, OtpHash, default_name, unix, second}
use authenticator.External.{now, flag, RedisValue}
use authenticator.Crypto.{random_string, hash}
use authenticator.System.{System, Secret}

-- The loop of `latestSecret`.
unfoldable pub latest_from : Secret → List Secret → Secret
latest_from best [] = best
latest_from best (s ∷ ss) = latest_from (if leb best.version s.version then s else best) ss

abbrev pub no_secret : Secret
no_secret = record { version = 0; key = [] }

-- The loop of `secretByVersion`.
unfoldable pub find_version : ℕ → List Secret → Secret
find_version v [] = no_secret
find_version v (s ∷ ss) = let rest = find_version v ss in if s.version == v then s else rest

abbrev pub checked_secret : String → Secret → Result Secret
checked_secret msg s = if is_empty s.key then bad (other msg) else good s

unfoldable pub latest_secret : List Secret → Result Secret
latest_secret secrets = checked_secret "no secret key" (latest_from no_secret secrets)

unfoldable pub secret_by_version : List Secret → ℕ → Result Secret
secret_by_version secrets v =
    checked_secret "no secret key found for version %v" (find_version v secrets)

-- `aes.BlockSize`.
abbrev pub block_size : ℕ
block_size = 16

-- A redis reply as the code reads it: the key is there, it is not, or Redis failed.
unfoldable pub after_lookup :
    {W : Type 0} → Result RedisValue → Exec W (Unit {0}) → Exec W (Unit {0})
after_lookup (good v) set = raise (domain (invalid_code "code is no longer valid"))
after_lookup (bad redis_nil) set = set
after_lookup (bad e) set = raise (wrap "failed to vaidated code" e)

-- The key under which a used code is remembered.
abbrev pub totp_key : User → Text → Text
totp_key user code = user.id ++ (codes "_" ++ code)

module _ {W : Type 0} (sys : System W) where
  unfoldable pub encrypt : Text → Exec W Text
  encrypt s = do
    secret ← from_result (latest_secret sys.otp_conf.secrets)
    iv ← wrapped "failed to create cipher text" (sys.ext.rand_read block_size)
    pure (
        sys.ext.itoa secret.version
        ++ (codes ":" ++ sys.ext.base64_encode (iv ++ sys.ext.cfb_encrypt secret.key iv s)))

  -- `decoded[:aes.BlockSize]` panics on a shorter slice.
  unfoldable pub split_block : Text → Exec W (Text × Text)
  split_block decoded =
      if ltb (length decoded) block_size
      then crash
      else pure (take block_size decoded, drop block_size decoded)

  unfoldable pub decrypt : Text → Exec W Text
  decrypt encrypted = do
    let v = before b':' encrypted
    let body = trim_prefix (v ++ codes ":") encrypted
    version ←
        from_option (wrap "failed to determine secret version" (other "atoi")) (sys.ext.atoi v)
    secret ← from_result (secret_by_version sys.otp_conf.secrets version)
    guard (not (ltb (length body) block_size)) (other "ciphertext too short")
    decoded ←
        from_option (wrap "cannot decode base64 encoded secret" (other "base64"))
          (sys.ext.base64_decode body)
    (iv, text) ← split_block decoded
    pure (sys.ext.cfb_decrypt secret.key iv text)

  unfoldable pub totp_qr_string : User → Exec W Text
  totp_qr_string u = do
    secret ← wrapped "failed get secret for QR string" (decrypt u.tfa_secret)
    pure (
        sys.ext.otpauth_url secret sys.otp_conf.totp_issuer
          (codes "/" ++ (sys.otp_conf.totp_issuer ++ (codes ":" ++ default_name u))))

  unfoldable pub to_otp_hash : Text → Text → DeliveryMethod → Exec W Text
  to_otp_hash code address method = do
    let code_hash = hash sys.ext code
    t ← now sys.ext
    b ← from_option (other "json") (
        sys.ext.marshal_otp_hash (record {
          code_hash = code_hash;
          expires_at = unix (t + 300 * second);
          address = address;
          delivery_method = method;
        }))
    pure (sys.ext.base64url_encode b)

  unfoldable pub from_otp_hash : Text → Result OtpHash
  from_otp_hash otp_hash = elim (sys.ext.base64url_decode otp_hash) [
    | none ↦ bad (wrap "cannot decode otp hash" (other "base64"))
    | some decoded ↦ elim (sys.ext.unmarshal_otp_hash decoded) [
      | none ↦ bad (wrap "invalid otp hash format" (other "json"))
      | some h ↦ good h
    ]
  ]

  -- `OTPCode`: the code and its hash.
  unfoldable pub otp_code : Text → DeliveryMethod → Exec W (Text × Text)
  otp_code address method = do
    c ←
        wrapped "cannot create random string"
          (random_string sys.ext sys.otp_conf.code_length (codes "0123456" ∷ []))
    h ← wrapped "cannot hash otp string" (to_otp_hash c address method)
    pure (c, h)

  unfoldable pub validate_otp : Text → Text → Exec W (Unit {0})
  validate_otp code otp_hash = do
    otp ← from_result (from_otp_hash otp_hash)
    t ← now sys.ext
    guard (ltb (unix t) otp.expires_at) (domain (invalid_code "code is expired"))
    guard (text_eq (hash sys.ext code) otp.code_hash)
        (domain (invalid_code "incorrect code provided"))

  unfoldable pub totp_secret : User → Exec W Text
  totp_secret u = do
    key ←
        wrapped "failed to generate secret"
          (sys.ext.totp_generate sys.otp_conf.totp_issuer (default_name u))
    wrapped "cannot encrypt secret" (encrypt key)

  unfoldable pub validate_totp : User → Text → Exec W (Unit {0})
  validate_totp user code = do
    secret ← wrapped "cannot decrypt secret" (decrypt user.tfa_secret)
    valid ← sys.ext.totp_validate code secret
    guard valid (domain (invalid_code "incorrect code provided"))
    reply ← attempt (sys.ext.redis_get (totp_key user code))
    after_lookup reply (sys.ext.redis_set (totp_key user code) flag (30 * second))
