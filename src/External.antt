-- ===== src/External.antt =====
-- What the program takes from its surroundings: the clock, random bytes, hashing and encoding, JWT,
-- TOTP and bcrypt libraries, and Redis. `W` is the state of the outside world; nothing is assumed of
-- these operations but what a theorem's hypotheses state.
pub mod Laws
use authenticator.Common.{ℕ, Bool, Option, Text}
use authenticator.Effect.{Exec, Result, ok}
use authenticator.Domain.{Token, OtpHash, RefreshToken}

-- The signing method that the header of a JWT names.
pub data SigningMethod : Type 0 where
  hmac : SigningMethod
  other_signing : Text → SigningMethod

-- A parsed JWT: its claims, if they are a map, as JSON.
pub record ParsedJwt : Type 0 where
  pub claims : Option Text
  pub valid : Bool

-- A value in Redis. A Go `true` is stored as the number 1.
pub data RedisValue : Type 0 where
  flag : RedisValue
  number : ℕ → RedisValue

-- `.Int64()` of a reply.
abbrev pub as_int64 : RedisValue → ℕ
as_int64 flag = 1
as_int64 (number n) = n

-- The layouts of `time.Format` that the rate limiter uses.
pub data TimeLayout : Type 0 where
  hhmmss hhmm : TimeLayout

pub record External (W : Type 0) : Type 0 where
  -- `time.Now`, and the world after it was read.
  pub clock : W → ℕ
  pub tick : W → W
  pub format_time : TimeLayout → ℕ → Text
  pub rand_read : ℕ → Exec W Text
  pub ulid_new : Exec W Text
  pub sha512_hex : Text → Text
  pub base64_encode : Text → Text
  pub base64_decode : Text → Option Text
  pub base64url_encode : Text → Text
  pub base64url_decode : Text → Option Text
  pub itoa : ℕ → Text
  pub atoi : Text → Option ℕ
  pub trim_space : Text → Text
  pub to_lower : Text → Text
  pub to_upper : Text → Text
  -- AES-CFB under the SHA-256 of a key: key, iv, text.
  pub cfb_encrypt : Text → Text → Text → Text
  pub cfb_decrypt : Text → Text → Text → Text
  pub marshal_otp_hash : OtpHash → Option Text
  pub unmarshal_otp_hash : Text → Option OtpHash
  pub marshal_refresh_token : RefreshToken → Option Text
  pub unmarshal_refresh_token : Text → Option RefreshToken
  pub marshal_claims : Text → Option Text
  pub unmarshal_token : Text → Option Token
  -- `SignedString` of HS512 under a secret.
  pub jwt_sign : Text → Token → Option Text
  pub jwt_parse : (SigningMethod → Result Text) → Text → Exec W ParsedJwt
  -- The password, then the cost; the hash, then the password.
  pub bcrypt_generate : Text → ℕ → Exec W Text
  pub bcrypt_compare : Text → Text → Result (Unit {0})
  -- Issuer and account name; code and secret.
  pub totp_generate : Text → Text → Exec W Text
  pub totp_validate : Text → Text → Exec W Bool
  pub redis_get : Text → Exec W RedisValue
  -- Key, value, expiration.
  pub redis_set : Text → RedisValue → ℕ → Exec W (Unit {0})
  -- INCR and EXPIRE in one transaction: the new count.
  pub redis_incr_expire : Text → ℕ → Exec W ℕ
  -- The `otpauth` URL of a secret, an issuer and a path.
  pub otpauth_url : Text → Text → Text → Text
  pub is_valid_number : Text → Bool
  pub is_mail_address : Text → Bool

-- `time.Now()`.
abbrev pub now : {W : Type 0} → External W → Exec W ℕ
now ext w = ok (ext.clock w) (ext.tick w)
