-- ===== src/External/Laws.antt =====
-- Documented behaviour of the libraries, as the theorems that need it assume it.
use authenticator.Common.{
  ℕ, Bool, true, ◌+◌, ◌≤◌, ◌<◌, ◌≡◌, ◌≢◌, some, Text, length, Free, All, Any,
}
use authenticator.Effect.{Exec, Result, good, ok, fail, ◌>>=◌}
use authenticator.Errors.{redis_nil}
use authenticator.Domain.{DeliveryMethod, Token, RefreshToken, to_claims, unix}
use authenticator.Crypto.{hash, default_sample}
use authenticator.External.{External, RedisValue, now, SigningMethod, hmac, ParsedJwt}
use authenticator.Effect.Ensures.{Ensures}

-- Reading the clock returns its time.
pub Ensures-now :
    {W B : Type 0} {Q : B → W → Type 0} (ext : External W) (f : ℕ → Exec W B) {w : W}
    → Ensures (f (ext.clock w) (ext.tick w)) Q
    → Ensures ((now ext >>= f) w) Q
unfolding ◌>>=◌
Ensures-now ext f h = h

module _ {W : Type 0} (ext : External W) where
  -- An operation that may take time, and never gives any back.
  abbrev pub Advances : {A : Type 0} → Exec W A → Type 0
  Advances {A} m = (a : A) (w w' : W) → m w ≡ ok a w' → ext.clock w ≤ ext.clock w'

  -- The clock is monotone, as `time.Now` is within a process.
  pub record IsMonotone : Type 0 where
    pub tick_advances : (w : W) → ext.clock w ≤ ext.clock (ext.tick w)
    pub rand_advances : (n : ℕ) → Advances (ext.rand_read n)
    pub totp_advances : (c s : Text) → Advances (ext.totp_validate c s)
    pub miss_advances :
        (k : Text) (w w' : W) → ext.redis_get k w ≡ fail redis_nil w' → ext.clock w ≤ ext.clock w'
    pub get_advances : (k : Text) → Advances (ext.redis_get k)
    pub set_advances : (k : Text) (v : RedisValue) (ttl : ℕ) → Advances (ext.redis_set k v ttl)

  -- Decoding undoes encoding.
  pub record IsBase64 : Type 0 where
    pub url_decode-encode : (s : Text) → ext.base64url_decode (ext.base64url_encode s) ≡ some s
    pub decode-encode : (s : Text) → ext.base64_decode (ext.base64_encode s) ≡ some s
    pub encode_grows : (s : Text) → length s ≤ length (ext.base64_encode s)

  -- JSON gives back the hash of a code that was marshalled with an address and a method. It does so for
  -- every address and method that are UTF-8; of others it replaces bytes.
  abbrev pub HasOtpJson : Text → DeliveryMethod → Type 0
  HasOtpJson address method =
      (code : Text) (e : ℕ) (b : Text)
      → ext.marshal_otp_hash (record {
        code_hash = hash ext code;
        expires_at = e;
        address = address;
        delivery_method = method;
      })
        ≡ some b
      → ext.unmarshal_otp_hash b
        ≡ some (record {
          code_hash = hash ext code;
          expires_at = e;
          address = address;
          delivery_method = method;
        })

  -- A secret that was encrypted under a key and an iv is decrypted by them; decimal numbers.
  pub record IsCipher : Type 0 where
    pub cfb_decrypt-encrypt :
        (key iv s : Text) → ext.cfb_decrypt key iv (ext.cfb_encrypt key iv s) ≡ s
    pub rand_length : (n : ℕ) (bs : Text) (w w' : W) → ext.rand_read n w ≡ ok bs w' → length bs ≡ n
    pub atoi-itoa : (n : ℕ) → ext.atoi (ext.itoa n) ≡ some n
    pub itoa-Free : (n : ℕ) → Free b':' (ext.itoa n)

  -- A key of Redis holds a value until a deadline: while it does, a lookup does not miss. `Quiet`
  -- says that a key was not written, deleted or evicted between two worlds.
  pub record RedisModel : Type 1 where
    pub Holds : Text → RedisValue → ℕ → W → Type 0
    pub Quiet : Text → W → W → Type 0
    pub Quiet-Holds :
        (k : Text) (v : RedisValue) (d : ℕ) (w w' : W)
        → Holds k v d w
        → Quiet k w w'
        → Holds k v d w'
    -- Redis answers that it has no such key.
    pub Absent : Text → W → Type 0
    pub Quiet-Absent : (k : Text) (w w' : W) → Absent k w → Quiet k w w' → Absent k w'
    pub absent_misses :
        (k : Text) (w : W) → Absent k w → (w' : W) × (ext.redis_get k w ≡ fail redis_nil w')
    pub tick_quiet : (k : Text) (w : W) → Quiet k w (ext.tick w)
    pub totp_quiet :
        (k c s : Text) (b : Bool) (w w' : W) → ext.totp_validate c s w ≡ ok b w' → Quiet k w w'
    pub miss_quiet : (k j : Text) (w w' : W) → ext.redis_get j w ≡ fail redis_nil w' → Quiet k w w'
    pub jwt_quiet :
        (k s : Text) (key : SigningMethod → Result Text) (p : ParsedJwt) (w w' : W)
        → ext.jwt_parse key s w ≡ ok p w'
        → Quiet k w w'
    pub set-Holds :
        (k : Text) (v : RedisValue) (ttl : ℕ) (u : Unit {0}) (w w' : W)
        → 0 < ttl
        → ext.redis_set k v ttl w ≡ ok u w'
        → Holds k v (ext.clock w + ttl) w'
    pub get_value :
        (k : Text) (v x : RedisValue) (d : ℕ) (w w' : W)
        → Holds k v d w
        → ext.clock w < d
        → ext.redis_get k w ≡ ok x w'
        → x ≡ v
    pub get_hits :
        (k : Text) (v : RedisValue) (d : ℕ) (w w' : W)
        → Holds k v d w
        → ext.clock w < d
        → ext.redis_get k w ≢ fail redis_nil w'

  -- HS512 under a secret: a token that was signed parses, from the second of its issue until the second
  -- in which it expires is over, to claims from which JSON gives the signed fields back. This is so for
  -- every token whose texts are UTF-8; of others JSON replaces bytes.
  abbrev pub IsJwt : Token → Type 0
  IsJwt t =
      (secret s : Text) (key : SigningMethod → Result Text) (w : W)
      → ext.jwt_sign secret (to_claims t) ≡ some s
      → key hmac ≡ good secret
      → t.issued_at ≤ unix (ext.clock w)
      → unix (ext.clock w) ≤ t.expires_at
      → (claims : Text) × (b : Text) × (v : W) × (ext.jwt_parse key s w
          ≡ ok (record { claims = some claims; valid = true }) v)
        × (ext.marshal_claims claims ≡ some b)
        × (ext.unmarshal_token b ≡ some (to_claims t))

  -- JSON gives back a refresh token whose code has only characters of the default sample, which are
  -- printable ASCII.
  abbrev pub HasRefreshJson : Type 0
  HasRefreshJson =
      (r : RefreshToken) (b : Text)
      → All (λ c. Any (λ x. x ≡ c) default_sample) r.code
      → ext.marshal_refresh_token r ≡ some b
      → ext.unmarshal_refresh_token b ≡ some r
