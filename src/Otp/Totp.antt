-- ===== src/Otp/Totp.antt =====
-- internal/otp: TOTP codes that are validated again.
use authenticator.Common.{
  ◌+◌, ◌*◌, ◌≤◌, ◌≡◌, refl, ap, ltb_false→le, ◌≢◌, inl, inr, Text, true, arith, Bool-cases, ltb,
}
use authenticator.Errors.{Err, redis_nil}
use authenticator.Effect.{ok, fail, Exec, good, bad, ◌>>=◌}
use authenticator.Effect.Ensures.{
  Ensures, Ensures-bind, Ensures-wrapped, Ensures-guard, Ensures-attempt,
}
use authenticator.Domain.{User, second}
use authenticator.External.{flag, RedisValue}
use authenticator.External.Laws.{IsMonotone, RedisModel}
use authenticator.System.{System}
use authenticator.Otp.{decrypt, split_block, validate_totp, after_lookup, totp_key}

module _ {W : Type 0} (sys : System W) where
  -- How a TOTP code is accepted: it is valid for the decrypted secret, it was not found in Redis,
  -- and it was then stored there for thirty seconds.
  pub record Accepted (user : User) (code : Text) (w w' : W) : Type 0 where
    pub secret : Text
    pub at_check : W
    pub at_lookup : W
    pub missed : W
    pub opens : decrypt sys user.tfa_secret w ≡ ok secret at_check
    pub valid : sys.ext.totp_validate code secret at_check ≡ ok true at_lookup
    pub misses : sys.ext.redis_get (totp_key user code) at_lookup ≡ fail redis_nil missed
    pub stores : sys.ext.redis_set (totp_key user code) flag (30 * second) missed ≡ ok tt w'

  after_lookup_missed :
      (e : Err) (set : Exec W (Unit {0})) (v w' : W)
      → after_lookup (bad e) set v ≡ ok tt w'
      → (e ≡ redis_nil) × (set v ≡ ok tt w')
  unfolding after_lookup
  after_lookup_missed redis_nil set v w' h = (refl, h)
  after_lookup_missed _ set v w' h = cc

  after_lookup_found :
      (r : RedisValue) (set : Exec W (Unit {0})) (v w' : W) → after_lookup (good r) set v ≢ ok tt w'
  unfolding after_lookup
  after_lookup_found r set v w' h = cc

  pub validate_totp-Accepted :
      (user : User) (code : Text) (w w' : W)
      → validate_totp sys user code w ≡ ok tt w'
      → Accepted user code w w'
  unfolding validate_totp
  validate_totp-Accepted user code w w' returned =
      let accepted : Ensures (validate_totp sys user code w) (λ _ v. Accepted user code w v) =
        Ensures-wrapped _ _ _ λ secret at_check opens. Ensures-bind _ _ λ valid at_lookup checked.
          Ensures-guard _ _ _ λ passed.
            Ensures-attempt _ _ (λ r missed found u v h. absurd (after_lookup_found r _ missed v h))
              (λ e missed failed u v h.
                let (none, stores) = after_lookup_missed e _ missed v h in
                record {
                  secret = secret;
                  at_check = at_check;
                  at_lookup = at_lookup;
                  missed = missed;
                  opens = opens;
                  valid = rw passed at checked;
                  misses = rw none at failed;
                  stores = stores;
                }) in
      accepted tt w' returned

  -- Decryption reads the configuration only.
  decrypt_still : (s : Text) (w : W) → Ensures (decrypt sys s w) (λ _ v. w ≡ v)
  unfolding decrypt split_block ◌>>=◌
  decrypt_still s w t v h = ground arith

  module _ (monotone : IsMonotone sys.ext) (redis : RedisModel sys.ext) where
    -- If a user's code was accepted, its key in Redis was left alone until the same code was
    -- validated again, and it was accepted again, then at least thirty seconds have passed between
    -- the beginning of the first validation and the end of the second.
    pub totp_used_once :
        (user : User) (code : Text) (w w' v v' : W)
        → validate_totp sys user code w ≡ ok tt w'
        → redis.Quiet (totp_key user code) w' v
        → validate_totp sys user code v ≡ ok tt v'
        → sys.ext.clock w + 30 * second ≤ sys.ext.clock v'
    totp_used_once user code w w' v v' first quiet again =
        let a = validate_totp-Accepted user code w w' first in
        let b = validate_totp-Accepted user code v v' again in
        let key = totp_key user code in
        let d = sys.ext.clock a.missed + 30 * second in
        let held : redis.Holds key flag d w' =
          redis.set-Holds key flag (30 * second) tt a.missed w' (omega arith) a.stores in
        let same = decrypt_still user.tfa_secret v b.secret b.at_check b.opens in
        let kept : redis.Holds key flag d b.at_lookup =
          redis.Quiet-Holds key flag d _ _
            (redis.Quiet-Holds key flag d _ _ held (rw same at quiet))
            (redis.totp_quiet key _ _ true _ _ b.valid) in
        let same' = decrypt_still user.tfa_secret w a.secret a.at_check a.opens in
        elim (Bool-cases (ltb (sys.ext.clock b.at_lookup) d)) [
          | inl early ↦
              absurd (redis.get_hits key flag d b.at_lookup b.missed kept (ground arith) b.misses)
          | inr late ↦ omega (
            arith,
            ltb_false→le _ _ late,
            ap sys.ext.clock same',
            monotone.totp_advances _ _ _ _ _ a.valid,
            monotone.miss_advances _ _ _ a.misses,
            monotone.miss_advances _ _ _ b.misses,
            monotone.set_advances _ _ _ _ _ _ b.stores,
          )
        ]
