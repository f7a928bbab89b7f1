-- ===== src/Http/RateLimit.antt =====
-- internal/httpapi/ratelimit.go: a counter in Redis for each client and window of time.
pub mod Bound
use authenticator.Common.{
  ℕ, ◌*◌, Bool, true, false, List, ◌++◌, Text, codes, is_empty, ltb, if◌then◌else◌, not,
}
use authenticator.Errors.{domain, throttle}
use authenticator.Effect.{Exec, guard, wrapped, pure, ◌>>=◌, ◌>>◌}
use authenticator.Domain.{second}
use authenticator.External.{hhmmss, hhmm, TimeLayout, now}
use authenticator.System.{System}
use authenticator.Http.{Request, Handler, get_user_id, get_ip}

pub data Rate : Type 0 where
  per_second per_minute : Rate

pub record Limiter : Type 0 where
  pub rate : Rate
  pub max : ℕ
  pub prefix : Text

abbrev pub layout : Rate → TimeLayout
layout per_second = hhmmss
layout per_minute = hhmm

abbrev pub expiry : Rate → ℕ
expiry per_second = second
expiry per_minute = 60 * second

-- The user of the request, or where it comes from.
abbrev pub client_of : Request → Text
client_of r = if is_empty (get_user_id r) then get_ip r else get_user_id r

module _ {W : Type 0} (sys : System W) where
  -- The key of a request's counter at a time.
  abbrev pub limit_key : Limiter → Request → ℕ → Text
  limit_key l r t = sys.ext.base64url_encode (
      l.prefix
      ++ (codes ":" ++ (client_of r ++ (codes ":" ++ sys.ext.format_time (layout l.rate) t))))

  unfoldable pub rate_limit : Limiter → Request → Exec W (Unit {0})
  rate_limit l r = do
    t ← now sys.ext
    count ←
        wrapped "failed to increment counter"
          (sys.ext.redis_incr_expire (limit_key l r t) (expiry l.rate))
    guard (not (ltb l.max count)) (domain (throttle "requests are throttled, try again later"))

  unfoldable pub rate_limit_middleware : Handler W → Limiter → Handler W
  rate_limit_middleware handler l r = do rate_limit l r; handler r
