-- ===== src/Examples/Requests.antt =====
-- The theorems on responses and the rate limiter, on the example world.
use authenticator.Common.{◌≤◌, ◌≡◌, refl, [], codes, inl, arith}
use authenticator.Errors.{domain, invalid_token}
use authenticator.Effect.{ok}
use authenticator.Http.{auth_middleware, Request}
use authenticator.Http.Status.{HasStatus, error_status}
use authenticator.Http.RateLimit.{Limiter, per_minute, rate_limit, limit_key}
use authenticator.Http.RateLimit.Bound.{Passed, limiter_bound}
use authenticator.Examples.World.{World, system}
use authenticator.Examples.Laws.{counter, lives}
use authenticator.Examples.Setting.{world_of, returns, machine, start, request}

error_status_example :
    HasStatus system (domain (invalid_token "token is revoked")) "cannot validate"
error_status_example =
    error_status system (domain (invalid_token "token is revoked")) "cannot validate"

abbrev limiter : Limiter
limiter = record { rate = per_minute; max = 2; prefix = codes "login" }

abbrev passed_once : World
passed_once = world_of (rate_limit system limiter (request []) start)

once : rate_limit system limiter (request []) start ≡ ok tt passed_once
unfolding machine rate_limit authenticator.Http.get_ip
once = returns tt (rate_limit system limiter (request []) start) refl

alive : counter.Lives (limit_key system limiter (request []) start.clock) start passed_once
unfolding machine rate_limit authenticator.Http.get_ip
alive =
    lives (limit_key system limiter (request []) start.clock) start passed_once
      (inl (omega arith), omega arith)

limiter_bound_example : 1 ≤ 2
limiter_bound_example =
    limiter_bound system counter limiter (limit_key system limiter (request []) start.clock) start 1
      passed_once (Passed.one_more passed_once (request []) Passed.none_yet refl once alive)
