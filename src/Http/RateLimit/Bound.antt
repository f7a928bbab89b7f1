-- ===== src/Http/RateLimit/Bound.antt =====
-- internal/httpapi/ratelimit.go: the requests that pass while a counter lives.
use authenticator.Common.{ℕ, ◌+◌, ◌≤◌, ◌≡◌, Text, true, not, ltb, arith, suc}
use authenticator.Effect.{ok}
use authenticator.Effect.Ensures.{Ensures, Ensures-wrapped, Ensures-guard_last}
use authenticator.External.Laws.{Ensures-now}
use authenticator.System.{System}
use authenticator.Http.{Request}
use authenticator.Http.RateLimit.{Limiter, limit_key, rate_limit}

module _ {W : Type 0} (sys : System W) where
  -- Redis counts: if the counter of a key does not expire from a reading of the clock to the end of an
  -- INCR with EXPIRE, then INCR returns the count that it leaves, one more than before. `Lives` says
  -- that no expiry falls between two worlds.
  pub record CounterModel : Type 1 where
    pub count : Text → W → ℕ
    pub Lives : Text → W → W → Type 0
    pub incr_counts :
        (k : Text) (e n : ℕ) (w w' : W)
        → sys.ext.redis_incr_expire k e (sys.ext.tick w) ≡ ok n w'
        → Lives k w w'
        → (n ≡ count k w + 1) × (count k w' ≡ n)

  module _ (counter : CounterModel) (l : Limiter) (key : Text) where
    -- From one world to another some requests passed the limiter under a key, while its counter lives:
    -- it expires within none of the calls, and between them anything may happen that does not lower
    -- the count.
    pub data Passed (w : W) : ℕ → W → Type 0 where
      none_yet : Passed w 0 w
      meanwhile :
          {n : ℕ} {v : W} (v' : W)
          → Passed w n v
          → counter.count key v ≤ counter.count key v'
          → Passed w n v'
      one_more :
          {n : ℕ} {v : W} (v' : W) (r : Request)
          → Passed w n v
          → limit_key sys l r (sys.ext.clock v) ≡ key
          → rate_limit sys l r v ≡ ok tt v'
          → counter.Lives key v v'
          → Passed w (suc n) v'

    passes_below :
        (r : Request) (v v' : W)
        → limit_key sys l r (sys.ext.clock v) ≡ key
        → rate_limit sys l r v ≡ ok tt v'
        → counter.Lives key v v'
        → (counter.count key v' ≡ counter.count key v + 1) × (counter.count key v' ≤ l.max)
    unfolding rate_limit
    passes_below r v v' same returned lives =
        let passes : Ensures (rate_limit sys l r v) (λ _ u.
          counter.Lives key v u
          → (counter.count key u ≡ counter.count key v + 1) × (counter.count key u ≤ l.max)) =
          Ensures-now sys.ext _ (
            Ensures-wrapped _ _ _ λ n u incremented. Ensures-guard_last _ _ _ λ allowed. λ alive.
              counted n u (counter.incr_counts _ _ n v u incremented (rw same alive)) allowed) in
        passes tt v' returned lives
      where
        counted :
            (n : ℕ) (u : W)
            → (n ≡ counter.count (limit_key sys l r (sys.ext.clock v)) v + 1)
              × (counter.count (limit_key sys l r (sys.ext.clock v)) u ≡ n)
            → not (ltb l.max n) ≡ true
            → (counter.count key u ≡ counter.count key v + 1) × (counter.count key u ≤ l.max)
        counted n u h allowed =
            let (next, left) : (n ≡ counter.count key v + 1) × (counter.count key u ≡ n) =
              rw same at h in
            (omega arith, ground arith)

    Passed-count :
        (w : W) {n : ℕ} {v : W} → Passed w n v → counter.count key w + n ≤ counter.count key v
    Passed-count w none_yet = omega arith
    Passed-count w (meanwhile v' p grows) = omega (arith, Passed-count w p)
    Passed-count w (one_more v' r p same passed lives) =
        omega (arith, Passed-count w p, (passes_below r _ v' same passed lives).0)

    -- Within the life of one counter, which expires neither within a request nor between two, at most as
    -- many requests pass as the limiter allows.
    pub limiter_bound : (w : W) (n : ℕ) (v : W) → Passed w n v → n ≤ l.max
    limiter_bound w n v none_yet = omega arith
    limiter_bound w n v (meanwhile v' p grows) = limiter_bound w n _ p
    limiter_bound w n v (one_more v' r p same passed lives) =
        omega (arith, Passed-count w p, passes_below r _ v' same passed lives)
