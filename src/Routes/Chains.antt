-- ===== src/Routes/Chains.antt =====
-- What has been established when a chain of middleware answers with more than an error.
use authenticator.Common.{ℕ, ◌≡◌, some, ◌⊎◌, inl, inr, Text, ◌≤◌}
use authenticator.Errors.{Err}
use authenticator.Effect.{Exec, ok, >>=-eq-ok}
use authenticator.Domain.{Token, TokenState, Reply}
use authenticator.System.{System}
use authenticator.Token.Validate.{validate}
use authenticator.Http.{
  Request, Handler, HttpResponse, LogEntry, error_response, to_handler_func, auth_middleware,
  refresh_token_middleware, error_logging_middleware,
}
use authenticator.Http.Middleware.{
  auth_middleware_sound, to_handler_func-cases, error_logging_middleware-eq-ok,
  refresh_token_middleware-runs,
}
use authenticator.Http.RateLimit.{Limiter, rate_limit, rate_limit_middleware}

module _ {W : Type 0} (sys : System W) where
  -- The header and the client ID cookie of a request are accepted as a token in a state.
  abbrev pub Holds : TokenState → Request → W → Type 0
  Holds state r w =
      (t : Token) × (client_id : Text) × (v : W) × (r.client_id_cookie ≡ some client_id)
      × (validate sys r.authorization client_id w ≡ ok t v)
      × (t.state ≡ state)

  -- A limiter of at most sixty requests lets a request pass, and something holds of the world that it
  -- leaves.
  abbrev pub Within : (Request → W → Type 0) → Request → W → Type 0
  Within P r w = (l : Limiter) × (v : W) × (l.max ≤ 60) × (rate_limit sys l r w ≡ ok tt v) × P r v

  -- A handler returns only where something holds.
  abbrev pub OnlyIf : (Request → W → Type 0) → Handler W → Type 0
  OnlyIf P h = (r : Request) (w w' : W) (reply : Reply) → h r w ≡ ok reply w' → P r w

  -- A response is the one for an error, or something held of the request.
  abbrev pub Serves : (Request → W → Type 0) → (Request → Exec W HttpResponse) → Type 0
  Serves P serve =
      (r : Request) (w w' : W) (response : HttpResponse)
      → serve r w ≡ ok response w'
      → ((e : Err) × (response ≡ error_response sys e)) ⊎ P r w

  OnlyIf-auth_middleware :
      (h : Handler W) (state : TokenState) → OnlyIf (Holds state) (auth_middleware sys h state)
  OnlyIf-auth_middleware h state r w w' reply returned =
      let (t, client_id, v, cookie, accepted, same, ran) =
        auth_middleware_sound sys h state r reply w w' returned in
      (t, client_id, v, cookie, accepted, same)

  OnlyIf-rate_limit_middleware :
      (P : Request → W → Type 0) (h : Handler W) (l : Limiter)
      → l.max ≤ 60
      → OnlyIf P h
      → OnlyIf (Within P) (rate_limit_middleware sys h l)
  unfolding rate_limit_middleware
  OnlyIf-rate_limit_middleware P h l few only r w w' reply returned =
      let (_, v, passed, ran) = >>=-eq-ok (rate_limit sys l r) (λ _. h r) returned in
      (l, v, few, passed, only r v w' reply ran)

  OnlyIf-error_logging_middleware :
      (P : Request → W → Type 0) (h : Handler W) (log : LogEntry → W → W)
      → OnlyIf P h
      → OnlyIf P (error_logging_middleware h log)
  OnlyIf-error_logging_middleware P h log only r w w' reply returned =
      only r w w' reply (error_logging_middleware-eq-ok h log r reply w w' returned)

  OnlyIf-refresh_token_middleware :
      (h : Handler W) (state : TokenState)
      → OnlyIf (Holds state) h
      → OnlyIf (Holds state) (refresh_token_middleware h)
  OnlyIf-refresh_token_middleware h state only r w w' reply returned =
      let (c, runs) = refresh_token_middleware-runs h r in
      only (record r { ctx_refresh_token = c }) w w' reply (rw (← runs) returned)

  Serves-to_handler_func :
      (P : Request → W → Type 0) (h : Handler W) (status : ℕ)
      → OnlyIf P h
      → Serves P (to_handler_func sys h status)
  Serves-to_handler_func P h status only r w w' response returned =
      elim (to_handler_func-cases sys h status r response w w' returned) [
        | inl (e, failed, same) ↦ inl (e, same)
        | inr (reply, ran, same) ↦ inr (only r w w' reply ran)
      ]

  module _ (log : LogEntry → W → W) where
    -- The chains of middleware that the routes have.
    pub guarded :
        (h : Handler W) (state : TokenState) (l : Limiter) (status : ℕ)
        → l.max ≤ 60
        → Serves (Within (Holds state)) (
            to_handler_func sys
              (error_logging_middleware
                (rate_limit_middleware sys (auth_middleware sys h state) l)
                log)
              status)
    guarded h state l status few = Serves-to_handler_func _ _ status (
        OnlyIf-error_logging_middleware _ _ log
          (OnlyIf-rate_limit_middleware _ _ l few (OnlyIf-auth_middleware h state)))

    pub refreshing :
        (h : Handler W) (state : TokenState) (l : Limiter) (status : ℕ)
        → l.max ≤ 60
        → Serves (Within (Holds state)) (
            to_handler_func sys
              (error_logging_middleware
                (rate_limit_middleware sys
                  (refresh_token_middleware (auth_middleware sys h state))
                  l)
                log)
              status)
    refreshing h state l status few = Serves-to_handler_func _ _ status (
        OnlyIf-error_logging_middleware _ _ log (
          OnlyIf-rate_limit_middleware _ _ l few
            (OnlyIf-refresh_token_middleware _ state (OnlyIf-auth_middleware h state))))

    pub verifying :
        (h : Handler W) (state : TokenState) (l : Limiter) (status : ℕ)
        → l.max ≤ 60
        → Serves (Within (Holds state)) (
            to_handler_func sys
              (rate_limit_middleware sys
                (error_logging_middleware (auth_middleware sys h state) log)
                l)
              status)
    verifying h state l status few = Serves-to_handler_func _ _ status (
        OnlyIf-rate_limit_middleware _ _ l few
          (OnlyIf-error_logging_middleware _ _ log (OnlyIf-auth_middleware h state)))

    pub unguarded :
        (h : Handler W) (l : Limiter) (status : ℕ)
        → l.max ≤ 60
        → Serves (Within (λ r w. Unit)) (
            to_handler_func sys
              (error_logging_middleware (rate_limit_middleware sys h l) log)
              status)
    unguarded h l status few = Serves-to_handler_func _ _ status (
        OnlyIf-error_logging_middleware _ _ log
          (OnlyIf-rate_limit_middleware _ h l few (λ r w w' reply ran. tt)))
