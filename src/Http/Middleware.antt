-- ===== src/Http/Middleware.antt =====
-- What the middleware has established when a handler runs.
use authenticator.Common.{
  ℕ, ◌≡◌, refl, ap, text_eq_sound, true, Option, none, some, Text, ◌⊎◌, inl, inr,
}
use authenticator.Errors.{Err}
use authenticator.Effect.{Outcome, ok, fail, panic}
use authenticator.Effect.Ensures.{Ensures, Ensures-bind, Ensures-guard, Ensures-option}
use authenticator.Domain.{
  Token, TokenState, state_eq, Reply, jwt_pre_authorized, jwt_authorized, other_state,
}
use authenticator.System.{System}
use authenticator.Token.Validate.{validate}
use authenticator.Http.{
  Request, Handler, HttpResponse, LogEntry, auth_middleware, with_refresh_token,
  refresh_token_middleware, log_error, error_logging_middleware, respond, error_response,
  json_response, to_handler_func, get_user_id,
}

state_eq_sound : (s t : TokenState) → state_eq s t ≡ true → s ≡ t
state_eq_sound jwt_pre_authorized jwt_pre_authorized h = refl
state_eq_sound jwt_authorized jwt_authorized h = refl
state_eq_sound (other_state s) (other_state t) h = ap other_state (text_eq_sound s t h)
state_eq_sound jwt_pre_authorized jwt_authorized h = cc
state_eq_sound jwt_pre_authorized (other_state t) h = cc
state_eq_sound jwt_authorized jwt_pre_authorized h = cc
state_eq_sound jwt_authorized (other_state t) h = cc
state_eq_sound (other_state s) jwt_pre_authorized h = cc
state_eq_sound (other_state s) jwt_authorized h = cc

module _ {W : Type 0} (sys : System W) where
  abbrev pub Authenticated : Handler W → TokenState → Request → Reply → W → W → Type 0
  Authenticated handler state r reply w w' =
      (t : Token) × (client_id : Text) × (v : W) × (r.client_id_cookie ≡ some client_id)
      × (validate sys r.authorization client_id w ≡ ok t v)
      × (t.state ≡ state)
      × (handler (record r { ctx_user_id = some t.user_id; ctx_token = some t }) v ≡ ok reply w')

  -- If a handler behind the authentication middleware returns, then the request's header and client
  -- ID cookie were accepted as a token in the state that the route asks for, and the handler ran from
  -- the world that the validation left, on the request with that token and its user in the context.
  pub auth_middleware_sound :
      (handler : Handler W) (state : TokenState) (r : Request) (reply : Reply) (w w' : W)
      → auth_middleware sys handler state r w ≡ ok reply w'
      → Authenticated handler state r reply w w'
  unfolding auth_middleware
  auth_middleware_sound handler state r reply w w' returned =
      let sound : Ensures (auth_middleware sys handler state r w) (λ p v'.
        (t : Token) × (client_id : Text) × (v : W) × (r.client_id_cookie ≡ some client_id)
        × (validate sys r.authorization client_id w ≡ ok t v)
        × (t.state ≡ state)
        × (handler (record r { ctx_user_id = some t.user_id; ctx_token = some t }) v ≡ ok p v')) =
        Ensures-guard _ _ _ λ present. Ensures-option _ _ _ λ client_id cookie.
          Ensures-bind _ _ λ t v accepted.
            Ensures-guard _ _ _ λ same.
              λ p v' ran. (t, client_id, v, cookie, accepted, state_eq_sound _ _ same, ran) in
      sound reply w' returned

  pub to_handler_func-cases :
      (h : Handler W) (status : ℕ) (r : Request) (response : HttpResponse) (w w' : W)
      → to_handler_func sys h status r w ≡ ok response w'
      → ((e : Err) × (h r w ≡ fail e w') × (response ≡ error_response sys e))
        ⊎ ((reply : Reply) × (h r w ≡ ok reply w') × (response ≡ json_response sys reply status))
  unfolding to_handler_func
  to_handler_func-cases h status r response w w' returned = split (h r w) returned
    where
      split :
          (o : Outcome W Reply)
          → respond sys status o ≡ ok response w'
          → ((e : Err) × (o ≡ fail e w') × (response ≡ error_response sys e))
            ⊎ ((reply : Reply) × (o ≡ ok reply w') × (response ≡ json_response sys reply status))
      split (ok reply v) same = inr (reply, cc, cc)
      split (fail e v) same = inl (e, cc, cc)
      split (panic v) same = cc

module _ {W : Type 0} (h : Handler W) where
  pub error_logging_middleware-eq-ok :
      (log : LogEntry → W → W) (r : Request) (reply : Reply) (w w' : W)
      → error_logging_middleware h log r w ≡ ok reply w'
      → h r w ≡ ok reply w'
  unfolding error_logging_middleware
  error_logging_middleware-eq-ok log r reply w w' returned = split (h r w) returned
    where
      split :
          (o : Outcome W Reply) → log_error log r (get_user_id r) o ≡ ok reply w' → o ≡ ok reply w'
      split (ok x v) same = same
      split (fail e v) same = cc
      split (panic v) same = cc

  -- The handler runs on the request, whose context may have a refresh token.
  pub refresh_token_middleware-runs :
      (r : Request)
      → (c : Option Text) × (refresh_token_middleware h r ≡ h (record r { ctx_refresh_token = c }))
  unfolding refresh_token_middleware
  refresh_token_middleware-runs r = split r.refresh_token_cookie
    where
      split :
          (cookie : Option Text)
          → (c : Option Text) × (h (with_refresh_token cookie r)
              ≡ h (record r { ctx_refresh_token = c }))
      split none = (r.ctx_refresh_token, refl)
      split (some c) = (some c, refl)
