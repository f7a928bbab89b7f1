-- ===== src/Routes/Access.antt =====
-- Who may use which route.
use authenticator.Common.{
  ℕ, ◌≡◌, refl, Bool, false, Option, none, some, ◌⊎◌, inl, inr, List, [], ◌∷◌, ◌&&◌, ◌||◌, Text,
  codes, text_eq, if◌then◌else◌, All, All-append, map, get_elem?, All-get_elem?, arith,
}
use authenticator.Errors.{Err}
use authenticator.Effect.{ok}
use authenticator.Domain.{TokenState, jwt_pre_authorized, jwt_authorized}
use authenticator.System.{System}
use authenticator.Http.{Request, HttpResponse, LogEntry, error_response}
use authenticator.Routes.{
  LoginHandlers, SignUpHandlers, ContactHandlers, TotpHandlers, DeviceHandlers, TokenHandlers,
  Route,
}
use authenticator.Routes.Router.{
  Mux, pattern_of, chosen, dispatch, serve_http, router, login_api, signup_api, contact_api,
  totp_api, device_api,
}
use authenticator.Routes.Chains.{Holds, Within, Serves, guarded, refreshing, verifying, unguarded}
use authenticator.Routes.Apis.{
  login_routes, signup_routes, contact_routes, totp_routes, device_routes, token_routes,
}

-- A route is open without limit, is open to anyone within a limit, or asks for a token in a state.
pub data Access : Type 0 where
  unlimited anyone : Access
  holders : TokenState → Access

abbrev listed : Text → Text → List (Text × Text) → Bool
listed method template [] = false
listed method template ((m, t) ∷ rest) =
    text_eq method m && text_eq template t || listed method template rest

-- The routes that begin a login or a registration.
abbrev open_routes : List (Text × Text)
open_routes = (codes "Post", codes "/api/v1/login") ∷ (codes "Post", codes "/api/v1/signup") ∷ []

-- The routes that complete one.
abbrev pre_authorized_routes : List (Text × Text)
pre_authorized_routes =
    (codes "Get", codes "/api/v1/login/verify-device")
    ∷ (codes "Post", codes "/api/v1/login/verify-device")
    ∷ (codes "Post", codes "/api/v1/login/verify-code")
    ∷ (codes "Post", codes "/api/v1/signup/verify")
    ∷ (codes "Post", codes "/api/v1/contact/send")
    ∷ []

-- The routes of the services by method and path; the others are for authorized tokens.
abbrev pub access : Option Text → Text → Access
access none template = unlimited
access (some method) template =
    if listed method template open_routes
    then anyone
    else if listed method template pre_authorized_routes
    then holders jwt_pre_authorized
    else holders jwt_authorized

module _ {W : Type 0} (sys : System W) where
  abbrev pub Permits : Access → Request → W → Type 0
  Permits unlimited r w = Unit
  Permits anyone r w = Within sys (λ r w. Unit) r w
  Permits (holders state) r w = Within sys (Holds sys state) r w

  abbrev pub Controlled : Route W → Type 0
  Controlled x = Serves sys (Permits (access x.method x.template)) x.serve

  module _ (log : LogEntry → W → W) where
    Controlled-login : (svc : LoginHandlers W) → All Controlled (login_routes sys log svc)
    unfolding login_routes
    Controlled-login svc = (
      unguarded sys log _ _ _ (omega arith),
      (
        guarded sys log _ _ _ _ (omega arith),
        (guarded sys log _ _ _ _ (omega arith), (guarded sys log _ _ _ _ (omega arith), tt)),
      ),
    )

    Controlled-signup : (svc : SignUpHandlers W) → All Controlled (signup_routes sys log svc)
    unfolding signup_routes
    Controlled-signup svc =
        (unguarded sys log _ _ _ (omega arith), (guarded sys log _ _ _ _ (omega arith), tt))

    Controlled-device : (svc : DeviceHandlers W) → All Controlled (device_routes sys log svc)
    unfolding device_routes
    Controlled-device svc = (
      guarded sys log _ _ _ _ (omega arith),
      (
        guarded sys log _ _ _ _ (omega arith),
        (
          guarded sys log _ _ _ _ (omega arith),
          (guarded sys log _ _ _ _ (omega arith), (guarded sys log _ _ _ _ (omega arith), tt)),
        ),
      ),
    )

    Controlled-contact : (svc : ContactHandlers W) → All Controlled (contact_routes sys log svc)
    unfolding contact_routes
    Controlled-contact svc = (
      guarded sys log _ _ _ _ (omega arith),
      (
        guarded sys log _ _ _ _ (omega arith),
        (
          guarded sys log _ _ _ _ (omega arith),
          (guarded sys log _ _ _ _ (omega arith), (guarded sys log _ _ _ _ (omega arith), tt)),
        ),
      ),
    )

    Controlled-totp : (svc : TotpHandlers W) → All Controlled (totp_routes sys log svc)
    unfolding totp_routes
    Controlled-totp svc = (
      guarded sys log _ _ _ _ (omega arith),
      (guarded sys log _ _ _ _ (omega arith), (guarded sys log _ _ _ _ (omega arith), tt)),
    )

    Controlled-token : (svc : TokenHandlers W) → All Controlled (token_routes sys log svc)
    unfolding token_routes
    Controlled-token svc = (
      verifying sys log _ _ _ _ (omega arith),
      (guarded sys log _ _ _ _ (omega arith), (refreshing sys log _ _ _ _ (omega arith), tt)),
    )

    Controlled-router : All Controlled (router sys log)
    unfolding router
    Controlled-router = (
      (λ r w w' response returned. inr tt),
      All-append Controlled (login_routes sys log (login_api sys)) _ (Controlled-login _) (
          All-append Controlled (signup_routes sys log (signup_api sys)) _ (Controlled-signup _) (
            All-append Controlled (device_routes sys log (device_api sys)) _ (Controlled-device _) (
              All-append Controlled (contact_routes sys log (contact_api sys)) _
                (Controlled-contact _)
                (All-append Controlled (totp_routes sys log (totp_api sys)) _ (Controlled-totp _)
                  (Controlled-token _))))),
    )

    -- What answered a request for which a route was chosen: the multiplexer itself, an error, or a
    -- route that permits the request.
    abbrev pub Answered : Mux → Request → W → HttpResponse → Option (Route W) → Type 0
    Answered mux r w response o =
        (response ≡ mux.unmatched r)
        ⊎ ((x : Route W) × (o ≡ some x)
            × (((e : Err) × (response ≡ error_response sys e))
                ⊎ Permits (access x.method x.template) r w))

    -- Whatever the multiplexer selects among the routes of the six APIs and the health check: a
    -- response is the multiplexer's own, the one for an error, or comes from a route that permits the
    -- request. The health check permits every request. Login and signup permit those that pass a
    -- limiter of at most sixty requests. Every other route also asks that the Authorization header and
    -- the client ID cookie are then accepted as a token: in the pre-authorized state for the challenge
    -- and verification of a login, the verification of a signup and the sending of a code, and in the
    -- authorized state for all the rest.
    pub routes_controlled :
        (mux : Mux) (r : Request) (response : HttpResponse) (w w' : W)
        → serve_http mux (router sys log) r w ≡ ok response w'
        → Answered mux r w response
            (chosen (router sys log) (mux.select (map pattern_of (router sys log)) r))
    unfolding serve_http
    routes_controlled mux r response w w' returned =
        split (mux.select (map pattern_of (router sys log)) r) returned
      where
        found :
            (i : ℕ) (o : Option (Route W))
            → get_elem? (router sys log) i ≡ o
            → dispatch mux o r w ≡ ok response w'
            → Answered mux r w response o
        found i none h same = inl (cc)
        found i (some x) h same =
            let controlled = All-get_elem? Controlled x (router sys log) i Controlled-router h in
            inr (x, refl, controlled r w w' response same)

        split :
            (o : Option ℕ)
            → dispatch mux (chosen (router sys log) o) r w ≡ ok response w'
            → Answered mux r w response (chosen (router sys log) o)
        split none same = inl (cc)
        split (some i) same = found i (get_elem? (router sys log) i) refl same
