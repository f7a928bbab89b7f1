-- ===== src/Examples/Routes.antt =====
-- The theorem on the routes, on a token that is sent for verification.
use authenticator.Common.{
  ◌≡◌, refl, Option, none, some, List, [], ◌∷◌, ◌++◌, Text, codes, text_eq, ℕ, suc, if◌then◌else◌,
  map,
}
use authenticator.Effect.{ok, Outcome}
use authenticator.Http.{
  Request, HttpResponse, LogEntry, to_handler_func, auth_middleware, error_logging_middleware,
  json_response, get_ip,
}
use authenticator.Http.RateLimit.{rate_limit, rate_limit_middleware}
use authenticator.Token.Validate.{bearer}
use authenticator.Routes.Apis.{
  token_routes, login_routes, signup_routes, device_routes, contact_routes, totp_routes,
}
use authenticator.Routes.Router.{Mux, pattern_of, chosen, serve_http, router}
use authenticator.Routes.Access.{Answered, routes_controlled}
use authenticator.TokenApi
use authenticator.Examples.World.{World, system}
use authenticator.Examples.Setting.{
  value_of, world_of, returns, machine, full, after_full, signed, request,
}

-- The first template that is the path of the request.
abbrev first_match : List (Option Text × Text) → Text → ℕ → Option ℕ
first_match [] path i = none
first_match ((m, t) ∷ rest) path i =
    let later = first_match rest path (suc i) in if text_eq t path then some i else later

abbrev mux : Mux
mux = record {
  select = λ patterns r. first_match patterns r.path 0;
  unmatched = λ r. record { content = codes "404 page not found"; status = 404 };
}

abbrev log : LogEntry → World → World
log entry w = w

abbrev verification : Request
verification = record (request []) {
  path = codes "/api/v1/token/verify";
  authorization = bearer ++ signed;
  client_id_cookie = some full.client_id;
}

abbrev served : Outcome World HttpResponse
served = serve_http mux (router system log) verification after_full

abbrev blank : HttpResponse
blank = record { content = []; status = 0 }

was_served : served ≡ ok (value_of blank served) (world_of served)
unfolding machine serve_http router token_routes login_routes signup_routes device_routes
    contact_routes totp_routes to_handler_func auth_middleware error_logging_middleware rate_limit
    rate_limit_middleware json_response get_ip TokenApi.verify
was_served = returns blank served refl

routes_controlled_example :
    Answered system log mux verification after_full
      (value_of blank served)
      (chosen (router system log) (mux.select (map pattern_of (router system log)) verification))
routes_controlled_example =
    routes_controlled system log mux verification (value_of blank served) after_full
      (world_of served) was_served

was_verified : (value_of blank served).status ≡ 200
unfolding machine serve_http router token_routes login_routes signup_routes device_routes
    contact_routes totp_routes to_handler_func auth_middleware error_logging_middleware rate_limit
    rate_limit_middleware json_response get_ip TokenApi.verify
was_verified = refl
