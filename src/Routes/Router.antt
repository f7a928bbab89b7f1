-- ===== src/Routes/Router.antt =====
-- The services of the APIs and the router that cmd/api/main.go makes of their routes.
use authenticator.Common.{Option, none, some, List, ◌∷◌, ◌++◌, Text, codes, get_elem?, map, ℕ}
use authenticator.Effect.{Exec, ok}
use authenticator.System.{System}
use authenticator.Http.{Request, HttpResponse, LogEntry}
use authenticator.Routes.{
  LoginHandlers, SignUpHandlers, ContactHandlers, TotpHandlers, DeviceHandlers, TokenHandlers,
  Route,
}
use authenticator.Routes.Apis.{
  login_routes, signup_routes, contact_routes, totp_routes, device_routes, token_routes,
}
use authenticator.LoginApi
use authenticator.SignupApi
use authenticator.ContactApi
use authenticator.TotpApi
use authenticator.DeviceApi
use authenticator.TokenApi

-- gorilla/mux: which of the registered methods and templates a request matches, and what is
-- answered when it matches none.
pub record Mux : Type 0 where
  pub select : List (Option Text × Text) → Request → Option ℕ
  pub unmatched : Request → HttpResponse

-- `/healthcheck`, by every method.
abbrev pub healthcheck : {W : Type 0} → Route W
healthcheck = record {
  method = none;
  template = codes "/healthcheck";
  serve = λ r w. ok (record { content = codes "ok"; status = 200 }) w;
}

module _ {W : Type 0} (sys : System W) where
  abbrev pub login_api : LoginHandlers W
  login_api = record {
    login = LoginApi.login sys;
    device_challenge = LoginApi.device_challenge sys;
    verify_device = LoginApi.verify_device sys;
    verify_code = LoginApi.verify_code sys;
  }

  abbrev pub signup_api : SignUpHandlers W
  signup_api = record { sign_up = SignupApi.sign_up sys; verify = SignupApi.verify sys }

  abbrev pub device_api : DeviceHandlers W
  device_api = record {
    verify = DeviceApi.verify sys;
    create = DeviceApi.create sys;
    remove = DeviceApi.remove sys;
    list = DeviceApi.list sys;
    rename = DeviceApi.rename sys;
  }

  abbrev pub contact_api : ContactHandlers W
  contact_api = record {
    check_address = ContactApi.check_address sys;
    disable = ContactApi.disable sys;
    verify = ContactApi.verify sys;
    remove = ContactApi.remove sys;
    send = ContactApi.send sys;
  }

  abbrev pub totp_api : TotpHandlers W
  totp_api = record {
    secret = TotpApi.secret sys;
    verify = TotpApi.verify sys;
    remove = TotpApi.remove sys;
  }

  abbrev pub token_api : TokenHandlers W
  token_api = record {
    revoke = TokenApi.revoke_token sys;
    verify = TokenApi.verify sys;
    refresh = TokenApi.refresh sys;
  }

module _ {W : Type 0} where
  abbrev pub pattern_of : Route W → Option Text × Text
  pattern_of x = (x.method, x.template)

  -- `serve_http` of a router.
  abbrev pub chosen : List (Route W) → Option ℕ → Option (Route W)
  chosen routes none = none
  chosen routes (some i) = get_elem? routes i

  abbrev pub dispatch : Mux → Option (Route W) → Request → Exec W HttpResponse
  dispatch mux none r w = ok (mux.unmatched r) w
  dispatch mux (some x) r w = x.serve r w

  unfoldable pub serve_http : Mux → List (Route W) → Request → Exec W HttpResponse
  serve_http mux routes r = dispatch mux (chosen routes (mux.select (map pattern_of routes) r)) r

module _ {W : Type 0} (sys : System W) (log : LogEntry → W → W) where
  unfoldable pub router : List (Route W)
  router =
      healthcheck
      ∷ (login_routes sys log (login_api sys)
          ++ (signup_routes sys log (signup_api sys)
              ++ (device_routes sys log (device_api sys)
                  ++ (contact_routes sys log (contact_api sys)
                      ++ (totp_routes sys log (totp_api sys)
                          ++ token_routes sys log (token_api sys))))))
