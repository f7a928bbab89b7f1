-- ===== src/Routes.antt =====
-- The handlers of the APIs behind their middleware, as the router has them: the httphandler.go files
-- and the interfaces of authenticator.go that they are given.
pub mod Apis
pub mod Router
pub mod Chains
pub mod Access
use authenticator.Common.{ℕ, Option, none, some, Text, codes}
use authenticator.Effect.{Exec}
use authenticator.Domain.{TokenState}
use authenticator.System.{System}
use authenticator.Http.{
  Request, Handler, HttpResponse, LogEntry, to_handler_func, auth_middleware,
  error_logging_middleware,
}
use authenticator.Http.RateLimit.{Rate, Limiter, rate_limit_middleware}

pub record LoginHandlers (W : Type 0) : Type 0 where
  pub login : Handler W
  pub device_challenge : Handler W
  pub verify_device : Handler W
  pub verify_code : Handler W

pub record SignUpHandlers (W : Type 0) : Type 0 where
  pub sign_up : Handler W
  pub verify : Handler W

pub record ContactHandlers (W : Type 0) : Type 0 where
  pub check_address : Handler W
  pub disable : Handler W
  pub verify : Handler W
  pub remove : Handler W
  pub send : Handler W

pub record TotpHandlers (W : Type 0) : Type 0 where
  pub secret : Handler W
  pub verify : Handler W
  pub remove : Handler W

pub record DeviceHandlers (W : Type 0) : Type 0 where
  pub verify : Handler W
  pub create : Handler W
  pub remove : Handler W
  pub list : Handler W
  pub rename : Handler W

pub record TokenHandlers (W : Type 0) : Type 0 where
  pub revoke : Handler W
  pub verify : Handler W
  pub refresh : Handler W

-- A handler that is registered for a path template, and for a method or for all.
pub record Route (W : Type 0) : Type 0 where
  pub method : Option Text
  pub template : Text
  pub serve : Request → Exec W HttpResponse

abbrev pub new_limiter : Text → Rate → ℕ → Limiter
new_limiter prefix rate max = record { rate = rate; max = max; prefix = prefix }

module _ {W : Type 0} (sys : System W) where
  -- `router.HandleFunc(template, httpapi.ToHandlerFunc(handler, status)).Methods(method)`.
  abbrev pub handle_func : Text → Text → Handler W → ℕ → Route W
  handle_func method template handler status = record {
    method = some method;
    template = template;
    serve = to_handler_func sys handler status;
  }
