-- ===== src/Http.antt =====
-- internal/httpapi: what the handlers are given, the middleware around them, and how their results
-- become responses.
pub mod Status
pub mod Middleware
pub mod RateLimit
use authenticator.Common.{
  ℕ, List, [], ◌∷◌, ◌++◌, Bool, true, false, not, Option, none, some, Text, codes, is_empty, before,
  if◌then◌else◌,
}
use authenticator.Errors.{
  Err, ErrCode, DomainErr, domain, invalid_token, bad_request, other, wrap, e_invalid_token,
  e_throttle, e_internal, code, message, domain_error,
}
use authenticator.Effect.{
  Exec, Outcome, ok, fail, panic, pure, raise, guard, from_option, ◌>>=◌, ◌>>◌,
}
use authenticator.Domain.{Token, TokenState, state_eq, Reply, bytes_reply}
use authenticator.System.{System}
use authenticator.Token.Validate.{validate}

-- What the code reads of an `http.Request`: its headers, its cookies, its body, and the values that
-- middleware put into its context.
pub record Request : Type 0 where
  pub method : Text
  pub path : Text
  pub body : Option Text
  pub authorization : Text
  pub forwarded_for : Text
  pub real_ip : Text
  pub remote_addr : Text
  pub client_id_cookie : Option Text
  pub refresh_token_cookie : Option Text
  pub ctx_user_id : Option Text
  pub ctx_token : Option Token
  pub ctx_refresh_token : Option Text

-- `JSONAPIHandler`.
abbrev pub Handler : Type 0 → Type 0
Handler W = Request → Exec W Reply

abbrev pub or_blank : Option Text → Text
or_blank none = []
or_blank (some s) = s

abbrev pub get_user_id : Request → Text
get_user_id r = or_blank r.ctx_user_id

abbrev pub get_token : Request → Option Token
get_token r = r.ctx_token

abbrev pub get_refresh_token : Request → Text
get_refresh_token r = or_blank r.ctx_refresh_token

abbrev or_else : Text → Text → Text
or_else s t = if is_empty s then t else s

-- Only the first of several forwarding addresses counts.
unfoldable pub get_ip : Request → Text
get_ip r = or_else (before b',' r.forwarded_for) (or_else r.real_ip r.remote_addr)

pub record HttpResponse : Type 0 where
  pub content : Text
  pub status : ℕ

-- What `ErrorLoggingMiddleware` logs.
pub record LogEntry : Type 0 where
  pub path : Text
  pub method : Text
  pub user_id : Text
  pub error : Err

-- What is written for a finished handler; after a panic `net/http` writes nothing.
module _ {W : Type 0} (sys : System W) where
  abbrev friendly : Text → Text
  friendly [] = []
  friendly (c ∷ s) = sys.ext.to_upper (c ∷ []) ++ s

  abbrev or_braces : Option Text → Text
  or_braces none = codes "{}"
  or_braces (some b) = b

  unfoldable pub error_message : ErrCode → Text → Text
  error_message c m = or_braces (sys.marshal_error c (friendly m))

  unfoldable pub internal_error_response : HttpResponse
  internal_error_response = record {
    content = error_message e_internal (codes "An internal error occurred");
    status = 500;
  }

  abbrev pub status_of : ErrCode → ℕ
  status_of e_invalid_token = 401
  status_of e_throttle = 429
  status_of _ = 400

  abbrev classified : Option DomainErr → HttpResponse
  classified none = internal_error_response
  classified (some e) = record {
    content = error_message (code e) (codes (message e));
    status = status_of (code e);
  }

  unfoldable pub error_response : Err → HttpResponse
  error_response e = classified (domain_error (some e))

  abbrev marshalled : Option Text → ℕ → HttpResponse
  marshalled none status = internal_error_response
  marshalled (some b) status = record { content = b; status = status }

  unfoldable pub json_response : Reply → ℕ → HttpResponse
  json_response (bytes_reply b) status = record { content = b; status = status }
  json_response v status = marshalled (sys.marshal_reply v) status

  abbrev respond : ℕ → Outcome W Reply → Outcome W HttpResponse
  respond status (ok v w) = ok (json_response v status) w
  respond status (fail e w) = ok (error_response e) w
  respond status (panic w) = panic w

  unfoldable pub to_handler_func : Handler W → ℕ → Request → Exec W HttpResponse
  to_handler_func handler status r w = respond status (handler r w)

  unfoldable pub auth_middleware : Handler W → TokenState → Handler W
  auth_middleware handler state r = do
    guard (not (is_empty r.authorization)) (domain (invalid_token "user is not authenticated"))
    client_id ← from_option (domain (invalid_token "token source is invalid")) r.client_id_cookie
    token ← validate sys r.authorization client_id
    guard (state_eq token.state state) (domain (invalid_token "token state is not supported"))
    handler (record r { ctx_user_id = some token.user_id; ctx_token = some token })

abbrev with_refresh_token : Option Text → Request → Request
with_refresh_token none r = r
with_refresh_token (some c) r = record r { ctx_refresh_token = some c }

module _ {W : Type 0} where
  unfoldable pub refresh_token_middleware : Handler W → Handler W
  refresh_token_middleware handler r = handler (with_refresh_token r.refresh_token_cookie r)

  abbrev log_error : (LogEntry → W → W) → Request → Text → Outcome W Reply → Outcome W Reply
  log_error log r user_id (ok v w) = ok v w
  log_error log r user_id (fail e w) =
      fail e (log (record { path = r.path; method = r.method; user_id = user_id; error = e }) w)
  log_error log r user_id (panic w) = panic w

  unfoldable pub error_logging_middleware : Handler W → (LogEntry → W → W) → Handler W
  error_logging_middleware handler log r w = log_error log r (get_user_id r) (handler r w)

-- The decoders' common beginning: a body that is there and is JSON.
unfoldable pub read_body : {W A : Type 0} → (Text → Option A) → Request → Exec W A
read_body decode r = do
  body ← from_option (domain (bad_request "no request body received")) r.body
  from_option (wrap "%v" (domain (bad_request "invalid JSON request"))) (decode body)
