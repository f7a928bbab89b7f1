-- ===== src/Routes/Apis.antt =====
-- The SetupHTTPHandler functions of the APIs, and the router of cmd/api/main.go with their routes.
use authenticator.Common.{List, [], ◌∷◌, codes}
use authenticator.Domain.{jwt_pre_authorized, jwt_authorized}
use authenticator.System.{System}
use authenticator.Http.{
  LogEntry, auth_middleware, refresh_token_middleware, error_logging_middleware,
}
use authenticator.Http.RateLimit.{per_second, per_minute, rate_limit_middleware}
use authenticator.Routes.{
  LoginHandlers, SignUpHandlers, ContactHandlers, TotpHandlers, DeviceHandlers, TokenHandlers,
  Route, new_limiter, handle_func,
}

module _ {W : Type 0} (sys : System W) (log : LogEntry → W → W) where
  unfoldable pub login_routes : LoginHandlers W → List (Route W)
  login_routes svc =
      handle_func sys (codes "Post") (codes "/api/v1/login")
        (error_logging_middleware
          (rate_limit_middleware sys svc.login (new_limiter (codes "LoginAPI.Login") per_minute 10))
          log)
        200
      ∷ handle_func sys (codes "Get") (codes "/api/v1/login/verify-device")
          (error_logging_middleware
            (rate_limit_middleware sys (auth_middleware sys svc.device_challenge jwt_pre_authorized)
              (new_limiter (codes "LoginAPI.DeviceChallenge") per_minute 20))
            log)
          200
      ∷ handle_func sys (codes "Post") (codes "/api/v1/login/verify-device")
          (error_logging_middleware
            (rate_limit_middleware sys (auth_middleware sys svc.verify_device jwt_pre_authorized)
              (new_limiter (codes "LoginAPI.VerifyDevice") per_minute 20))
            log)
          200
      ∷ handle_func sys (codes "Post") (codes "/api/v1/login/verify-code")
          (error_logging_middleware
            (rate_limit_middleware sys (auth_middleware sys svc.verify_code jwt_pre_authorized)
              (new_limiter (codes "LoginAPI.VerifyCode") per_minute 10))
            log)
          200
      ∷ []

  unfoldable pub signup_routes : SignUpHandlers W → List (Route W)
  signup_routes svc =
      handle_func sys (codes "Post") (codes "/api/v1/signup")
        (error_logging_middleware
          (rate_limit_middleware sys svc.sign_up
            (new_limiter (codes "SignUpAPI.SignUp") per_minute 10))
          log)
        201
      ∷ handle_func sys (codes "Post") (codes "/api/v1/signup/verify")
          (error_logging_middleware
            (rate_limit_middleware sys (auth_middleware sys svc.verify jwt_pre_authorized)
              (new_limiter (codes "SignUpAPI.Verify") per_minute 10))
            log)
          200
      ∷ []

  unfoldable pub device_routes : DeviceHandlers W → List (Route W)
  device_routes svc =
      handle_func sys (codes "Post") (codes "/api/v1/device")
        (error_logging_middleware
          (rate_limit_middleware sys (auth_middleware sys svc.create jwt_authorized)
            (new_limiter (codes "DeviceAPI.Create") per_minute 20))
          log)
        200
      ∷ handle_func sys (codes "Post") (codes "/api/v1/device/verify")
          (error_logging_middleware
            (rate_limit_middleware sys (auth_middleware sys svc.verify jwt_authorized)
              (new_limiter (codes "DeviceAPI.Verify") per_minute 20))
            log)
          201
      ∷ handle_func sys (codes "Delete") (codes "/api/v1/device/{deviceID}")
          (error_logging_middleware
            (rate_limit_middleware sys (auth_middleware sys svc.remove jwt_authorized)
              (new_limiter (codes "DeviceAPI.Remove") per_minute 20))
            log)
          200
      ∷ handle_func sys (codes "Patch") (codes "/api/v1/device/{deviceID}")
          (error_logging_middleware
            (rate_limit_middleware sys (auth_middleware sys svc.rename jwt_authorized)
              (new_limiter (codes "DeviceAPI.Rename") per_minute 20))
            log)
          200
      ∷ handle_func sys (codes "Get") (codes "/api/v1/device")
          (error_logging_middleware
            (rate_limit_middleware sys (auth_middleware sys svc.list jwt_authorized)
              (new_limiter (codes "DeviceAPI.List") per_minute 60))
            log)
          200
      ∷ []

  unfoldable pub contact_routes : ContactHandlers W → List (Route W)
  contact_routes svc =
      handle_func sys (codes "Post") (codes "/api/v1/contact/check-address")
        (error_logging_middleware
          (rate_limit_middleware sys (auth_middleware sys svc.check_address jwt_authorized)
            (new_limiter (codes "ContactAPI.CheckAddress") per_minute 10))
          log)
        202
      ∷ handle_func sys (codes "Post") (codes "/api/v1/contact/disable")
          (error_logging_middleware
            (rate_limit_middleware sys (auth_middleware sys svc.disable jwt_authorized)
              (new_limiter (codes "ContactAPI.Disable") per_minute 20))
            log)
          200
      ∷ handle_func sys (codes "Post") (codes "/api/v1/contact/verify")
          (error_logging_middleware
            (rate_limit_middleware sys (auth_middleware sys svc.verify jwt_authorized)
              (new_limiter (codes "ContactAPI.Verify") per_minute 10))
            log)
          200
      ∷ handle_func sys (codes "Post") (codes "/api/v1/contact/remove")
          (error_logging_middleware
            (rate_limit_middleware sys (auth_middleware sys svc.remove jwt_authorized)
              (new_limiter (codes "ContactAPI.Remove") per_minute 20))
            log)
          200
      ∷ handle_func sys (codes "Post") (codes "/api/v1/contact/send")
          (error_logging_middleware
            (rate_limit_middleware sys (auth_middleware sys svc.send jwt_pre_authorized)
              (new_limiter (codes "ContactAPI.Send") per_minute 10))
            log)
          202
      ∷ []

  unfoldable pub totp_routes : TotpHandlers W → List (Route W)
  totp_routes svc =
      handle_func sys (codes "Post") (codes "/api/v1/totp")
        (error_logging_middleware
          (rate_limit_middleware sys (auth_middleware sys svc.secret jwt_authorized)
            (new_limiter (codes "TOTPAPI.Secret") per_minute 20))
          log)
        200
      ∷ handle_func sys (codes "Post") (codes "/api/v1/totp/configure")
          (error_logging_middleware
            (rate_limit_middleware sys (auth_middleware sys svc.verify jwt_authorized)
              (new_limiter (codes "TOTPAPI.Verify") per_minute 10))
            log)
          201
      ∷ handle_func sys (codes "Delete") (codes "/api/v1/totp/configure")
          (error_logging_middleware
            (rate_limit_middleware sys (auth_middleware sys svc.remove jwt_authorized)
              (new_limiter (codes "TOTPAPI.Remove") per_minute 10))
            log)
          200
      ∷ []

  unfoldable pub token_routes : TokenHandlers W → List (Route W)
  token_routes svc =
      handle_func sys (codes "Post") (codes "/api/v1/token/verify")
        (rate_limit_middleware sys
          (error_logging_middleware (auth_middleware sys svc.verify jwt_authorized) log)
          (new_limiter (codes "Token.Verify") per_second 1))
        200
      ∷ handle_func sys (codes "Delete") (codes "/api/v1/token/{tokenID}")
          (error_logging_middleware
            (rate_limit_middleware sys (auth_middleware sys svc.revoke jwt_authorized)
              (new_limiter (codes "Token.Revoke") per_minute 20))
            log)
          200
      ∷ handle_func sys (codes "Post") (codes "/api/v1/token/refresh")
          (error_logging_middleware
            (rate_limit_middleware sys
              (refresh_token_middleware (auth_middleware sys svc.refresh jwt_authorized))
              (new_limiter (codes "Token.Refresh") per_minute 1))
            log)
          200
      ∷ []
