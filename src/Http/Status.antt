-- ===== src/Http/Status.antt =====
-- The status of an error response.
use authenticator.Common.{◌≡◌, ◌≢◌, refl, ◌↔◌, some, String, arith}
use authenticator.Errors.{
  Err, wrap, e_invalid_token, e_throttle, domain_error, error_code, errors_as, e_internal,
}
use authenticator.System.{System}
use authenticator.Http.{error_response, internal_error_response}

module _ {W : Type 0} (sys : System W) where
  abbrev pub HasStatus : Err → String → Type 0
  HasStatus e m =
      (error_response sys (wrap m e) ≡ error_response sys e)
      × (((error_response sys e).status ≡ 500) ↔ (error_code (some e) ≡ e_internal))
      × (((error_response sys e).status ≡ 401) ↔ (error_code (some e) ≡ e_invalid_token))
      × (((error_response sys e).status ≡ 429) ↔ (error_code (some e) ≡ e_throttle))
      × (((error_response sys e).status ≡ 400)
          ↔ (error_code (some e) ≢ e_internal)
            × (error_code (some e) ≢ e_invalid_token)
            × (error_code (some e) ≢ e_throttle))

  -- However often an error is wrapped, its response is that of the error within. The status is 500
  -- exactly for an error that holds none of the domain, 401 exactly for an invalid token, 429 exactly
  -- for a throttled request, and 400 exactly for all other errors of the domain.
  pub error_status : (e : Err) (m : String) → HasStatus e m
  unfolding error_response internal_error_response error_code domain_error
  error_status e m = (
    unfold errors_as in refl,
    (ground arith, ground arith),
    (ground arith, ground arith),
    (ground arith, ground arith),
    (ground arith, ground arith),
  )
