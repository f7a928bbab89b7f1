-- ===== src/Examples/Tokens.antt =====
-- The theorems on tokens, on the example world.
use authenticator.Common.{◌≡◌, refl, arith, [], ◌∷◌, ◌++◌}
use authenticator.Effect.{ok, good}
use authenticator.Domain.{Token, email, jwt_authorized, jwt_pre_authorized, to_claims, OtpHash}
use authenticator.Otp.{from_otp_hash}
use authenticator.Token.Create.{with_otp_delivery_method}
use authenticator.Token.Create.Delivery.{IsAllowed, code_goes_to_allowed_address}
use authenticator.Token.Validate.{validate, bearer, sign}
use authenticator.Token.Validate.Sound.{Accepted, validate_sound}
use authenticator.Token.RoundTrip.{validate-sign-create}
use authenticator.Token.Refresh.{refreshable}
use authenticator.Token.Refreshing.{
  Lifetime, refresh_token-Lifetime, IsRefreshable, refreshable_sound,
}
use authenticator.Examples.World.{World, system}
use authenticator.Examples.Laws.{monotone, base64, otp_json, redis, absent, jwt, ulid, refresh_json}
use authenticator.Examples.Setting.{
  value_of, world_of, returns, machine, user, start, full, after_full, full_created, coded,
  after_coded, coded_created, signed, full_signed, no_token,
}

validate-sign-create_example :
    (v' : World) × (validate system (bearer ++ signed) full.client_id after_full
      ≡ ok (to_claims full) v')
unfolding machine
validate-sign-create_example =
    validate-sign-create system redis base64 user jwt_authorized [] full signed start after_full
      after_full (world_of (sign system full after_full)) after_full refl refl full_created
      full_signed (jwt full) (omega arith) (omega arith) (absent _ after_full refl)
      (absent _ after_full refl)

abbrev validated : Token
validated = value_of no_token (validate system (bearer ++ signed) full.client_id after_full)

abbrev after_validated : World
after_validated = world_of (validate system (bearer ++ signed) full.client_id after_full)

was_validated :
    validate system (bearer ++ signed) full.client_id after_full ≡ ok validated after_validated
unfolding machine
was_validated = returns no_token (validate system (bearer ++ signed) full.client_id after_full) refl

validate_sound_example :
    Accepted system (bearer ++ signed) full.client_id validated after_full after_validated
validate_sound_example =
    validate_sound system (bearer ++ signed) full.client_id validated after_full after_validated
      was_validated

refresh_token-Lifetime_example : Lifetime system full start
refresh_token-Lifetime_example =
    refresh_token-Lifetime system user jwt_authorized [] full start after_full monotone ulid base64
      refresh_json refl full_created

can_refresh :
    refreshable system full full.refresh_token after_full
    ≡ ok tt (world_of (refreshable system full full.refresh_token after_full))
unfolding machine
can_refresh = returns tt (refreshable system full full.refresh_token after_full) refl

refreshable_sound_example : IsRefreshable system full full.refresh_token after_full
refreshable_sound_example =
    refreshable_sound system full full.refresh_token after_full
      (world_of (refreshable system full full.refresh_token after_full)) can_refresh

code_goes_to_allowed_address_example :
    (h : OtpHash) × (from_otp_hash system coded.code_hash ≡ good h)
    × (h.delivery_method ≡ email)
    × IsAllowed user h.delivery_method h.address
code_goes_to_allowed_address_example =
    code_goes_to_allowed_address system user jwt_pre_authorized
      (with_otp_delivery_method email ∷ []) coded start after_coded monotone base64 (otp_json _ _)
      refl refl coded_created
