-- ===== src/Examples/Revoked.antt =====
-- The theorems on revoked tokens and old codes, on the example world.
use authenticator.Common.{◌+◌, ◌*◌, ◌≤◌, ◌≡◌, refl, arith, some, List, [], ◌∷◌, ◌++◌, Text, codes}
use authenticator.Effect.{ok}
use authenticator.Domain.{Token, phone, jwt_authorized, to_claims, second}
use authenticator.Token.Create.{
  create, with_otp_delivery_method, with_otp_address, with_refreshable_token, TokenOption,
  invalidation_key,
}
use authenticator.Token.Validate.{validate, bearer, revocation_key}
use authenticator.Token.Refresh.{revoke}
use authenticator.Token.Revocation.{revoked_token_refused, old_code_refused}
use authenticator.Examples.Codec.{to_text}
use authenticator.Examples.World.{World, system, jwt_codec}
use authenticator.Examples.Laws.{monotone, redis, quiet, storage_advances}
use authenticator.Examples.Setting.{
  value_of, world_of, returns, machine, user, start, full, after_full, no_token, signed,
}

abbrev revoked : World
revoked = world_of (revoke system (codes "01ULID") start)

was_revoked : revoke system (codes "01ULID") start ≡ ok tt revoked
unfolding machine
was_revoked = returns tt (revoke system (codes "01ULID") start) refl

-- The lifetime of the flag is over, and the token is in its last second.
abbrev afterwards : World
afterwards = record revoked { clock = 2200 * second + 1000 }

abbrev last : Token
last = value_of no_token (validate system (bearer ++ signed) full.client_id afterwards)

abbrev after_last : World
after_last = world_of (validate system (bearer ++ signed) full.client_id afterwards)

last_validated : validate system (bearer ++ signed) full.client_id afterwards ≡ ok last after_last
unfolding machine
last_validated =
    returns no_token (validate system (bearer ++ signed) full.client_id afterwards) refl

last_revoked : revoke system last.id start ≡ ok tt revoked
unfolding machine
last_revoked = was_revoked

flag_left_alone : redis.Quiet (revocation_key last.id) revoked afterwards
unfolding machine
flag_left_alone = quiet _ revoked afterwards refl

revoked_token_refused_example : start.clock + system.token_conf.token_expiry ≤ after_last.clock
revoked_token_refused_example =
    revoked_token_refused system monotone redis (bearer ++ signed) full.client_id last start revoked
      afterwards after_last storage_advances (omega arith) last_revoked flag_left_alone
      last_validated

abbrev readdressed : List TokenOption
readdressed =
    with_otp_delivery_method phone
    ∷ with_otp_address (codes "+12025550100")
    ∷ with_refreshable_token (some full)
    ∷ []

abbrev newer : Token
newer = value_of no_token (create system user jwt_authorized readdressed after_full)

abbrev after_newer : World
after_newer = world_of (create system user jwt_authorized readdressed after_full)

was_readdressed : create system user jwt_authorized readdressed after_full ≡ ok newer after_newer
unfolding machine
was_readdressed = returns no_token (create system user jwt_authorized readdressed after_full) refl

-- A token with an older code that has not expired when the time stored for the newer one is gone.
abbrev older : Token
older = record newer { issued_at = 999; expires_at = 3000 }

abbrev older_signed : Text
older_signed = bearer ++ to_text jwt_codec (codes "secret", to_claims older)

abbrev much_later : World
much_later = record after_newer { clock = 2201 * second }

abbrev old : Token
old = value_of no_token (validate system older_signed full.client_id much_later)

abbrev after_old : World
after_old = world_of (validate system older_signed full.client_id much_later)

old_validated : validate system older_signed full.client_id much_later ≡ ok old after_old
unfolding machine
old_validated = returns no_token (validate system older_signed full.client_id much_later) refl

time_left_alone : redis.Quiet (invalidation_key newer.id) after_newer much_later
unfolding machine
time_left_alone = quiet _ after_newer much_later refl

old_code_refused_example :
    newer.issued_at * second + system.token_conf.token_expiry ≤ after_old.clock
unfolding machine
old_code_refused_example =
    old_code_refused system monotone redis user jwt_authorized readdressed full newer older_signed
      full.client_id old after_full after_newer much_later after_old (omega arith) refl refl refl
      was_readdressed time_left_alone old_validated refl refl (omega arith)
