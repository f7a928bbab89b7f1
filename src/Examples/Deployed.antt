-- ===== src/Examples/Deployed.antt =====
-- The theorem on the handlers with their storage, on a user who disables the codes by email.
use authenticator.Common.{◌≡◌, refl, some, [], ◌++◌}
use authenticator.Effect.{ok, Outcome}
use authenticator.Domain.{Reply, result_reply, jwt_authorized}
use authenticator.Http.{Request, auth_middleware}
use authenticator.Token.Validate.{bearer}
use authenticator.ContactApi
use authenticator.Postgres.{
  State, lift, in_tx, new_with_transaction, commit_client, finish, with_atomic,
}
use authenticator.Postgres.Users.{
  is_tfa_disabled, without_otp, update, update_row, get_for_update, new_for_repository, disable_otp,
}
use authenticator.Deployment.{deployed, disabling, handler_of, Offered, change_offers_factor}
use authenticator.Examples.World.{World}
use authenticator.Examples.Setting.{
  value_of, world_of, returns, machine, full, after_full, signed, request,
}
use authenticator.Examples.Rows.{database, deployment, idle, both}

abbrev signed_in : State World
signed_in = (record after_full { user = some both }, idle.1)

abbrev disable_request : Request
disable_request = record (request []) {
  authorization = bearer ++ signed;
  client_id_cookie = some full.client_id;
}

abbrev disabled : Outcome (State World) Reply
disabled =
    auth_middleware (deployed database deployment) (handler_of database deployment disabling)
      jwt_authorized disable_request signed_in

was_disabled : disabled ≡ ok (value_of (result_reply []) disabled) (world_of disabled)
unfolding machine auth_middleware ContactApi.disable ContactApi.decode_deactivate_request
    ContactApi.check_method lift in_tx new_with_transaction commit_client finish with_atomic
    is_tfa_disabled without_otp update update_row get_for_update new_for_repository disable_otp
was_disabled = returns (result_reply []) disabled refl

change_offers_factor_example :
    Offered database deployment disabling disable_request signed_in
      (value_of (result_reply []) disabled)
change_offers_factor_example =
    change_offers_factor database deployment disabling disable_request
      (value_of (result_reply []) disabled) signed_in (world_of disabled) was_disabled
