-- ===== src/Examples/Apis.antt =====
-- The theorems on the handlers, on the example world.
use authenticator.Common.{◌≡◌, ◌≢◌, refl, inl, true, false, some, none, [], codes}
use authenticator.Effect.{ok, Outcome}
use authenticator.Domain.{User, Reply, result_reply}
use authenticator.Requests.{LoginRequest}
use authenticator.Http.{Request}
use authenticator.LoginApi
use authenticator.SignupApi
use authenticator.TokenApi
use authenticator.ContactApi
use authenticator.TotpApi
use authenticator.DeviceApi
use authenticator.LoginApi.Authorization.{LoggedIn, login_sound, login_refuses_barred_email}
use authenticator.SignupApi.Registration.{SignedUp, sign_up_sound}
use authenticator.TokenApi.Refreshed.{Refreshed, refresh_sound}
use authenticator.ContactApi.Ownership.{AddressVerified, contact_verify_sound}
use authenticator.TotpApi.Setup.{TotpSwitched, totp_switch_sound}
use authenticator.DeviceApi.Removal.{DeviceRemoved, device_remove_sound}
use authenticator.Examples.World.{World, system}
use authenticator.Examples.Laws.{atomic}
use authenticator.Examples.Setting.{
  value_of, world_of, returns, machine, user, start, full, after_full, coded, after_coded, request,
}

abbrev reply_of : Outcome World Reply → Reply
reply_of o = value_of (result_reply []) o

abbrev login_run : Outcome World Reply
login_run = LoginApi.login system (request (codes "password")) start

logged_in : login_run ≡ ok (reply_of login_run) (world_of login_run)
unfolding machine LoginApi.login LoginApi.decode_login_request
logged_in = returns (result_reply []) login_run refl

login_sound_example : LoggedIn system (request (codes "password")) start (reply_of login_run)
login_sound_example =
    login_sound system (request (codes "password")) (reply_of login_run) start (world_of login_run)
      logged_in

-- A user whose codes go to a phone, with an email address on file.
abbrev barred : User
barred = record user {
  phone = record { string = codes "+12025550100"; valid = true };
  is_phone_otp_allowed = true;
  is_email_otp_allowed = false;
}

abbrev barred_start : World
barred_start = record start { user = some barred }

abbrev asked : LoginRequest
asked = record {
  password = codes "password";
  identity = codes "a@b.org";
  type = authenticator.Domain.email;
}

was_asked :
    LoginApi.decode_login_request system (request (codes "password")) barred_start
    ≡ ok asked barred_start
unfolding machine LoginApi.decode_login_request
was_asked = refl

may_send : authenticator.Domain.can_send_default_otp barred ≡ true
unfolding machine
may_send = refl

login_refuses_barred_email_example :
    LoginApi.login system (request (codes "password")) barred_start
    ≢ ok (result_reply []) barred_start
login_refuses_barred_email_example =
    login_refuses_barred_email system (request (codes "password")) (result_reply []) asked barred
      barred_start barred_start barred_start barred_start was_asked refl may_send refl refl

-- A request with the token that holds a code, and that code.
abbrev code_request : Request
code_request = record (request coded.code) { ctx_token = some coded }

abbrev code_run : Outcome World Reply
code_run = LoginApi.verify_code system code_request after_coded

abbrev empty : World
empty = record start { user = none }

abbrev signup_run : Outcome World Reply
signup_run = SignupApi.sign_up system (request (codes "password")) empty

signed_up : signup_run ≡ ok (reply_of signup_run) (world_of signup_run)
unfolding machine SignupApi.sign_up SignupApi.decode_signup_request SignupApi.register
    SignupApi.create_user SignupApi.to_user SignupApi.respond
signed_up = returns (result_reply []) signup_run refl

sign_up_sound_example : SignedUp system (request (codes "password")) empty (reply_of signup_run)
sign_up_sound_example =
    sign_up_sound system (request (codes "password")) (reply_of signup_run) empty
      (world_of signup_run) signed_up

abbrev signup_code_run : Outcome World Reply
signup_code_run = SignupApi.verify system code_request after_coded

abbrev refresh_request : Request
refresh_request = record (request []) {
  ctx_token = some full;
  ctx_refresh_token = some full.refresh_token;
}

abbrev refresh_run : Outcome World Reply
refresh_run = TokenApi.refresh system refresh_request after_full

refreshed : refresh_run ≡ ok (reply_of refresh_run) (world_of refresh_run)
unfolding machine TokenApi.refresh
refreshed = returns (result_reply []) refresh_run refl

refresh_sound_example : Refreshed system refresh_request after_full (reply_of refresh_run)
refresh_sound_example =
    refresh_sound system refresh_request (reply_of refresh_run) after_full (world_of refresh_run)
      refreshed

abbrev contact_run : Outcome World Reply
contact_run = ContactApi.verify system code_request after_coded

contact_verified : contact_run ≡ ok (reply_of contact_run) (world_of contact_run)
unfolding machine ContactApi.verify ContactApi.decode_verify_request ContactApi.set_address
contact_verified = returns (result_reply []) contact_run refl

contact_verify_sound_example :
    AddressVerified system code_request after_coded (reply_of contact_run)
contact_verify_sound_example =
    contact_verify_sound system code_request (reply_of contact_run) after_coded
      (world_of contact_run) atomic contact_verified

abbrev totp_request : Request
totp_request = record (request (codes "654321")) { ctx_token = some full }

abbrev totp_run : Outcome World Reply
totp_run = TotpApi.verify system totp_request after_full

totp_verified : totp_run ≡ ok (reply_of totp_run) (world_of totp_run)
unfolding machine TotpApi.verify TotpApi.configure_totp TotpApi.decode_totp_request
totp_verified = returns (result_reply []) totp_run refl

totp_switch_sound_example : TotpSwitched system totp_request full after_full (reply_of totp_run)
totp_switch_sound_example =
    totp_switch_sound system totp_request full (reply_of totp_run) after_full (world_of totp_run)
      atomic refl (inl totp_verified)

abbrev device_request : Request
device_request = record (request []) { path = codes "/api/v1/device/d1"; ctx_token = some full }

abbrev device_run : Outcome World Reply
device_run = DeviceApi.remove system device_request after_full

device_removed : device_run ≡ ok (reply_of device_run) (world_of device_run)
unfolding machine DeviceApi.remove
device_removed = returns (result_reply []) device_run refl

device_remove_sound_example :
    DeviceRemoved system device_request full after_full (reply_of device_run)
device_remove_sound_example =
    device_remove_sound system device_request full (reply_of device_run) after_full
      (world_of device_run) atomic refl device_removed
