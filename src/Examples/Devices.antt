-- ===== src/Examples/Devices.antt =====
-- The theorems on WebAuthn, with a library that accepts every response.
use authenticator.Common.{◌≡◌, refl, false, some, [], Text, codes}
use authenticator.Effect.{ok, Outcome, ◌>>=◌}
use authenticator.Domain.{User, Device}
use authenticator.WebAuthn.{
  Webauthner, Credential, device_id, retrieve_session, finish_login, finish_sign_up,
  enable_new_device,
}
use authenticator.WebAuthn.Sessions.{
  LoginFinished, finish_login_sound, SignUpFinished, finish_sign_up_sound,
}
use authenticator.Examples.World.{World, system, device}
use authenticator.Examples.Laws.{atomic}
use authenticator.Examples.Setting.{value_of, world_of, returns, user, start}

abbrev credential : Credential
credential = record {
  id = [];
  public_key = codes "key";
  aaguid = [];
  sign_count = 7;
  clone_warning = false;
}

abbrev library : Webauthner World Text Text
library = record {
  begin_registration = λ u w. ok ([], []) w;
  finish_registration = λ u s r w. ok credential w;
  begin_login = λ u w. ok ([], []) w;
  finish_login = λ u s r w. ok credential w;
  marshal_challenge = λ c. some c;
  marshal_session = λ s. some s;
  unmarshal_session = λ s. some s;
  session_get = λ k w. ok (codes "session") w;
  session_set = λ k s ttl w. ok tt w;
}

abbrev login_run : Outcome World (Unit {0})
login_run = finish_login system library 3 user (codes "response") start

logged_in : login_run ≡ ok tt (world_of login_run)
unfolding finish_login retrieve_session device_id ◌>>=◌
logged_in = returns tt login_run refl

finish_login_sound_example : LoginFinished system library user (codes "response") start
finish_login_sound_example =
    finish_login_sound system library 3 user (codes "response") start (world_of login_run) atomic
      logged_in

abbrev enrol_run : Outcome World (User × Device)
enrol_run = finish_sign_up system library 3 user (codes "response") start

abbrev enrolled : User × Device
enrolled = value_of (user, device) enrol_run

was_enrolled : enrol_run ≡ ok (enrolled.0, enrolled.1) (world_of enrol_run)
unfolding finish_sign_up retrieve_session enable_new_device ◌>>=◌
was_enrolled = returns (user, device) enrol_run refl

finish_sign_up_sound_example :
    SignUpFinished system library user (codes "response") start enrolled.0
finish_sign_up_sound_example =
    finish_sign_up_sound system library 3 user enrolled.0 enrolled.1 (codes "response") start
      (world_of enrol_run) was_enrolled
