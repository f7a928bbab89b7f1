-- ===== src/Examples/Logins.antt =====
-- The theorem on the second step of a login, on a code that is sent by email.
use authenticator.Common.{
  ◌≡◌, refl, arith, false, none, if◌then◌else◌, inr, codes, ◌*◌, some, [], ◌∷◌, ◌++◌, Text,
}
use authenticator.Effect.{ok}
use authenticator.Domain.{email, otp_login, second, jwt_pre_authorized}
use authenticator.Publisher.CodeMessages.{code_message, queued_code, created_code_renders}
use authenticator.Http.{Request}
use authenticator.MessageQueue.{Queue, send}
use authenticator.ContactApi.{is_valid_address}
use authenticator.LoginApi.{verify_code}
use authenticator.LoginApi.SecondStep.{SecondStep, sent_code_accepted}
use authenticator.Token.Create.{with_otp_delivery_method}
use authenticator.Token.Validate.{bearer, sign}
use authenticator.Examples.World.{World, system}
use authenticator.Examples.Laws.{monotone, base64, otp_json, redis, absent, jwt, ulid}
use authenticator.Examples.Setting.{
  value_of, world_of, returns, machine, user, start, coded, after_coded, coded_created, request,
}

abbrev coded_text : Text
coded_text = value_of [] (sign system coded after_coded)

abbrev after_signed : World
after_signed = world_of (sign system coded after_coded)

coded_signed : sign system coded after_coded ≡ ok coded_text after_signed
unfolding machine
coded_signed = returns [] (sign system coded after_coded) refl

abbrev with_code : Request
with_code = record (request []) {
  authorization = bearer ++ coded_text;
  client_id_cookie = some coded.client_id;
}

sent_code_accepted_example :
    SecondStep system (verify_code system) with_code coded start after_signed
unfolding machine
sent_code_accepted_example =
    sent_code_accepted system redis monotone ulid base64 user (with_otp_delivery_method email ∷ [])
      coded coded_text (verify_code system) with_code start after_coded after_coded after_signed
      after_signed refl refl refl (otp_json _ _) coded_created refl coded_signed refl refl
      (jwt coded) (omega arith) (omega arith) (absent _ after_signed refl)
      (absent _ after_signed refl)

abbrev idle : Queue
idle = record { clock = 0; waiting = []; working = []; begun = []; closed = false; crashed = false }

created_code_renders_example :
    send
      (is_valid_address system)
      (600 * second)
      idle
      500
      (code_message system otp_login email coded (codes "a@b.org"))
    ≡ (if is_valid_address system email (codes "a@b.org")
        then some (record idle {
          waiting =
              (queued_code system otp_login email coded (codes "a@b.org") (600 * second), 0) ∷ [];
        })
        else none)
created_code_renders_example =
    created_code_renders system user jwt_pre_authorized (with_otp_delivery_method email ∷ []) coded
      otp_login (codes "a@b.org") (is_valid_address system) (600 * second) 500 idle start
      after_coded (inr refl) coded_created
