-- ===== src/Examples/Secrets.antt =====
-- The theorems on codes, secrets and random strings, on the example world.
use authenticator.Common.{◌+◌, ◌*◌, ◌≤◌, ◌≡◌, refl, arith, [], ◌∷◌, Text, codes, length, All}
use authenticator.Effect.{ok}
use authenticator.Domain.{email, second}
use authenticator.Crypto.{bytes_from_sample, sample_of}
use authenticator.Crypto.Sample.{bytes_from_sample-IsIn, IsIn}
use authenticator.Otp.{otp_code, encrypt, decrypt, validate_totp, totp_key}
use authenticator.Otp.Codes.{Lifetime, otp_code-Lifetime}
use authenticator.Otp.Secrets.{DistinctVersions}
use authenticator.Otp.Encryption.{decrypt-encrypt}
use authenticator.Otp.Totp.{totp_used_once}
use authenticator.Examples.World.{World, system, externals}
use authenticator.Examples.Laws.{monotone, base64, otp_json, cipher, redis, quiet}
use authenticator.Examples.Setting.{value_of, world_of, returns, machine, user, start}

abbrev sent : Text × Text
sent = value_of ([], []) (otp_code system (codes "a@b.org") email start)

abbrev after_sent : World
after_sent = world_of (otp_code system (codes "a@b.org") email start)

code_sent : otp_code system (codes "a@b.org") email start ≡ ok (sent.0, sent.1) after_sent
unfolding machine
code_sent = returns ([], []) (otp_code system (codes "a@b.org") email start) refl

otp_code-Lifetime_example : Lifetime system sent.0 sent.1 start after_sent
otp_code-Lifetime_example =
    otp_code-Lifetime system monotone base64 (otp_json (codes "a@b.org") email) sent.0 sent.1 start
      after_sent code_sent

distinct : DistinctVersions system.otp_conf.secrets
distinct = (((λ h. absurd (omega arith)), tt), (tt, tt))

abbrev encrypted : Text
encrypted = value_of [] (encrypt system (codes "JBSWY3DP") start)

was_encrypted :
    encrypt system (codes "JBSWY3DP") start
    ≡ ok encrypted (world_of (encrypt system (codes "JBSWY3DP") start))
unfolding machine
was_encrypted = returns [] (encrypt system (codes "JBSWY3DP") start) refl

decrypt-encrypt_example : decrypt system encrypted start ≡ ok (codes "JBSWY3DP") start
decrypt-encrypt_example =
    decrypt-encrypt system distinct base64 cipher (codes "JBSWY3DP") encrypted start
      (world_of (encrypt system (codes "JBSWY3DP") start)) start was_encrypted

abbrev used : World
used = world_of (validate_totp system user (codes "654321") start)

abbrev later : World
later = record used { clock = used.clock + 31 * second }

totp_used : validate_totp system user (codes "654321") start ≡ ok tt used
unfolding machine
totp_used = returns tt (validate_totp system user (codes "654321") start) refl

totp_used_later :
    validate_totp system user (codes "654321") later
    ≡ ok tt (world_of (validate_totp system user (codes "654321") later))
unfolding machine
totp_used_later = returns tt (validate_totp system user (codes "654321") later) refl

left_alone : redis.Quiet (totp_key user (codes "654321")) used later
left_alone = quiet _ used later refl

totp_used_once_example :
    start.clock + 30 * second ≤ (world_of (validate_totp system user (codes "654321") later)).clock
totp_used_once_example =
    totp_used_once system monotone redis user (codes "654321") start used later
      (world_of (validate_totp system user (codes "654321") later)) totp_used left_alone
      totp_used_later

bytes_from_sample-IsIn_example :
    (cs : Text) × (bytes_from_sample externals 4 (codes "0123456" ∷ []) start ≡ ok cs start)
    × (length cs ≡ 4)
    × All (IsIn (sample_of (codes "0123456" ∷ []))) cs
bytes_from_sample-IsIn_example =
    bytes_from_sample-IsIn externals 4 (codes "0123456" ∷ []) (omega arith) refl
