-- ===== src/Examples/Setting.antt =====
-- The values and runs of the examples.
use authenticator.Common.{
  ◌*◌, ◌≡◌, refl, Bool, true, false, none, some, [], ◌∷◌, Text, codes, trim_prefix,
}
use authenticator.Effect.{Outcome, ok, fail, panic, ◌>>=◌}
use authenticator.Domain.{
  User, Token, LoginHistory, email, jwt_authorized, jwt_pre_authorized, second, default_tfa,
  can_send_default_otp, default_otp_delivery, default_name, to_claims,
}
use authenticator.Crypto.{
  sample_of, pick, pick_all, bytes, bytes_from_sample, random_string, random_string_b64, hash,
}
use authenticator.Otp.{
  latest_from, find_version, latest_secret, secret_by_version, after_lookup, encrypt, split_block,
  decrypt, to_otp_hash, from_otp_hash, otp_code, validate_otp, validate_totp,
}
use authenticator.Password.{validate_password}
use authenticator.Token.Create.{
  gen_tfa_options, delivery_address_of, gen_ulid, gen_client_id_and_hash, send_otp,
  gen_otp_and_hash, gen_refresh_token_and_hash, invalidate_old_tokens, create_from, create,
  with_otp_delivery_method,
}
use authenticator.Token.Validate.{
  after_revocation, after_invalidation, is_hash_valid, sign, check_revocation, lookup_invalidation,
  check_invalidation, unpack_token, validate,
}
use authenticator.Token.Refresh.{
  unpack_refresh_token, refreshable, refreshable_till, revoke, cookies,
}
use authenticator.Http.{Request, read_body}
use authenticator.LoginApi.{set_cookies, send_code, record_login, respond}
use authenticator.TokenApi.{reissue}
use authenticator.Examples.World.{World, system, device}

abbrev pub is_ok : {W A : Type 0} → Outcome W A → Bool
is_ok (ok a w) = true
is_ok _ = false

abbrev pub value_of : {W A : Type 0} → A → Outcome W A → A
value_of a₀ (ok a w) = a
value_of a₀ _ = a₀

abbrev pub world_of : {W A : Type 0} → Outcome W A → W
world_of (ok a w) = w
world_of (fail e w) = w
world_of (panic w) = w

pub returns :
    {W A : Type 0} (a₀ : A) (o : Outcome W A) → is_ok o ≡ true → o ≡ ok (value_of a₀ o) (world_of o)
returns a₀ (ok a w) h = refl
returns a₀ (fail e w) h = cc
returns a₀ (panic w) h = cc

-- Opening this opens what the runs of the examples compute with.
unfoldable pub machine : Bool
unfolding ◌>>=◌ trim_prefix default_tfa can_send_default_otp default_otp_delivery default_name
    sample_of pick pick_all bytes bytes_from_sample random_string random_string_b64 hash latest_from
    find_version latest_secret secret_by_version after_lookup encrypt split_block decrypt
    to_otp_hash from_otp_hash otp_code validate_otp validate_totp validate_password gen_tfa_options
    delivery_address_of gen_ulid gen_client_id_and_hash send_otp gen_otp_and_hash
    gen_refresh_token_and_hash invalidate_old_tokens create_from create after_revocation
    after_invalidation is_hash_valid sign check_revocation lookup_invalidation check_invalidation
    unpack_token validate unpack_refresh_token refreshable refreshable_till revoke cookies read_body
    set_cookies send_code record_login respond reissue
machine = true

abbrev pub user : User
user = record {
  id = codes "u1";
  phone = record { string = []; valid = false };
  email = record { string = codes "a@b.org"; valid = true };
  password = codes "password";
  tfa_secret = codes "11:1111111111111111654321";
  is_phone_otp_allowed = false;
  is_email_otp_allowed = true;
  is_totp_allowed = false;
  is_device_allowed = false;
  is_verified = true;
  created_at = 0;
  updated_at = 0;
}

abbrev pub login_history : LoginHistory
login_history = record {
  token_id = codes "01ULID";
  user_id = codes "u1";
  is_revoked = false;
  expires_at = none;
  created_at = 0;
  updated_at = 0;
}

abbrev pub start : World
start = record {
  clock = 1000 * second;
  store = λ k. none;
  counts = λ k. (0, 0);
  user = some user;
  devices = device ∷ device ∷ [];
  login = some login_history;
}

abbrev pub no_token : Token
no_token = record {
  issued_at = 0;
  expires_at = 0;
  id = [];
  issuer = [];
  client_id = [];
  client_id_hash = [];
  user_id = [];
  email = [];
  phone = [];
  state = jwt_authorized;
  code_hash = [];
  code = [];
  refresh_token = [];
  refresh_token_hash = [];
  tfa_options = [];
  default_tfa = authenticator.Domain.otp_phone;
}

abbrev pub request : Text → Request
request body = record {
  method = codes "POST";
  path = [];
  body = some body;
  authorization = [];
  forwarded_for = [];
  real_ip = codes "10.0.0.1";
  remote_addr = [];
  client_id_cookie = none;
  refresh_token_cookie = none;
  ctx_user_id = some (codes "u1");
  ctx_token = none;
  ctx_refresh_token = none;
}

-- An authorized token, one that holds a code, and the world after each.
abbrev pub full : Token
full = value_of no_token (create system user jwt_authorized [] start)

abbrev pub after_full : World
after_full = world_of (create system user jwt_authorized [] start)

pub full_created : create system user jwt_authorized [] start ≡ ok full after_full
unfolding machine
full_created = returns no_token (create system user jwt_authorized [] start) refl

abbrev pub coded : Token
coded =
    value_of no_token
      (create system user jwt_pre_authorized (with_otp_delivery_method email ∷ []) start)

abbrev pub after_coded : World
after_coded =
    world_of (create system user jwt_pre_authorized (with_otp_delivery_method email ∷ []) start)

pub coded_created :
    create system user jwt_pre_authorized (with_otp_delivery_method email ∷ []) start
    ≡ ok coded after_coded
unfolding machine
coded_created =
    returns no_token
      (create system user jwt_pre_authorized (with_otp_delivery_method email ∷ []) start) refl

-- The authorized token as it is sent.
abbrev pub signed : Text
signed = value_of [] (sign system full after_full)

pub full_signed : sign system full after_full ≡ ok signed (world_of (sign system full after_full))
unfolding machine
full_signed = returns [] (sign system full after_full) refl
