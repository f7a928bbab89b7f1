-- ===== src/Examples/World.antt =====
-- A world with a clock, Redis, one user, and the libraries as simple functions.
use authenticator.Common.{
  ℕ, zero, suc, ◌+◌, ◌*◌, Bool, true, false, not, ◌&&◌, Option, none, some, List, [], ◌∷◌, ◌++◌,
  Text, codes, text_eq, is_empty, length, ltb, leb, if◌then◌else◌,
}
use authenticator.Errors.{other, redis_nil, no_rows}
use authenticator.Effect.{Outcome, ok, fail, panic, Exec, Result, good, bad}
use authenticator.Domain.{User, Device, LoginHistory, phone, email, Token, to_claims, unix, second}
use authenticator.External.{External, RedisValue, hmac, ParsedJwt}
use authenticator.Repository.{Entity, Attribute, by_phone, by_email, by_id, RepositoryManager}
use authenticator.Requests.{RequestDecoder}
use authenticator.System.{System}
use authenticator.Examples.Codec.{
  Codec, text_codec, pair_codec, to_text, from_text, otp_hash_codec, refresh_token_codec,
  token_codec,
}

pub record World : Type 0 where
  pub clock : ℕ
  -- A value, and the time from which it is gone.
  pub store : Text → Option (RedisValue × ℕ)
  -- Counters with their deadlines.
  pub counts : Text → ℕ × ℕ
  pub user : Option User
  pub devices : List Device
  pub login : Option LoginHistory

abbrev pub put {ℓ} : {A : Type ℓ} → Text → A → (Text → A) → Text → A
put k a f j = if text_eq j k then a else f j

abbrev pub found : World → Option (RedisValue × ℕ) → Outcome World RedisValue
found w none = fail redis_nil w
found w (some e) = if ltb w.clock e.1 then ok e.0 w else fail redis_nil w

-- A number in unary.
abbrev pub ones : ℕ → Text
ones zero = []
ones (suc n) = b'1' ∷ ones n

abbrev pub jwt_codec : Codec (Text × Token)
jwt_codec = pair_codec text_codec token_codec

-- A token whose secret is the key's, and which has not expired.
abbrev pub checked : World → Option (Text × Token) → Result Text → Outcome World ParsedJwt
checked w none key = fail (other "malformed") w
checked w (some p) (bad e) = fail e w
checked w (some p) (good secret) =
    if text_eq p.0 secret && (leb p.1.issued_at (unix w.clock) && leb (unix w.clock) p.1.expires_at)
    then ok (record { claims = some (to_text token_codec p.1); valid = true }) w
    else fail (other "invalid") w

-- A counter is gone at its deadline.
abbrev pub count : Text → World → ℕ
count k w = if ltb w.clock (w.counts k).1 then (w.counts k).0 else 0

abbrev pub externals : External World
externals = record {
  clock = λ w. w.clock;
  tick = λ w. record w { clock = suc w.clock };
  format_time = λ _ t. ones (unix t);
  rand_read = λ n w. ok (ones n) w;
  ulid_new = λ w. ok (codes "01ULID") w;
  sha512_hex = λ s. s;
  base64_encode = λ s. s;
  base64_decode = λ s. some s;
  base64url_encode = λ s. s;
  base64url_decode = λ s. some s;
  itoa = ones;
  atoi = λ s. some (length s);
  trim_space = λ s. s;
  to_lower = λ s. s;
  to_upper = λ s. s;
  cfb_encrypt = λ key iv s. s;
  cfb_decrypt = λ key iv s. s;
  marshal_otp_hash = λ h. some (to_text otp_hash_codec h);
  unmarshal_otp_hash = from_text otp_hash_codec;
  marshal_refresh_token = λ r. some (to_text refresh_token_codec r);
  unmarshal_refresh_token = from_text refresh_token_codec;
  marshal_claims = λ s. some s;
  unmarshal_token = from_text token_codec;
  jwt_sign = λ secret t. some (to_text jwt_codec (secret, to_claims t));
  jwt_parse = λ key s w. checked w (from_text jwt_codec s) (key hmac);
  bcrypt_generate = λ s cost w. ok s w;
  bcrypt_compare = λ h s. if text_eq h s then good tt else bad (other "mismatch");
  totp_generate = λ issuer account w. ok (codes "JBSWY3DPEHPK3PXP") w;
  totp_validate = λ c s w. ok (text_eq c s) w;
  redis_get = λ k w. found w (w.store k);
  redis_set = λ k v ttl w. ok tt (record w { store = put k (some (v, w.clock + ttl)) w.store });
  redis_incr_expire = λ k e w.
      ok (suc (count k w)) (record w { counts = put k (suc (count k w), w.clock + e) w.counts });
  otpauth_url = λ secret issuer path. issuer ++ secret;
  is_valid_number = λ s. not (is_empty s);
  is_mail_address = λ s. not (is_empty s);
}

abbrev pub has_identity : Attribute → Text → User → Bool
has_identity by_id s u = text_eq s u.id
has_identity by_email s u = text_eq s u.email.string
has_identity by_phone s u = text_eq s u.phone.string
has_identity _ _ _ = false

abbrev pub looked_up : {A : Type 0} → World → Option A → (A → Bool) → Outcome World A
looked_up w none p = fail no_rows w
looked_up w (some a) p = if p a then ok a w else fail no_rows w

abbrev pub saved : User → Exec World User
saved u w = ok u (record w { user = some u })

abbrev pub logged : LoginHistory → Exec World LoginHistory
logged l w = ok l (record w { login = some l })

-- What a transaction returns; time does not run backwards in it.
abbrev pub committed : World → Outcome World Entity → Outcome World Entity
committed w (ok e v) = ok e v
committed w (fail e v) = fail e w
committed w (panic v) = panic w

abbrev pub device : Device
device = record {
  id = codes "d1";
  user_id = codes "u1";
  client_id = [];
  public_key = [];
  name = codes "key";
  aaguid = [];
  sign_count = 0;
  created_at = 0;
  updated_at = 0;
}

abbrev pub storage : RepositoryManager World
storage = record {
  new_with_transaction = λ c w. ok (suc c) w;
  with_atomic = λ tx op w. committed w (op w);
  user_by_identity = λ c a s w. looked_up w w.user (has_identity a s);
  user_get_for_update = λ c s w. looked_up w w.user (has_identity by_id s);
  user_create = λ c u. saved (record u { id = codes "u1"; is_email_otp_allowed = true });
  user_re_create = λ c u. saved (record u { id = codes "u2"; is_email_otp_allowed = true });
  user_update = λ c u. saved u;
  user_disable_otp = λ c s m w. looked_up w w.user (has_identity by_id s);
  user_remove_delivery_method = λ c s m w. looked_up w w.user (has_identity by_id s);
  device_by_id = λ c s w. fail no_rows w;
  device_by_client_id = λ c s t w. fail no_rows w;
  device_by_user_id = λ c s w. ok w.devices w;
  device_create = λ c d w. ok d (record w { devices = d ∷ w.devices });
  device_get_for_update = λ c s w. ok device w;
  device_update = λ c d w. ok d w;
  device_remove = λ c s t w. ok tt (record w { devices = [] });
  login_by_token_id = λ c s w. looked_up w w.login (λ l. text_eq l.token_id s);
  login_create = λ c l. logged l;
  login_get_for_update = λ c s w. looked_up w w.login (λ l. text_eq l.token_id s);
  login_update = λ c l. logged l;
}

abbrev pub decoders : RequestDecoder
decoders = record {
  login = λ s. some (record { password = s; identity = codes "a@b.org"; type = email });
  code = λ s. some (record { code = s });
  signup = λ s. some (record { password = s; identity = codes "a@b.org"; type = email });
  verify = λ s. some (record { code = s; is_disabled = false; is_otp_enabled = false });
  deactivate = λ s. some (record { delivery_method = email });
  delivery = λ s. some (record { address = s; delivery_method = phone });
  send = λ s. some (record { delivery_method = email });
  rename = λ s. some (record { name = s });
}

abbrev pub system : System World
system = record {
  ext = externals;
  repos = storage;
  repo_mngr = 0;
  message = record { send = λ m w. ok tt w };
  webauthn = record {
    begin_sign_up = λ u w. ok [] w;
    finish_sign_up = λ u s w. ok (record u { is_device_allowed = true }, device) w;
    begin_login = λ u w. ok [] w;
    finish_login = λ u s w. ok tt w;
  };
  decoder = decoders;
  set_cookie = λ c w. ok tt w;
  marshal_reply = λ v. some (codes "{}");
  marshal_error = λ c m. some m;
  otp_conf = record {
    code_length = 6;
    totp_issuer = codes "example";
    secrets =
        record { version = 1; key = codes "old" } ∷ record { version = 2; key = codes "new" } ∷ [];
  };
  password_conf = record { cost = 10; min_length = 8; max_length = 1000 };
  token_conf = record {
    token_expiry = 1200 * second;
    refresh_token_expiry = 86400 * second;
    secret = codes "secret";
    issuer = codes "example";
    cookie_max_age = 1200;
    cookie_domain = codes "example.org";
  };
}
