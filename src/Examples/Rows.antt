-- ===== src/Examples/Rows.antt =====
-- The example world as a database, with one row of users.
use authenticator.Common.{suc, true, some, none, [], codes}
use authenticator.Effect.{ok, fail}
use authenticator.Errors.{no_rows}
use authenticator.Domain.{User}
use authenticator.External.{External}
use authenticator.Repository.{RepositoryManager}
use authenticator.System.{System}
use authenticator.Postgres.{Database, State, lift}
use authenticator.Examples.World.{World, system, externals, looked_up, device}
use authenticator.Examples.Setting.{start, user}

abbrev pub database : Database World
database = record {
  begin_tx = λ w. ok w.clock (record w { clock = suc w.clock });
  rollback = λ tx w. ok tt w;
  commit = λ tx w. ok tt w;
  query_user = λ tx q w. looked_up w w.user (λ u. true);
  insert_user = λ tx u w. ok (1, 1) (record w { user = some u });
  update_user = λ tx id u w. ok 1 (record w { user = some u });
  query_device = λ tx q w. ok device w;
  query_devices = λ tx id w. ok w.devices w;
  insert_device = λ tx d w. ok (1, 1) w;
  update_device = λ tx d w. ok 1 w;
  delete_device = λ tx id user_id w. ok 1 w;
  query_login = λ tx q w. looked_up w w.login (λ l. true);
  insert_login = λ tx l w. ok (1, 1) (record w { login = some l });
  update_login = λ tx l w. ok 1 (record w { login = some l });
}

-- The libraries, which leave the clients alone.
abbrev pub libraries : External (State World)
libraries = record {
  clock = λ d. d.0.clock;
  tick = λ d. (externals.tick d.0, d.1);
  format_time = externals.format_time;
  rand_read = λ n. lift (externals.rand_read n);
  ulid_new = lift externals.ulid_new;
  sha512_hex = externals.sha512_hex;
  base64_encode = externals.base64_encode;
  base64_decode = externals.base64_decode;
  base64url_encode = externals.base64url_encode;
  base64url_decode = externals.base64url_decode;
  itoa = externals.itoa;
  atoi = externals.atoi;
  trim_space = externals.trim_space;
  to_lower = externals.to_lower;
  to_upper = externals.to_upper;
  cfb_encrypt = externals.cfb_encrypt;
  cfb_decrypt = externals.cfb_decrypt;
  marshal_otp_hash = externals.marshal_otp_hash;
  unmarshal_otp_hash = externals.unmarshal_otp_hash;
  marshal_refresh_token = externals.marshal_refresh_token;
  unmarshal_refresh_token = externals.unmarshal_refresh_token;
  marshal_claims = externals.marshal_claims;
  unmarshal_token = externals.unmarshal_token;
  jwt_sign = externals.jwt_sign;
  jwt_parse = λ key s. lift (externals.jwt_parse key s);
  bcrypt_generate = λ s cost. lift (externals.bcrypt_generate s cost);
  bcrypt_compare = externals.bcrypt_compare;
  totp_generate = λ issuer account. lift (externals.totp_generate issuer account);
  totp_validate = λ c s. lift (externals.totp_validate c s);
  redis_get = λ k. lift (externals.redis_get k);
  redis_set = λ k v ttl. lift (externals.redis_set k v ttl);
  redis_incr_expire = λ k e. lift (externals.redis_incr_expire k e);
  otpauth_url = externals.otpauth_url;
  is_valid_number = externals.is_valid_number;
  is_mail_address = externals.is_mail_address;
}

-- Storage that is not used: the repositories take the place of it.
abbrev unused : RepositoryManager (State World)
unused = record {
  new_with_transaction = λ c d. fail no_rows d;
  with_atomic = λ c op d. fail no_rows d;
  user_by_identity = λ c a s d. fail no_rows d;
  user_get_for_update = λ c s d. fail no_rows d;
  user_create = λ c u d. fail no_rows d;
  user_re_create = λ c u d. fail no_rows d;
  user_update = λ c u d. fail no_rows d;
  user_disable_otp = λ c s m d. fail no_rows d;
  user_remove_delivery_method = λ c s m d. fail no_rows d;
  device_by_id = λ c s d. fail no_rows d;
  device_by_client_id = λ c s t d. fail no_rows d;
  device_by_user_id = λ c s d. fail no_rows d;
  device_create = λ c v d. fail no_rows d;
  device_get_for_update = λ c s d. fail no_rows d;
  device_update = λ c v d. fail no_rows d;
  device_remove = λ c s t d. fail no_rows d;
  login_by_token_id = λ c s d. fail no_rows d;
  login_create = λ c l d. fail no_rows d;
  login_get_for_update = λ c s d. fail no_rows d;
  login_update = λ c l d. fail no_rows d;
}

abbrev pub deployment : System (State World)
deployment = record {
  ext = libraries;
  repos = unused;
  repo_mngr = 0;
  message = record { send = λ m d. ok tt d };
  webauthn = record {
    begin_sign_up = λ u d. ok [] d;
    finish_sign_up = λ u s d. ok (u, device) d;
    begin_login = λ u d. ok [] d;
    finish_login = λ u s d. ok tt d;
  };
  decoder = system.decoder;
  set_cookie = λ c d. ok tt d;
  marshal_reply = system.marshal_reply;
  marshal_error = system.marshal_error;
  otp_conf = system.otp_conf;
  password_conf = system.password_conf;
  token_conf = system.token_conf;
}

-- A user with both addresses, and a TOTP generator.
abbrev pub both : User
both = record user {
  phone = record { string = codes "+12025550100"; valid = true };
  is_totp_allowed = true;
}

abbrev pub idle : State World
idle = (record start { user = some both }, record { next = 1; txs = λ c. none; current = 0 })
