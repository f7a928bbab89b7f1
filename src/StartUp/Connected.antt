-- ===== src/StartUp/Connected.antt =====
-- When main.go gets past its connections.
use authenticator.Common.{ℕ, ◌≡◌, refl, ap, none, some, Text}
use authenticator.Effect.{Result, good, bad, ok, ◌>>=◌}
use authenticator.Effect.Ensures.{
  Ensures, Ensures-pure, Ensures-bind, Ensures-result, Ensures-attempt,
}
use authenticator.Configuration.{Flags, configured}
use authenticator.StartUp.Delivery.{DeliveryLibraries, DeliveryFlags}
use authenticator.StartUp.{Libraries, Connections}
use authenticator.StartUp.Postgres
use authenticator.StartUp.WebAuthn
use authenticator.StartUp.Program.{connect_postgres, connect_redis, start, webauthn_of}

module _ {T : Libraries} {W : Type 0} (io : Connections T W) (flags : Flags) where
  -- The calls of the libraries answer, one after the other.
  pub record Answers (pg redis : Text) (w w' : W) : Type 0 where
    pub pg_db : T.db
    pub opened_world : W
    pub pinged_world : W
    pub redis_conf : T.redis_options
    pub lib : T.webauthn
    pub opened : io.sql_open pg w ≡ ok pg_db opened_world
    pub pg_answers : io.ping_db pg_db opened_world ≡ ok tt pinged_world
    pub parsed : io.parse_url redis ≡ good redis_conf
    pub redis_answers : io.ping_redis (T.new_client redis_conf) pinged_world ≡ ok tt w'
    pub built :
        io.new_webauthn flags.webauthn_display_name flags.webauthn_domain
          flags.webauthn_request_origin
        ≡ good lib

module _ {T : Libraries} {W : Type 0} (io : Connections T W) where
  pub connect_postgres-returns :
      (pg : Text) (db : T.db) {w v w' : W}
      → io.sql_open pg w ≡ ok db v
      → io.ping_db db v ≡ ok tt w'
      → connect_postgres io pg w ≡ ok db w'
  unfolding connect_postgres ◌>>=◌
  connect_postgres-returns pg db opened answered = rw (opened, answered) refl

  pub connect_redis-returns :
      (url : Text) (conf : T.redis_options) {w w' : W}
      → io.parse_url url ≡ good conf
      → io.ping_redis (T.new_client conf) w ≡ ok tt w'
      → connect_redis io url w ≡ ok (T.new_client conf) w'
  unfolding connect_redis ◌>>=◌
  connect_redis-returns url conf parsed answered = rw (parsed, answered) refl

  connect_postgres-answers :
      (pg : Text) (w : W)
      → Ensures
          (connect_postgres io pg w)
          (λ db w'. (v : W) × (io.sql_open pg w ≡ ok db v) × (io.ping_db db v ≡ ok tt w'))
  unfolding connect_postgres
  connect_postgres-answers pg w =
      Ensures-bind _ _
        λ db v opened. Ensures-bind _ _ λ t u answered. Ensures-pure _ db u (v, opened, answered)

  connect_redis-answers :
      (url : Text) (w : W)
      → Ensures (connect_redis io url w) (λ db w'.
        (conf : T.redis_options) × (io.parse_url url ≡ good conf)
        × (io.ping_redis (T.new_client conf) w ≡ ok tt w'))
  unfolding connect_redis
  connect_redis-answers url w = Ensures-result _ _ λ conf parsed.
      Ensures-attempt _ _
        (λ t v answered. Ensures-pure _ (T.new_client conf) v (conf, parsed, answered))
        (λ e v failed. Ensures-bind _ _ λ closed u tried. λ db w' impossible. cc)

module _ {T : Libraries} (logger : T.logger) (flags : Flags) where
  -- The service that the options make, before it has the library.
  abbrev pub webauthn_without : T.redis → Postgres.Client T → WebAuthn.WebAuthn T
  webauthn_without redis_db repo_mngr = record {
    conf = record {
      max_devices = flags.webauthn_max_devices;
      display_name = flags.webauthn_display_name;
      domain = flags.webauthn_domain;
      request_origin = flags.webauthn_request_origin;
    };
    lib = none;
    db = some redis_db;
    repo_mngr = some repo_mngr;
  }

  pub webauthn_of-built :
      (new_lib : Text → Text → Text → Result T.webauthn) (lib : T.webauthn) (redis_db : T.redis)
      (repo_mngr : Postgres.Client T)
      → new_lib flags.webauthn_display_name flags.webauthn_domain flags.webauthn_request_origin
        ≡ good lib
      → webauthn_of logger flags new_lib redis_db repo_mngr
        ≡ good (record (webauthn_without redis_db repo_mngr) { lib = some lib })
  unfolding webauthn_of WebAuthn.new_service configured
  webauthn_of-built new_lib lib redis_db repo_mngr built =
      ap (WebAuthn.with_lib (webauthn_without redis_db repo_mngr)) built

  with_lib-eq-good :
      (s : WebAuthn.WebAuthn T) (r : Result T.webauthn) {made : WebAuthn.WebAuthn T}
      → WebAuthn.with_lib s r ≡ good made
      → (lib : T.webauthn) × (r ≡ good lib)
  with_lib-eq-good s (good lib) h = (lib, refl)
  with_lib-eq-good s (bad e) h = cc

  webauthn_of-eq-good :
      (new_lib : Text → Text → Text → Result T.webauthn) (redis_db : T.redis)
      (repo_mngr : Postgres.Client T) {made : WebAuthn.WebAuthn T}
      → webauthn_of logger flags new_lib redis_db repo_mngr ≡ good made
      → (lib : T.webauthn) × (new_lib flags.webauthn_display_name flags.webauthn_domain
            flags.webauthn_request_origin
          ≡ good lib)
  unfolding webauthn_of WebAuthn.new_service configured
  webauthn_of-eq-good new_lib redis_db repo_mngr h =
      with_lib-eq-good (webauthn_without redis_db repo_mngr) _ h

module _ {T : Libraries} {W A : Type 0} (logger : T.logger) (flags : Flags) (io : Connections T W)
    (default_cost channel : ℕ) (pg redis : Text) (libs : DeliveryLibraries W A)
    (delivery : DeliveryFlags) where
  -- main.go gets past its connections only if they answer.
  pub start-Answers :
      (w : W)
      → Ensures
          (start logger flags io default_cost channel pg redis libs delivery w)
          (λ p w'. Answers io flags pg redis w w')
  unfolding start
  start-Answers w = Ensures-bind _ _ λ pg_db v postgres. Ensures-bind _ _ λ redis_db u answered.
      Ensures-result _ _ λ made webauthn.
        let (o, opened, pg_answers) = connect_postgres-answers io pg w pg_db v postgres in
        let (conf, parsed, redis_answers) = connect_redis-answers io redis v redis_db u answered in
        let (lib, built) = webauthn_of-eq-good logger flags io.new_webauthn redis_db _ webauthn in
        Ensures-pure _ _ u (record {
          pg_db = pg_db;
          opened_world = o;
          pinged_world = v;
          redis_conf = conf;
          lib = lib;
          opened = opened;
          pg_answers = pg_answers;
          parsed = parsed;
          redis_answers = redis_answers;
          built = built;
        })
