-- ===== src/Examples/Started.antt =====
-- The theorem on the start of the program.
use authenticator.Common.{ℕ, ◌≡◌, refl, Text, codes}
use authenticator.Effect.{ok, good}
use authenticator.StartUp.Delivery.{DeliveryLibraries, DeliveryFlags, default_delivery_flags}
use authenticator.Examples.Providers
use authenticator.Configuration.{default_flags}
use authenticator.StartUp.{Libraries, Connections}
use authenticator.StartUp.Program.{Program, start}
use authenticator.StartUp.Connected.{Answers}
use authenticator.StartUp.Wired.{IsWired, start_wires}
use authenticator.Examples.World.{World, system}
use authenticator.Examples.Setting

-- Handles are texts.
abbrev libraries : Libraries
libraries = record {
  logger = ℕ;
  db = Text;
  redis_options = Text;
  redis = Text;
  webauthn = Text;
  reader = ℕ;
  nop_logger = 0;
  new_reader = 1;
  new_client = λ url. url;
}

abbrev connections : Connections libraries World
connections = record {
  sql_open = λ url w. ok url w;
  ping_db = λ db w. ok tt w;
  parse_url = λ url. good url;
  ping_redis = λ client w. ok tt w;
  close_redis = λ client w. ok tt w;
  new_webauthn = λ name domain origin. good domain;
}

abbrev delivery_libraries : DeliveryLibraries World Text
delivery_libraries = record {
  transport = Providers.transport;
  plain_auth = λ identity username password host. username;
  send_mail = λ addr a from to msg w. ok tt w;
  send_single = λ key mail w. ok 202 w;
}

abbrev by_sendgrid : DeliveryFlags
by_sendgrid = record default_delivery_flags { maillib = codes "sendgrid" }

abbrev answers :
    Answers connections default_flags
      (codes "postgres://")
      (codes "redis://")
      Setting.start
      Setting.start
answers = record {
  pg_db = codes "postgres://";
  opened_world = Setting.start;
  pinged_world = Setting.start;
  redis_conf = codes "redis://";
  lib = codes "authenticator.local";
  opened = refl;
  pg_answers = refl;
  parsed = refl;
  redis_answers = refl;
  built = refl;
}

start_wires_example :
    (p : Program libraries World) × (start 2 default_flags connections 10 0
        (codes "postgres://")
        (codes "redis://")
        delivery_libraries
        by_sendgrid
        Setting.start
      ≡ ok p Setting.start)
    × IsWired 2 default_flags connections 10 system delivery_libraries by_sendgrid p
start_wires_example =
    (start_wires 2 default_flags connections 10 0 system (codes "postgres://") (codes "redis://")
        delivery_libraries by_sendgrid).0
      answers
