-- ===== src/Examples/Stored.antt =====
-- The theorems on internal/postgres, on the example database.
use authenticator.Common.{[], ℕ, ◌≡◌, refl, false, codes, Option}
use authenticator.Effect.{ok, Exec, Outcome, ◌>>=◌}
use authenticator.Domain.{User, email}
use authenticator.Repository.{Entity, user_entity}
use authenticator.Postgres.{
  State, users_by_id, lift, in_tx, new_with_transaction, commit_client, finish, with_atomic,
}
use authenticator.Postgres.Transactions.{
  Committed, with_atomic_commits, RunTogether, shared_repositories,
}
use authenticator.Postgres.Users.{
  is_tfa_disabled, is_contact_disabled, without_method, without_otp, update, update_row,
  get_for_update, new_for_repository, remove_delivery_method, disable_otp,
}
use authenticator.Password.{hash_password, ok_for_user}
use authenticator.Postgres.Users
use authenticator.Postgres.Creation.{IsCreated, create_sound}
use authenticator.Postgres.SecondFactor.{FactorKept, removal_keeps_factor}
use authenticator.Examples.World.{World}
use authenticator.Examples.Setting.{value_of, world_of, returns, user}
use authenticator.Examples.Rows.{database, deployment, idle, both}

abbrev began : Outcome (State World) ℕ
began = new_with_transaction database 0 idle

abbrev first : ℕ
first = value_of 0 began

abbrev after_first : State World
after_first = world_of began

was_begun : began ≡ ok first after_first
unfolding new_with_transaction lift ◌>>=◌
was_begun = returns 0 began refl

abbrev second : Outcome (State World) ℕ
second = new_with_transaction database 0 after_first

begun_again : second ≡ ok (value_of 0 second) (world_of second)
unfolding new_with_transaction lift ◌>>=◌
begun_again = returns 0 second refl

abbrev lookup : Option ℕ → Exec World User
lookup tx = database.query_user tx (users_by_id (codes "u1"))

shared_repositories_example :
    RunTogether database lookup first (value_of 0 second) idle after_first (world_of second)
shared_repositories_example =
    shared_repositories database lookup 0 0 first (value_of 0 second) idle after_first
      (world_of second) was_begun begun_again

abbrev operation : Exec (State World) Entity
operation d = ok (user_entity both) d

abbrev atomically : Outcome (State World) Entity
atomically = with_atomic database first operation after_first

was_atomic : atomically ≡ ok (value_of (user_entity user) atomically) (world_of atomically)
unfolding new_with_transaction lift ◌>>=◌ commit_client finish with_atomic
was_atomic = returns (user_entity user) atomically refl

with_atomic_commits_example :
    Committed database first operation
      (value_of (user_entity user) atomically)
      after_first
      (world_of atomically)
with_atomic_commits_example =
    with_atomic_commits database first operation (value_of (user_entity user) atomically)
      after_first (world_of atomically) was_atomic

abbrev removal : Outcome (State World) User
removal = remove_delivery_method database deployment (codes "u1") email idle

was_removed : removal ≡ ok (value_of user removal) (world_of removal)
unfolding new_with_transaction lift in_tx ◌>>=◌ commit_client finish with_atomic is_tfa_disabled
    is_contact_disabled without_method update update_row get_for_update new_for_repository
    remove_delivery_method
was_removed = returns user removal refl

removal_keeps_factor_example :
    FactorKept database deployment (without_method email) (value_of user removal)
    × (is_contact_disabled (value_of user removal) ≡ false)
removal_keeps_factor_example =
    removal_keeps_factor database deployment (codes "u1") email (value_of user removal) idle
      (world_of removal) was_removed

abbrev fresh : User
fresh = record user { id = []; is_email_otp_allowed = false; is_verified = false }

abbrev creation : Outcome (State World) User
creation = Users.create database deployment fresh idle

was_created : creation ≡ ok (value_of user creation) (world_of creation)
unfolding lift in_tx ◌>>=◌ Users.create Users.sanitize_user Users.validate_user_fields
    Users.validate_identity Users.validate_email Users.validate_phone Users.hash_user_password
    hash_password ok_for_user
was_created = returns user creation refl

create_sound_example :
    IsCreated database deployment fresh (value_of user creation) (world_of creation)
create_sound_example =
    create_sound database deployment fresh (value_of user creation) idle (world_of creation)
      was_created
