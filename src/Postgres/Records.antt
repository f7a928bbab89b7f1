-- ===== src/Postgres/Records.antt =====
-- internal/postgres/device_repo.go and login_history_repo.go, and the repository manager as a whole.
use authenticator.Common.{◌==◌, not, List, Text}
use authenticator.Errors.{domain, not_found, other}
use authenticator.Effect.{Exec, pure, guard, wrapped, ◌>>=◌, ◌>>◌}
use authenticator.Domain.{Device, LoginHistory}
use authenticator.External.{now}
use authenticator.Repository.{RepositoryManager}
use authenticator.System.{System}
use authenticator.Postgres.{
  Database, State, DeviceQuery, devices_by_id, devices_for_update, devices_by_client_id,
  logins_by_token_id, logins_for_update, in_tx, new_with_transaction, with_atomic,
}
use authenticator.Postgres.Users

module _ {W : Type 0} (db : Database W) (sys : System (State W)) where
  -- `get`.
  unfoldable pub get_device : DeviceQuery → Exec (State W) Device
  get_device q = in_tx (λ tx. db.query_device tx q)

  unfoldable pub by_user_id : Text → Exec (State W) (List Device)
  by_user_id user_id = in_tx (λ tx. db.query_devices tx user_id)

  unfoldable pub create_device : Device → Exec (State W) Device
  create_device device = do
    device_id ← wrapped "cannot generate unique device ID" sys.ext.ulid_new
    times ← in_tx (λ tx. db.insert_device tx (record device { id = device_id }))
    pure (record device { id = device_id; created_at = times.0; updated_at = times.1 })

  unfoldable pub update_device : Device → Exec (State W) Device
  update_device device = do
    t ← now sys.ext
    let device' : Device = record device { updated_at = t }
    updated_rows ← wrapped "failed to execute update" (in_tx (λ tx. db.update_device tx device'))
    guard (updated_rows == 1) (other "wrong number of devices updated: %d")
    pure device'

  unfoldable pub device_for_update : Text → Exec (State W) Device
  device_for_update device_id =
      wrapped "failed to retrieve record for update" (get_device (devices_for_update device_id))

  unfoldable pub remove_device : Text → Text → Exec (State W) (Unit {0})
  remove_device device_id user_id = do
    removed_rows ←
        wrapped "failed to execute delete" (in_tx (λ tx. db.delete_device tx device_id user_id))
    guard (not (removed_rows == 0)) (domain (not_found "device does not exist"))
    guard (removed_rows == 1) (other "wrong number of devices removed: %d")

  unfoldable pub by_token_id : Text → Exec (State W) LoginHistory
  by_token_id token_id = in_tx (λ tx. db.query_login tx (logins_by_token_id token_id))

  unfoldable pub create_login : LoginHistory → Exec (State W) LoginHistory
  create_login login = do
    times ← in_tx (λ tx. db.insert_login tx login)
    pure (record login { created_at = times.0; updated_at = times.1 })

  unfoldable pub update_login : LoginHistory → Exec (State W) LoginHistory
  update_login login = do
    t ← now sys.ext
    let login' : LoginHistory = record login { updated_at = t }
    updated_rows ← wrapped "failed to execute update" (in_tx (λ tx. db.update_login tx login'))
    guard (updated_rows == 1) (other "wrong number of devices updated: %d")
    pure login'

  unfoldable pub login_for_update : Text → Exec (State W) LoginHistory
  login_for_update token_id =
      wrapped "failed to retrieve record for update"
        (in_tx (λ tx. db.query_login tx (logins_for_update token_id)))

  -- The client as a repository manager: every client gives out the same repositories.
  abbrev pub manager : RepositoryManager (State W)
  manager = record {
    new_with_transaction = new_with_transaction db;
    with_atomic = with_atomic db;
    user_by_identity = λ c. Users.by_identity db sys;
    user_get_for_update = λ c. Users.get_for_update db sys;
    user_create = λ c. Users.create db sys;
    user_re_create = λ c. Users.re_create db sys;
    user_update = λ c. Users.update db sys;
    user_disable_otp = λ c. Users.disable_otp db sys;
    user_remove_delivery_method = λ c. Users.remove_delivery_method db sys;
    device_by_id = λ c id. get_device (devices_by_id id);
    device_by_client_id =
        λ c user_id client_id. get_device (devices_by_client_id user_id client_id);
    device_by_user_id = λ c. by_user_id;
    device_create = λ c. create_device;
    device_get_for_update = λ c. device_for_update;
    device_update = λ c. update_device;
    device_remove = λ c. remove_device;
    login_by_token_id = λ c. by_token_id;
    login_create = λ c. create_login;
    login_get_for_update = λ c. login_for_update;
    login_update = λ c. update_login;
  }
