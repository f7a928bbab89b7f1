-- ===== src/DeviceApi.antt =====
-- internal/deviceapi: the devices of a user.
pub mod Removal
use authenticator.Common.{
  ℕ, Bool, not, List, [], ◌∷◌, Text, codes, is_empty, trim_prefix, length, ltb, map,
}
use authenticator.Errors.{domain, bad_request}
use authenticator.Effect.{Exec, pure, guard, wrapped, recast, ◌>>=◌, ◌>>◌}
use authenticator.Domain.{User, Device, DeviceView, Reply, bytes_reply, devices_reply, device_reply}
use authenticator.Requests.{RenameRequest}
use authenticator.Repository.{by_id, user_entity, device_entity, as_user, as_device}
use authenticator.System.{System}
use authenticator.Http.{Request, Handler, get_user_id, read_body, or_blank}
use authenticator.TokenApi.{reissue}

abbrev pub device_path : Text
device_path = codes "/api/v1/device/"

abbrev pub view : Device → DeviceView
view d = record { id = d.id; name = d.name; created_at = d.created_at; updated_at = d.updated_at }

module _ {W : Type 0} (sys : System W) where
  unfoldable pub decode_rename_request : Request → Exec W RenameRequest
  decode_rename_request r = do
    req ← read_body sys.decoder.rename r
    let name = sys.ext.trim_space req.name
    guard (not (is_empty name)) (domain (bad_request "name cannot be blank"))
    pure (record { name = name })

  unfoldable pub create : Handler W
  create r = do
    user ← sys.repos.user_by_identity sys.repo_mngr by_id (get_user_id r)
    challenge ← sys.webauthn.begin_sign_up user
    pure (bytes_reply challenge)

  -- The token is created for the user as the new device left it.
  unfoldable pub verify : Handler W
  verify r = do
    user ← sys.repos.user_by_identity sys.repo_mngr by_id (get_user_id r)
    (user', device) ← sys.webauthn.finish_sign_up user (or_blank r.body)
    reissue sys r user'

  -- The devices are counted before the transaction starts.
  unfoldable pub remove : Handler W
  remove r = do
    devices ← sys.repos.device_by_user_id sys.repo_mngr (get_user_id r)
    guard (ltb 0 (length devices)) (domain (bad_request "no devices found"))
    tx_client ← sys.repos.new_with_transaction sys.repo_mngr
    entity ← sys.repos.with_atomic tx_client (do
      user ← sys.repos.user_get_for_update tx_client (get_user_id r)
      sys.repos.device_remove tx_client (trim_prefix device_path r.path) (get_user_id r)
      user' ←
          sys.repos.user_update tx_client
            (record user { is_device_allowed = ltb 1 (length devices) })
      pure (user_entity user'))
    user ← as_user entity
    reissue sys r user

  unfoldable pub list : Handler W
  list r = do
    devices ←
        wrapped "failed to get user devices"
          (sys.repos.device_by_user_id sys.repo_mngr (get_user_id r))
    pure (devices_reply (map view devices))

  unfoldable pub rename : Handler W
  rename r = do
    req ← decode_rename_request r
    recast (domain (bad_request "device does not exist"))
        (sys.repos.device_by_id sys.repo_mngr (trim_prefix device_path r.path))
    client ← wrapped "cannot start txn" (sys.repos.new_with_transaction sys.repo_mngr)
    entity ← sys.repos.with_atomic client (do
      device ←
          wrapped "cannot retrieve device"
            (sys.repos.device_get_for_update client (trim_prefix device_path r.path))
      device' ←
          wrapped "device update failed"
            (sys.repos.device_update client (record device { name = req.name }))
      pure (device_entity device'))
    device ← as_device entity
    pure (device_reply (view device))
