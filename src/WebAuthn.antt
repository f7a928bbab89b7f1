-- ===== src/WebAuthn.antt =====
-- internal/webauthn: registration of devices and login by a device, over the WebAuthn library.
pub mod Sessions
use authenticator.Common.{
  ℕ, ◌*◌, Bool, true, false, not, Option, none, some, List, [], ◌∷◌, ◌++◌, map, Text, codes,
  text_eq, length, ltb, if◌then◌else◌,
}
use authenticator.Errors.{Err, domain, web_authn, other, wrap}
use authenticator.Effect.{Exec, pure, guard, wrapped, recast, map_err, from_option, ◌>>=◌, ◌>>◌}
use authenticator.Domain.{User, Device, default_name, second}
use authenticator.Repository.{user_entity, device_entity, as_device, WebAuthnService}
use authenticator.System.{System}

-- The fields of a library's credential that the code reads.
pub record Credential : Type 0 where
  pub id : Text
  pub public_key : Text
  pub aaguid : Text
  pub sign_count : ℕ
  pub clone_warning : Bool

-- `User`, which the library is given.
pub record WebAuthnUser : Type 0 where
  pub user : User
  pub devices : List Device

abbrev pub web_authn_id : WebAuthnUser → Text
web_authn_id u = u.user.id

abbrev pub web_authn_name : WebAuthnUser → Text
web_authn_name u = default_name u.user

abbrev pub web_authn_display_name : WebAuthnUser → Text
web_authn_display_name u = web_authn_name u

abbrev pub web_authn_icon : WebAuthnUser → Text
web_authn_icon u = []

abbrev pub to_credential : Device → Credential
to_credential d = record {
  id = d.client_id;
  public_key = d.public_key;
  aaguid = d.aaguid;
  sign_count = d.sign_count;
  clone_warning = false;
}

abbrev pub web_authn_credentials : WebAuthnUser → List Credential
web_authn_credentials u = map to_credential u.devices

-- What the library reads of a user, by the methods above.
pub record LibraryUser : Type 0 where
  pub id : Text
  pub name : Text
  pub display_name : Text
  pub icon : Text
  pub credentials : List Credential

abbrev pub seen : User → List Device → LibraryUser
seen user devices =
    let u : WebAuthnUser = record { user = user; devices = devices } in
    record {
      id = web_authn_id u;
      name = web_authn_name u;
      display_name = web_authn_display_name u;
      icon = web_authn_icon u;
      credentials = web_authn_credentials u;
    }

-- The library, its sessions `S` and challenges `C`, their JSON, and Redis for the bytes of sessions.
pub record Webauthner (W C S : Type 0) : Type 0 where
  pub begin_registration : LibraryUser → Exec W (C × S)
  pub finish_registration : LibraryUser → S → Text → Exec W Credential
  pub begin_login : LibraryUser → Exec W (C × S)
  pub finish_login : LibraryUser → S → Text → Exec W Credential
  pub marshal_challenge : C → Option Text
  pub marshal_session : S → Option Text
  pub unmarshal_session : Text → Option S
  pub session_get : Text → Exec W Text
  pub session_set : Text → Text → ℕ → Exec W (Unit {0})

abbrev pub new_session_key : Text → Text
new_session_key user_id = user_id ++ codes "-webauthn-session"

-- The first device with a credential, or the empty ID.
unfoldable pub device_id : List Device → Text → Text
device_id [] credential_id = []
device_id (d ∷ ds) credential_id =
    let rest = device_id ds credential_id in
    if text_eq d.client_id credential_id then d.id else rest

-- An error of the library is kept as text only.
abbrev pub library_error : Err → Err
library_error e = domain (web_authn "%v")

abbrev pub new_device : User → Credential → Device
new_device user credential = record {
  id = [];
  user_id = user.id;
  client_id = credential.id;
  public_key = credential.public_key;
  name = [];
  aaguid = credential.aaguid;
  sign_count = credential.sign_count;
  created_at = 0;
  updated_at = 0;
}

module _ {W C S : Type 0} (sys : System W) (lib : Webauthner W C S) (max_devices : ℕ) where
  unfoldable pub retrieve_session : User → Exec W S
  retrieve_session user = do
    b ←
        recast (domain (web_authn "webauthn session not started"))
          (lib.session_get (new_session_key user.id))
    from_option (wrap "failed to unmarshal webauthn session" (other "json"))
        (lib.unmarshal_session b)

  unfoldable pub prepare_challenge : User → S → C → Exec W Text
  prepare_challenge user session credentials = do
    credential_bytes ←
        from_option (wrap "failed to marshal webauthn credentials" (other "json"))
          (lib.marshal_challenge credentials)
    session_bytes ←
        from_option (wrap "failed to marshal webauthn session" (other "json"))
          (lib.marshal_session session)
    wrapped "failed to store webauthn login session"
        (lib.session_set (new_session_key user.id) session_bytes (300 * second))
    pure credential_bytes

  unfoldable pub begin_sign_up : User → Exec W Text
  begin_sign_up user = do
    devices ← wrapped "failed to check devices" (sys.repos.device_by_user_id sys.repo_mngr user.id)
    guard (ltb (length devices) max_devices)
        (domain (web_authn "you cannot register more than %v devices"))
    (credential_options, session) ←
        wrapped "webauthn registration initialization failed"
          (map_err library_error (lib.begin_registration (seen user [])))
    prepare_challenge user session credential_options

  unfoldable pub enable_additional_device : User → Device → Exec W (User × Device)
  enable_additional_device user device = do
    device' ← sys.repos.device_create sys.repo_mngr device
    pure (user, device')

  -- The caller's user is marked too.
  unfoldable pub enable_new_device : User → Device → Exec W (User × Device)
  enable_new_device user device = do
    tx_client ← sys.repos.new_with_transaction sys.repo_mngr
    entity ← sys.repos.with_atomic tx_client (do
      row ← sys.repos.user_get_for_update tx_client user.id
      device' ← sys.repos.device_create tx_client device
      sys.repos.user_update tx_client (record row { is_device_allowed = true })
      pure (device_entity device'))
    device' ← as_device entity
    pure (record user { is_device_allowed = true }, device')

  unfoldable pub finish_sign_up : User → Text → Exec W (User × Device)
  finish_sign_up user r = do
    session ← retrieve_session user
    credential ←
        wrapped "webauthn registration failed"
          (map_err library_error (lib.finish_registration (seen user []) session r))
    wrapped "failed to create device" (
        if user.is_device_allowed
        then enable_additional_device user (new_device user credential)
        else enable_new_device user (new_device user credential))

  unfoldable pub begin_login : User → Exec W Text
  begin_login user = do
    devices ←
        recast (domain (web_authn "no devices found"))
          (sys.repos.device_by_user_id sys.repo_mngr user.id)
    (assertion, session) ←
        wrapped "webauthn login request failed"
          (map_err library_error (lib.begin_login (seen user devices)))
    prepare_challenge user session assertion

  unfoldable pub finish_login : User → Text → Exec W (Unit {0})
  finish_login user r = do
    devices ←
        recast (domain (web_authn "no devices found"))
          (sys.repos.device_by_user_id sys.repo_mngr user.id)
    session ← retrieve_session user
    credential ←
        wrapped "webauthn login failed"
          (map_err library_error (lib.finish_login (seen user devices) session r))
    guard (not credential.clone_warning) (domain (web_authn "device is possibly cloned"))
    client ← wrapped "failed to start transaction" (sys.repos.new_with_transaction sys.repo_mngr)
    wrapped "failed to update device sign count" (
        sys.repos.with_atomic client (do
          device ← sys.repos.device_get_for_update client (device_id devices credential.id)
          device' ←
              sys.repos.device_update client (record device { sign_count = credential.sign_count })
          pure (device_entity device')))
    pure tt

  abbrev pub service : WebAuthnService W
  service = record {
    begin_sign_up = begin_sign_up;
    finish_sign_up = finish_sign_up;
    begin_login = begin_login;
    finish_login = finish_login;
  }
