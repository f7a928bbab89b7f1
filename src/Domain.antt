-- ===== src/Domain.antt =====
-- authenticator.go: the entities that the services exchange, and the methods of a user.
use authenticator.Common.{
  ℕ, ◌/◌, Bool, true, false, not, ◌||◌, Option, List, [], Text, is_empty, text_eq, if◌then◌else◌,
}

pub data TokenState : Type 0 where
  jwt_pre_authorized jwt_authorized : TokenState
  other_state : Text → TokenState

-- Any string may stand in a request; `no_method` is the empty one.
pub data DeliveryMethod : Type 0 where
  no_method phone email : DeliveryMethod
  other_method : Text → DeliveryMethod

pub data TfaOption : Type 0 where
  otp_email otp_phone totp fido_device : TfaOption

pub data MessageType : Type 0 where
  otp_address otp_resend otp_login otp_signup : MessageType

abbrev pub state_eq : TokenState → TokenState → Bool
state_eq jwt_pre_authorized jwt_pre_authorized = true
state_eq jwt_authorized jwt_authorized = true
state_eq (other_state s) (other_state t) = text_eq s t
state_eq _ _ = false

abbrev pub is_phone : DeliveryMethod → Bool
is_phone phone = true
is_phone _ = false

abbrev pub is_email : DeliveryMethod → Bool
is_email email = true
is_email _ = false

abbrev pub is_no_method : DeliveryMethod → Bool
is_no_method no_method = true
is_no_method _ = false

-- `sql.NullString`.
pub record NullString : Type 0 where
  pub string : Text
  pub valid : Bool

-- Times are nanoseconds since the Unix epoch.
pub record User : Type 0 where
  pub id : Text
  pub phone : NullString
  pub email : NullString
  pub password : Text
  pub tfa_secret : Text
  pub is_phone_otp_allowed : Bool
  pub is_email_otp_allowed : Bool
  pub is_totp_allowed : Bool
  pub is_device_allowed : Bool
  pub is_verified : Bool
  pub created_at : ℕ
  pub updated_at : ℕ

unfoldable pub default_tfa : User → TfaOption
default_tfa u =
    if u.is_device_allowed
    then fido_device
    else if u.is_totp_allowed
    then totp
    else if u.is_email_otp_allowed
    then otp_email
    else otp_phone

unfoldable pub default_otp_delivery : User → DeliveryMethod
default_otp_delivery u = if not (is_empty u.email.string) then email else phone

unfoldable pub can_send_default_otp : User → Bool
can_send_default_otp u =
    if u.is_device_allowed || u.is_totp_allowed
    then false
    else u.is_phone_otp_allowed || u.is_email_otp_allowed

unfoldable pub default_name : User → Text
default_name u = if not (is_empty u.email.string) then u.email.string else u.phone.string

pub record Device : Type 0 where
  pub id : Text
  pub user_id : Text
  pub client_id : Text
  pub public_key : Text
  pub name : Text
  pub aaguid : Text
  pub sign_count : ℕ
  pub created_at : ℕ
  pub updated_at : ℕ

-- `none` is the zero `time.Time`.
pub record LoginHistory : Type 0 where
  pub token_id : Text
  pub user_id : Text
  pub is_revoked : Bool
  pub expires_at : Option ℕ
  pub created_at : ℕ
  pub updated_at : ℕ

-- The fields of `jwt.StandardClaims` come first; its times are seconds.
pub record Token : Type 0 where
  pub issued_at : ℕ
  pub expires_at : ℕ
  pub id : Text
  pub issuer : Text
  pub client_id : Text
  pub client_id_hash : Text
  pub user_id : Text
  pub email : Text
  pub phone : Text
  pub state : TokenState
  pub code_hash : Text
  pub code : Text
  pub refresh_token : Text
  pub refresh_token_hash : Text
  pub tfa_options : List TfaOption
  pub default_tfa : TfaOption

-- What JSON keeps of a token: the fields tagged `json:"-"` are left out.
abbrev pub to_claims : Token → Token
to_claims t = record t { client_id = []; code = []; refresh_token = [] }

-- The only variable of a message is its code.
pub record Message : Type 0 where
  pub type : MessageType
  pub delivery : DeliveryMethod
  pub code : Text
  pub address : Text

-- `otp.Hash`: a hashed code, and where the code went. `expires_at` is in seconds.
pub record OtpHash : Type 0 where
  pub code_hash : Text
  pub expires_at : ℕ
  pub address : Text
  pub delivery_method : DeliveryMethod

-- `token.RefreshToken`.
pub record RefreshToken : Type 0 where
  pub code : Text
  pub expires_at : ℕ

abbrev pub second : ℕ
second = 1000000000

-- `Time.Unix`: whole seconds.
abbrev pub unix : ℕ → ℕ
unix t = t / second

-- The fields of an `http.Cookie` that are set.
pub record Cookie : Type 0 where
  pub name : Text
  pub value : Text
  pub max_age : ℕ
  pub domain : Text
  pub path : Text
  pub secure : Bool
  pub http_only : Bool

-- `token.Response`.
pub record TokenResponse : Type 0 where
  pub token : Text
  pub client_id : Text
  pub refresh_token : Text

-- What the device API tells of a device.
pub record DeviceView : Type 0 where
  pub id : Text
  pub name : Text
  pub created_at : ℕ
  pub updated_at : ℕ

-- The values that handlers return.
pub data Reply : Type 0 where
  token_reply : TokenResponse → Reply
  result_reply : Text → Reply
  bytes_reply : Text → Reply
  totp_reply : Text → Reply
  devices_reply : List DeviceView → Reply
  device_reply : DeviceView → Reply
