-- ===== src/Device/Messages.antt =====
-- What the calls of DeviceAuthorizationService take, draw and answer, and its constants
-- (apps/api/src/connectors/device-authorization.service.ts).
use promptlens_v.Prelude.{
  ℕ, String, Bool, false, Option, none, some, ◌*◌, ◌==◌, ℕ_eq, String_eq, if◌then◌else◌,
}

abbrev pub device_ttl_seconds : ℕ
device_ttl_seconds = 600

abbrev pub poll_interval_seconds : ℕ
poll_interval_seconds = 5

abbrev pub access_ttl_seconds : ℕ
access_ttl_seconds = 15 * 60

abbrev pub refresh_ttl_seconds : ℕ
refresh_ttl_seconds = 30 * 24 * 60 * 60

-- `createHash('sha256')` in hexadecimal and in base64url, and `toUpperCase`.
pub record Crypto : Type 0 where
  pub digest : String → String
  pub pkce_challenge : String → String
  pub to_upper_case : String → String

pub record CreateDeviceAuthorizationRequest : Type 0 where
  pub platform : String
  pub display_name : String
  pub protocol_version : String
  pub code_challenge : Option String

pub record DeviceAuthorizationResponse : Type 0 where
  pub device_code : String
  pub user_code : String
  pub expires_in : ℕ
  pub interval : ℕ

pub record ConnectorTokenResponse : Type 0 where
  pub access_token : String
  pub refresh_token : String
  pub token_type : String
  pub expires_in : ℕ
  pub installation_id : ℕ
  pub project_id : Option ℕ

-- What one call draws: the instant, two opaque tokens and the ids of new rows.
pub record Draw : Type 0 where
  pub now : ℕ
  pub access_token : String
  pub refresh_token : String
  pub new_id : ℕ
  pub new_family : ℕ

pub data PollState : Type 0 where
  invalid invalid_verifier expired slow_down pending denied : PollState
  issued : ℕ → Option ℕ → PollState

pub data RefreshState : Type 0 where
  invalid reuse : RefreshState
  issued : ℕ → ℕ → RefreshState

-- An absent or empty challenge is falsy; so is an absent or empty verifier.
abbrev pub chosen : Option String → Option String
chosen none = none
chosen (some c) = if c == "" then none else some c

abbrev pub never {ℓ} : {A : Type ℓ} → A → A → Bool
never a b = false
