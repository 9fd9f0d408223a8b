-- ===== src/Device/Grant.antt =====
-- `create` and `approve` of apps/api/src/connectors/device-authorization.service.ts.
use promptlens_v.Prelude.{
  ℕ, String, Bool, ◌&&◌, ◌||◌, Option, none, some, [], ◌∷◌, ◌+◌, ◌*◌, ◌==◌, ℕ_eq, String_eq, leb,
  if◌then◌else◌,
}
use promptlens_v.Store.{
  Prisma, Tx, Result, bad_request, forbidden, not_found, ◌>>=◌, ◌>>◌, pure, throw, ensure, require,
  find_first, update, create, commit,
}
use promptlens_v.Schema.{
  Db, DeviceAuthorization, ConnectorInstallation, AuditEvent, Project, ConnectorStatus,
  DeviceAuthorizationStatus, text,
}
use promptlens_v.Schema.Tables.{devices, installations, projects, audit}
use promptlens_v.Schema.Enums.{is_pending, is_active_project}
use promptlens_v.Actor.{AuthenticatedActor}
use promptlens_v.Device.Messages.{
  device_ttl_seconds, poll_interval_seconds, Crypto, CreateDeviceAuthorizationRequest,
  DeviceAuthorizationResponse, chosen, never,
}

abbrev pub device_clash : DeviceAuthorization → DeviceAuthorization → Bool
device_clash a b =
    a.id == b.id || (a.device_code_hash == b.device_code_hash || a.user_code == b.user_code)

abbrev pub in_tenant : AuthenticatedActor → (project_id : ℕ) → Project → Bool
in_tenant actor project_id p =
    p.id == project_id && (p.tenant_id == actor.tenant_id && is_active_project p.status)

-- What `approve` writes into the authorization.
abbrev pub admit :
    AuthenticatedActor
    → (project_id installation_id : ℕ) → DeviceAuthorization
    → DeviceAuthorization
admit actor project_id installation_id b = record b {
  status = DeviceAuthorizationStatus.approved;
  tenant_id = some actor.tenant_id;
  user_id = some actor.user_id;
  project_id = some project_id;
  installation_id = some installation_id;
}

module _ (db : Prisma) (crypto : Crypto) where
  open crypto use {digest, to_upper_case}

  unfoldable pub new_authorization :
      CreateDeviceAuthorizationRequest
      → (now id : ℕ) (device_code user_code : String) → DeviceAuthorization
  new_authorization input now id device_code user_code = record {
    id = id;
    device_code_hash = digest device_code;
    user_code = user_code;
    platform = input.platform;
    display_name = input.display_name;
    protocol_version = input.protocol_version;
    code_challenge = chosen input.code_challenge;
    status = DeviceAuthorizationStatus.pending;
    tenant_id = none;
    user_id = none;
    project_id = none;
    installation_id = none;
    expires_at = now + device_ttl_seconds * 1000;
    last_polled_at = none;
  }

  unfoldable pub create_authorization :
      CreateDeviceAuthorizationRequest
      → (now id : ℕ) (device_code user_code : String) → Tx Db DeviceAuthorizationResponse
  create_authorization input now id device_code user_code = do
    create db devices device_clash (new_authorization input now id device_code user_code)
    pure (record {
      device_code = device_code;
      user_code = user_code;
      expires_in = device_ttl_seconds;
      interval = poll_interval_seconds;
    })

  -- `create`, one statement with no transaction of its own.
  unfoldable pub create_device :
      CreateDeviceAuthorizationRequest
      → (now id : ℕ) (device_code user_code : String) → Db
      → Result DeviceAuthorizationResponse × Db
  create_device input now id device_code user_code s =
      commit s (create_authorization input now id device_code user_code s)

  unfoldable pub installation_for :
      AuthenticatedActor → DeviceAuthorization → Project → ℕ → ConnectorInstallation
  installation_for actor a project id = record {
    id = id;
    tenant_id = actor.tenant_id;
    created_by_id = actor.user_id;
    platform = a.platform;
    protocol_version = a.protocol_version;
    display_name = a.display_name;
    default_project_id = project.id;
    status = ConnectorStatus.active;
    revoked_at = none;
  }

  unfoldable pub approved_event : AuthenticatedActor → DeviceAuthorization → ℕ → AuditEvent
  approved_event actor a id = record {
    tenant_id = some actor.tenant_id;
    actor_id = some actor.user_id;
    action = "connector.approved";
    target_type = "connector";
    target_id = some id;
    result = "success";
    metadata = ("platform", text a.platform) ∷ [];
  }

  -- The part of `approve` below the expiry check.
  unfoldable pub approve_for :
      AuthenticatedActor → (project_id : ℕ) → DeviceAuthorization → (id : ℕ) → Tx Db (Unit {0})
  approve_for actor project_id a id = do
    candidate ← find_first db projects (in_tenant actor project_id)
    project ← require candidate (forbidden "Project is not available to this workspace.")
    create db installations never (installation_for actor a project id)
    update db devices (λ b. b.id == a.id) (admit actor project.id id)
    create db audit never (approved_event actor a id)

  -- `approve` behind its first read.
  abbrev pub approve_row :
      AuthenticatedActor → (project_id now id : ℕ) → Option DeviceAuthorization → Tx Db (Unit {0})
  approve_row actor project_id now id row = do
    a ← require row (not_found "Device authorization not found.")
    ensure (is_pending a.status) (bad_request "Device authorization is no longer pending.")
    if leb a.expires_at now
        then update db devices (λ b. b.id == a.id)
            (λ b. record b { status = DeviceAuthorizationStatus.expired })
          >> throw (bad_request "Device authorization expired.")
        else approve_for actor project_id a id

  unfoldable pub approve_body :
      AuthenticatedActor → (user_code : String) (project_id now id : ℕ) → Tx Db (Unit {0})
  approve_body actor user_code project_id now id = do
    row ← find_first db devices (λ a. a.user_code == to_upper_case user_code)
    approve_row actor project_id now id row

  unfoldable pub approve :
      AuthenticatedActor
      → (user_code : String) (project_id now id : ℕ) → Db
      → Result (Unit {0}) × Db
  approve actor user_code project_id now id =
      db.transaction (approve_body actor user_code project_id now id)
