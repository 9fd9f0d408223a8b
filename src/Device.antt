-- ===== src/Device.antt =====
-- apps/api/src/connectors/device-authorization.service.ts: the device authorization flow, the
-- rotation of connector tokens and their check. The time, the random tokens and the ids that the
-- database generates are arguments; the two forms of SHA-256 and the Unicode case mapping are
-- parameters.
mod Messages
mod Grant
mod Exchange
pub mod Poll
pub mod Lifecycle
pub mod History
pub mod Race
pub mod Refresh
pub mod Rotation
pub mod Authenticate
pub mod Approve
pub mod Sample
mod Tests
pub use Messages.*
unfoldable pub use Grant.*
unfoldable pub use Exchange.*
use promptlens_v.Prelude.{
  ℕ, String, Bool, true, false, not, ◌&&◌, ◌||◌, Option, none, some, [], ◌∷◌, ◌+◌, ◌*◌, ◌==◌, ℕ_eq,
  String_eq, ltb, leb, if◌then◌else◌, is_none,
}
use promptlens_v.Store.{
  Prisma, Tx, Result, ok, err, bad_request, unauthorized, forbidden, not_found, failure,
  record_missing, ◌>>=◌, ◌>>◌, pure, throw, ensure, require, find_first, update_many, update,
  create, commit,
}
use promptlens_v.Schema.{
  Db, DeviceAuthorization, ConnectorInstallation, ConnectorCredential, AuditEvent, Project,
  ConnectorStatus, DeviceAuthorizationStatus, text,
}
use promptlens_v.Schema.Tables.{devices, installations, credentials, projects, audit}
use promptlens_v.Schema.Enums.{is_pending, is_approved, is_active_project, is_active_connector}
use promptlens_v.Actor.{AuthenticatedActor, AuthenticatedConnector}

module _ (db : Prisma) (crypto : Crypto) where
  open crypto use {digest}

  invalid_token : Result AuthenticatedConnector
  invalid_token = err (unauthorized "Connector token is invalid or expired.")

  check_connector :
      Option ConnectorCredential
      → Option ConnectorInstallation
      → (now : ℕ) → Result AuthenticatedConnector
  check_connector none _ now = invalid_token
  check_connector (some c) none now = invalid_token
  check_connector (some c) (some i) now =
      if not (is_none c.revoked_at)
        || (leb c.access_expires_at now || not (is_active_connector i.status))
      then invalid_token
      else ok (record {
        installation_id = i.id;
        tenant_id = i.tenant_id;
        user_id = i.created_by_id;
        default_project_id = i.default_project_id;
        platform = i.platform;
      })

  pub authenticate : (access_token : Option String) (now : ℕ) → Db → Result AuthenticatedConnector
  authenticate access_token now s = elim (chosen access_token) [
    | none ↦ err (unauthorized "Connector token required.")
    | some token ↦
        let credential = db.find_first (λ c. c.access_token_hash == digest token) s.credentials in
        check_connector credential
          (elim credential [
            | none ↦ none
            | some c ↦ db.find_first (λ i. i.id == c.installation_id) s.installations
          ])
          now
  ]
