-- ===== src/Admin.antt =====
-- apps/api/src/admin/admin.service.ts: the members of a workspace, its connectors and the access of
-- support. An instance administrator and an owner are told apart by the actor that the session
-- gives. The times and the ids of new rows are arguments.
pub mod Guard
pub mod Owners
pub mod Race
pub mod Removal
pub mod Support
pub mod Connectors
pub mod Workspace
pub mod Overview
mod Tests
use promptlens_v.Prelude.{
  ℕ, String, Bool, true, false, not, ◌&&◌, ◌||◌, Option, none, some, [], ◌∷◌, ◌+◌, ◌*◌, ◌==◌, ℕ_eq,
  String_eq, List, ltb, leb, if◌then◌else◌, is_none, is_some,
}
use promptlens_v.Store.{
  Prisma, Error, Tx, Result, ok, err, bad_request, forbidden, not_found, conflict, unique_violation,
  ◌>>=◌, ◌>>◌, pure, throw, ensure, require, find_first, update_many, update, create, delete,
  row_count,
}
use promptlens_v.Schema.{
  Db, User, Membership, MembershipRole, UserStatus, Session, ConnectorInstallation,
  ConnectorCredential, ConnectorStatus, SupportGrant, AuditEvent, MetaValue, text, time,
}
use promptlens_v.Schema.Tables.{
  users, memberships, sessions, installations, credentials, audit, support_grants,
}
use promptlens_v.Schema.Enums.{is_owner, is_active_user}
use promptlens_v.Actor.{AuthenticatedActor}

-- `TENANT_ADMIN_ROLES.has`.
abbrev pub is_tenant_admin : MembershipRole → Bool
is_tenant_admin MembershipRole.owner = true
is_tenant_admin MembershipRole.admin = true
is_tenant_admin _ = false

abbrev pub assert_tenant_admin : AuthenticatedActor → Tx Db (Unit {0})
assert_tenant_admin actor =
    ensure (is_tenant_admin actor.role) (forbidden "Tenant administrator access is required.")

abbrev pub assert_instance_admin : AuthenticatedActor → Tx Db (Unit {0})
assert_instance_admin actor =
    ensure actor.is_instance_admin (forbidden "Instance administrator required.")

abbrev pub role_name : MembershipRole → String
role_name MembershipRole.owner = "OWNER"
role_name MembershipRole.admin = "ADMIN"
role_name MembershipRole.member = "MEMBER"
role_name MembershipRole.viewer = "VIEWER"

abbrev pub event_by :
    AuthenticatedActor
    → (action target_type : String) (target : ℕ) (metadata : List (String × MetaValue)) → AuditEvent
event_by actor action target_type target metadata = record {
  tenant_id = some actor.tenant_id;
  actor_id = some actor.user_id;
  action = action;
  target_type = target_type;
  target_id = some target;
  result = "success";
  metadata = metadata;
}

abbrev pub no_clash {ℓ} : {A : Type ℓ} → A → A → Bool
no_clash a b = false

-- The rows that the handlers select.
abbrev pub membership_of : (tenant_id user_id : ℕ) → Membership → Bool
membership_of tenant_id user_id m = m.tenant_id == tenant_id && m.user_id == user_id

abbrev pub owner_in : (tenant_id : ℕ) → Membership → Bool
owner_in tenant_id m = m.tenant_id == tenant_id && is_owner m.role

abbrev pub membership_clash : Membership → Membership → Bool
membership_clash a b = a.tenant_id == b.tenant_id && a.user_id == b.user_id

abbrev pub open_session : (tenant_id user_id : ℕ) → Session → Bool
open_session tenant_id user_id x =
    x.tenant_id == tenant_id && (x.user_id == user_id && is_none x.revoked_at)

abbrev pub closed : (at : ℕ) → Session → Session
closed at x = record x { revoked_at = some at }

abbrev pub with_role : MembershipRole → Membership → Membership
with_role role m = record m { role = role }

abbrev pub grant_of : (tenant_id grant_id : ℕ) → SupportGrant → Bool
grant_of tenant_id grant_id g =
    g.id == grant_id && (g.tenant_id == tenant_id && is_none g.revoked_at)

abbrev pub after_now : Option ℕ → ℕ → Bool
after_now none now = false
after_now (some t) now = ltb now t

-- The grant that lets an administrator see a workspace.
abbrev pub usable_grant : (tenant_id requester_id now : ℕ) → SupportGrant → Bool
usable_grant tenant_id requester_id now g =
    g.tenant_id == tenant_id
    && (g.requested_by_id == requester_id
        && (is_some g.approved_by_id && (is_none g.revoked_at && after_now g.expires_at now)))

abbrev pub pending_or_live : (tenant_id requester_id now : ℕ) → SupportGrant → Bool
pending_or_live tenant_id requester_id now g =
    g.tenant_id == tenant_id
    && (g.requested_by_id == requester_id
        && (is_none g.revoked_at && (is_none g.expires_at || after_now g.expires_at now)))

abbrev pub approved_by : (user_id expires_at : ℕ) → SupportGrant → SupportGrant
approved_by user_id expires_at g = record g {
  approved_by_id = some user_id;
  expires_at = some expires_at;
}

abbrev pub live_credential : (installation_id : ℕ) → ConnectorCredential → Bool
live_credential installation_id c = c.installation_id == installation_id && is_none c.revoked_at

abbrev pub disabled : (at : ℕ) → ConnectorInstallation → ConnectorInstallation
disabled at i = record i { status = ConnectorStatus.revoked; revoked_at = some at }

abbrev pub dropped : (at : ℕ) → ConnectorCredential → ConnectorCredential
dropped at c = record c { revoked_at = some at }

module _ (db : Prisma) where
  -- The last owner of a workspace keeps the role.
  abbrev pub retain_owner : AuthenticatedActor → Membership → MembershipRole → Tx Db (Unit {0})
  retain_owner actor m role =
      if is_owner m.role && not (is_owner role)
      then (do
        owners ← row_count db memberships (owner_in actor.tenant_id)
        ensure (ltb 1 owners) (bad_request "A workspace must retain at least one owner."))
      else pure tt

  -- `updateMember` up to its first write, and from there.
  abbrev pub member_to_change :
      AuthenticatedActor → (user_id : ℕ) → MembershipRole → Tx Db Membership
  member_to_change actor user_id role = do
    row ← find_first db memberships (membership_of actor.tenant_id user_id)
    m ← require row (not_found "Workspace member not found.")
    ensure (not ((is_owner m.role || is_owner role) && not (is_owner actor.role)))
        (forbidden "Only an owner can change owner membership.")
    retain_owner actor m role
    pure m

  abbrev pub change_role :
      AuthenticatedActor → (user_id : ℕ) → MembershipRole → Membership → Tx Db (Unit {0})
  change_role actor user_id role m = do
    update db memberships (membership_of actor.tenant_id user_id) (with_role role)
    create db audit no_clash (
        event_by actor "membership.role_changed" "user" user_id
          (("from", text (role_name m.role)) ∷ ("to", text (role_name role)) ∷ []))

  pub update_member_body : AuthenticatedActor → (user_id : ℕ) → MembershipRole → Tx Db (Unit {0})
  update_member_body actor user_id role = do
    m ← member_to_change actor user_id role
    change_role actor user_id role m

  -- A handler that fails before its transaction changes nothing.
  abbrev pub go_on : {A : Type 0} → Tx Db A → Db → Result (Unit {0} × Db) → Result A × Db
  go_on body s (err e) = (err e, s)
  go_on body s (ok (_, s')) = db.transaction body s'

  abbrev pub guarded : {A : Type 0} → Tx Db (Unit {0}) → Tx Db A → Db → Result A × Db
  guarded guard body s = go_on body s (guard s)

  pub update_member :
      AuthenticatedActor → (user_id : ℕ) → MembershipRole → Db → Result (Unit {0}) × Db
  update_member actor user_id role =
      guarded (assert_tenant_admin actor) (update_member_body actor user_id role)

  pub remove_member_body : AuthenticatedActor → (user_id now : ℕ) → Tx Db (Unit {0})
  remove_member_body actor user_id now = do
    row ← find_first db memberships (membership_of actor.tenant_id user_id)
    m ← require row (not_found "Workspace member not found.")
    ensure (not (is_owner m.role && not (is_owner actor.role)))
        (forbidden "Only an owner can remove another owner.")
    delete db memberships (membership_of actor.tenant_id user_id)
    _ ← update_many db sessions (open_session actor.tenant_id user_id) (closed now)
    create db audit no_clash (event_by actor "membership.removed" "user" user_id [])

  pub remove_member : AuthenticatedActor → (user_id now : ℕ) → Db → Result (Unit {0}) × Db
  remove_member actor user_id now =
      guarded
        (assert_tenant_admin actor
          >> ensure (not (user_id == actor.user_id))
              (bad_request "Use owner transfer before leaving this workspace."))
        (remove_member_body actor user_id now)

  pub revoke_connector_body : AuthenticatedActor → (connector_id now : ℕ) → Tx Db (Unit {0})
  revoke_connector_body actor connector_id now = do
    row ← find_first db installations (λ i. i.id == connector_id && i.tenant_id == actor.tenant_id)
    connector ← require row (not_found "Connector not found.")
    update db installations (λ i. i.id == connector.id) (disabled now)
    _ ← update_many db credentials (live_credential connector.id) (dropped now)
    create db audit no_clash (event_by actor "connector.revoked" "connector" connector.id [])

  pub revoke_connector : AuthenticatedActor → (connector_id now : ℕ) → Db → Result (Unit {0}) × Db
  revoke_connector actor connector_id now =
      guarded (assert_tenant_admin actor) (revoke_connector_body actor connector_id now)
