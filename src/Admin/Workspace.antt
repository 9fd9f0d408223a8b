-- ===== src/Admin/Workspace.antt =====
-- apps/api/src/admin/admin.service.ts: the status of a user, a new member, the settings of a
-- workspace and its deletion. Outside of a transaction each statement stands for itself; the last one
-- of these handlers only adds an audit event.
pub mod Suspension
mod Tests
use promptlens_v.Prelude.{
  ℕ, String, Bool, true, false, not, ◌&&◌, Option, none, some, List, [], ◌∷◌, ◌+◌, ◌*◌, ◌==◌, ℕ_eq,
  String_eq, if◌then◌else◌,
}
use Prim.Native.String.{◌++◌ as concat}
use promptlens_v.Store.{
  Prisma, Error, Tx, Result, ok, err, bad_request, forbidden, not_found, conflict, unique_violation,
  ◌>>=◌, ◌>>◌, pure, ensure, require, find_first, update, create, commit,
}
use promptlens_v.Schema.{
  Db, User, UserStatus, Tenant, Membership, MembershipRole, Session, text, time, number,
}
use promptlens_v.Schema.Tables.{users, tenants, memberships, sessions, audit}
use promptlens_v.Schema.Enums.{is_owner, is_active_user}
use promptlens_v.Actor.{AuthenticatedActor}
use promptlens_v.Admin.{
  assert_tenant_admin, assert_instance_admin, event_by, no_clash, open_session, closed,
  membership_clash, role_name,
}

abbrev pub status_name : UserStatus → String
status_name UserStatus.active = "ACTIVE"
status_name UserStatus.suspended = "SUSPENDED"
status_name UserStatus.deleted = "DELETED"

abbrev pub with_status : UserStatus → User → User
with_status status u = record u { status = status }

pub record TenantSettingsRequest : Type 0 where
  pub retention_days : ℕ
  pub ai_provider : String
  pub ai_model : String
  pub ai_monthly_token_budget : ℕ

abbrev pub with_settings : TenantSettingsRequest → Tenant → Tenant
with_settings input t = record t {
  retention_days = input.retention_days;
  ai_provider = input.ai_provider;
  ai_model = input.ai_model;
  ai_monthly_token_budget = input.ai_monthly_token_budget;
}

abbrev pub with_deletion : Option ℕ → Tenant → Tenant
with_deletion at t = record t { deletion_scheduled_at = at }

module _ (db : Prisma) where
  -- The sessions of a user in each workspace, one transaction for each.
  pub close_sessions : (user_id now : ℕ) → List Tenant → List Session → List Session
  close_sessions user_id now [] rows = rows
  close_sessions user_id now (t ∷ ts) rows =
      close_sessions user_id now ts (db.update_many (open_session t.id user_id) (closed now) rows).0

  -- The sessions stay where the new status is active.
  abbrev pub after_status : UserStatus → (user_id now : ℕ) → Db → Db
  after_status status user_id now s = if is_active_user status then s else record s {
    sessions = close_sessions user_id now (db.find_many (λ t. true) s.tenants) s.sessions;
  }

  pub update_status_body :
      AuthenticatedActor → (user_id : ℕ) → UserStatus → (now : ℕ) → Tx Db (Unit {0})
  update_status_body actor user_id status now = do
    assert_instance_admin actor
    ensure (not (user_id == actor.user_id)) (bad_request "Self-suspension is not allowed.")
    row ← find_first db users (λ u. u.id == user_id)
    user ← require row (not_found "User not found.")
    update db users (λ u. u.id == user_id) (with_status status)
    (λ s. ok (tt, after_status status user_id now s))
    create db audit no_clash (
        event_by actor "instance.user_status_changed" "user" user_id
          (("from", text (status_name user.status)) ∷ ("to", text (status_name status)) ∷ []))

  -- The statements that write come after the checks, and only the first can be refused for a row
  -- that is not there.
  pub update_user_status :
      AuthenticatedActor → (user_id : ℕ) → UserStatus → (now : ℕ) → Db → Result (Unit {0}) × Db
  update_user_status actor user_id status now s =
      commit s (update_status_body actor user_id status now s)

  -- `addMember`: the look-up of the account, then the transaction; a repeated membership is a
  -- conflict.
  abbrev pub add_answer : Result (Unit {0}) → Result (Unit {0})
  add_answer (err unique_violation) = err (conflict "The user is already a workspace member.")
  add_answer r = r

  pub add_member_body : AuthenticatedActor → User → MembershipRole → Tx Db (Unit {0})
  add_member_body actor user role = do
    create db memberships membership_clash
        (record { tenant_id = actor.tenant_id; user_id = user.id; role = role })
    create db audit no_clash
        (event_by actor "membership.added" "user" user.id (("role", text (role_name role)) ∷ []))

  abbrev pub active_account : Option User → Result User
  active_account none = err (not_found "An active account with this email was not found.")
  active_account (some u) =
      if is_active_user u.status
      then ok u
      else err (not_found "An active account with this email was not found.")

  -- `normalized` is the trimmed address in lower case.
  pub add_member :
      AuthenticatedActor → (normalized : String) → MembershipRole → Db → Result (Unit {0}) × Db
  add_member actor normalized role s = elim (assert_tenant_admin actor s) [
    | err e ↦ (err e, s)
    | ok _ ↦ elim (active_account (db.find_first (λ u. u.email == normalized) s.users)) [
      | err e ↦ (err e, s)
      | ok user ↦
          let r = db.transaction (add_member_body actor user role) s in (add_answer r.0, r.1)
    ]
  ]

  pub update_settings_body : AuthenticatedActor → TenantSettingsRequest → Tx Db (Unit {0})
  update_settings_body actor input = do
    ensure (is_owner actor.role) (forbidden "Only a workspace owner can update workspace settings.")
    update db tenants (λ t. t.id == actor.tenant_id) (with_settings input)
    create db audit no_clash (
        event_by actor "tenant.settings_updated" "tenant" actor.tenant_id (
          ("retentionDays", number input.retention_days)
          ∷ ("aiProvider", text input.ai_provider)
          ∷ ("aiModel", text input.ai_model)
          ∷ ("aiMonthlyTokenBudget", number input.ai_monthly_token_budget)
          ∷ []))

  pub update_settings : AuthenticatedActor → TenantSettingsRequest → Db → Result (Unit {0}) × Db
  update_settings actor input s = commit s (update_settings_body actor input s)

  pub schedule_deletion_body : AuthenticatedActor → (confirmation : String) (now : ℕ) → Tx Db ℕ
  schedule_deletion_body actor confirmation now = do
    ensure (is_owner actor.role) (forbidden "Only a workspace owner can schedule deletion.")
    row ← find_first db tenants (λ t. t.id == actor.tenant_id)
    tenant ← require row (not_found "Workspace not found.")
    ensure (confirmation == concat "delete " tenant.slug)
        (bad_request (concat "Confirmation must exactly match: delete " tenant.slug))
    update db tenants (λ t. t.id == actor.tenant_id)
        (with_deletion (some (now + 7 * 24 * 60 * 60 * 1000)))
    create db audit no_clash (
        event_by actor "tenant.deletion_scheduled" "tenant" actor.tenant_id
          (("deletionScheduledAt", time (now + 7 * 24 * 60 * 60 * 1000)) ∷ []))
    pure (now + 7 * 24 * 60 * 60 * 1000)

  pub schedule_deletion :
      AuthenticatedActor → (confirmation : String) (now : ℕ) → Db → Result ℕ × Db
  schedule_deletion actor confirmation now s =
      commit s (schedule_deletion_body actor confirmation now s)

  pub cancel_deletion_body : AuthenticatedActor → Tx Db (Unit {0})
  cancel_deletion_body actor = do
    ensure (is_owner actor.role) (forbidden "Only a workspace owner can cancel deletion.")
    update db tenants (λ t. t.id == actor.tenant_id) (with_deletion none)
    create db audit no_clash
        (event_by actor "tenant.deletion_cancelled" "tenant" actor.tenant_id [])

  pub cancel_deletion : AuthenticatedActor → Db → Result (Unit {0}) × Db
  cancel_deletion actor s = commit s (cancel_deletion_body actor s)
