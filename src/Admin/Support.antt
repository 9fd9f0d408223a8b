-- ===== src/Admin/Support.antt =====
-- apps/api/src/admin/admin.service.ts: a request for support access, its approval by an owner, its
-- revocation, and the check that a support administrator's view of a workspace begins with.
pub mod Access
mod Tests
use promptlens_v.Prelude.{
  ℕ, String, Bool, true, false, not, ◌&&◌, ◌||◌, Option, none, some, [], ◌∷◌, ◌+◌, ◌*◌, ◌==◌, ℕ_eq,
  is_none,
}
use promptlens_v.Store.{
  Prisma, Tx, Result, ok, err, bad_request, forbidden, not_found, conflict, ◌>>=◌, ◌>>◌, pure,
  throw, ensure, require, find_first, update, create,
}
use promptlens_v.Schema.{Db, User, SupportGrant, text, time}
use promptlens_v.Schema.Tables.{users, tenants, audit, support_grants}
use promptlens_v.Schema.Enums.{is_owner, is_active_user}
use promptlens_v.Actor.{AuthenticatedActor}
use promptlens_v.Admin.{
  guarded, assert_tenant_admin, assert_instance_admin, event_by, no_clash, grant_of, after_now,
  usable_grant, pending_or_live, approved_by,
}

abbrev pub new_grant :
    AuthenticatedActor → (tenant_id : ℕ) (reason : String) (id : ℕ) → SupportGrant
new_grant actor tenant_id reason id = record {
  id = id;
  tenant_id = tenant_id;
  requested_by_id = actor.user_id;
  approved_by_id = none;
  reason = reason;
  expires_at = none;
  revoked_at = none;
}

abbrev pub withdrawn : (at : ℕ) → SupportGrant → SupportGrant
withdrawn at g = record g { revoked_at = some at }

-- `requester?.isInstanceAdmin` and `requester.status`.
abbrev pub may_support : Option User → Bool
may_support none = false
may_support (some u) = u.is_instance_admin && is_active_user u.status

module _ (db : Prisma) where
  pub request_support_body :
      AuthenticatedActor → (tenant_id : ℕ) (reason : String) (now id : ℕ) → Tx Db SupportGrant
  request_support_body actor tenant_id reason now id = do
    existing ← find_first db support_grants (pending_or_live tenant_id actor.user_id now)
    ensure (is_none existing) (conflict "An active support request already exists.")
    create db support_grants no_clash (new_grant actor tenant_id reason id)
    create db audit no_clash
        (record (event_by actor "support.access_requested" "support_grant" id
          (("reason", text reason) ∷ [])) { tenant_id = some tenant_id })
    pure (new_grant actor tenant_id reason id)

  -- The checks before the transaction.
  abbrev pub request_guard : AuthenticatedActor → (tenant_id : ℕ) → Tx Db (Unit {0})
  request_guard actor tenant_id = do
    assert_instance_admin actor
    tenant ← find_first db tenants (λ t. t.id == tenant_id)
    _ ← require tenant (not_found "Workspace not found.")
    pure tt

  abbrev pub approve_guard : AuthenticatedActor → Tx Db (Unit {0})
  approve_guard actor =
      ensure (is_owner actor.role) (forbidden "Only a workspace owner can approve support access.")

  pub request_support :
      AuthenticatedActor
      → (tenant_id : ℕ) (reason : String) (now id : ℕ) → Db
      → Result SupportGrant × Db
  request_support actor tenant_id reason now id =
      guarded db (request_guard actor tenant_id)
        (request_support_body actor tenant_id reason now id)

  pub approve_support_body : AuthenticatedActor → (grant_id now : ℕ) → Tx Db (Unit {0})
  approve_support_body actor grant_id now = do
    row ← find_first db support_grants (grant_of actor.tenant_id grant_id)
    g ← require row (not_found "Support request not found.")
    ensure (not (after_now g.expires_at now)) (conflict "Support request is already approved.")
    requester ← find_first db users (λ u. u.id == g.requested_by_id)
    ensure (may_support requester)
        (bad_request "Requester is no longer an active instance administrator.")
    update db support_grants (λ b. b.id == g.id) (approved_by actor.user_id (now + 60 * 60 * 1000))
    create db audit no_clash (
        event_by actor "support.access_approved" "support_grant" g.id
          (("expiresAt", time (now + 60 * 60 * 1000)) ∷ []))

  pub approve_support : AuthenticatedActor → (grant_id now : ℕ) → Db → Result (Unit {0}) × Db
  approve_support actor grant_id now =
      guarded db (approve_guard actor) (approve_support_body actor grant_id now)

  pub revoke_support_body : AuthenticatedActor → (grant_id now : ℕ) → Tx Db (Unit {0})
  revoke_support_body actor grant_id now = do
    row ← find_first db support_grants (grant_of actor.tenant_id grant_id)
    g ← require row (not_found "Support request not found.")
    update db support_grants (λ b. b.id == g.id) (withdrawn now)
    create db audit no_clash (event_by actor "support.access_revoked" "support_grant" g.id [])

  pub revoke_support : AuthenticatedActor → (grant_id now : ℕ) → Db → Result (Unit {0}) × Db
  revoke_support actor grant_id now =
      guarded db (assert_tenant_admin actor) (revoke_support_body actor grant_id now)

  -- The check and the audit event of `supportMetadata`; what it reads afterwards is left out.
  pub open_support_body : AuthenticatedActor → (tenant_id now : ℕ) → Tx Db (Option ℕ)
  open_support_body actor tenant_id now = do
    row ← find_first db support_grants (usable_grant tenant_id actor.user_id now)
    g ← require row (forbidden "Active owner-approved support access is required.")
    create db audit no_clash
        (record (event_by actor "support.metadata_viewed" "support_grant" g.id []) {
          tenant_id = some tenant_id;
        })
    pure g.expires_at

  pub open_support : AuthenticatedActor → (tenant_id now : ℕ) → Db → Result (Option ℕ) × Db
  open_support actor tenant_id now =
      guarded db (assert_instance_admin actor) (open_support_body actor tenant_id now)
