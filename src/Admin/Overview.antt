-- ===== src/Admin/Overview.antt =====
-- apps/api/src/admin/admin.service.ts: `overview`. The counts of each workspace run under the
-- policies of its context (Tenancy). The costs are left out.
pub mod Sums
mod Tests
use promptlens_v.Prelude.{
  ℕ, Bool, true, false, ◌&&◌, Option, none, some, List, [], ◌∷◌, ◌==◌, ℕ_eq, if◌then◌else◌, is_none,
  length, total,
}
use promptlens_v.Store.{Prisma, Result, ok, err}
use promptlens_v.Schema.{Db, Tenant, Prompt, Analysis, OutboxEvent, UsageRecord}
use promptlens_v.Schema.Enums.{is_queued}
use promptlens_v.Actor.{AuthenticatedActor}
use promptlens_v.Admin.{assert_tenant_admin}
use promptlens_v.Tenancy.{Secured, SessionConfig, DatabaseRole, set_config, using_policy}

pub record TenantOverview : Type 0 where
  pub users : ℕ
  pub projects : ℕ
  pub prompts : ℕ
  pub analyses : ℕ
  pub connectors : ℕ
  pub input_tokens : ℕ
  pub output_tokens : ℕ

pub record InstanceOverview : Type 0 where
  pub users : ℕ
  pub tenants : ℕ
  pub queued_analyses : ℕ
  pub unpublished_events : ℕ

module _ (db : Prisma) where
  pub tenant_overview : (tenant_id : ℕ) → Db → TenantOverview
  tenant_overview tenant_id s = record {
    users = db.row_count (λ m. m.tenant_id == tenant_id) s.memberships;
    projects = db.row_count (λ p. p.tenant_id == tenant_id) s.projects;
    prompts = db.row_count (λ p. p.tenant_id == tenant_id && is_none p.deleted_at) s.prompts;
    analyses = db.row_count (λ a. a.tenant_id == tenant_id) s.analyses;
    connectors = db.row_count (λ c. c.tenant_id == tenant_id) s.installations;
    input_tokens = db.aggregate_sum (λ u. u.tenant_id == tenant_id) (λ u. u.input_tokens) s.usage;
    output_tokens = db.aggregate_sum (λ u. u.tenant_id == tenant_id) (λ u. u.output_tokens) s.usage;
  }

  -- The context of one item of `perTenant`, on the connection of the API.
  abbrev pub context_of : AuthenticatedActor → Tenant → SessionConfig
  context_of actor t =
      set_config (record { tenant_id = t.id; user_id = actor.user_id }) DatabaseRole.promptlens_api

  -- One item of `perTenant`: a count meets the rows that the policy lets through.
  pub queued_analyses_of : AuthenticatedActor → Db → Tenant → ℕ
  queued_analyses_of actor s t =
      db.row_count (λ a. using_policy (context_of actor t) Secured.analyses a && is_queued a.status)
        s.analyses

  pub unpublished_events_of : AuthenticatedActor → Db → Tenant → ℕ
  unpublished_events_of actor s t =
      db.row_count
        (λ e. using_policy (context_of actor t) Secured.outbox_events e && is_none e.published_at)
        s.outbox

  pub instance_overview : AuthenticatedActor → Db → InstanceOverview
  instance_overview actor s =
      let tenants = db.find_many (λ t. true) s.tenants in
      record {
        users = db.row_count (λ u. true) s.users;
        tenants = length tenants;
        queued_analyses = total (queued_analyses_of actor s) tenants;
        unpublished_events = total (unpublished_events_of actor s) tenants;
      }

  pub overview : AuthenticatedActor → Db → Result (TenantOverview × Option InstanceOverview)
  overview actor s = elim (assert_tenant_admin actor s) [
    | err e ↦ err e
    | ok _ ↦ ok (
      tenant_overview actor.tenant_id s,
      if actor.is_instance_admin then some (instance_overview actor s) else none,
    )
  ]
