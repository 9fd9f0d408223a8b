-- ===== src/Worker/Lifecycle.antt =====
-- apps/worker/src/main.ts, `enforceDataLifecycle`: the deletion of workspaces whose time has come and of
-- prompts that are older than their workspace keeps them. The referential actions of a
-- deleted prompt are those of packages/database/prisma/migrations; what the deletion of a workspace
-- does is a parameter.
pub mod Kept
mod Tests
use promptlens_v.Prelude.{
  ℕ, ◌≡◌, Bool, true, false, not, ◌&&◌, ◌||◌, Option, none, some, List, [], ◌∷◌, ◌+◌, ◌*◌, ◌==◌,
  ℕ_eq, ltb, leb, any, keep, change, if◌then◌else◌,
}
use promptlens_v.Store.{Prisma, Error, Result, ok, err, failure, commit}
use promptlens_v.Schema.{
  Db, Tenant, Prompt, Project, Analysis, PromptVersion, PromptTag, UsageRecord, AuditEvent,
  ConnectorInstallation, ConnectorCredential, DeviceAuthorization, Tag, OutboxEvent, SupportGrant,
  Membership, Session,
}

abbrev pub day_ms : ℕ
day_ms = 24 * 60 * 60 * 1000

-- `tenant.deletionScheduledAt && tenant.deletionScheduledAt <= new Date()`
abbrev pub is_due : (now : ℕ) → Tenant → Bool
is_due now t = reached t.deletion_scheduled_at
  where
    reached : Option ℕ → Bool
    reached none = false
    reached (some at) = leb at now

-- `occurredAt: { lt: cutoff }`, with the retention added on the other side.
abbrev pub is_expired : (now : ℕ) → Tenant → Prompt → Bool
is_expired now t p = p.tenant_id == t.id && ltb (p.occurred_at + t.retention_days * day_ms) now

abbrev pub unless : (ids : ℕ → Bool) → Option ℕ → Option ℕ
unless ids none = none
unless ids (some n) = if ids n then none else some n

-- The prompts that are selected go, with their versions, the links of their tags and their analyses;
-- a usage record and a version forget an analysis that goes.
pub delete_prompts : (Prompt → Bool) → Db → Db
delete_prompts sel s =
    let gone : ℕ → Bool = λ n. any (λ (p : Prompt). sel p && p.id == n) s.prompts in
    let lost : ℕ → Bool = λ n. any (λ (a : Analysis). gone a.prompt_id && a.id == n) s.analyses in
    record s {
      prompts = keep (λ p. not (sel p)) s.prompts;
      prompt_versions =
          change (λ v. true) (λ v. record v { analysis_id = unless lost v.analysis_id })
            (keep (λ v. not (gone v.prompt_id)) s.prompt_versions);
      prompt_tags = keep (λ l. not (gone l.prompt_id)) s.prompt_tags;
      analyses = keep (λ a. not (gone a.prompt_id)) s.analyses;
      usage =
          change (λ u. true) (λ u. record u { analysis_id = unless lost u.analysis_id }) s.usage;
    }

-- What PostgreSQL does for `tenant.delete`, one statement that fails as a whole: it runs the
-- referential actions of the migrations in an order of its own, and a RESTRICT may refuse the
-- statement. Where it succeeds, prompts.tenant_id ON DELETE CASCADE has taken the prompts of the
-- workspace and no other.
pub record Referential : Type 0 where
  pub delete_tenant : (tenant_id : ℕ) → Db → Result Db
  pub cascades :
      (tenant_id : ℕ) (s s' : Db)
      → delete_tenant tenant_id s ≡ ok s'
      → s'.prompts ≡ keep (λ p. not (p.tenant_id == tenant_id)) s.prompts

module _ (db : Prisma) (actions : Referential) where
  -- One round of the loop.
  pub enforce_tenant : (now : ℕ) → Tenant → Db → Result Db
  enforce_tenant now t s =
      if is_due now t
      then actions.delete_tenant t.id s
      else ok (delete_prompts (is_expired now t) s)

  -- The first error ends the loop and keeps what was done.
  pub enforce_tenants : (now : ℕ) → List Tenant → Db → Result (Unit {0}) × Db
  enforce_tenants now [] s = (ok tt, s)
  enforce_tenants now (t ∷ tenants) s = elim (enforce_tenant now t s) [
    | err e ↦ (err e, s)
    | ok s' ↦ enforce_tenants now tenants s'
  ]

  pub enforce_data_lifecycle : (now : ℕ) → Db → Result (Unit {0}) × Db
  enforce_data_lifecycle now s = enforce_tenants now (db.find_many (λ t. true) s.tenants) s
