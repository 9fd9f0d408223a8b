-- ===== src/Worker/Lifecycle/Tests.antt =====
-- Examples for the lifecycle of the data.
use promptlens_v.Prelude.{
  ℕ, ◌≡◌, refl, not, none, some, Option, [], ◌∷◌, keep, inl, inr, ◌*◌, ◌+◌, ◌<◌, ◌≤◌, ◌==◌, ℕ_eq,
  In, ap, arith,
}
use promptlens_v.Store.{Result, ok}
use promptlens_v.Store.Memory.{memory}
use promptlens_v.Schema.{Db, Tenant, Prompt, Project, ProjectStatus}
use promptlens_v.Schema.Sample.{blank}
use promptlens_v.Worker.Lifecycle.{
  Referential, delete_prompts, enforce_tenant, enforce_tenants, enforce_data_lifecycle, day_ms,
}
use promptlens_v.Worker.Lifecycle.Kept.{retention_enforced}

abbrev now : ℕ
now = 100 * day_ms

abbrev workspace : (id : ℕ) → Option ℕ → Tenant
workspace id deletion_scheduled_at = record {
  id = id;
  name = "w";
  slug = "w";
  retention_days = 30;
  ai_provider = "fake";
  ai_model = "m";
  ai_monthly_token_budget = 1000;
  deletion_scheduled_at = deletion_scheduled_at;
}

abbrev prompt : (id tenant_id at : ℕ) → Prompt
prompt id tenant_id at = record {
  id = id;
  tenant_id = tenant_id;
  project_id = tenant_id;
  user_id = 5;
  connector_installation_id = none;
  client_event_id = none;
  client_event_hash = none;
  content = "c";
  platform = "claude-code";
  model = "m";
  occurred_at = at;
  timezone = "UTC";
  metadata = "";
  deleted_at = none;
  created_at = at;
}

abbrev project : (id : ℕ) → Project
project id = record {
  id = id;
  tenant_id = id;
  name = "Default";
  description = none;
  status = ProjectStatus.active;
  archived_at = none;
}

abbrev kept : Db
kept = record blank {
  tenants = workspace 1 none ∷ workspace 2 (some now) ∷ [];
  projects = project 1 ∷ project 2 ∷ [];
  prompts = prompt 3 1 (10 * day_ms) ∷ prompt 4 1 (90 * day_ms) ∷ [];
}

cascaded :
    (n : ℕ) (s s' : Db)
    → ◌≡◌ {A = Result Db}
        (ok (record s {
          tenants = keep (λ t. not (t.id == n)) s.tenants;
          projects = keep (λ q. not (q.tenant_id == n)) s.projects;
          prompts = keep (λ p. not (p.tenant_id == n)) s.prompts;
        }))
        (ok s')
    → s'.prompts ≡ keep (λ p. not (p.tenant_id == n)) s.prompts
cascaded n s s' h = cc

-- A database whose constraints let a workspace go with its prompts.
abbrev cascade : Referential
cascade = record {
  delete_tenant = λ n s. ok (record s {
    tenants = keep (λ t. not (t.id == n)) s.tenants;
    projects = keep (λ q. not (q.tenant_id == n)) s.projects;
    prompts = keep (λ p. not (p.tenant_id == n)) s.prompts;
  });
  cascades = λ n s s' h. cascaded n s s' h;
}

abbrev old : Prompt
old = prompt 3 1 (10 * day_ms)

abbrev young : Prompt
young = prompt 4 1 (90 * day_ms)

run_ends : (enforce_data_lifecycle memory cascade now kept).0 ≡ ok tt
unfolding enforce_data_lifecycle enforce_tenants enforce_tenant delete_prompts
run_ends = refl

left_prompts_kept : (enforce_data_lifecycle memory cascade now kept).1.prompts ≡ young ∷ []
unfolding enforce_data_lifecycle enforce_tenants enforce_tenant delete_prompts
left_prompts_kept = refl

not_due_yet :
    (t : Tenant) (at : ℕ)
    → In t kept.tenants
    → 1 ≡ t.id
    → t.deletion_scheduled_at ≡ some at
    → now < at
not_due_yet t at (inl e) owner due =
    absurd (ground (arith, ap (λ (x : Tenant). x.deletion_scheduled_at) e))
not_due_yet t at (inr (inl e)) owner due = absurd (ground (arith, ap (λ (x : Tenant). x.id) e))
not_due_yet t at (inr (inr i)) owner due = absurd i

retention_enforced_example :
    (In young (enforce_data_lifecycle memory cascade now kept).1.prompts
      → In young kept.prompts
        × ((t : Tenant)
            → In t kept.tenants
            → 1 ≡ t.id
            → now ≤ 90 * day_ms + t.retention_days * (24 * 60 * 60 * 1000)))
    × (In young kept.prompts
          × ((t : Tenant)
              → In t kept.tenants
              → 1 ≡ t.id
              → now ≤ 90 * day_ms + t.retention_days * (24 * 60 * 60 * 1000))
        → In young (enforce_data_lifecycle memory cascade now kept).1.prompts)
retention_enforced_example = retention_enforced memory cascade now kept young run_ends not_due_yet
