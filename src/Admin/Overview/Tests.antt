-- ===== src/Admin/Overview/Tests.antt =====
-- Examples for the overview.
use promptlens_v.Prelude.{
  ℕ, ◌≡◌, refl, subst, count, ◌==◌, ℕ_eq, inl, inr, none, some, [], ◌∷◌, true,
}
use promptlens_v.Store.{ok}
use promptlens_v.Store.Memory.{memory}
use promptlens_v.Schema.{Db, Tenant, MembershipRole, OutboxEvent}
use promptlens_v.Schema.Sample.{blank}
use promptlens_v.Actor.{AuthenticatedActor}
use promptlens_v.History.{queued_analysis}
use promptlens_v.Tenancy.{using_policy, set_config}
use promptlens_v.Admin.Overview.{overview, tenant_overview, instance_overview, queued_analyses_of}
use promptlens_v.Admin.Overview.Sums.{Housed, whole_instance, overview-whole_instance}

abbrev operator : AuthenticatedActor
operator = record {
  user_id = 1;
  tenant_id = 1;
  role = MembershipRole.owner;
  session_id = 9;
  is_instance_admin = true;
}

abbrev workspace : ℕ → Tenant
workspace id = record {
  id = id;
  name = "W";
  slug = "w";
  retention_days = 365;
  ai_provider = "fake";
  ai_model = "deterministic-v1";
  ai_monthly_token_budget = 1000000;
  deletion_scheduled_at = none;
}

abbrev waiting : OutboxEvent
waiting = record {
  id = 40;
  tenant_id = 2;
  aggregate_type = "prompt";
  aggregate_id = 3;
  event_type = "prompt.captured";
  event_version = 1;
  prompt_id = 3;
  analysis_id = 7;
  occurred_at = 5;
  published_at = none;
  attempts = 0;
}

-- Each of two workspaces has a queued analysis, the second an event to be published.
abbrev shared : Db
shared = record blank {
  tenants = workspace 1 ∷ workspace 2 ∷ [];
  analyses =
      queued_analysis operator 2 6 5
      ∷ queued_analysis (record operator { tenant_id = 2 }) 3 7 5
      ∷ [];
  outbox = waiting ∷ [];
}

analyses-Housed : Housed (λ a. a.tenant_id) shared.tenants shared.analyses
analyses-Housed r (inl e) = subst (λ x. count (λ t. x.tenant_id == t.id) shared.tenants ≡ 1) e refl
analyses-Housed r (inr (inl e)) =
    subst (λ x. count (λ t. x.tenant_id == t.id) shared.tenants ≡ 1) e refl
analyses-Housed r (inr (inr i)) = absurd i

events-Housed : Housed (λ e. e.tenant_id) shared.tenants shared.outbox
events-Housed r (inl e) = subst (λ x. count (λ t. x.tenant_id == t.id) shared.tenants ≡ 1) e refl
events-Housed r (inr i) = absurd i

two_queued : (instance_overview memory operator shared).queued_analyses ≡ 2
unfolding instance_overview queued_analyses_of using_policy set_config
two_queued = refl

overview-whole_instance_example :
    overview memory operator shared
    ≡ ok (tenant_overview memory 1 shared, some (whole_instance shared))
overview-whole_instance_example =
    overview-whole_instance memory operator shared refl refl analyses-Housed events-Housed
