-- ===== src/Tenancy/Tests.antt =====
-- Examples for the tenant context.
use promptlens_v.Prelude.{◌≡◌, refl, true, [], ◌∷◌, ℕ, length}
use promptlens_v.Store.{ok, err}
use promptlens_v.Store.Memory.{memory}
use promptlens_v.Schema.{Db, Tag}
use promptlens_v.Schema.Sample.{blank}
use promptlens_v.Tenancy.{
  Secured, Statement, Program, DatabaseRole, DatabaseActorContext, set_config, with_tenant_context,
  run_program, perform, using_policy, check_policy, policy_violation,
}
use promptlens_v.Tenancy.Refinement.{is_own, is_writable, Refines, with_tenant_context-run_alone}

abbrev tag : (id tenant_id : ℕ) → Tag
tag id tenant_id = record { id = id; tenant_id = tenant_id; name = "t" }

abbrev kept : Db
kept = record blank { tags = tag 1 1 ∷ tag 2 2 ∷ tag 3 1 ∷ [] }

abbrev context : DatabaseActorContext
context = record { tenant_id = 1; user_id = 5 }

-- Every tag is renamed and the tags are counted, without a filter.
abbrev rename_all : Program ℕ
rename_all =
    Program.call Secured.tags (Statement.update (λ t. true) (λ t. record t { name = "u" })) (λ _.
      Program.call Secured.tags (Statement.find (λ t. true))
        (λ answer. Program.give (length answer.rows)))

own_tags_only : with_tenant_context memory DatabaseRole.promptlens_api context rename_all kept ≡ (
  ok 2,
  record blank {
    tags =
        record { id = 1; tenant_id = 1; name = "u" }
        ∷ tag 2 2
        ∷ record { id = 3; tenant_id = 1; name = "u" }
        ∷ [];
  },
)
unfolding with_tenant_context run_program perform using_policy check_policy set_config
own_tags_only = refl

foreign_tag_refused :
    with_tenant_context memory DatabaseRole.promptlens_api context {A = ℕ}
      (Program.call Secured.tags (Statement.create (tag 9 2)) (λ _. Program.give 0))
      kept
    ≡ (err policy_violation, kept)
unfolding with_tenant_context run_program perform using_policy check_policy set_config
foreign_tag_refused = refl

with_tenant_context-run_alone_example :
    let role = DatabaseRole.promptlens_api in
    Refines
      (is_own context role)
      (is_writable context role)
      rename_all
      kept
      (with_tenant_context memory role context rename_all kept)
with_tenant_context-run_alone_example =
    with_tenant_context-run_alone memory DatabaseRole.promptlens_api context rename_all kept
