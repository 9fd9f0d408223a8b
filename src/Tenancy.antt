-- ===== src/Tenancy.antt =====
-- withTenantContext of packages/database/src/index.ts and the row-level security policies of
-- packages/database/prisma/migrations. An operation is a program: it reads and writes the secured
-- tables one statement at a time, and each step may depend on the answers before it. PostgreSQL
-- applies the policies, as it documents: a statement meets the rows that USING lets through, and a
-- row that WITH CHECK refuses makes the statement fail. Unique and foreign keys are left out.
pub mod Rows
pub mod Slice
pub mod Refinement
mod Tests
use promptlens_v.Prelude.{
  ℕ, Bool, true, false, not, ◌&&◌, ◌||◌, Option, none, some, List, [], ◌∷◌, ◌++◌, ◌==◌, ℕ_eq, any,
  keep, change, count, if◌then◌else◌,
}
use promptlens_v.Store.{Prisma, Table, Error, Result, ok, err, failure}
use promptlens_v.Schema.{
  Db, Membership, Project, ConnectorInstallation, Prompt, PromptVersion, Tag, PromptTag, Analysis,
  UsageRecord, AuditEvent, OutboxEvent, SupportGrant,
}
use promptlens_v.Schema.Tables

-- The tables with a policy.
pub data Secured : Type 0 where
  memberships projects connector_installations prompts prompt_versions tags prompt_tags analyses
        usage_records audit_events outbox_events support_grants :
      Secured

abbrev pub Row : Secured → Type 0
Row Secured.memberships = Membership
Row Secured.projects = Project
Row Secured.connector_installations = ConnectorInstallation
Row Secured.prompts = Prompt
Row Secured.prompt_versions = PromptVersion
Row Secured.tags = Tag
Row Secured.prompt_tags = PromptTag
Row Secured.analyses = Analysis
Row Secured.usage_records = UsageRecord
Row Secured.audit_events = AuditEvent
Row Secured.outbox_events = OutboxEvent
Row Secured.support_grants = SupportGrant

abbrev pub table : (n : Secured) → Table Db (Row n)
table Secured.memberships = Tables.memberships
table Secured.projects = Tables.projects
table Secured.connector_installations = Tables.installations
table Secured.prompts = Tables.prompts
table Secured.prompt_versions = Tables.prompt_versions
table Secured.tags = Tables.tags
table Secured.prompt_tags = Tables.prompt_tags
table Secured.analyses = Tables.analyses
table Secured.usage_records = Tables.usage
table Secured.audit_events = Tables.audit
table Secured.outbox_events = Tables.outbox
table Secured.support_grants = Tables.support_grants

pub data DatabaseRole : Type 0 where
  promptlens_api promptlens_worker : DatabaseRole

-- `app.tenant_id` and `app.user_id` of the transaction, and the role of the connection.
pub record SessionConfig : Type 0 where
  pub tenant_id : Option ℕ
  pub user_id : Option ℕ
  pub role : DatabaseRole

pub record DatabaseActorContext : Type 0 where
  pub tenant_id : ℕ
  pub user_id : ℕ

-- A comparison with NULL lets no row through.
abbrev pub sql_eq : (a b : Option ℕ) → Bool
sql_eq none b = false
sql_eq (some a) none = false
sql_eq (some a) (some b) = a == b

abbrev pub is_worker : DatabaseRole → Bool
is_worker DatabaseRole.promptlens_api = false
is_worker DatabaseRole.promptlens_worker = true

abbrev pub tenant_of : (n : Secured) → Row n → Option ℕ
tenant_of Secured.memberships r = some r.tenant_id
tenant_of Secured.projects r = some r.tenant_id
tenant_of Secured.connector_installations r = some r.tenant_id
tenant_of Secured.prompts r = some r.tenant_id
tenant_of Secured.prompt_versions r = some r.tenant_id
tenant_of Secured.tags r = some r.tenant_id
tenant_of Secured.prompt_tags r = some r.tenant_id
tenant_of Secured.analyses r = some r.tenant_id
tenant_of Secured.usage_records r = some r.tenant_id
tenant_of Secured.audit_events r = r.tenant_id
tenant_of Secured.outbox_events r = some r.tenant_id
tenant_of Secured.support_grants r = some r.tenant_id

-- `USING (tenant_id = app_current_tenant_id())`, with the two policies that say more.
unfoldable pub using_policy : SessionConfig → (n : Secured) → Row n → Bool
using_policy c Secured.memberships r =
    sql_eq (some r.tenant_id) c.tenant_id || sql_eq (some r.user_id) c.user_id
using_policy c Secured.outbox_events r = sql_eq (some r.tenant_id) c.tenant_id || is_worker c.role
using_policy c n r = sql_eq (tenant_of n r) c.tenant_id

-- `WITH CHECK`
unfoldable pub check_policy : SessionConfig → (n : Secured) → Row n → Bool
check_policy c Secured.outbox_events r = sql_eq (some r.tenant_id) c.tenant_id || is_worker c.role
check_policy c n r = sql_eq (tenant_of n r) c.tenant_id

pub data Statement (R : Type 0) : Type 0 where
  find : (R → Bool) → Statement R
  create : R → Statement R
  update : (R → Bool) → (R → R) → Statement R
  delete : (R → Bool) → Statement R

-- The rows that were read, and how many were changed.
pub record Answer (R : Type 0) : Type 0 where
  pub rows : List R
  pub affected : ℕ

pub data Program (A : Type 0) : Type 0 where
  give : A → Program A
  fail : Error → Program A
  call : (n : Secured) → Statement (Row n) → (Answer (Row n) → Program A) → Program A

abbrev pub policy_violation : Error
policy_violation = failure "new row violates row-level security policy"

-- One statement on one table under its policy.
pub perform :
    {R : Type 0} → (seen checked : R → Bool) → Statement R → List R → Result (Answer R × List R)
perform seen checked (Statement.find p) rows =
    ok (record { rows = keep (λ r. seen r && p r) rows; affected = 0 }, rows)
perform seen checked (Statement.create r) rows =
    if checked r
    then ok (record { rows = r ∷ []; affected = 1 }, rows ++ r ∷ [])
    else err policy_violation
perform seen checked (Statement.update p f) rows =
    if any (λ r. (seen r && p r) && not (checked (f r))) rows
    then err policy_violation
    else ok (
      record { rows = []; affected = count (λ r. seen r && p r) rows },
      change (λ r. seen r && p r) f rows,
    )
perform seen checked (Statement.delete p) rows = ok (
  record { rows = []; affected = count (λ r. seen r && p r) rows },
  keep (λ r. not (seen r && p r)) rows,
)

module _ (seen checked : (n : Secured) → Row n → Bool) {A : Type 0} where
  pub run_program : Program A → Db → Result (A × Db)
  run_program (Program.give a) s = ok (a, s)
  run_program (Program.fail e) s = err e
  run_program (Program.call n statement next) s =
      elim (perform (seen n) (checked n) statement ((table n).rows s)) [
        | err e ↦ err e
        | ok (answer, rows) ↦ run_program (next answer) ((table n).with_rows rows s)
      ]

-- `set_config('app.tenant_id', ..., true)`, then `set_config('app.user_id', ..., true)`.
unfoldable pub set_config : DatabaseActorContext → DatabaseRole → SessionConfig
set_config context role = record {
  tenant_id = some context.tenant_id;
  user_id = some context.user_id;
  role = role;
}

pub with_tenant_context :
    (db : Prisma)
    → DatabaseRole
    → DatabaseActorContext
    → {A : Type 0} → Program A
    → Db
    → Result A × Db
with_tenant_context db role context operation s =
    let session = set_config context role in
    db.transaction (run_program (using_policy session) (check_policy session) operation) s
