-- ===== src/Tenancy/Slice.antt =====
-- The part of the database that a filter of the rows of each table leaves.
use promptlens_v.Prelude.{◌≡◌, refl, Bool, List, keep}
use promptlens_v.Schema.{Db}
use promptlens_v.Tenancy.{Secured, Row, table}

module _ (seen : (n : Secured) → Row n → Bool) where
  abbrev pub slice : Db → Db
  slice s = record s {
    memberships = keep (seen Secured.memberships) s.memberships;
    projects = keep (seen Secured.projects) s.projects;
    installations = keep (seen Secured.connector_installations) s.installations;
    prompts = keep (seen Secured.prompts) s.prompts;
    prompt_versions = keep (seen Secured.prompt_versions) s.prompt_versions;
    tags = keep (seen Secured.tags) s.tags;
    prompt_tags = keep (seen Secured.prompt_tags) s.prompt_tags;
    analyses = keep (seen Secured.analyses) s.analyses;
    usage = keep (seen Secured.usage_records) s.usage;
    audit = keep (seen Secured.audit_events) s.audit;
    outbox = keep (seen Secured.outbox_events) s.outbox;
    support_grants = keep (seen Secured.support_grants) s.support_grants;
  }

  pub rows-slice :
      (n : Secured) (s : Db) → (table n).rows (slice s) ≡ keep (seen n) ((table n).rows s)
  rows-slice Secured.memberships s = refl
  rows-slice Secured.projects s = refl
  rows-slice Secured.connector_installations s = refl
  rows-slice Secured.prompts s = refl
  rows-slice Secured.prompt_versions s = refl
  rows-slice Secured.tags s = refl
  rows-slice Secured.prompt_tags s = refl
  rows-slice Secured.analyses s = refl
  rows-slice Secured.usage_records s = refl
  rows-slice Secured.audit_events s = refl
  rows-slice Secured.outbox_events s = refl
  rows-slice Secured.support_grants s = refl

  pub slice-with_rows :
      (n : Secured) (rows : List (Row n)) (s : Db)
      → slice ((table n).with_rows rows s) ≡ (table n).with_rows (keep (seen n) rows) (slice s)
  slice-with_rows Secured.memberships rows s = refl
  slice-with_rows Secured.projects rows s = refl
  slice-with_rows Secured.connector_installations rows s = refl
  slice-with_rows Secured.prompts rows s = refl
  slice-with_rows Secured.prompt_versions rows s = refl
  slice-with_rows Secured.tags rows s = refl
  slice-with_rows Secured.prompt_tags rows s = refl
  slice-with_rows Secured.analyses rows s = refl
  slice-with_rows Secured.usage_records rows s = refl
  slice-with_rows Secured.audit_events rows s = refl
  slice-with_rows Secured.outbox_events rows s = refl
  slice-with_rows Secured.support_grants rows s = refl

-- Rows that are written back as they were.
pub with_rows_same : (n : Secured) (s : Db) → (table n).with_rows ((table n).rows s) s ≡ s
with_rows_same Secured.memberships s = refl
with_rows_same Secured.projects s = refl
with_rows_same Secured.connector_installations s = refl
with_rows_same Secured.prompts s = refl
with_rows_same Secured.prompt_versions s = refl
with_rows_same Secured.tags s = refl
with_rows_same Secured.prompt_tags s = refl
with_rows_same Secured.analyses s = refl
with_rows_same Secured.usage_records s = refl
with_rows_same Secured.audit_events s = refl
with_rows_same Secured.outbox_events s = refl
with_rows_same Secured.support_grants s = refl
