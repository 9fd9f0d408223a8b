-- ===== src/History.antt =====
-- apps/api/src/prompts/prompt-history.service.ts: who may see a prompt, the request of a new
-- analysis and the deletion of a prompt.
pub mod Access
pub mod List
pub mod Csv
pub mod Export
mod Tests
use promptlens_v.Prelude.{
  ℕ, String, Bool, true, false, not, ◌&&◌, ◌||◌, Option, none, some, [], ◌==◌, ℕ_eq, if◌then◌else◌,
  is_none,
}
use promptlens_v.Store.{
  Prisma, Tx, Result, ok, err, forbidden, not_found, conflict, ◌>>=◌, ◌>>◌, pure, ensure, require,
  find_first, update_many, create,
}
use promptlens_v.Schema.{Db, Prompt, Analysis, AnalysisStatus, OutboxEvent, AuditEvent}
use promptlens_v.Schema.Tables.{prompts, analyses, outbox, audit}
use promptlens_v.Schema.Enums.{is_viewer, is_queued, is_running}
use promptlens_v.Actor.{AuthenticatedActor}
use promptlens_v.Admin.{is_tenant_admin}

-- The user whose prompts an actor sees; none where all are seen. An empty user id is no user.
pub prompt_scope : AuthenticatedActor → (user_id : Option ℕ) (mine_only : Bool) → Option ℕ
prompt_scope actor user_id mine_only =
    if not (is_tenant_admin actor.role)
    then some actor.user_id
    else if mine_only
    then some actor.user_id
    else user_id

abbrev pub in_scope : Option ℕ → Prompt → Bool
in_scope none p = true
in_scope (some user_id) p = p.user_id == user_id

-- A prompt of the workspace that is not deleted and that the actor sees.
pub visible : AuthenticatedActor → (prompt_id : ℕ) → Prompt → Bool
visible actor prompt_id p =
    p.id == prompt_id
    && (p.tenant_id == actor.tenant_id
        && (is_none p.deleted_at && in_scope (prompt_scope actor none false) p))

abbrev pub active_analysis : (prompt_id : ℕ) → Analysis → Bool
active_analysis prompt_id a =
    a.prompt_id == prompt_id && (is_queued a.status || is_running a.status)

abbrev pub queued_analysis : AuthenticatedActor → (prompt_id id now : ℕ) → Analysis
queued_analysis actor prompt_id id now = record {
  id = id;
  tenant_id = actor.tenant_id;
  prompt_id = prompt_id;
  status = AnalysisStatus.queued;
  rubric_version = "1.0.0";
  provider = none;
  model = none;
  score = none;
  strengths = [];
  weaknesses = [];
  suggestions = [];
  error_code = none;
  started_at = none;
  completed_at = none;
  created_at = now;
}

abbrev pub analysis_event : AuthenticatedActor → (prompt_id id event_id now : ℕ) → OutboxEvent
analysis_event actor prompt_id id event_id now = record {
  id = event_id;
  tenant_id = actor.tenant_id;
  aggregate_type = "prompt";
  aggregate_id = prompt_id;
  event_type = "PromptCreated";
  event_version = 1;
  prompt_id = prompt_id;
  analysis_id = id;
  occurred_at = now;
  published_at = none;
  attempts = 0;
}

abbrev pub deletion_event : AuthenticatedActor → (prompt_id : ℕ) → AuditEvent
deletion_event actor prompt_id = record {
  tenant_id = some actor.tenant_id;
  actor_id = some actor.user_id;
  action = "prompt.deleted";
  target_type = "prompt";
  target_id = some prompt_id;
  result = "success";
  metadata = [];
}

abbrev pub removed_at : (at : ℕ) → Prompt → Prompt
removed_at at p = record p { deleted_at = some at }

-- The columns of these rows that are unique are ids, which the database generates.
abbrev pub fresh {ℓ} : {A : Type ℓ} → A → A → Bool
fresh a b = false

module _ (db : Prisma) where
  pub reanalyze_body :
      AuthenticatedActor → (prompt_id id event_id now : ℕ) → Tx Db (ℕ × AnalysisStatus)
  reanalyze_body actor prompt_id id event_id now = do
    row ← find_first db prompts (visible actor prompt_id)
    _ ← require row (not_found "Prompt not found.")
    active ← find_first db analyses (active_analysis prompt_id)
    ensure (is_none active) (conflict "An analysis is already active for this prompt.")
    create db analyses fresh (queued_analysis actor prompt_id id now)
    create db outbox fresh (analysis_event actor prompt_id id event_id now)
    pure (id, AnalysisStatus.queued)

  pub reanalyze :
      AuthenticatedActor → (prompt_id id event_id now : ℕ) → Db → Result (ℕ × AnalysisStatus) × Db
  reanalyze actor prompt_id id event_id now s =
      if is_viewer actor.role
      then (err (forbidden "This role cannot request analysis."), s)
      else db.transaction (reanalyze_body actor prompt_id id event_id now) s

  pub delete_prompt_body : AuthenticatedActor → (prompt_id now : ℕ) → Tx Db (Unit {0})
  delete_prompt_body actor prompt_id now = do
    deleted ← update_many db prompts (visible actor prompt_id) (removed_at now)
    ensure (deleted == 1) (not_found "Prompt not found.")
    create db audit fresh (deletion_event actor prompt_id)

  pub delete_prompt : AuthenticatedActor → (prompt_id now : ℕ) → Db → Result (Unit {0}) × Db
  delete_prompt actor prompt_id now s =
      if is_viewer actor.role
      then (err (forbidden "This role cannot delete prompts."), s)
      else db.transaction (delete_prompt_body actor prompt_id now) s
