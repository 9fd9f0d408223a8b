-- ===== src/Ingest.antt =====
-- apps/api/src/prompts/prompts.service.ts: the ingestion of a captured prompt. `toLowerCase` and the
-- SHA-256 of the serialised event are parameters; the instant and the ids of the new rows are
-- arguments. An `upsert` with an empty update is a search and, where it fails, an insertion.
mod Event
pub mod Tags
pub mod Created
pub mod Repeat
mod Tests
pub use Event.*
use promptlens_v.Prelude.{
  ℕ, suc, String, Bool, true, false, not, ◌&&◌, ◌||◌, Option, none, some, List, [], ◌∷◌, ◌+◌, ◌*◌,
  ◌==◌, ℕ_eq, String_eq, ltb, if◌then◌else◌, any, map,
}
use promptlens_v.Store.{
  Prisma, Tx, Result, ok, err, bad_request, forbidden, conflict, unique_violation, ◌>>=◌, ◌>>◌,
  pure, throw, ensure, require, find_first, create,
}
use promptlens_v.Schema.{
  Db, Project, Prompt, PromptVersion, PromptVersionKind, Tag, PromptTag, Analysis, AnalysisStatus,
  OutboxEvent,
}
use promptlens_v.Schema.Tables.{
  projects, prompts, prompt_versions, tags, prompt_tags, analyses, outbox,
}
use promptlens_v.Schema.Enums.{is_active_project}
use promptlens_v.Actor.{AuthenticatedConnector}
use promptlens_v.Device.{never}

-- `[...new Set(names)]` keeps the first of equal names.
member : String → List String → Bool
member name [] = false
member name (x ∷ xs) = x == name || member name xs

distinct_from : List String → List String → List String
distinct_from seen [] = []
distinct_from seen (x ∷ xs) =
    let rest = distinct_from seen xs in
    let more = x ∷ distinct_from (x ∷ seen) xs in if member x seen then rest else more

-- A stored hash is compared only where there is one.
abbrev pub hash_differs : Option String → String → Bool
hash_differs none hash = false
hash_differs (some stored) hash = not (stored == "") && not (stored == hash)

abbrev pub event_of : AuthenticatedConnector → IngestPromptRequest → Prompt → Bool
event_of connector input p =
    same_option p.connector_installation_id (some connector.installation_id)
    && same_option p.client_event_id (some input.client_event_id)

abbrev pub usable_project : AuthenticatedConnector → IngestPromptRequest → Project → Bool
usable_project connector input p =
    p.id == input.project_id && (p.tenant_id == connector.tenant_id && is_active_project p.status)

module _ (db : Prisma) (texts : Texts) where
  open texts use {to_lower_case, event_hash}

  pub new_prompt : AuthenticatedConnector → IngestPromptRequest → Project → Ids → Prompt
  new_prompt connector input project ids = record {
    id = ids.prompt;
    tenant_id = connector.tenant_id;
    project_id = project.id;
    user_id = connector.user_id;
    connector_installation_id = some connector.installation_id;
    client_event_id = some input.client_event_id;
    client_event_hash = some (event_hash input);
    content = input.content;
    platform = input.platform;
    model = input.model;
    occurred_at = input.occurred_at;
    timezone = input.timezone;
    metadata = input.context;
    deleted_at = none;
    created_at = ids.now;
  }

  pub original_version : AuthenticatedConnector → IngestPromptRequest → Ids → PromptVersion
  original_version connector input ids = record {
    tenant_id = connector.tenant_id;
    prompt_id = ids.prompt;
    analysis_id = none;
    kind = PromptVersionKind.original;
    content = input.content;
    created_at = ids.now;
  }

  pub new_analysis : AuthenticatedConnector → Ids → Analysis
  new_analysis connector ids = record {
    id = ids.analysis;
    tenant_id = connector.tenant_id;
    prompt_id = ids.prompt;
    status = AnalysisStatus.queued;
    rubric_version = "1.0.0";
    provider = none;
    model = none;
    score = none;
    strengths = [];
    weaknesses = [];
    suggestions = [];
    error_code = none;
    started_at = none;
    completed_at = none;
    created_at = ids.now;
  }

  pub new_event : AuthenticatedConnector → Ids → OutboxEvent
  new_event connector ids = record {
    id = ids.event;
    tenant_id = connector.tenant_id;
    aggregate_type = "prompt";
    aggregate_id = ids.prompt;
    event_type = "PromptCreated";
    event_version = 1;
    prompt_id = ids.prompt;
    analysis_id = ids.analysis;
    occurred_at = ids.now;
    published_at = none;
    attempts = 0;
  }

  -- The tag of that name in the workspace, created where there is none.
  upsert_tag : (tenant id : ℕ) (name : String) → Option Tag → Tx Db ℕ
  upsert_tag tenant id name (some tag) = pure tag.id
  upsert_tag tenant id name none = do
    create db tags tag_clash (record { id = id; tenant_id = tenant; name = name })
    pure id

  tag_prompt : AuthenticatedConnector → Ids → (i : ℕ) (name : String) → Tx Db (Unit {0})
  tag_prompt connector ids i name = do
    row ← find_first db tags (λ t. t.tenant_id == connector.tenant_id && t.name == name)
    tag ← upsert_tag connector.tenant_id (ids.tag i) name row
    create db prompt_tags prompt_tag_clash
        (record { tenant_id = connector.tenant_id; prompt_id = ids.prompt; tag_id = tag })

  -- The loop over the normalised tags.
  pub tag_all : AuthenticatedConnector → Ids → (i : ℕ) → List String → Tx Db (Unit {0})
  tag_all connector ids i [] = pure tt
  tag_all connector ids i (name ∷ names) =
      tag_prompt connector ids i name >> tag_all connector ids (suc i) names

  pub normalized_tags : List String → List String
  normalized_tags names = distinct_from [] (map to_lower_case names)

  pub created_response : IngestPromptRequest → Project → Ids → PromptResponse
  created_response input project ids = record {
    id = ids.prompt;
    project_id = project.id;
    client_event_id = some input.client_event_id;
    analysis_id = ids.analysis;
    analysis_status = AnalysisStatus.queued;
    duplicate = false;
    created_at = ids.now;
  }

  -- The part of the transaction for an event that is new.
  pub create_prompt : AuthenticatedConnector → IngestPromptRequest → Ids → Tx Db PromptResponse
  create_prompt connector input ids = do
    row ← find_first db projects (usable_project connector input)
    project ← require row (forbidden "Project is unavailable.")
    create db prompts prompt_clash (new_prompt connector input project ids)
    create db prompt_versions never (original_version connector input ids)
    tag_all connector ids 0 (normalized_tags input.tags)
    create db analyses never (new_analysis connector ids)
    create db outbox never (new_event connector ids)
    pure (created_response input project ids)

  pub repeated : Prompt → Analysis → PromptResponse
  repeated p a = record {
    id = p.id;
    project_id = p.project_id;
    client_event_id = p.client_event_id;
    analysis_id = a.id;
    analysis_status = AnalysisStatus.queued;
    duplicate = true;
    created_at = p.created_at;
  }

  -- The answer to an event that is there with an analysis.
  repeat_prompt : IngestPromptRequest → Prompt → Analysis → Tx Db PromptResponse
  repeat_prompt input p a =
      if hash_differs p.client_event_hash (event_hash input)
      then throw (conflict "The idempotency key was already used for a different event.")
      else pure (repeated p a)

  on_duplicate :
      AuthenticatedConnector → IngestPromptRequest → Ids → Option Prompt → Tx Db PromptResponse
  on_duplicate connector input ids none = create_prompt connector input ids
  on_duplicate connector input ids (some p) = do
    first_analysis ← find_first db analyses (λ a. a.prompt_id == p.id)
    elim first_analysis [
      | none ↦ create_prompt connector input ids
      | some a ↦ repeat_prompt input p a
    ]

  pub ingest_body : AuthenticatedConnector → IngestPromptRequest → Ids → Tx Db PromptResponse
  ingest_body connector input ids = do
    duplicate ← find_first db prompts (event_of connector input)
    on_duplicate connector input ids duplicate

  -- One call, without the retry.
  pub ingest_once :
      AuthenticatedConnector → IngestPromptRequest → Ids → Db → Result PromptResponse × Db
  ingest_once connector input ids s =
      if not (input.project_id == connector.default_project_id)
      then (err (forbidden "Connector is not authorized for this project."), s)
      else if not (input.platform == connector.platform)
      then (err (forbidden "Prompt platform does not match the connector."), s)
      else if ltb (ids.now + 5 * 60 * 1000) input.occurred_at
      then (err (bad_request "Prompt timestamp is too far in the future."), s)
      else db.transaction (ingest_body connector input ids) s

  -- A unique key that another transaction took is answered by one more call; `meanwhile` is what
  -- the others have committed until then, `again` what the second call draws.
  pub ingest :
      AuthenticatedConnector
      → IngestPromptRequest
      → (ids again : Ids) → (meanwhile : Db → Db) → Db
      → Result PromptResponse × Db
  ingest connector input ids again meanwhile s =
      let r = ingest_once connector input ids s in
      elim r.0 [
        | err unique_violation ↦ ingest_once connector input again (meanwhile r.1)
        | other ↦ (other, r.1)
      ]
