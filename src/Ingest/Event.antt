-- ===== src/Ingest/Event.antt =====
-- The request and the answer of `ingest` (packages/contracts/src/prompts), and the keys of its tables.
use promptlens_v.Prelude.{
  ℕ, String, Bool, false, ◌&&◌, ◌||◌, Option, some, List, ◌==◌, ℕ_eq, String_eq,
}
use promptlens_v.Schema.{Prompt, Tag, PromptTag, AnalysisStatus}

pub record IngestPromptRequest : Type 0 where
  pub client_event_id : ℕ
  pub project_id : ℕ
  pub content : String
  pub platform : String
  pub model : String
  pub occurred_at : ℕ
  pub timezone : String
  pub tags : List String
  pub context : String

pub record PromptResponse : Type 0 where
  pub id : ℕ
  pub project_id : ℕ
  pub client_event_id : Option ℕ
  pub analysis_id : ℕ
  pub analysis_status : AnalysisStatus
  pub duplicate : Bool
  pub created_at : ℕ

pub record Texts : Type 0 where
  pub to_lower_case : String → String
  pub event_hash : IngestPromptRequest → String

-- The instant, and the ids of the rows that an ingestion may create.
pub record Ids : Type 0 where
  pub now : ℕ
  pub prompt : ℕ
  pub analysis : ℕ
  pub event : ℕ
  pub tag : ℕ → ℕ

-- The unique keys `(connectorInstallationId, clientEventId)`, `(tenantId, name)`, `(promptId, tagId)`.
-- An absent column clashes with nothing.
abbrev pub same_option : Option ℕ → Option ℕ → Bool
same_option (some a) (some b) = a == b
same_option _ _ = false

abbrev pub prompt_clash : Prompt → Prompt → Bool
prompt_clash a b =
    a.id == b.id
    || (same_option a.connector_installation_id b.connector_installation_id
        && same_option a.client_event_id b.client_event_id)

abbrev pub tag_clash : Tag → Tag → Bool
tag_clash a b = a.tenant_id == b.tenant_id && a.name == b.name

abbrev pub prompt_tag_clash : PromptTag → PromptTag → Bool
prompt_tag_clash a b = a.prompt_id == b.prompt_id && a.tag_id == b.tag_id
