-- ===== src/History/List/Query.antt =====
-- The query and the answers of `list` and `detail` (packages/contracts/src/prompts/history.ts).
use promptlens_v.Prelude.{ℕ, String, Bool, Option, List, ℕ_eq, String_eq}
use promptlens_v.Schema.{AnalysisStatus}

pub record PromptListQuery : Type 0 where
  pub q : Option String
  pub project_id : Option ℕ
  pub user_id : Option ℕ
  pub platform : Option String
  pub model : Option String
  pub tag : Option String
  pub mine : Option Bool
  pub min_score : Option ℕ
  pub max_score : Option ℕ
  pub from_time : Option ℕ
  pub to_time : Option ℕ
  pub cursor : Option ℕ
  pub limit : ℕ

pub record AnalysisSummary : Type 0 where
  pub id : ℕ
  pub status : AnalysisStatus
  pub score : Option ℕ
  pub strengths : List String
  pub weaknesses : List String
  pub suggestions : List String
  pub improved_prompt : Option String

pub record PromptDetailResponse : Type 0 where
  pub id : ℕ
  pub project_id : ℕ
  pub project_name : String
  pub content : String
  pub platform : String
  pub model : String
  pub occurred_at : String
  pub timezone : String
  pub created_at : String
  pub tags : List String
  pub analysis : Option AnalysisSummary

pub record PromptListResponse : Type 0 where
  pub items : List PromptDetailResponse
  pub next_cursor : Option ℕ

-- What the language and the database do with texts and dates.
pub record TextRules : Type 0 where
  pub to_lower_case : String → String
  -- The search of PostgreSQL: full text, similarity or a part of the text.
  pub found_in : (content q : String) → Bool
  pub to_iso_string : ℕ → String
