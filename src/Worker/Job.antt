-- ===== src/Worker/Job.antt =====
-- The jobs of apps/worker/src/main.ts, what a run needs and the rows that it writes.
use promptlens_v.Prelude.{
  ℕ, String, Bool, true, false, ◌&&◌, ◌||◌, Option, none, some, ◌-◌, ◌==◌, ℕ_eq, String_eq,
  if◌then◌else◌,
}
use promptlens_v.Store.{Error}
use promptlens_v.Schema.{
  Db, Analysis, PromptVersion, UsageRecord, AnalysisStatus, PromptVersionKind,
}
use promptlens_v.Schema.Enums.{is_queued, is_failed}
use promptlens_v.Analysis.{
  AnalysisControlError, AnalysisProvider, AnalysisResult, Thrown, ProviderCode, calculate_score,
}

pub record AnalysisJobData : Type 0 where
  pub tenant_id : ℕ
  pub prompt_id : ℕ
  pub analysis_id : ℕ

-- The instants that a run reads off the clock, in the order of the code.
pub record Times : Type 0 where
  pub claimed_at : ℕ
  pub started : ℕ
  pub admitted_at : ℕ
  pub completed_at : ℕ
  pub recorded_at : ℕ
  pub failed_at : ℕ
  -- What the database throws when the `catch` is to store a failure, if it does.
  pub mark_error : Option Error

-- The runtime configuration, the providers that it gives keys for, and what a run throws when the
-- database refuses a write.
pub record Setup : Type 0 where
  pub requests_per_minute : ℕ
  pub failure_threshold : ℕ
  pub anthropic : Option (String → AnalysisProvider)
  pub openai : Option (String → AnalysisProvider)
  pub fake : AnalysisProvider
  pub matches : (pattern text : String) → Bool
  pub shown : Error → Thrown

pub record System (K : Type 0) : Type 0 where
  pub database : Db
  pub redis : K

-- What is caught in a run.
pub data Failure : Type 0 where
  control : AnalysisControlError → Failure
  provider_failure : Thrown → Failure

-- How a run ends: it returns, or throws.
pub data JobEnd : Type 0 where
  returned analysis_missing prompt_missing tenant_missing key_missing : JobEnd
  unrecoverable : (code : String) → JobEnd
  rethrown : Failure → JobEnd

abbrev pub control_code : AnalysisControlError → String
control_code AnalysisControlError.budget_exceeded = "BUDGET_EXCEEDED"
control_code AnalysisControlError.rate_limited = "RATE_LIMITED"
control_code AnalysisControlError.circuit_open = "CIRCUIT_OPEN"

abbrev pub provider_code : ProviderCode → String
provider_code ProviderCode.provider_rate_limited = "PROVIDER_RATE_LIMITED"
provider_code ProviderCode.provider_unavailable = "PROVIDER_UNAVAILABLE"
provider_code ProviderCode.provider_timeout = "PROVIDER_TIMEOUT"
provider_code ProviderCode.provider_invalid_response = "PROVIDER_INVALID_RESPONSE"
provider_code ProviderCode.provider_error = "PROVIDER_ERROR"

abbrev pub is_budget : AnalysisControlError → Bool
is_budget AnalysisControlError.budget_exceeded = true
is_budget _ = false

abbrev pub select : Option (String → AnalysisProvider) → String → Option AnalysisProvider
select none model = none
select (some build) model = some (build model)

-- `provider`: none where the key that it needs is not configured.
abbrev pub provider : Setup → (name model : String) → Option AnalysisProvider
provider setup name model =
    if name == "anthropic"
    then select setup.anthropic model
    else if name == "openai"
    then select setup.openai model
    else some setup.fake

-- The rows that a run looks up and writes.
abbrev pub wanted : AnalysisJobData → Analysis → Bool
wanted job a =
    a.id == job.analysis_id && (a.tenant_id == job.tenant_id && a.prompt_id == job.prompt_id)

abbrev pub claimable : (analysis_id : ℕ) → Analysis → Bool
claimable analysis_id a = a.id == analysis_id && (is_queued a.status || is_failed a.status)

abbrev pub claimed : (at : ℕ) → Analysis → Analysis
claimed at a = record a { status = AnalysisStatus.running; started_at = some at; error_code = none }

abbrev pub completed : AnalysisProvider → AnalysisResult → (at : ℕ) → Analysis → Analysis
completed p result at a = record a {
  status = AnalysisStatus.completed;
  provider = some p.name;
  model = some p.model;
  score = some (calculate_score result.dimensions);
  strengths = result.strengths;
  weaknesses = result.weaknesses;
  suggestions = result.suggestions;
  completed_at = some at;
}

abbrev pub marked : (code : String) → Analysis → Analysis
marked code a = record a { status = AnalysisStatus.failed; error_code = some code }

abbrev pub improved : AnalysisJobData → AnalysisResult → Times → PromptVersion
improved job result times = record {
  tenant_id = job.tenant_id;
  prompt_id = job.prompt_id;
  analysis_id = some job.analysis_id;
  kind = PromptVersionKind.improved;
  content = result.improved_prompt;
  created_at = times.recorded_at;
}

abbrev pub usage_of : AnalysisJobData → AnalysisProvider → AnalysisResult → Times → UsageRecord
usage_of job p result times = record {
  tenant_id = job.tenant_id;
  analysis_id = some job.analysis_id;
  provider = p.name;
  model = p.model;
  input_tokens = result.input_tokens;
  output_tokens = result.output_tokens;
  latency_ms = times.recorded_at - times.started;
  created_at = times.recorded_at;
}

abbrev pub same_analysis : Option ℕ → Option ℕ → Bool
same_analysis (some a) (some b) = a == b
same_analysis _ _ = false

-- An analysis has at most one version (`analysisId` is unique); usage has no unique column.
abbrev pub version_clash : PromptVersion → PromptVersion → Bool
version_clash a b = same_analysis a.analysis_id b.analysis_id

abbrev pub no_clash : UsageRecord → UsageRecord → Bool
no_clash a b = false
