-- ===== src/Worker/Tests.antt =====
-- Examples for the worker.
use promptlens_v.Prelude.{◌≡◌, ◌≢◌, refl, ◌⊎◌, inl, none, some, [], ◌∷◌, true, false, In, ℕ_eq}
use promptlens_v.Store.Memory.{memory}
use promptlens_v.Schema.{Analysis, Prompt, Tenant, AnalysisStatus}
use promptlens_v.Schema.Sample.{blank}
use promptlens_v.Analysis.{
  MemoryStore, memory_store, empty_store, AnalysisProvider, AnalysisResult, answer, enforce,
  month_start_of, calculate_score,
}
use promptlens_v.Worker.{
  AnalysisJobData, Times, Setup, System, JobEnd, process_analysis, run, recover, attempt, analyzed,
  complete,
}
use promptlens_v.Worker.Process.{Settled}
use promptlens_v.Worker.Running.{Ready, process_settles, never_left_running, running_dropped}

abbrev analysis_in : AnalysisStatus → Analysis
analysis_in status = record {
  id = 7;
  tenant_id = 1;
  prompt_id = 3;
  status = status;
  rubric_version = "1.0";
  provider = none;
  model = none;
  score = none;
  strengths = [];
  weaknesses = [];
  suggestions = [];
  error_code = none;
  started_at = none;
  completed_at = none;
  created_at = 0;
}

abbrev a_prompt : Prompt
a_prompt = record {
  id = 3;
  tenant_id = 1;
  project_id = 4;
  user_id = 5;
  connector_installation_id = none;
  client_event_id = none;
  client_event_hash = none;
  content = "Write a parser";
  platform = "claude-code";
  model = "m";
  occurred_at = 0;
  timezone = "UTC";
  metadata = "";
  deleted_at = none;
  created_at = 0;
}

abbrev a_tenant : Tenant
a_tenant = record {
  id = 1;
  name = "T";
  slug = "t";
  retention_days = 30;
  ai_provider = "fake";
  ai_model = "m";
  ai_monthly_token_budget = 1000;
  deletion_scheduled_at = none;
}

abbrev a_result : AnalysisResult
a_result = record {
  dimensions = record {
    goal_clarity = 50;
    context = 50;
    constraints = 50;
    output_format = 50;
    verifiability = 50;
    safety = 50;
  };
  strengths = [];
  weaknesses = [];
  suggestions = [];
  improved_prompt = "Write a parser for JSON";
  input_tokens = 4;
  output_tokens = 60;
}

abbrev a_provider : AnalysisProvider
a_provider = record { name = "fake"; model = "deterministic-v1"; analyze = λ p. answer a_result }

abbrev a_setup : Setup
a_setup = record {
  requests_per_minute = 10;
  failure_threshold = 3;
  anthropic = none;
  openai = none;
  fake = a_provider;
  matches = λ p t. false;
  shown = λ e. record {
    is_zod_error = false;
    status = none;
    is_error = true;
    name = "PrismaClientKnownRequestError";
    message = "";
  };
}

abbrev job : AnalysisJobData
job = record { tenant_id = 1; prompt_id = 3; analysis_id = 7 }

abbrev times : Times
times = record {
  claimed_at = 60000;
  started = 60001;
  admitted_at = 60002;
  completed_at = 60500;
  recorded_at = 60501;
  failed_at = 60600;
  mark_error = none;
}

abbrev system_in : AnalysisStatus → System MemoryStore
system_in status = record {
  database = record blank {
    analyses = analysis_in status ∷ [];
    prompts = a_prompt ∷ [];
    tenants = a_tenant ∷ [];
  };
  redis = empty_store;
}

abbrev ready_in : (status : AnalysisStatus) → Ready a_setup job (system_in status).database
ready_in status = record {
  analysis = analysis_in status;
  prompt = a_prompt;
  tenant = a_tenant;
  chosen = a_provider;
  one_analysis = refl;
  has_analysis = inl refl;
  is_wanted = refl;
  one_prompt = refl;
  has_prompt = inl refl;
  is_prompt = refl;
  one_tenant = refl;
  has_tenant = inl refl;
  is_tenant = refl;
  has_key = refl;
}

process_settles_example :
    Settled memory memory_store a_setup job a_provider "Write a parser" times
      (system_in AnalysisStatus.queued)
      (process_analysis memory memory_store a_setup job times (system_in AnalysisStatus.queued))
process_settles_example =
    process_settles memory memory_store a_setup job times (system_in AnalysisStatus.queued)
      (ready_in AnalysisStatus.queued) refl refl

abbrev analysed : Analysis
analysed = record (analysis_in AnalysisStatus.completed) {
  started_at = some 60000;
  provider = some "fake";
  model = some "deterministic-v1";
  score = some 50;
  completed_at = some 60500;
}

is_analysed :
    In analysed
      (process_analysis memory memory_store a_setup job times
        (system_in AnalysisStatus.queued)).1.database.analyses
unfolding process_analysis run recover attempt analyzed complete enforce month_start_of
    calculate_score
is_analysed = inl refl

never_left_running_example :
    (((process_analysis memory memory_store a_setup job times (system_in AnalysisStatus.queued)).0
        ≡ JobEnd.returned)
      × (AnalysisStatus.completed ≡ AnalysisStatus.completed))
    ⊎ (((process_analysis memory memory_store a_setup job times (system_in AnalysisStatus.queued)).0
          ≢ JobEnd.returned)
        × (AnalysisStatus.completed ≡ AnalysisStatus.failed))
never_left_running_example =
    never_left_running memory memory_store a_setup job times (system_in AnalysisStatus.queued)
      (ready_in AnalysisStatus.queued) analysed refl refl is_analysed refl

running_dropped_example :
    process_analysis memory memory_store a_setup job times (system_in AnalysisStatus.running)
    ≡ (JobEnd.returned, system_in AnalysisStatus.running)
running_dropped_example =
    running_dropped memory memory_store a_setup job times (system_in AnalysisStatus.running)
      (ready_in AnalysisStatus.running) refl
