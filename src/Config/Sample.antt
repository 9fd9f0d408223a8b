-- ===== src/Config/Sample.antt =====
-- A configuration, for examples.
use promptlens_v.Prelude.{◌≡◌, refl, true, false, Option, none, some}
use promptlens_v.Store.{ok, err, failure}
use promptlens_v.Config.{
  RuntimeConfig, NodeEnv, LogLevel, AiProviderName, Variables, parse_runtime_config, host_issue,
  user_issue, given,
}

abbrev pub config : RuntimeConfig
config = record {
  node_env = NodeEnv.production;
  api_host = "0.0.0.0";
  api_port = 4000;
  web_origin = "https://app.example";
  database_url = "postgresql://db/promptlens";
  session_hash_secret = "a-secret-of-thirty-two-characters";
  log_level = LogLevel.info;
  otel_exporter_otlp_endpoint = none;
  redis_url = "redis://localhost:6379";
  ai_provider = AiProviderName.fake;
  ai_model = "gpt-5.6-luna";
  openai_api_key = none;
  anthropic_api_key = none;
  anthropic_model = "claude-sonnet-5";
  ai_tenant_monthly_token_budget = 1_000_000;
  ai_tenant_requests_per_minute = 60;
  ai_circuit_failure_threshold = 5;
  email_verification_required = true;
  smtp_host = some "smtp.example";
  smtp_port = 587;
  smtp_secure = false;
  smtp_user = none;
  smtp_password = none;
  smtp_from = "PromptLens <noreply@localhost>";
}

abbrev pub schema : Variables → Option RuntimeConfig
schema environment = some config

pub is_accepted : parse_runtime_config schema (λ name. none) ≡ ok config
unfolding parse_runtime_config host_issue user_issue given
is_accepted = refl

no_host :
    parse_runtime_config
      (λ environment. some (record config { smtp_host = some "" }))
      (λ name. none)
    ≡ err (failure "ZodError")
unfolding parse_runtime_config host_issue user_issue given
no_host = refl
