-- ===== src/Config.antt =====
-- packages/config/src/index.ts: the configuration of a process. The fields and their defaults are
-- read by the object schema of a validation library, a parameter here; what the code checks across
-- the fields after it is `issues`.
pub mod Accepted
pub mod Sample
use promptlens_v.Prelude.{
  ℕ, String, Bool, true, false, not, ◌&&◌, Option, none, some, List, [], ◌∷◌, ◌++◌, if◌then◌else◌,
}
use promptlens_v.Store.{Result, ok, err, failure}

pub data NodeEnv : Type 0 where
  development test production : NodeEnv

pub data LogLevel : Type 0 where
  fatal error warn info debug trace : LogLevel

pub data AiProviderName : Type 0 where
  fake openai anthropic : AiProviderName

pub record RuntimeConfig : Type 0 where
  pub node_env : NodeEnv
  pub api_host : String
  pub api_port : ℕ
  pub web_origin : String
  pub database_url : String
  pub session_hash_secret : String
  pub log_level : LogLevel
  pub otel_exporter_otlp_endpoint : Option String
  pub redis_url : String
  pub ai_provider : AiProviderName
  pub ai_model : String
  pub openai_api_key : Option String
  pub anthropic_api_key : Option String
  pub anthropic_model : String
  pub ai_tenant_monthly_token_budget : ℕ
  pub ai_tenant_requests_per_minute : ℕ
  pub ai_circuit_failure_threshold : ℕ
  pub email_verification_required : Bool
  pub smtp_host : Option String
  pub smtp_port : ℕ
  pub smtp_secure : Bool
  pub smtp_user : Option String
  pub smtp_password : Option String
  pub smtp_from : String

pub record Issue : Type 0 where
  pub path : String
  pub message : String

-- The truth of an optional text: neither missing nor empty.
pub given : Option String → Option String
given none = none
given (some String.[]) = none
given (some (String.◌∷◌ c s)) = some (String.◌∷◌ c s)

abbrev pub is_given : Option String → Bool
is_given text = elim (given text) [ none ↦ false | some _ ↦ true ]

abbrev same_truth : Bool → Bool → Bool
same_truth true b = b
same_truth false b = not b

pub host_issue : RuntimeConfig → List Issue
host_issue config =
    if config.email_verification_required && not (is_given config.smtp_host)
    then record {
      path = "SMTP_HOST";
      message = "SMTP_HOST is required when email verification is enabled.";
    }
      ∷ []
    else []

pub user_issue : RuntimeConfig → List Issue
user_issue config =
    if same_truth (is_given config.smtp_user) (is_given config.smtp_password)
    then []
    else record {
      path = "SMTP_USER";
      message = "SMTP_USER and SMTP_PASSWORD must be configured together.";
    }
      ∷ []

-- `superRefine`
abbrev pub issues : RuntimeConfig → List Issue
issues config = host_issue config ++ user_issue config

abbrev pub refined : RuntimeConfig → List Issue → Result RuntimeConfig
refined config [] = ok config
refined config (issue ∷ more) = err (failure "ZodError")

-- The environment variables of a process.
abbrev pub Variables : Type 0
Variables = String → Option String

pub parse_runtime_config :
    (object_schema : Variables → Option RuntimeConfig) → Variables → Result RuntimeConfig
parse_runtime_config object_schema environment = elim (object_schema environment) [
  | none ↦ err (failure "ZodError")
  | some config ↦ refined config (issues config)
]
