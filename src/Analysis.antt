-- ===== src/Analysis.antt =====
-- apps/worker/src/analysis: the limits on calls of an AI provider (analysis-controls.ts), the
-- classification of its failures (analysis-errors.ts) and the score of a prompt (rubric.ts). Redis is
-- a record of operations with the documented behaviour of INCR, EXPIRE, GET and SET ... EX as laws.
-- A weight is a number of hundredths and the score is computed exactly, so the rounding errors of
-- binary fractions are not modelled.
mod Redis
pub mod Limits
pub mod Circuit
pub mod Month
pub mod Score
pub mod Fake
mod Tests
pub use Redis.*
use promptlens_v.Prelude.{
  ℕ, suc, String, Bool, true, false, not, ◌&&◌, ◌||◌, Option, none, some, ◌+◌, ◌-◌, ◌*◌, ◌/◌, ◌%◌,
  ◌==◌, ℕ_eq, String_eq, ltb, leb, if◌then◌else◌, ◌≡◌, refl, List,
}

pub data AnalysisControlError : Type 0 where
  budget_exceeded rate_limited circuit_open : AnalysisControlError

pub record AnalysisControlOptions : Type 0 where
  pub requests_per_minute : ℕ
  pub failure_threshold : ℕ
  pub consumed_tokens : (tenant_id month_start : ℕ) → ℕ

-- `setUTCDate(1)` and `setUTCHours(0, 0, 0, 0)`: the day of the month of a day of the Gregorian
-- calendar, counted from March in years that end with February, then the first day's midnight.
abbrev pub day_of_era : (day : ℕ) → ℕ
day_of_era day = (day + 719468) % 146097

abbrev year_of_era : (doe : ℕ) → ℕ
year_of_era doe = (doe - doe / 1460 + doe / 36524 - doe / 146096) / 365

abbrev pub day_of_year : (doe : ℕ) → ℕ
day_of_year doe = let y = year_of_era doe in doe - (365 * y + y / 4 - y / 100)

abbrev pub days_into_month : (doy : ℕ) → ℕ
days_into_month doy = doy - (153 * ((5 * doy + 2) / 153) + 2) / 5

unfoldable pub month_start_of : (now : ℕ) → ℕ
month_start_of now =
    let day = now / 86400000 in (day - days_into_month (day_of_year (day_of_era day))) * 86400000

-- A circuit is open where its key holds a non-empty text.
abbrev pub is_truthy : Option String → Bool
is_truthy none = false
is_truthy (some v) = not (v == "")

module _ {K : Type 0} (store : AnalysisControlStore K) (options : AnalysisControlOptions) where
  -- The count of the current minute, with a lifetime from its first call.
  abbrev pub count_call : (tenant_id : ℕ) (provider_name : String) (now : ℕ) → K → ℕ × K
  count_call tenant_id provider_name now k =
      let key = CounterKey.rate tenant_id provider_name (now / 60000) in
      let r = store.incr now key k in (r.0, if r.0 == 1 then store.expire now key 120 r.1 else r.1)

  unfoldable pub enforce :
      (tenant_id : ℕ) (provider_name : String) (monthly_token_budget now : ℕ)
      → K
      → Option AnalysisControlError × K
  enforce tenant_id provider_name monthly_token_budget now k =
      if is_truthy (store.get now provider_name k)
      then (some AnalysisControlError.circuit_open, k)
      else let r = count_call tenant_id provider_name now k in
        if ltb options.requests_per_minute r.0
        then (some AnalysisControlError.rate_limited, r.1)
        else if leb monthly_token_budget (options.consumed_tokens tenant_id (month_start_of now))
        then (some AnalysisControlError.budget_exceeded, r.1)
        else (none, r.1)

  pub record_provider_failure : (provider_name : String) (now : ℕ) → K → K
  record_provider_failure provider_name now k =
      let r = store.incr now (CounterKey.failures provider_name) k in
      let k1 =
        if r.0 == 1 then store.expire now (CounterKey.failures provider_name) 60 r.1 else r.1 in
      if leb options.failure_threshold r.0 then store.set now provider_name "open" 60 k1 else k1

-- A value that a provider throws, as far as the classification looks at it.
pub record Thrown : Type 0 where
  pub is_zod_error : Bool
  pub status : Option ℕ
  pub is_error : Bool
  pub name : String
  pub message : String

pub data ProviderCode : Type 0 where
  provider_rate_limited provider_unavailable provider_timeout : ProviderCode
  provider_invalid_response provider_error : ProviderCode

pub record ClassifiedAnalysisError : Type 0 where
  pub code : ProviderCode
  pub retryable : Bool

abbrev pub status_is : Option ℕ → ℕ → Bool
status_is none n = false
status_is (some status) n = status == n

abbrev pub status_from : Option ℕ → ℕ → Bool
status_from none n = false
status_from (some status) n = leb n status

-- `matches pattern text` is `RegExp.prototype.test` of a case-insensitive pattern.
pub classify_analysis_error :
    (matches : (pattern text : String) → Bool) → Thrown → ClassifiedAnalysisError
classify_analysis_error matches e =
    if e.is_zod_error
    then record { code = ProviderCode.provider_invalid_response; retryable = false }
    else if status_is e.status 429
    then record { code = ProviderCode.provider_rate_limited; retryable = true }
    else if status_from e.status 500
    then record { code = ProviderCode.provider_unavailable; retryable = true }
    else if e.is_error
        && (e.name == "AbortError" || matches "timeout|timed out|ETIMEDOUT" e.message)
    then record { code = ProviderCode.provider_timeout; retryable = true }
    else if e.is_error && matches "no structured analysis|structured analysis.*missing" e.message
    then record { code = ProviderCode.provider_invalid_response; retryable = false }
    else record { code = ProviderCode.provider_error; retryable = true }

pub record AnalysisDimensions : Type 0 where
  pub goal_clarity : ℕ
  pub context : ℕ
  pub constraints : ℕ
  pub output_format : ℕ
  pub verifiability : ℕ
  pub safety : ℕ

-- The weights in hundredths, and `Math.round` of the weighted sum.
unfoldable pub calculate_score : AnalysisDimensions → ℕ
calculate_score d =
    (d.goal_clarity * 25
      + d.context * 20
      + d.constraints * 15
      + d.output_format * 15
      + d.verifiability * 15
      + d.safety * 10
      + 50)
    / 100

pub record AnalysisResult : Type 0 where
  pub dimensions : AnalysisDimensions
  pub strengths : List String
  pub weaknesses : List String
  pub suggestions : List String
  pub improved_prompt : String
  pub input_tokens : ℕ
  pub output_tokens : ℕ

-- A provider answers or throws.
pub data Analyzed : Type 0 where
  answer : AnalysisResult → Analyzed
  thrown : Thrown → Analyzed

pub record AnalysisProvider : Type 0 where
  pub name : String
  pub model : String
  pub analyze : (prompt : String) → Analyzed
