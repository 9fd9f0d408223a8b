-- ===== src/Analysis/Tests.antt =====
-- Examples for the analysis limits.
use promptlens_v.Prelude.{◌≡◌, refl, ◌≤◌, List, [], ◌∷◌}
use promptlens_v.Analysis.{
  month_start_of, memory_store, empty_store, MemoryStore, AnalysisControlOptions, CounterKey,
  enforce, record_provider_failure, AnalysisDimensions, calculate_score,
}
use promptlens_v.Analysis.Limits.{Call, admissions, admissions_bounded}

-- 2024-02-29, 2026-11-26 and 1970-01-05.
month_starts :
    (month_start_of 1709210096000 ≡ 1706745600000)
    × (month_start_of 1795690000000 ≡ 1793491200000)
    × (month_start_of 345600005 ≡ 0)
unfolding month_start_of
month_starts = (refl, refl, refl)

abbrev good : AnalysisDimensions
good = record {
  goal_clarity = 90;
  context = 80;
  constraints = 82;
  output_format = 85;
  verifiability = 88;
  safety = 90;
}

good_score : calculate_score good ≡ 86
unfolding calculate_score
good_score = refl

abbrev options : AnalysisControlOptions
options = record { requests_per_minute = 1; failure_threshold = 1; consumed_tokens = λ t m. 5 }

-- Two requests in one minute, and one of another provider.
abbrev calls : List Call
calls =
    Call.ask 1 "openai" 100 61000 ∷ Call.ask 1 "fake" 100 61000 ∷ Call.ask 1 "openai" 100 62000 ∷ []

one_admission : admissions memory_store options (CounterKey.rate 1 "openai" 1) calls empty_store ≡ 1
unfolding enforce month_start_of
one_admission = refl

admissions_bounded_example :
    admissions memory_store options (CounterKey.rate 1 "openai" 1) calls empty_store ≤ 1
admissions_bounded_example =
    admissions_bounded memory_store options 1 1 "openai" calls empty_store refl

abbrev failed_once : MemoryStore
failed_once = record_provider_failure memory_store options "openai" 61000 empty_store
