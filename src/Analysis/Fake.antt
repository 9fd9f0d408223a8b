-- ===== src/Analysis/Fake.antt =====
-- apps/worker/src/analysis/fake-analysis.provider.ts: the provider that analyses a prompt without a
-- network. Regular expressions and `trim` are parameters. A text is counted in UTF-16 code units, as
-- JavaScript does, and the goal clarity in eighths before it is rounded, which is exact.
pub mod Marks
mod Tests
use Prim.Native.Char.{code}
use Prim.Native.String
use Prim.Native.String.{◌++◌ as concat}
use promptlens_v.Prelude.{
  ℕ, suc, String, Bool, true, false, List, [], ◌∷◌, ◌++◌, map, ◌+◌, ◌*◌, ◌/◌, min, ltb, leb,
  if◌then◌else◌,
}
use promptlens_v.Analysis.{AnalysisDimensions, AnalysisResult, AnalysisProvider, answer}

pub utf16_length : String → ℕ
utf16_length String.[] = 0
utf16_length (String.◌∷◌ c s) =
    let rest = utf16_length s in if ltb (code c) 65536 then suc rest else suc (suc rest)

-- `Math.max(0, Math.min(100, Math.round(value)))` of a value that is not negative, in eighths.
pub bounded : (eighths : ℕ) → ℕ
bounded eighths = min 100 ((eighths + 4) / 8)

abbrev pub unless_shown : Bool → String → List String
unless_shown true weakness = []
unless_shown false weakness = weakness ∷ []

module _ (matches : (pattern : String) → String → Bool) (trim : String → String) where
  pub has_format : String → Bool
  has_format = matches "json|markdown|table|format|liste|tablo"

  pub has_constraints : String → Bool
  has_constraints = matches "must|should|limit|without|zorunlu|gerekiyor|kısıt"

  pub has_context : String → Bool
  has_context prompt = leb 120 (utf16_length prompt)

  pub has_verification : String → Bool
  has_verification = matches "test|verify|acceptance|doğrula|kabul kriter"

  pub fake_dimensions : String → AnalysisDimensions
  fake_dimensions prompt = record {
    goal_clarity = bounded (45 * 8 + min (utf16_length prompt) (45 * 8));
    context = if has_context prompt then 80 else 45;
    constraints = if has_constraints prompt then 82 else 40;
    output_format = if has_format prompt then 85 else 35;
    verifiability = if has_verification prompt then 88 else 42;
    safety = 90;
  }

  pub fake_weaknesses : String → List String
  fake_weaknesses prompt =
      unless_shown (has_context prompt) "The prompt needs more project and audience context."
      ++ unless_shown (has_constraints prompt) "Constraints and non-goals are not explicit."
      ++ unless_shown (has_format prompt) "The expected output format is not specified."
      ++ unless_shown (has_verification prompt) "Success criteria are not measurable."

  pub fake_analyze : String → AnalysisResult
  fake_analyze prompt = record {
    dimensions = fake_dimensions prompt;
    strengths = "The requested action is identifiable." ∷ "The prompt is concise." ∷ [];
    weaknesses = fake_weaknesses prompt;
    suggestions = map (λ item. concat "Address this gap: " item) (fake_weaknesses prompt);
    improved_prompt =
        concat (trim prompt)
          "\n\nContext: [Add relevant project and audience context.]\nConstraints: [List hard constraints and non-goals.]\nOutput format: [Define the exact structure.]\nSuccess criteria: [Add verifiable acceptance checks.]";
    input_tokens = (utf16_length prompt + 3) / 4;
    output_tokens = (utf16_length prompt + 220 + 3) / 4;
  }

  pub fake_provider : AnalysisProvider
  fake_provider = record {
    name = "fake";
    model = "deterministic-v1";
    analyze = λ prompt. answer (fake_analyze prompt);
  }
