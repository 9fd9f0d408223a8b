-- ===== src/Analysis/Score.antt =====
-- The score of rubric.ts.
use promptlens_v.Prelude.{ℕ, ◌≤◌, arith}
use promptlens_v.Analysis.{AnalysisDimensions, calculate_score}

-- Every dimension lies between two numbers.
pub record Within (lo hi : ℕ) (d : AnalysisDimensions) : Type 0 where
  pub goal_clarity : (lo ≤ d.goal_clarity) × (d.goal_clarity ≤ hi)
  pub context : (lo ≤ d.context) × (d.context ≤ hi)
  pub constraints : (lo ≤ d.constraints) × (d.constraints ≤ hi)
  pub output_format : (lo ≤ d.output_format) × (d.output_format ≤ hi)
  pub verifiability : (lo ≤ d.verifiability) × (d.verifiability ≤ hi)
  pub safety : (lo ≤ d.safety) × (d.safety ≤ hi)

-- The score of a prompt lies between any bounds that all its dimensions keep: the weights add up to
-- one and rounding does not leave the range.
pub calculate_score_bounds :
    (lo hi : ℕ) (d : AnalysisDimensions)
    → Within lo hi d
    → (lo ≤ calculate_score d) × (calculate_score d ≤ hi)
unfolding calculate_score
calculate_score_bounds lo hi d w =
    let a = w.goal_clarity in
    let b = w.context in
    let c = w.constraints in
    let e = w.output_format in
    let f = w.verifiability in
    let g = w.safety in
    (omega (arith, a.0, b.0, c.0, e.0, f.0, g.0), omega (arith, a.1, b.1, c.1, e.1, f.1, g.1))
