-- ===== src/Analysis/Fake/Marks.antt =====
-- The marks of the fake provider against the weaknesses that it names.
use promptlens_v.Prelude.{
  ℕ, String, Bool, true, false, ◌≡◌, refl, ap, ◌⊎◌, List, [], ◌∷◌, ◌++◌, map, length, ◌≤◌, ◌+◌, ◌*◌,
  arith, min, inl, inr, if◌then◌else◌, leb, suc,
}
use promptlens_v.Analysis.{AnalysisDimensions, calculate_score}
use promptlens_v.Analysis.Fake.{
  bounded, unless_shown, has_format, has_constraints, has_context, has_verification,
  fake_dimensions, fake_weaknesses, fake_analyze, utf16_length,
}

-- The marks for what a prompt shows, and its goal clarity.
abbrev marks : (goal : ℕ) (context constraints format verification : Bool) → AnalysisDimensions
marks goal context constraints format verification = record {
  goal_clarity = goal;
  context = if context then 80 else 45;
  constraints = if constraints then 82 else 40;
  output_format = if format then 85 else 35;
  verifiability = if verification then 88 else 42;
  safety = 90;
}

length-map : {A B : Type 0} (f : A → B) (xs : List A) → length (map f xs) ≡ length xs
length-map f [] = refl
length-map f (x ∷ xs) = ap suc (length-map f xs)

marks_bounds :
    (goal : ℕ) (context constraints format verification : Bool)
    → 45 ≤ goal
    → goal ≤ 90
    → (47 ≤ calculate_score (marks goal context constraints format verification))
      × (calculate_score (marks goal context constraints format verification) ≤ 86)
unfolding calculate_score
marks_bounds goal context constraints format verification low high = (ground arith, ground arith)

full_marks : (goal : ℕ) → 60 ≤ goal → 78 ≤ calculate_score (marks goal true true true true)
unfolding calculate_score
full_marks goal low = omega (arith, low)

weaknesses_of : (context constraints format verification : Bool) → List String
weaknesses_of context constraints format verification =
    unless_shown context "The prompt needs more project and audience context."
    ++ unless_shown constraints "Constraints and non-goals are not explicit."
    ++ unless_shown format "The expected output format is not specified."
    ++ unless_shown verification "Success criteria are not measurable."

-- Whether there are weaknesses, and what the score then is at least or at most.
abbrev pub Fits : List String → (score : ℕ) → Type 0
Fits weaknesses score =
    ((weaknesses ≡ []) × (78 ≤ score)) ⊎ ((1 ≤ length weaknesses) × (score ≤ 79))

marks_fit :
    (goal : ℕ) (context constraints format verification : Bool)
    → goal ≤ 90
    → (if context then 60 else 0) ≤ goal
    → Fits
        (weaknesses_of context constraints format verification)
        (calculate_score (marks goal context constraints format verification))
unfolding calculate_score weaknesses_of
marks_fit goal true true true true high low = inl (refl, full_marks goal low)
marks_fit goal false constraints format verification high low = inr (omega arith, ground arith)
marks_fit goal true false format verification high low = inr (omega arith, ground arith)
marks_fit goal true true false verification high low = inr (omega arith, ground arith)
marks_fit goal true true true false high low = inr (omega arith, ground arith)

goal_range :
    (n : ℕ) → (45 ≤ bounded (45 * 8 + min n (45 * 8))) × (bounded (45 * 8 + min n (45 * 8)) ≤ 90)
unfolding bounded
goal_range n = (ground arith, ground arith)

goal_of_context : (n : ℕ) → (if leb 120 n then 60 else 0) ≤ bounded (45 * 8 + min n (45 * 8))
unfolding bounded
goal_of_context n = ground arith

-- The score of the fake provider's answer lies between 47 and 86. It is at least 78 where the answer
-- names no weakness, and at most 79 where it names one. Each weakness has its suggestion, and the
-- answer counts 55 tokens more than the prompt.
pub fake_analyze_marks :
    (matches : (pattern : String) → String → Bool) (trim : String → String) (prompt : String)
    → ((47 ≤ calculate_score (fake_analyze matches trim prompt).dimensions)
        × (calculate_score (fake_analyze matches trim prompt).dimensions ≤ 86))
      × Fits
          (fake_analyze matches trim prompt).weaknesses
          (calculate_score (fake_analyze matches trim prompt).dimensions)
      × (length (fake_analyze matches trim prompt).suggestions
          ≡ length (fake_analyze matches trim prompt).weaknesses)
      × ((fake_analyze matches trim prompt).output_tokens
          ≡ (fake_analyze matches trim prompt).input_tokens + 55)
unfolding fake_analyze fake_dimensions fake_weaknesses weaknesses_of has_context
fake_analyze_marks matches trim prompt =
    let n = utf16_length prompt in
    let (low, high) = goal_range n in
    (
      marks_bounds _ (leb 120 n) (has_constraints matches trim prompt)
          (has_format matches trim prompt) (has_verification matches trim prompt) low high,
      marks_fit _ (leb 120 n) (has_constraints matches trim prompt) (has_format matches trim prompt)
          (has_verification matches trim prompt) high (goal_of_context n),
      length-map _ _,
      omega arith,
    )
