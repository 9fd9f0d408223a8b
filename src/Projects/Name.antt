-- ===== src/Projects/Name.antt =====
-- packages/domain/src/projects/project-name.ts: a project name as a value that only ProjectName.create
-- makes. A text is a list of UTF-16 code units, as JavaScript counts its length; which of them
-- `trim` takes for white space is a parameter.
mod Tests
use promptlens_v.Prelude.{
  ℕ, ◌≡◌, ◌≢◌, refl, sym, ap, ◌∙◌, Bool, true, false, not, ◌&&◌, ◌||◌, ◌⊎◌, Chars, Option, none,
  some, List, [], ◌∷◌, arith, ◌==◌, ℕ_eq, ltb, leb, ◌≤◌, length, if◌then◌else◌, Bool-cases, inl,
  inr,
}

abbrev pub max_project_name_length : ℕ
max_project_name_length = 120

module _ (is_space : ℕ → Bool) where
  pub trim_start : Chars → Chars
  trim_start [] = []
  trim_start (c ∷ t) = let rest = trim_start t in if is_space c then rest else c ∷ t

  abbrev pub is_empty : Chars → Bool
  is_empty [] = true
  is_empty (c ∷ t) = false

  pub trim_end : Chars → Chars
  trim_end [] = []
  trim_end (c ∷ t) = let rest = trim_end t in if is_empty rest && is_space c then [] else c ∷ rest

  pub trim : Chars → Chars
  trim t = trim_end (trim_start t)

  -- `private constructor`: a value with what `create` has made sure of.
  pub record ProjectName : Type 0 where
    pub value : Chars
    pub trimmed : trim value ≡ value
    pub some_char : 1 ≤ length value
    pub not_long : length value ≤ max_project_name_length

  pub too_short_or_long : Chars → Bool
  too_short_or_long value = length value == 0 || ltb max_project_name_length (length value)

  length-trim_start : (t : Chars) → length (trim_start t) ≤ length t
  unfolding trim_start
  length-trim_start [] = omega arith
  length-trim_start (c ∷ t) = ground (arith, length-trim_start t)

  trim_start_idem : (t : Chars) → trim_start (trim_start t) ≡ trim_start t
  unfolding trim_start
  trim_start_idem [] = refl
  trim_start_idem (c ∷ t) = elim (Bool-cases (is_space c)) [
    | inl space ↦ rw space (trim_start_idem t)
    | inr other ↦ rw (other, other) refl
  ]

  trim_end_idem : (t : Chars) → trim_end (trim_end t) ≡ trim_end t
  unfolding trim_end
  trim_end_idem [] = refl
  trim_end_idem (c ∷ t) = elim (Bool-cases (is_empty (trim_end t) && is_space c)) [
    | inl gone ↦ rw gone refl
    | inr stays ↦
        let again : (is_empty (trim_end (trim_end t)) && is_space c) ≡ false =
          ap (λ z. is_empty z && is_space c) (trim_end_idem t) ∙ stays in
        rw stays (rw again (ap (λ z. c ∷ z) (trim_end_idem t)))
  ]

  -- The end of a text that starts with no space is trimmed without its start.
  trim_start-trim_end : (t : Chars) → trim_start t ≡ t → trim_start (trim_end t) ≡ trim_end t
  unfolding trim_start trim_end
  trim_start-trim_end [] h = refl
  trim_start-trim_end (c ∷ t) h = elim (Bool-cases (is_empty (trim_end t) && is_space c)) [
    | inl gone ↦ rw gone refl
    | inr stays ↦ elim (Bool-cases (is_space c)) [
      | inr other ↦ rw (stays, other) refl
      | inl space ↦ absurd (ground (arith, ap length h, length-trim_start t))
    ]
  ]

  trim_idem : (t : Chars) → trim (trim t) ≡ trim t
  unfolding trim
  trim_idem t =
      ap trim_end (trim_start-trim_end (trim_start t) (trim_start_idem t))
      ∙ trim_end_idem (trim_start t)

  made : (value : Chars) → trim value ≡ value → too_short_or_long value ≡ false → ProjectName
  unfolding too_short_or_long
  made value trimmed fits = record {
    value = value;
    trimmed = trimmed;
    some_char = ground (arith, fits);
    not_long = ground (arith, fits);
  }

  checked :
      (value : Chars)
      → trim value ≡ value
      → (too_short_or_long value ≡ true) ⊎ (too_short_or_long value ≡ false)
      → Option ProjectName
  checked value trimmed (inl refused) = none
  checked value trimmed (inr fits) = some (made value trimmed fits)

  -- `ProjectName.create`, none where it throws.
  pub create_name : Chars → Option ProjectName
  create_name input =
      checked (trim input) (trim_idem input) (Bool-cases (too_short_or_long (trim input)))

  abbrev pub value_of : Option ProjectName → Option Chars
  value_of none = none
  value_of (some n) = some n.value

  value_of-create_name :
      (input : Chars)
      → value_of (create_name input)
        ≡ (if too_short_or_long (trim input) then none else some (trim input))
  unfolding create_name checked made
  value_of-create_name input =
      go (trim input) (trim_idem input) (Bool-cases (too_short_or_long (trim input)))
    where
      go :
          (value : Chars) (trimmed : trim value ≡ value)
          (d : (too_short_or_long value ≡ true) ⊎ (too_short_or_long value ≡ false))
          → value_of (checked value trimmed d)
            ≡ (if too_short_or_long value then none else some value)
      go value trimmed (inl refused) = rw refused refl
      go value trimmed (inr fits) = rw fits refl

  -- A value of the type is a name that `create` accepts as it stands: its text has from 1 to 120 code
  -- units, no space at its ends, and creating a name from it gives it back. An input is accepted
  -- exactly where what is left of it without the spaces at its ends has such a length.
  pub create_name-ProjectName :
      (n : ProjectName) (input : Chars)
      → (1 ≤ length n.value)
        × (length n.value ≤ max_project_name_length)
        × (value_of (create_name n.value) ≡ some n.value)
        × (value_of (create_name input) ≡ (
            if ltb 0 (length (trim input)) && leb (length (trim input)) max_project_name_length
            then some (trim input)
            else none))
  unfolding too_short_or_long
  create_name-ProjectName n input = (
    n.some_char,
    n.not_long,
    ground (arith, value_of-create_name n.value, n.trimmed, n.some_char, n.not_long),
    ground (arith, value_of-create_name input),
  )
