-- ===== src/Analysis/Fake/Tests.antt =====
-- Examples for the fake provider.
use promptlens_v.Prelude.{◌≡◌, refl, String, Bool, false}
use promptlens_v.Analysis.{calculate_score}
use promptlens_v.Analysis.Fake.{
  utf16_length, fake_analyze, fake_dimensions, has_format, has_constraints, has_context,
  has_verification, bounded,
}

-- No expression finds anything.
abbrev nowhere : String → String → Bool
nowhere pattern text = false

abbrev as_it_is : String → String
as_it_is text = text

short_score : calculate_score (fake_analyze nowhere as_it_is "Fix the build.").dimensions ≡ 47
unfolding fake_analyze fake_dimensions has_format has_constraints has_context has_verification
    utf16_length bounded calculate_score
short_score = refl
