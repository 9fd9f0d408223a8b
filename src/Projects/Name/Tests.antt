-- ===== src/Projects/Name/Tests.antt =====
-- Examples for the project name.
use promptlens_v.Prelude.{
  ℕ, ◌≡◌, refl, Bool, ◌&&◌, Chars, codes, none, some, arith, nat_eq, length, ltb, leb, ◌≤◌,
  if◌then◌else◌,
}
use promptlens_v.Projects.Name.{
  ProjectName, create_name, value_of, trim, trim_start, trim_end, max_project_name_length,
  create_name-ProjectName,
}

abbrev is_blank : ℕ → Bool
is_blank c = nat_eq c 32

abbrev padded : Chars
padded = codes "  My project "

trimmed_name : trim is_blank (codes "My project") ≡ codes "My project"
unfolding trim trim_start trim_end
trimmed_name = refl

abbrev name : ProjectName is_blank
name = record {
  value = codes "My project";
  trimmed = trimmed_name;
  some_char = omega arith;
  not_long = omega arith;
}

create_name-ProjectName_example :
    (1 ≤ length name.value)
    × (length name.value ≤ max_project_name_length)
    × (value_of is_blank (create_name is_blank name.value) ≡ some name.value)
    × (value_of is_blank (create_name is_blank padded) ≡ (
        if ltb 0 (length (trim is_blank padded))
          && leb (length (trim is_blank padded)) max_project_name_length
        then some (trim is_blank padded)
        else none))
create_name-ProjectName_example = create_name-ProjectName is_blank name padded
