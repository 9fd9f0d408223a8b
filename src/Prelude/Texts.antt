-- ===== src/Prelude/Texts.antt =====
-- Texts that a program walks through: lists of code points.
use Prim.Native.Char.{code}
use Prim.Native.String.{String}
use Prim.Native.Nat.{ℕ}
use mathlib.Core.Path.{◌≡◌, refl}
use mathlib.Core.Logic.{◌↔◌}
use mathlib.Core.Bool.{Bool, true, false, ◌&&◌}
use mathlib.Core.List.{List, [], ◌∷◌}
use native.Mathlib.Omega.{arith}
use promptlens_v.Prelude.Tests.{◌==◌, ℕ_eq, nat_eq_iff, Comparable}

abbrev pub Chars : Type 0
Chars = List ℕ

abbrev pub codes : String → Chars
codes String.[] = []
codes (String.◌∷◌ c s) = code c ∷ codes s

abbrev pub same_chars : Chars → Chars → Bool
same_chars [] [] = true
same_chars [] (d ∷ u) = false
same_chars (c ∷ t) [] = false
same_chars (c ∷ t) (d ∷ u) = c == d && same_chars t u

pub same_chars_iff : (t u : Chars) → (same_chars t u ≡ true) ↔ (t ≡ u)
same_chars_iff [] [] = (λ e. refl, λ e. refl)
same_chars_iff [] (d ∷ u) = ground arith
same_chars_iff (c ∷ t) [] = ground arith
same_chars_iff (c ∷ t) (d ∷ u) = ground (arith, nat_eq_iff c d, same_chars_iff t u)

instance abbrev pub Chars_eq : Comparable Chars
Chars_eq = record { same = same_chars; same_iff = same_chars_iff }
