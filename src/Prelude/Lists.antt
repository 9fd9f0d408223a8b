-- ===== src/Prelude/Lists.antt =====
-- Lists searched and counted by Boolean tests and measured by native numbers.
use Prim.Native.Nat.{ℕ, zero, suc, ◌+◌}
use mathlib.Core.Path.{◌≡◌, refl}
use mathlib.Core.Logic.{◌⊎◌, inl, inr}
use mathlib.Core.Bool.{Bool, true, false, ◌||◌}
use mathlib.Core.List.{List, [], ◌∷◌, ◌++◌}
use mathlib.Core.Option.{Option, none, some}
use native.Mathlib.Omega.{arith}
use promptlens_v.Prelude.Tests.{if◌then◌else◌}

module _ {ℓ} {A : Type ℓ} where
  abbrev pub length : List A → ℕ
  length [] = 0
  length (x ∷ xs) = suc (length xs)

  pub length-append : (xs ys : List A) → length (xs ++ ys) ≡ length xs + length ys
  length-append [] ys = omega arith
  length-append (x ∷ xs) ys = omega (arith, length-append xs ys)

  abbrev pub any : (A → Bool) → List A → Bool
  any p [] = false
  any p (x ∷ xs) = p x || any p xs

  abbrev pub first : (A → Bool) → List A → Option A
  first p [] = none
  first p (x ∷ xs) = if p x then some x else first p xs

  abbrev pub keep : (A → Bool) → List A → List A
  keep p [] = []
  keep p (x ∷ xs) = let rest = keep p xs in if p x then x ∷ rest else rest

  abbrev pub count : (A → Bool) → List A → ℕ
  count p [] = 0
  count p (x ∷ xs) = let rest = count p xs in if p x then suc rest else rest

  abbrev pub prefix : ℕ → List A → List A
  prefix zero xs = []
  prefix (suc n) [] = []
  prefix (suc n) (x ∷ xs) = x ∷ prefix n xs

  abbrev pub total : (A → ℕ) → List A → ℕ
  total f [] = 0
  total f (x ∷ xs) = f x + total f xs

  -- Every row that passes the test is changed, the others stay.
  abbrev pub change : (A → Bool) → (A → A) → List A → List A
  change p f [] = []
  change p f (x ∷ xs) = (if p x then f x else x) ∷ change p f xs

module _ {ℓ κ} {A : Type ℓ} (P : A → Type κ) where
  abbrev pub All : List A → Type κ
  All [] = Unit
  All (x ∷ xs) = P x × All xs

-- Some element of the list satisfies the predicate.
module _ {ℓ} {A : Type ℓ} (P : A → Type 0) where
  abbrev pub Any : List A → Type 0
  Any [] = ⊥
  Any (x ∷ xs) = P x ⊎ Any xs

module _ {A : Type 0} where
  abbrev pub In : A → List A → Type 0
  In a = Any (λ x. x ≡ a)

  pub In-append_left : (x : A) (xs ys : List A) → In x xs → In x (xs ++ ys)
  In-append_left x (y ∷ xs) ys (inl e) = inl e
  In-append_left x (y ∷ xs) ys (inr i) = inr (In-append_left x xs ys i)
  In-append_left x [] ys i = absurd i

  pub In-append_last : (x : A) (xs : List A) → In x (xs ++ x ∷ [])
  In-append_last x [] = inl refl
  In-append_last x (y ∷ xs) = inr (In-append_last x xs)

  -- A row of the extended table is a row of the table or the new row.
  pub In-append_one : (x r : A) (xs : List A) → In x (xs ++ r ∷ []) → In x xs ⊎ (r ≡ x)
  In-append_one x r [] (inl e) = inr e
  In-append_one x r [] (inr i) = absurd i
  In-append_one x r (y ∷ xs) (inl e) = inl (inl e)
  In-append_one x r (y ∷ xs) (inr i) = ground (arith, In-append_one x r xs i)

  pub any_nothing : (xs : List A) → any (λ x. false) xs ≡ false
  any_nothing [] = refl
  any_nothing (x ∷ xs) = any_nothing xs

  pub any_of_In : (p : A → Bool) (x : A) (xs : List A) → In x xs → p x ≡ true → any p xs ≡ true
  any_of_In p x (y ∷ xs) (inl e) h = rw (e, h)
  any_of_In p x (y ∷ xs) (inr i) h = ground (arith, any_of_In p x xs i h)
  any_of_In p x [] i h = absurd i

  pub false_of_In : (p : A → Bool) (x : A) (xs : List A) → any p xs ≡ false → In x xs → p x ≡ false
  false_of_In p x xs h i = ground (arith, any_of_In p x xs i)

  -- A row of the changed table comes from a row of the table.
  pub In-change :
      (p : A → Bool) (f : A → A) (y : A) (xs : List A)
      → In y (change p f xs)
      → (x : A) × In x xs × ((if p x then f x else x) ≡ y)
  In-change p f y (x ∷ xs) (inl e) = (x, inl refl, e)
  In-change p f y (x ∷ xs) (inr i) = let (z, j, e) = In-change p f y xs i in (z, inr j, e)
  In-change p f y [] i = absurd i

  pub change-In :
      (p : A → Bool) (f : A → A) (x : A) (xs : List A)
      → In x xs
      → In (if p x then f x else x) (change p f xs)
  change-In p f x (y ∷ xs) (inl e) = inl (rw e)
  change-In p f x (y ∷ xs) (inr i) = inr (change-In p f x xs i)
  change-In p f x [] i = absurd i
