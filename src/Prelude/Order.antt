-- ===== src/Prelude/Order.antt =====
-- Lists sorted by a strict order, and how sorting goes with filters.
use mathlib.Core.Path.{◌≡◌, refl}
use mathlib.Core.Logic.{◌⊎◌, inl, inr}
use mathlib.Core.Bool.{Bool, true, false}
use mathlib.Core.List.{List, [], ◌∷◌, ◌++◌}
use native.Mathlib.Omega.{arith}
use promptlens_v.Prelude.Tests.{if◌then◌else◌, Bool-cases}
use promptlens_v.Prelude.Lists.{All, In, keep}

module _ {R : Type 0} where
  pub All-keep : (P : R → Type 0) (q : R → Bool) (xs : List R) → All P xs → All P (keep q xs)
  All-keep P q [] h = tt
  All-keep P q (x ∷ xs) (hx, h) = elim (Bool-cases (q x)) [
    | inl here ↦ rw here (hx, All-keep P q xs h)
    | inr gone ↦ rw gone (All-keep P q xs h)
  ]

  pub All-map : (P Q : R → Type 0) (xs : List R) → ((x : R) → P x → Q x) → All P xs → All Q xs
  All-map P Q [] f h = tt
  All-map P Q (x ∷ xs) f (hx, h) = (f x hx, All-map P Q xs f h)

module _ {R : Type 0} (before : R → R → Bool) where
  -- A strict order.
  pub record IsStrict : Type 0 where
    pub trans : (a b c : R) → before a b ≡ true → before b c ≡ true → before a c ≡ true
    pub asym : (a b : R) → before a b ≡ true → before b a ≡ false

  -- One of the two comes before the other.
  abbrev pub Apart : R → R → Type 0
  Apart a b = (before a b ≡ true) ⊎ (before b a ≡ true)

  abbrev pub AllApart : List R → Type 0
  AllApart [] = Unit
  AllApart (x ∷ xs) = All (Apart x) xs × AllApart xs

  abbrev pub IsSorted : List R → Type 0
  IsSorted [] = Unit
  IsSorted (x ∷ xs) = All (λ y. before x y ≡ true) xs × IsSorted xs

  abbrev pub insert_by : R → List R → List R
  insert_by x [] = x ∷ []
  insert_by x (y ∷ ys) = let rest = insert_by x ys in if before y x then y ∷ rest else x ∷ y ∷ ys

  abbrev pub sort_by : List R → List R
  sort_by [] = []
  sort_by (x ∷ xs) = insert_by x (sort_by xs)

  All-insert_by : (P : R → Type 0) (x : R) (ys : List R) → P x → All P ys → All P (insert_by x ys)
  All-insert_by P x [] hx h = (hx, tt)
  All-insert_by P x (y ∷ ys) hx (hy, h) = elim (Bool-cases (before y x)) [
    | inl later ↦ rw later (hy, All-insert_by P x ys hx h)
    | inr first ↦ rw first (hx, (hy, h))
  ]

  In-insert_by : (c x : R) (ys : List R) → In c (insert_by x ys) → (x ≡ c) ⊎ In c ys
  In-insert_by c x [] (inl e) = inl e
  In-insert_by c x [] (inr i) = absurd i
  In-insert_by c x (y ∷ ys) i = elim (Bool-cases (before y x)) [
    | inl later ↦ ground (arith, In-insert_by c x ys)
    | inr first ↦ ground arith
  ]

  -- Sorting adds no element.
  pub In-sort_by : (c : R) (xs : List R) → In c (sort_by xs) → In c xs
  In-sort_by c [] i = i
  In-sort_by c (x ∷ xs) i = ground (arith, In-insert_by c x (sort_by xs) i, In-sort_by c xs)

  pub All-sort_by : (P : R → Type 0) (xs : List R) → All P xs → All P (sort_by xs)
  All-sort_by P [] h = tt
  All-sort_by P (x ∷ xs) (hx, h) = All-insert_by P x (sort_by xs) hx (All-sort_by P xs h)

  pub AllApart-keep : (q : R → Bool) (xs : List R) → AllApart xs → AllApart (keep q xs)
  AllApart-keep q [] h = tt
  AllApart-keep q (x ∷ xs) (hx, h) = elim (Bool-cases (q x)) [
    | inl here ↦ rw here (All-keep (Apart x) q xs hx, AllApart-keep q xs h)
    | inr gone ↦ rw gone (AllApart-keep q xs h)
  ]

  module _ (strict : IsStrict) where
    insert_by-IsSorted :
        (x : R) (ys : List R) → All (Apart x) ys → IsSorted ys → IsSorted (insert_by x ys)
    insert_by-IsSorted x [] a s = (tt, tt)
    insert_by-IsSorted x (y ∷ ys) (ay, a) (hy, s) = elim (Bool-cases (before y x)) [
      | inl later ↦
          rw later
            (All-insert_by (λ z. before y z ≡ true) x ys later hy, insert_by-IsSorted x ys a s)
      | inr first ↦
          let e : before x y ≡ true = ground arith in
          rw first
            ((e, All-map _ (λ z. before x z ≡ true) ys (λ z. strict.trans x y z e) hy), (hy, s))
    ]

    pub sort_by-IsSorted : (xs : List R) → AllApart xs → IsSorted (sort_by xs)
    sort_by-IsSorted [] a = tt
    sort_by-IsSorted (x ∷ xs) (ax, a) =
        insert_by-IsSorted x (sort_by xs) (All-sort_by (Apart x) xs ax) (sort_by-IsSorted xs a)

    insert_by_front :
        (x : R) (ys : List R) → All (λ y. before y x ≡ false) ys → insert_by x ys ≡ x ∷ ys
    insert_by_front x [] h = refl
    insert_by_front x (y ∷ ys) (hy, h) = rw hy refl

    keep-insert_by :
        (q : R → Bool) (x : R) (ys : List R)
        → All (Apart x) ys
        → IsSorted ys
        → keep q (insert_by x ys) ≡ (if q x then insert_by x (keep q ys) else keep q ys)
    keep-insert_by q x [] a s = ground arith
    keep-insert_by q x (y ∷ ys) (ay, a) (hy, s) = elim (Bool-cases (before y x)) [
      | inl later ↦ ground (arith, keep-insert_by q x ys a s)
      | inr first ↦
          let e : before x y ≡ true = ground arith in
          let behind : All (λ z. before z x ≡ false) (y ∷ ys) = (
            first,
            All-map _ (λ z. before z x ≡ false) ys (λ z h. strict.asym x z (strict.trans x y z e h))
                hy,
          ) in
          ground (
            arith,
            insert_by_front x (keep q (y ∷ ys))
                (All-keep (λ z. before z x ≡ false) q (y ∷ ys) behind),
          )
    ]

    -- Filtering a sorted list is sorting the filtered one.
    pub keep-sort_by :
        (q : R → Bool) (xs : List R) → AllApart xs → keep q (sort_by xs) ≡ sort_by (keep q xs)
    keep-sort_by q [] a = refl
    keep-sort_by q (x ∷ xs) (ax, a) = ground (
      arith,
      keep-insert_by q x (sort_by xs) (All-sort_by (Apart x) xs ax) (sort_by-IsSorted xs a),
      keep-sort_by q xs a,
    )

    keep-All : (q : R → Bool) (xs : List R) → All (λ y. q y ≡ true) xs → keep q xs ≡ xs
    keep-All q [] h = refl
    keep-All q (x ∷ xs) (hx, h) = ground (arith, keep-All q xs h)

    -- What a sorted list holds behind one of its elements.
    pub keep_behind :
        (front back : List R) (c : R)
        → IsSorted (front ++ c ∷ back)
        → keep (before c) (front ++ c ∷ back) ≡ back
    keep_behind [] back c (h, s) = ground (arith, strict.asym c c, keep-All (before c) back h)
    keep_behind (a ∷ front) back c (h, s) =
        ground (arith, strict.asym a c (All_middle front back c h), keep_behind front back c s)
      where
        All_middle :
            (front back : List R) (c : R)
            → All (λ y. before a y ≡ true) (front ++ c ∷ back)
            → before a c ≡ true
        All_middle [] back c (h, _) = h
        All_middle (x ∷ front) back c (_, h) = All_middle front back c h
