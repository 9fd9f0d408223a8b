-- ===== src/Store/Single.antt =====
-- Tables in which one row fits a filter.
use promptlens_v.Prelude.{
  ◌≤◌, Bool, true, false, some, List, [], ◌∷◌, arith, ◌≡◌, sym, ◌∙◌, inl, inr, In, count, any_of_In,
  Option-cases, ap, Bool-cases, refl,
}
use promptlens_v.Store.{Prisma}

module _ {R : Type 0} where
  pub count_of_In :
      (p : R → Bool) (a : R) (rows : List R) → In a rows → p a ≡ true → 1 ≤ count p rows
  count_of_In p a (x ∷ rows) (inl e) h = ground arith
  count_of_In p a (x ∷ rows) (inr i) h = ground (arith, count_of_In p a rows i h)
  count_of_In p a [] i h = absurd i

  pub In_of_count :
      (p : R → Bool) (rows : List R) → count p rows ≡ 1 → (x : R) × In x rows × (p x ≡ true)
  In_of_count p [] one = absurd (ground arith)
  In_of_count p (x ∷ rows) one = elim (Bool-cases (p x)) [
    | inl fits ↦ (x, inl refl, fits)
    | inr other ↦ let (y, i, fits) = In_of_count p rows (rw other at one) in (y, inr i, fits)
  ]

  -- A row that fits is the only one.
  pub single :
      (p : R → Bool) (a b : R) (rows : List R)
      → count p rows ≡ 1
      → In a rows
      → In b rows
      → p a ≡ true
      → p b ≡ true
      → a ≡ b
  single p a b (x ∷ rows) one (inl e) (inl e') ha hb = sym e ∙ e'
  single p a b (x ∷ rows) one (inl e) (inr j) ha hb =
      absurd (ground (arith, count_of_In p b rows j hb, ap p e))
  single p a b (x ∷ rows) one (inr i) (inl e') ha hb =
      absurd (ground (arith, count_of_In p a rows i ha, ap p e'))
  single p a b (x ∷ rows) one (inr i) (inr j) ha hb =
      single p a b rows (ground (arith, count_of_In p a rows i ha)) i j ha hb
  single p a b [] one i j ha hb = absurd i

  pub count_le :
      (p q : R → Bool) (rows : List R)
      → ((r : R) → q r ≡ true → p r ≡ true)
      → count q rows ≤ count p rows
  count_le p q [] imp = omega arith
  count_le p q (x ∷ rows) imp = ground (arith, count_le p q rows imp, imp x)

  -- A narrower filter that the row fits selects it alone.
  pub count_single :
      (p q : R → Bool) (a : R) (rows : List R)
      → count p rows ≡ 1
      → ((r : R) → q r ≡ true → p r ≡ true)
      → In a rows
      → q a ≡ true
      → count q rows ≡ 1
  count_single p q a rows one imp i h =
      omega (arith, count_le p q rows imp, count_of_In q a rows i h)

  pub count_none :
      (p q : R → Bool) (a : R) (rows : List R)
      → count p rows ≡ 1
      → ((r : R) → q r ≡ true → p r ≡ true)
      → In a rows
      → p a ≡ true
      → q a ≡ false
      → count q rows ≡ 0
  count_none p q a (x ∷ rows) one imp (inl e) hp hq =
      ground (arith, ap p e, ap q e, count_le p q rows imp)
  count_none p q a (x ∷ rows) one imp (inr i) hp hq = ground (
    arith,
    imp x,
    count_of_In p a rows i hp,
    count_le p q rows imp,
    count_none p q a rows (ground (arith, count_of_In p a rows i hp)) imp i hp hq,
  )
  count_none p q a [] one imp i hp hq = absurd i

  pub find_single :
      (db : Prisma) (p q : R → Bool) (a : R) (rows : List R)
      → count p rows ≡ 1
      → ((r : R) → q r ≡ true → p r ≡ true)
      → In a rows
      → q a ≡ true
      → db.find_first q rows ≡ some a
  find_single db p q a rows one imp i h = elim (Option-cases (db.find_first q rows)) [
    | inl e ↦ absurd (ground (arith, db.missed q rows e, any_of_In q a rows i h))
    | inr (b, e) ↦
        let f = db.found q rows b e in
        e ∙ ap some (single p b a rows one f.1 i (imp b f.0) (imp a h))
  ]
