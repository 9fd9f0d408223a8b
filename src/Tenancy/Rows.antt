-- ===== src/Tenancy/Rows.antt =====
-- One statement under a policy against the same statement on the rows that the policy lets through.
use promptlens_v.Prelude.{
  ℕ, ◌≡◌, refl, sym, ap, ◌∙◌, Bool, true, false, not, ◌&&◌, List, [], ◌∷◌, ◌++◌, arith, any, keep,
  change, count, if◌then◌else◌, Bool-cases, inl, inr, ◌⊎◌,
}
use mathlib.Core.List.{append-nil}
use promptlens_v.Store.{Error, Result, ok, err}
use promptlens_v.Tenancy.{Statement, Answer, perform, policy_violation}

-- The answer of a change, whose count and rows are the same.
changed_answer :
    {R : Type 0} {n m : ℕ} {xs ys : List R}
    → n ≡ m
    → xs ≡ ys
    → ◌≡◌ {A = Result (Answer R × List R)}
        (ok (record { rows = []; affected = m }, ys))
        (ok (record { rows = []; affected = n }, xs))
changed_answer e f = rw (e, f) refl

module _ {R : Type 0} (seen checked : R → Bool)
    (sound : (r : R) → checked r ≡ true → seen r ≡ true) where
  abbrev pub all_rows : R → Bool
  all_rows r = true

  keep_seen :
      (p : R → Bool) (rows : List R) → keep (λ r. seen r && p r) rows ≡ keep p (keep seen rows)
  keep_seen p [] = refl
  keep_seen p (x ∷ rows) = ground (arith, keep_seen p rows)

  count_seen :
      (p : R → Bool) (rows : List R) → count (λ r. seen r && p r) rows ≡ count p (keep seen rows)
  count_seen p [] = refl
  count_seen p (x ∷ rows) = ground (arith, count_seen p rows)

  any_seen :
      (p q : R → Bool) (rows : List R)
      → any (λ r. (seen r && p r) && q r) rows ≡ any (λ r. p r && q r) (keep seen rows)
  any_seen p q [] = refl
  any_seen p q (x ∷ rows) = ground (arith, any_seen p q rows)

  keep_appended :
      (q : R → Bool) (r : R) (rows : List R)
      → keep q (rows ++ r ∷ []) ≡ keep q rows ++ (if q r then r ∷ [] else [])
  keep_appended q r [] = ground arith
  keep_appended q r (x ∷ rows) = ground (arith, keep_appended q r rows)

  module _ (p : R → Bool) (f : R → R) where
    change_seen :
        (rows : List R)
        → any (λ r. (seen r && p r) && not (checked (f r))) rows ≡ false
        → keep seen (change (λ r. seen r && p r) f rows) ≡ change p f (keep seen rows)
    change_seen [] h = refl
    change_seen (x ∷ rows) h = ground (arith, sound (f x), change_seen rows)

    change_unseen :
        (rows : List R)
        → any (λ r. (seen r && p r) && not (checked (f r))) rows ≡ false
        → keep (λ r. not (seen r)) (change (λ r. seen r && p r) f rows)
          ≡ keep (λ r. not (seen r)) rows
    change_unseen [] h = refl
    change_unseen (x ∷ rows) h = ground (arith, sound (f x), change_unseen rows)

  delete_seen :
      (p : R → Bool) (rows : List R)
      → keep seen (keep (λ r. not (seen r && p r)) rows) ≡ keep (λ r. not (p r)) (keep seen rows)
  delete_seen p [] = refl
  delete_seen p (x ∷ rows) = ground (arith, delete_seen p rows)

  delete_unseen :
      (p : R → Bool) (rows : List R)
      → keep (λ r. not (seen r)) (keep (λ r. not (seen r && p r)) rows)
        ≡ keep (λ r. not (seen r)) rows
  delete_unseen p [] = refl
  delete_unseen p (x ∷ rows) = ground (arith, delete_unseen p rows)

  -- The statement answers the same and does the same to the rows it sees; the others stay.
  abbrev pub Sliced : Statement R → List R → Type 0
  Sliced statement rows =
      ((e : Error) × (perform seen checked statement rows ≡ err e)
        × (perform all_rows checked statement (keep seen rows) ≡ err e))
      ⊎ ((answer : Answer R) × (rows' : List R) × (perform seen checked statement rows
            ≡ ok (answer, rows'))
          × (perform all_rows checked statement (keep seen rows) ≡ ok (answer, keep seen rows'))
          × (keep (λ r. not (seen r)) rows' ≡ keep (λ r. not (seen r)) rows))

  create-Sliced : (r : R) (rows : List R) → Sliced (Statement.create r) rows
  unfolding perform
  create-Sliced r rows = elim (Bool-cases (checked r)) [
    | inr refused ↦ inl (policy_violation, rw refused refl, rw refused refl)
    | inl fine ↦ inr (
      record { rows = r ∷ []; affected = 1 },
      rows ++ r ∷ [],
      rw fine refl,
      ground (arith, fine, sound r fine, keep_appended seen r rows),
      ground (
        arith,
        sound r fine,
        keep_appended (λ z. not (seen z)) r rows,
        append-nil (keep (λ z. not (seen z)) rows),
      ),
    )
  ]

  update-Sliced : (p : R → Bool) (f : R → R) (rows : List R) → Sliced (Statement.update p f) rows
  unfolding perform
  update-Sliced p f rows =
      let same_test = sym (any_seen p (λ r. not (checked (f r))) rows) in
      elim (Bool-cases (any (λ r. (seen r && p r) && not (checked (f r))) rows)) [
        | inl refused ↦ inl (policy_violation, rw refused refl, rw (same_test ∙ refused) refl)
        | inr fine ↦ inr (
          record { rows = []; affected = count (λ r. seen r && p r) rows },
          change (λ r. seen r && p r) f rows,
          rw fine refl,
          rw (same_test ∙ fine) (changed_answer (count_seen p rows) (change_seen p f rows fine)),
          change_unseen p f rows fine,
        )
      ]

  delete-Sliced : (p : R → Bool) (rows : List R) → Sliced (Statement.delete p) rows
  unfolding perform
  delete-Sliced p rows = inr (
    record { rows = []; affected = count (λ r. seen r && p r) rows },
    keep (λ r. not (seen r && p r)) rows,
    refl,
    changed_answer (count_seen p rows) (delete_seen p rows),
    delete_unseen p rows,
  )

  pub perform-Sliced : (statement : Statement R) (rows : List R) → Sliced statement rows
  unfolding perform
  perform-Sliced (Statement.find p) rows = inr (
    record { rows = keep (λ r. seen r && p r) rows; affected = 0 },
    rows,
    refl,
    ap (λ rs. ok (record { rows = rs; affected = 0 }, keep seen rows)) (sym (keep_seen p rows)),
    refl,
  )
  perform-Sliced (Statement.create r) rows = create-Sliced r rows
  perform-Sliced (Statement.update p f) rows = update-Sliced p f rows
  perform-Sliced (Statement.delete p) rows = delete-Sliced p rows
