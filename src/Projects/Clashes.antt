-- ===== src/Projects/Clashes.antt =====
-- Projects that have no id in common and, in one workspace, no name.
use promptlens_v.Prelude.{
  ◌≡◌, refl, ap, ◌∙◌, Bool, true, false, not, ◌&&◌, List, [], ◌∷◌, ◌++◌, arith, any, change, All,
  In, inl, inr, String_eq, ℕ_eq, nat_eq_iff, if◌then◌else◌, Bool-cases, false_of_In,
}
use promptlens_v.Schema.{Project}
use promptlens_v.Projects.{clashes}
use text.Mathlib.TextEquality.{eq_iff}

-- No two projects have one id, or one name in one workspace.
abbrev pub NoClash : List Project → Type 0
NoClash [] = Unit
NoClash (p ∷ rows) = All (λ q. clashes p q ≡ false) rows × NoClash rows

pub clashes_sym : (a b : Project) → clashes a b ≡ clashes b a
clashes_sym a b = ground (
  arith,
  nat_eq_iff a.id b.id,
  nat_eq_iff b.id a.id,
  nat_eq_iff a.tenant_id b.tenant_id,
  nat_eq_iff b.tenant_id a.tenant_id,
  eq_iff a.name b.name,
  eq_iff b.name a.name,
)

pub All-append_one :
    (P : Project → Type 0) (rows : List Project) (r : Project)
    → All P rows
    → P r
    → All P (rows ++ r ∷ [])
All-append_one P [] r h hr = (hr, tt)
All-append_one P (p ∷ rows) r (hp, h) hr = (hp, All-append_one P rows r h hr)

pub NoClash-append :
    (rows : List Project) (r : Project)
    → NoClash rows
    → any (clashes r) rows ≡ false
    → NoClash (rows ++ r ∷ [])
NoClash-append [] r h new = (tt, tt)
NoClash-append (p ∷ rows) r (hp, h) new = (
  All-append_one (λ q. clashes p q ≡ false) rows r hp (ground (arith, clashes_sym p r)),
  NoClash-append rows r h (ground arith),
)

module _ (sel : Project → Bool) (f : Project → Project) where
  abbrev pub put : Project → Project
  put p = if sel p then f p else p

  put_in : (p : Project) → sel p ≡ true → put p ≡ f p
  put_in p h = rw h refl

  put_out : (p : Project) → sel p ≡ false → put p ≡ p
  put_out p h = rw h refl

  -- The rows that a change leaves clash with none of the others.
  abbrev pub Clear : List Project → Type 0
  Clear rows =
      (r q : Project)
      → In r rows
      → In q rows
      → sel r ≡ true
      → sel q ≡ false
      → clashes (f r) q ≡ false

  module _ (same : (r q : Project) → sel r ≡ true → sel q ≡ true → clashes r q ≡ true) where
    head-Clear :
        (p : Project) (rows all : List Project)
        → Clear all
        → In p all
        → ((q : Project) → In q rows → In q all)
        → All (λ q. clashes p q ≡ false) rows
        → All (λ q. clashes (put p) q ≡ false) (change sel f rows)
    head-Clear p [] all clear i j h = tt
    head-Clear p (q ∷ rows) all clear i j (hq, h) =
        (pair, head-Clear p rows all clear i (λ z k. j z (inr k)) h)
      where
        pair : clashes (put p) (put q) ≡ false
        pair = elim (Bool-cases (sel p)) [
          | inl sel_p ↦ elim (Bool-cases (sel q)) [
            | inl sel_q ↦ absurd (ground (arith, same p q sel_p sel_q))
            | inr out_q ↦
                ap (λ z. clashes z (put q)) (put_in p sel_p)
                ∙ ap (clashes (f p)) (put_out q out_q)
                ∙ clear p q i (j q (inl refl)) sel_p out_q
          ]
          | inr out_p ↦ elim (Bool-cases (sel q)) [
            | inl sel_q ↦
                ap (λ z. clashes z (put q)) (put_out p out_p)
                ∙ ap (clashes p) (put_in q sel_q)
                ∙ clashes_sym p (f q)
                ∙ clear q p (j q (inl refl)) i sel_q out_p
            | inr out_q ↦
                ap (λ z. clashes z (put q)) (put_out p out_p)
                ∙ ap (clashes p) (put_out q out_q)
                ∙ hq
          ]
        ]

    pub NoClash-change :
        (rows all : List Project)
        → Clear all
        → ((q : Project) → In q rows → In q all)
        → NoClash rows
        → NoClash (change sel f rows)
    NoClash-change [] all clear j h = tt
    NoClash-change (p ∷ rows) all clear j (hp, h) = (
      head-Clear p rows all clear (j p (inl refl)) (λ z k. j z (inr k)) hp,
      NoClash-change rows all clear (λ z k. j z (inr k)) h,
    )

  pub rows-Clear :
      (rows : List Project)
      → any (λ r. sel r && any (λ q. not (sel q) && clashes (f r) q) rows) rows ≡ false
      → Clear rows
  rows-Clear rows h r q i j sel_r out_q =
      let none_clashes =
        false_of_In (λ r. sel r && any (λ q. not (sel q) && clashes (f r) q) rows) r rows h i in
      let inner : any (λ q. not (sel q) && clashes (f r) q) rows ≡ false = ground arith in
      ground (arith, false_of_In (λ q. not (sel q) && clashes (f r) q) q rows inner j)
