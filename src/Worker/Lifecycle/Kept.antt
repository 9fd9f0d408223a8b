-- ===== src/Worker/Lifecycle/Kept.antt =====
-- Which prompts a run leaves.
use promptlens_v.Prelude.{
  subst, ◌≤◌, ◌<◌, ◌+◌, ◌*◌, some, Option-cases, false_of_In, nat_eq_iff, ℕ, ◌≡◌, refl, sym, ap,
  ◌∙◌, Bool, true, false, not, ◌&&◌, ◌||◌, List, [], ◌∷◌, arith, any, keep, In, inl, inr, ◌==◌,
  ℕ_eq, Bool-cases, any_of_In, if◌then◌else◌,
}
use promptlens_v.Store.{Prisma, Error, Result, ok, err, Result-cases}
use promptlens_v.Schema.{Db, Tenant, Prompt}
use promptlens_v.Worker.Lifecycle.{
  Referential, is_due, is_expired, delete_prompts, enforce_tenant, enforce_tenants,
  enforce_data_lifecycle,
}

-- What one workspace lets go of.
abbrev pub leaves : (now : ℕ) → Prompt → Tenant → Bool
leaves now p t = if is_due now t then p.tenant_id == t.id else is_expired now t p

keep_twice :
    (f g h : Prompt → Bool) (rows : List Prompt)
    → ((p : Prompt) → h p ≡ f p && g p)
    → keep g (keep f rows) ≡ keep h rows
keep_twice f g h [] e = refl
keep_twice f g h (p ∷ rows) e = ground (arith, e p, keep_twice f g h rows e)

keep_same :
    (f g : Prompt → Bool) (rows : List Prompt)
    → ((p : Prompt) → f p ≡ g p)
    → keep f rows ≡ keep g rows
keep_same f g [] e = refl
keep_same f g (p ∷ rows) e = ground (arith, e p, keep_same f g rows e)

kept_front :
    (q : Prompt → Bool) (x : Prompt) (rows : List Prompt)
    → q x ≡ true
    → keep q (x ∷ rows) ≡ x ∷ keep q rows
kept_front q x rows h = ground arith

kept_out :
    (q : Prompt → Bool) (x : Prompt) (rows : List Prompt)
    → q x ≡ false
    → keep q (x ∷ rows) ≡ keep q rows
kept_out q x rows h = ground arith

In-keep :
    (q : Prompt → Bool) (p : Prompt) (rows : List Prompt)
    → In p (keep q rows)
    → (q p ≡ true) × In p rows
In-keep q p [] i = absurd i
In-keep q p (x ∷ rows) i = elim (Bool-cases (q x)) [
  | inr out ↦
      let (fits, there) = In-keep q p rows (subst (In p) (kept_out q x rows out) i) in
      (fits, inr there)
  | inl fits ↦ elim (subst (In p) (kept_front q x rows fits) i) [
    | inl e ↦ (ap q (sym e) ∙ fits, inl e)
    | inr j ↦ let (f, there) = In-keep q p rows j in (f, inr there)
  ]
]

keep-In :
    (q : Prompt → Bool) (p : Prompt) (rows : List Prompt)
    → q p ≡ true
    → In p rows
    → In p (keep q rows)
keep-In q p [] h i = absurd i
keep-In q p (x ∷ rows) h (inl e) = subst (In p) (sym (kept_front q x rows (ap q e ∙ h))) (inl e)
keep-In q p (x ∷ rows) h (inr i) = elim (Bool-cases (q x)) [
  | inl fits ↦ subst (In p) (sym (kept_front q x rows fits)) (inr (keep-In q p rows h i))
  | inr out ↦ subst (In p) (sym (kept_out q x rows out)) (keep-In q p rows h i)
]

from_ok : {A : Type 0} (a b : A) → ok a ≡ ok b → a ≡ b
from_ok a b e = cc

not_ok : {A : Type 0} (e : Error) (a : A) → err e ≡ ok a → ⊥
not_ok e a h = absurd (ground arith)

not_either : (a b : Bool) → not (a || b) ≡ not a && not b
not_either true b = refl
not_either false b = refl

module _ (db : Prisma) (actions : Referential) (now : ℕ) where
  enforced_prompts :
      (t : Tenant) (s s' : Db)
      → enforce_tenant db actions now t s ≡ ok s'
      → s'.prompts ≡ keep (λ p. not (leaves now p t)) s.prompts
  unfolding enforce_tenant delete_prompts
  enforced_prompts t s s' h = elim (Bool-cases (is_due now t)) [
    | inl due ↦
        actions.cascades t.id s s' (rw (enforce_tenant, due) at h)
        ∙ keep_same (λ p. not (p.tenant_id == t.id)) (λ p. not (leaves now p t)) s.prompts
            (λ p. rw due refl)
    | inr later ↦
        sym (ap (λ (z : Db). z.prompts) (from_ok _ s' (rw (enforce_tenant, later) at h)))
        ∙ keep_same (λ p. not (is_expired now t p)) (λ p. not (leaves now p t)) s.prompts
            (λ p. rw later refl)
  ]

  keep_none : (rows : List Prompt) → keep (λ p. true) rows ≡ rows
  keep_none [] = refl
  keep_none (p ∷ rows) = ap (λ z. p ∷ z) (keep_none rows)

  tenants_prompts :
      (tenants : List Tenant) (s : Db)
      → (enforce_tenants db actions now tenants s).0 ≡ ok tt
      → (enforce_tenants db actions now tenants s).1.prompts
        ≡ keep (λ p. not (any (leaves now p) tenants)) s.prompts
  unfolding enforce_tenants
  tenants_prompts [] s h = sym (keep_none s.prompts)
  tenants_prompts (t ∷ tenants) s h = elim (Result-cases (enforce_tenant db actions now t s)) [
    | inr (e, failed) ↦ absurd (ground (arith, failed))
    | inl (s1, done) ↦
        let first = enforced_prompts t s s1 done in
        let step : enforce_tenants db actions now (t ∷ tenants) s
            ≡ enforce_tenants db actions now tenants s1 =
          rw (enforce_tenants, done) refl in
        ap (λ (z : Result (Unit {0}) × Db). z.1.prompts) step
        ∙ tenants_prompts tenants s1 (sym (ap (λ (z : Result (Unit {0}) × Db). z.0) step) ∙ h)
        ∙ ap (keep (λ p. not (any (leaves now p) tenants))) first
        ∙ keep_twice (λ p. not (leaves now p t)) (λ p. not (any (leaves now p) tenants))
            (λ p. not (any (leaves now p) (t ∷ tenants))) s.prompts
            (λ p. not_either (leaves now p t) (any (leaves now p) tenants))
  ]

any_found :
    (q : Tenant → Bool) (rows : List Tenant)
    → any q rows ≡ true
    → (t : Tenant) × In t rows × (q t ≡ true)
any_found q [] h = absurd (ground arith)
any_found q (x ∷ rows) h = elim (Bool-cases (q x)) [
  | inl here ↦ (x, inl refl, here)
  | inr gone ↦ let (t, i, e) = any_found q rows (ground arith) in (t, inr i, e)
]

any_same :
    (q : Tenant → Bool) (xs ys : List Tenant)
    → ((t : Tenant) → In t xs → In t ys)
    → ((t : Tenant) → In t ys → In t xs)
    → any q xs ≡ any q ys
any_same q xs ys f g = elim (Bool-cases (any q xs)) [
  | inl h ↦ let (t, i, e) = any_found q xs h in h ∙ sym (any_of_In q t ys (f t i) e)
  | inr h ↦ elim (Bool-cases (any q ys)) [
    | inl k ↦
        let (t, i, e) = any_found q ys k in absurd (ground (arith, any_of_In q t xs (g t i) e))
    | inr k ↦ h ∙ sym k
  ]
]

module _ (now : ℕ) where
  -- No instant of deletion has come.
  not_due :
      (t : Tenant)
      → ((at : ℕ) → t.deletion_scheduled_at ≡ some at → now < at)
      → is_due now t ≡ false
  not_due t later = elim (Option-cases t.deletion_scheduled_at) [
    | inl e ↦ ground (arith, e)
    | inr (at, e) ↦ ground (arith, e, later at e)
  ]

  stays_young :
      (p : Prompt) (t : Tenant)
      → ((at : ℕ) → t.deletion_scheduled_at ≡ some at → now < at)
      → p.tenant_id ≡ t.id
      → leaves now p t ≡ false
      → now ≤ p.occurred_at + t.retention_days * (24 * 60 * 60 * 1000)
  stays_young p t later owner h = ground (arith, not_due t later, nat_eq_iff p.tenant_id t.id)

  leaves_owned : (p : Prompt) (t : Tenant) → leaves now p t ≡ true → p.tenant_id ≡ t.id
  leaves_owned p t h = elim (Bool-cases (is_due now t)) [
    | inl due ↦ ground (arith, nat_eq_iff p.tenant_id t.id)
    | inr e ↦ ground (arith, nat_eq_iff p.tenant_id t.id)
  ]

  young_stays :
      (p : Prompt) (t : Tenant)
      → ((at : ℕ) → t.deletion_scheduled_at ≡ some at → now < at)
      → now ≤ p.occurred_at + t.retention_days * (24 * 60 * 60 * 1000)
      → leaves now p t ≡ false
  young_stays p t later young = ground (arith, not_due t later)

module _ (db : Prisma) (actions : Referential) (now : ℕ) (s : Db) where
  left_prompts :
      (enforce_data_lifecycle db actions now s).0 ≡ ok tt
      → (enforce_data_lifecycle db actions now s).1.prompts
        ≡ keep (λ p. not (any (leaves now p) s.tenants)) s.prompts
  unfolding enforce_data_lifecycle
  left_prompts h =
      let found = db.find_many (λ t. true) s.tenants in
      tenants_prompts db actions now found s h
      ∙ keep_same (λ p. not (any (leaves now p) found)) (λ p. not (any (leaves now p) s.tenants))
          s.prompts
          (λ p. ap not (
            any_same (leaves now p) found s.tenants
              (λ t i. ((db.find_many_lem (λ z. true) s.tenants t).0 i).1)
              (λ t i. (db.find_many_lem (λ z. true) s.tenants t).1 (refl, i))))

  -- A run of the lifecycle that ends without an error, and a prompt whose workspace is not due for
  -- deletion: the run leaves the prompt exactly if it was there and is no older than the days, of
  -- 86 400 000 milliseconds each, for which its own workspace keeps prompts. The retention of other
  -- workspaces has no say.
  pub retention_enforced :
      (p : Prompt)
      → (enforce_data_lifecycle db actions now s).0 ≡ ok tt
      → ((t : Tenant) (at : ℕ)
          → In t s.tenants
          → p.tenant_id ≡ t.id
          → t.deletion_scheduled_at ≡ some at
          → now < at)
      → (In p (enforce_data_lifecycle db actions now s).1.prompts
          → In p s.prompts
            × ((t : Tenant)
                → In t s.tenants
                → p.tenant_id ≡ t.id
                → now ≤ p.occurred_at + t.retention_days * (24 * 60 * 60 * 1000)))
        × (In p s.prompts
              × ((t : Tenant)
                  → In t s.tenants
                  → p.tenant_id ≡ t.id
                  → now ≤ p.occurred_at + t.retention_days * (24 * 60 * 60 * 1000))
            → In p (enforce_data_lifecycle db actions now s).1.prompts)
  retention_enforced p ended later = (left, leave)
    where
      goes : Bool
      goes = any (leaves now p) s.tenants

      left :
          In p (enforce_data_lifecycle db actions now s).1.prompts
          → In p s.prompts
            × ((t : Tenant)
                → In t s.tenants
                → p.tenant_id ≡ t.id
                → now ≤ p.occurred_at + t.retention_days * (24 * 60 * 60 * 1000))
      left i =
          let (fits, there) =
            In-keep (λ q. not (any (leaves now q) s.tenants)) p s.prompts
              (subst (In p) (left_prompts ended) i) in
          (
            there,
            λ t j owner.
                stays_young now p t (λ at e. later t at j owner e) owner
                  (false_of_In (leaves now p) t s.tenants (ground (arith, fits)) j),
          )

      leave :
          In p s.prompts
            × ((t : Tenant)
                → In t s.tenants
                → p.tenant_id ≡ t.id
                → now ≤ p.occurred_at + t.retention_days * (24 * 60 * 60 * 1000))
          → In p (enforce_data_lifecycle db actions now s).1.prompts
      leave (there, young) = elim (Bool-cases goes) [
        | inl some_leaves ↦
            let (t, j, e) = any_found (leaves now p) s.tenants some_leaves in
            let owner = leaves_owned now p t e in
            absurd
              (ground (arith, young_stays now p t (λ at d. later t at j owner d) (young t j owner)))
        | inr none_leaves ↦ subst (In p) (sym (left_prompts ended)) (
            keep-In (λ q. not (any (leaves now q) s.tenants)) p s.prompts (ap not none_leaves)
              there)
      ]
