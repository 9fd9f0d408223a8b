-- ===== src/Admin/Guard.antt =====
-- How a handler ends that checks first and then runs a transaction.
use promptlens_v.Prelude.{◌≡◌, refl, sym, subst, ◌⊎◌, inl, inr}
use promptlens_v.Store.{Prisma, Tx, Result, ok, err, commit}
use promptlens_v.Schema.{Db}
use promptlens_v.Admin.{go_on, guarded}

-- The database is what it was, or what the transaction that returned made of it, where the checks
-- only read.
module _ {A : Type 0} (db : Prisma) (body : Tx Db A) (s : Db) where
  abbrev pub Ends : Db → Type 0
  Ends t = (t ≡ s) ⊎ ((a : A) × (s' : Db) × (body s ≡ ok (a, s')) × (t ≡ s'))

  committed_cases : (x : Result (A × Db)) → body s ≡ x → Ends (commit s x).1
  committed_cases (ok (a, s')) h = inr (a, s', h, refl)
  committed_cases (err e) h = inl refl

  go_on_cases :
      (x : Result (Unit {0} × Db))
      → ((u : Unit {0}) (t : Db) → x ≡ ok (u, t) → t ≡ s)
      → Ends (go_on db body s x).1
  go_on_cases (err e) reads = inl refl
  go_on_cases (ok (u, t)) reads =
      subst (λ z. Ends (db.transaction body z).1) (sym (reads u t refl))
        (rw db.transaction_lem (committed_cases (body s) refl))

  pub guarded_cases :
      (guard : Tx Db (Unit {0}))
      → ((u : Unit {0}) (t : Db) → guard s ≡ ok (u, t) → t ≡ s)
      → Ends (guarded db guard body s).1
  guarded_cases guard reads = go_on_cases (guard s) reads
