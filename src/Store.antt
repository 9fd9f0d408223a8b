-- ===== src/Store.antt =====
-- The client of the database that the services of apps/api and apps/worker call, and
-- packages/database/src/index.ts. The client itself (Prisma over PostgreSQL) is generated and
-- third-party code: here it is a record of operations on rows, with what its documentation says
-- of them as laws. Theorems take any such client; `memory` shows that the laws can be met.
pub mod Memory
pub mod Single
pub mod Overlap
use promptlens_v.Prelude.{
  IsStrict, AllApart, sort_by, prefix, ℕ, String, ◌≡◌, refl, Bool, true, false, Option, none, some,
  List, [], ◌∷◌, ◌++◌, arith, any, keep, count, change, In, ◌⊎◌, inl, inr, if◌then◌else◌, not, ◌&&◌,
  length, prefix, total, ◌≤◌, zero, suc, subst, sym, Bool-cases, ◌↔◌,
}

-- What a handler throws: the exceptions of @nestjs/common with their message, and the two errors of
-- the database client that matter (P2002, a unique constraint; P2025, a row that is not there).
pub data Error : Type 0 where
  bad_request unauthorized forbidden not_found conflict failure : String → Error
  unique_violation record_missing : Error

pub data Result {ℓ} (A : Type ℓ) : Type ℓ where
  ok : A → Result A
  err : Error → Result A

pub Result-cases {ℓ} :
    {A : Type ℓ} (x : Result A)
    → ((value : A) × (x ≡ ok value)) ⊎ ((error : Error) × (x ≡ err error))
Result-cases (ok value) = inl (value, refl)
Result-cases (err error) = inr (error, refl)

-- A transaction body reads and writes the whole state, and may throw.
abbrev pub Tx : Type 0 → Type 0 → Type 0
Tx S A = S → Result (A × S)

infixl 5 ◌>>=◌ ◌>>◌
abbrev pub ◌>>=◌ : {S A B : Type 0} → Tx S A → (A → Tx S B) → Tx S B
◌>>=◌ m f s = elim (m s) [ ok (a, s') ↦ f a s' | err e ↦ err e ]

abbrev pub ◌>>◌ : {S B : Type 0} → Tx S (Unit {0}) → Tx S B → Tx S B
m >> k = m >>= λ _. k

abbrev pub pure : {S A : Type 0} → A → Tx S A
pure a s = ok (a, s)

abbrev pub throw : {S A : Type 0} → Error → Tx S A
throw e s = err e

abbrev pub ensure : {S : Type 0} → Bool → Error → Tx S (Unit {0})
ensure true e s = ok (tt, s)
ensure false e s = err e

-- `if (!x) throw e`, with the value where there is one.
abbrev pub require : {S A : Type 0} → Option A → Error → Tx S A
require none e s = err e
require (some a) e s = ok (a, s)

-- A transaction that throws leaves the state as it was; one that returns keeps what it wrote.
abbrev pub commit : {S A : Type 0} → S → Result (A × S) → Result A × S
commit s (ok (a, s')) = (ok a, s')
commit s (err e) = (err e, s)

pub committed :
    {S A : Type 0} (s : S) (x : Result (A × S)) (a : A)
    → (commit s x).0 ≡ ok a
    → x ≡ ok (a, (commit s x).1)
committed s (ok (b, s')) a h = cc
committed s (err e) a h = cc

-- The rows of one table inside the state.
pub record Table (S R : Type 0) : Type 0 where
  pub rows : S → List R
  pub with_rows : List R → S → S

-- `update` throws P2025 where no row is selected, `create` throws P2002 where the new row clashes
-- with one that is there on a unique key of the schema.
abbrev pub modify : {R : Type 0} → (R → Bool) → (R → R) → List R → Result (List R)
modify p f rows = if any p rows then ok (change p f rows) else err record_missing

-- An update that renames a row throws P2002 where a row that is not selected has its new key.
abbrev pub modify_unique :
    {R : Type 0} → (R → R → Bool) → (R → Bool) → (R → R) → List R → Result (List R)
modify_unique clash p f rows =
    if any (λ r. p r && any (λ q. not (p q) && clash (f r) q) rows) rows
    then err unique_violation
    else modify p f rows

abbrev pub insert : {R : Type 0} → (R → R → Bool) → R → List R → Result (List R)
insert clash r rows = if any (clash r) rows then err unique_violation else ok (rows ++ r ∷ [])

abbrev pub remove : {R : Type 0} → (R → Bool) → List R → Result (List R)
remove p rows = if any p rows then ok (keep (λ r. not (p r)) rows) else err record_missing

pub record Prisma : Type 1 where
  pub find_first : {R : Type 0} → (R → Bool) → List R → Option R
  pub update_many : {R : Type 0} → (R → Bool) → (R → R) → List R → List R × ℕ
  pub update : {R : Type 0} → (R → Bool) → (R → R) → List R → Result (List R)
  pub update_unique :
      {R : Type 0} → (R → R → Bool) → (R → Bool) → (R → R) → List R → Result (List R)
  pub create : {R : Type 0} → (R → R → Bool) → R → List R → Result (List R)
  pub delete_many : {R : Type 0} → (R → Bool) → List R → List R × ℕ
  pub row_count : {R : Type 0} → (R → Bool) → List R → ℕ
  pub delete : {R : Type 0} → (R → Bool) → List R → Result (List R)
  pub find_many : {R : Type 0} → (R → Bool) → List R → List R
  pub find_page : {R : Type 0} → (R → Bool) → (key : R → ℕ) → (take : ℕ) → List R → List R
  pub find_ordered :
      {R : Type 0} → (R → Bool) → (before : R → R → Bool) → (take : ℕ) → List R → List R
  pub aggregate_sum : {R : Type 0} → (R → Bool) → (R → ℕ) → List R → ℕ
  pub transaction : {S A : Type 0} → Tx S A → S → Result A × S
  -- A row that is found is a row of the table that the filter selects.
  pub found :
      {R : Type 0} (p : R → Bool) (rows : List R) (r : R)
      → find_first p rows ≡ some r
      → (p r ≡ true) × In r rows
  -- Nothing is found only where the filter selects no row.
  pub missed :
      {R : Type 0} (p : R → Bool) (rows : List R) → find_first p rows ≡ none → any p rows ≡ false
  pub update_many_lem :
      {R : Type 0} (p : R → Bool) (f : R → R) (rows : List R)
      → update_many p f rows ≡ (change p f rows, count p rows)
  pub update_lem :
      {R : Type 0} (p : R → Bool) (f : R → R) (rows : List R) → update p f rows ≡ modify p f rows
  pub update_unique_lem :
      {R : Type 0} (clash : R → R → Bool) (p : R → Bool) (f : R → R) (rows : List R)
      → update_unique clash p f rows ≡ modify_unique clash p f rows
  pub create_lem :
      {R : Type 0} (clash : R → R → Bool) (r : R) (rows : List R)
      → create clash r rows ≡ insert clash r rows
  pub delete_many_lem :
      {R : Type 0} (p : R → Bool) (rows : List R)
      → delete_many p rows ≡ (keep (λ r. not (p r)) rows, count p rows)
  pub row_count_lem : {R : Type 0} (p : R → Bool) (rows : List R) → row_count p rows ≡ count p rows
  pub delete_lem : {R : Type 0} (p : R → Bool) (rows : List R) → delete p rows ≡ remove p rows
  pub find_many_lem :
      {R : Type 0} (p : R → Bool) (rows : List R) (r : R)
      → In r (find_many p rows) ↔ ((p r ≡ true) × In r rows)
  -- Each row that the filter selects is found once.
  pub find_many_count :
      {R : Type 0} (p q : R → Bool) (rows : List R)
      → count q (find_many p rows) ≡ count (λ r. p r && q r) rows
  -- A page holds rows that the filter selects, and no more than were asked for; it is empty only
  -- where nothing is selected or nothing was asked for. Its order is not relied on.
  pub page_found :
      {R : Type 0} (p : R → Bool) (key : R → ℕ) (take : ℕ) (rows : List R) (r : R)
      → In r (find_page p key take rows)
      → (p r ≡ true) × In r rows
  pub page_length :
      {R : Type 0} (p : R → Bool) (key : R → ℕ) (take : ℕ) (rows : List R)
      → length (find_page p key take rows) ≤ take
  pub page_whole :
      {R : Type 0} (p : R → Bool) (key : R → ℕ) (take : ℕ) (rows : List R)
      → length (keep p rows) ≤ take
      → (r : R) → In r rows
      → p r ≡ true
      → In r (find_page p key take rows)
  -- Where the order tells the selected rows apart, the list is their sorted list, cut off.
  pub ordered_lem :
      {R : Type 0} (p : R → Bool) (before : R → R → Bool) (take : ℕ) (rows : List R)
      → IsStrict before
      → AllApart before (keep p rows)
      → find_ordered p before take rows ≡ prefix take (sort_by before (keep p rows))
  pub aggregate_sum_lem :
      {R : Type 0} (p : R → Bool) (f : R → ℕ) (rows : List R)
      → aggregate_sum p f rows ≡ total f (keep p rows)
  pub transaction_lem :
      {S A : Type 0} (body : Tx S A) (s : S) → transaction body s ≡ commit s (body s)

-- The operations as steps of a transaction.
module _ (db : Prisma) {S R : Type 0} (t : Table S R) where
  abbrev pub find_first : (R → Bool) → Tx S (Option R)
  find_first p s = ok (db.find_first p (t.rows s), s)

  abbrev pub update_many : (R → Bool) → (R → R) → Tx S ℕ
  update_many p f s = let r = db.update_many p f (t.rows s) in ok (r.1, t.with_rows r.0 s)

  abbrev stored : S → Result (List R) → Result (Unit {0} × S)
  stored s (ok rows) = ok (tt, t.with_rows rows s)
  stored s (err e) = err e

  abbrev pub update : (R → Bool) → (R → R) → Tx S (Unit {0})
  update p f s = stored s (db.update p f (t.rows s))

  abbrev pub update_unique : (R → R → Bool) → (R → Bool) → (R → R) → Tx S (Unit {0})
  update_unique clash p f s = stored s (db.update_unique clash p f (t.rows s))

  abbrev pub create : (R → R → Bool) → R → Tx S (Unit {0})
  create clash r s = stored s (db.create clash r (t.rows s))

  abbrev pub delete_many : (R → Bool) → Tx S ℕ
  delete_many p s = let r = db.delete_many p (t.rows s) in ok (r.1, t.with_rows r.0 s)

  abbrev pub delete : (R → Bool) → Tx S (Unit {0})
  delete p s = stored s (db.delete p (t.rows s))

  abbrev pub row_count : (R → Bool) → Tx S ℕ
  row_count p s = ok (db.row_count p (t.rows s), s)
