-- ===== src/Store/Memory.antt =====
-- A client of the database that keeps its rows in memory: the laws of `Prisma` can be met.
use promptlens_v.Prelude.{
  sort_by, ℕ, ◌≡◌, refl, Bool, true, false, none, some, List, [], ◌∷◌, arith, any, first, keep,
  ◌&&◌, count, change, In, inl, inr, not, length, prefix, total, ◌≤◌, zero, suc, subst, sym,
  Bool-cases,
}
use promptlens_v.Store.{Prisma, modify, modify_unique, insert, remove, commit}

pub first_found :
    {R : Type 0} (p : R → Bool) (rows : List R) (r : R)
    → first p rows ≡ some r
    → (p r ≡ true) × In r rows
first_found p [] r e = cc
first_found p (x ∷ xs) r e = ground (arith, first_found p xs r)

pub first_missed :
    {R : Type 0} (p : R → Bool) (rows : List R) → first p rows ≡ none → any p rows ≡ false
first_missed p [] e = refl
first_missed p (x ∷ xs) e = ground (arith, first_missed p xs)

pub keep_found :
    {R : Type 0} (p : R → Bool) (rows : List R) (r : R)
    → In r (keep p rows)
    → (p r ≡ true) × In r rows
keep_found p [] r i = absurd i
keep_found p (x ∷ xs) r i = elim (Bool-cases (p x)) [
  | inl hit ↦ ground (arith, keep_found p xs r)
  | inr miss ↦ ground (arith, keep_found p xs r)
]

pub found_keep :
    {R : Type 0} (p : R → Bool) (rows : List R) (r : R)
    → In r rows
    → p r ≡ true
    → In r (keep p rows)
found_keep p (x ∷ xs) r (inl e) h = ground arith
found_keep p (x ∷ xs) r (inr i) h = ground (arith, found_keep p xs r i h)
found_keep p [] r i h = absurd i

pub prefix_found : {R : Type 0} (n : ℕ) (rows : List R) (r : R) → In r (prefix n rows) → In r rows
prefix_found zero rows r i = absurd i
prefix_found (suc n) [] r i = absurd i
prefix_found (suc n) (x ∷ xs) r (inl e) = inl e
prefix_found (suc n) (x ∷ xs) r (inr i) = inr (prefix_found n xs r i)

pub length-prefix : {R : Type 0} (n : ℕ) (rows : List R) → length (prefix n rows) ≤ n
length-prefix zero rows = omega arith
length-prefix (suc n) [] = omega arith
length-prefix (suc n) (x ∷ xs) = omega (arith, length-prefix n xs)

pub prefix_whole : {R : Type 0} (n : ℕ) (rows : List R) → length rows ≤ n → prefix n rows ≡ rows
prefix_whole zero [] h = refl
prefix_whole zero (x ∷ xs) h = absurd (ground arith)
prefix_whole (suc n) [] h = refl
prefix_whole (suc n) (x ∷ xs) h = ground (arith, prefix_whole n xs)

pub count-keep :
    {R : Type 0} (p q : R → Bool) (rows : List R)
    → count q (keep p rows) ≡ count (λ r. p r && q r) rows
count-keep p q [] = refl
count-keep p q (r ∷ rows) = ground (arith, count-keep p q rows)

-- A client that keeps its rows in memory and finds the first that fits.
abbrev pub memory : Prisma
memory = record {
  find_first = first;
  update_many = λ p f rows. (change p f rows, count p rows);
  update = modify;
  update_unique = modify_unique;
  create = insert;
  delete_many = λ p rows. (keep (λ r. not (p r)) rows, count p rows);
  row_count = count;
  delete = remove;
  find_many = keep;
  find_page = λ p key take rows. prefix take (keep p rows);
  find_ordered = λ p before take rows. prefix take (sort_by before (keep p rows));
  aggregate_sum = λ p f rows. total f (keep p rows);
  transaction = λ body s. commit s (body s);
  found = first_found;
  missed = first_missed;
  update_many_lem = λ p f rows. refl;
  update_lem = λ p f rows. refl;
  update_unique_lem = λ clash p f rows. refl;
  create_lem = λ clash r rows. refl;
  delete_many_lem = λ p rows. refl;
  row_count_lem = λ p rows. refl;
  delete_lem = λ p rows. refl;
  find_many_lem = λ p rows r. (keep_found p rows r, λ (e, i). found_keep p rows r i e);
  find_many_count = count-keep;
  page_found = λ p key take rows r i. keep_found p rows r (prefix_found take (keep p rows) r i);
  page_length = λ p key take rows. length-prefix take (keep p rows);
  page_whole = λ p key take rows h r i e.
      subst (In r) (sym (prefix_whole take (keep p rows) h)) (found_keep p rows r i e);
  ordered_lem = λ p before take rows strict apart. refl;
  aggregate_sum_lem = λ p f rows. refl;
  transaction_lem = λ body s. refl;
}
