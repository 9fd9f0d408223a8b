-- ===== src/History/List/Order.antt =====
-- The pages of the list against the whole list: the rows that fit, the newest first.
use promptlens_v.Prelude.{
  ℕ, ◌≡◌, ◌≢◌, refl, sym, ap, ◌∙◌, subst, Bool, true, ◌&&◌, Option, none, some, List, [], ◌∷◌, ◌++◌,
  arith, zero, suc, inl, inr, ltb, nat_eq_iff, ℕ_eq, length, prefix, keep, In, All, IsStrict,
  AllApart, Apart, IsSorted, sort_by, AllApart-keep, keep-sort_by, sort_by-IsSorted, keep_behind,
  In-sort_by, nat_eq, Bool-cases, Option-cases, any_of_In,
}
use promptlens_v.Store.{Prisma, ok}
use promptlens_v.Store.Memory.{keep_found}
use promptlens_v.Schema.{Db, Prompt}
use promptlens_v.Actor.{AuthenticatedActor}
use promptlens_v.History.{in_scope}
use promptlens_v.History.List.{
  truthy, PromptListQuery, TextRules, newer, behind, wanted, find_matches, list_scope, find_cursor,
  page_rows,
}

-- The primary keys of a table differ.
abbrev pub HasDistinctIds : List Prompt → Type 0
HasDistinctIds [] = Unit
HasDistinctIds (p ∷ rows) = All (λ (q : Prompt). p.id ≢ q.id) rows × HasDistinctIds rows

newer-IsStrict : IsStrict newer
newer-IsStrict = record {
  trans = λ a b c h k. ground (
    arith,
    nat_eq_iff b.occurred_at a.occurred_at,
    nat_eq_iff c.occurred_at b.occurred_at,
    nat_eq_iff c.occurred_at a.occurred_at,
  );
  asym = λ a b h.
      ground
        (arith, nat_eq_iff b.occurred_at a.occurred_at, nat_eq_iff a.occurred_at b.occurred_at);
}

newer_or : (a b : Prompt) → a.id ≢ b.id → Apart newer a b
newer_or a b h = elim (Bool-cases (newer a b)) [
  | inl e ↦ inl e
  | inr e ↦ elim (Bool-cases (newer b a)) [
    | inl f ↦ inr f
    | inr f ↦ absurd (
        h (
          ground (
            arith,
            nat_eq_iff b.occurred_at a.occurred_at,
            nat_eq_iff a.occurred_at b.occurred_at,
          )))
  ]
]

apart_rows : (rows : List Prompt) → HasDistinctIds rows → AllApart newer rows
apart_rows [] h = tt
apart_rows (p ∷ rows) (hp, h) = (all_apart rows hp, apart_rows rows h)
  where
    all_apart : (qs : List Prompt) → All (λ (q : Prompt). p.id ≢ q.id) qs → All (Apart newer p) qs
    all_apart [] h = tt
    all_apart (q ∷ qs) (hq, h) = (newer_or p q hq, all_apart qs h)

head_differs :
    (r q : Prompt) (rows : List Prompt)
    → All (λ (z : Prompt). r.id ≢ z.id) rows
    → In q rows
    → r.id ≢ q.id
head_differs r q (x ∷ rows) (hx, h) (inl e) f = hx (f ∙ sym (ap (λ (z : Prompt). z.id) e))
head_differs r q (x ∷ rows) (hx, h) (inr j) f = head_differs r q rows h j f
head_differs r q [] h j f = absurd j

same_row :
    (rows : List Prompt) (p q : Prompt)
    → HasDistinctIds rows
    → In p rows
    → In q rows
    → p.id ≡ q.id
    → p ≡ q
same_row (r ∷ rows) p q (hr, h) (inl e) (inl f) same = sym e ∙ f
same_row (r ∷ rows) p q (hr, h) (inl e) (inr j) same =
    absurd (head_differs r q rows hr j (ap (λ (z : Prompt). z.id) e ∙ same))
same_row (r ∷ rows) p q (hr, h) (inr i) (inl f) same =
    absurd (head_differs r p rows hr i (ap (λ (z : Prompt). z.id) f ∙ sym same))
same_row (r ∷ rows) p q (hr, h) (inr i) (inr j) same = same_row rows p q h i j same
same_row [] p q h i j same = absurd i

keep_both :
    (f g h : Prompt → Bool) (rows : List Prompt)
    → ((p : Prompt) → h p ≡ f p && g p)
    → keep h rows ≡ keep g (keep f rows)
keep_both f g h [] e = refl
keep_both f g h (p ∷ rows) e = ground (arith, e p, keep_both f g h rows e)

In-middle : (front back : List Prompt) (c : Prompt) → In c (front ++ c ∷ back)
In-middle [] back c = inl refl
In-middle (p ∷ front) back c = inr (In-middle front back c)

pub prefix-prefix : {A : Type 0} (n : ℕ) (xs : List A) → prefix n (prefix (suc n) xs) ≡ prefix n xs
prefix-prefix zero xs = refl
prefix-prefix (suc n) [] = refl
prefix-prefix (suc n) (x ∷ xs) = ap (λ ys. x ∷ ys) (prefix-prefix n xs)

pub ltb-length-prefix :
    {A : Type 0} (n : ℕ) (xs : List A) → ltb n (length (prefix (suc n) xs)) ≡ ltb n (length xs)
ltb-length-prefix zero [] = refl
ltb-length-prefix zero (x ∷ xs) = ground arith
ltb-length-prefix (suc n) [] = refl
ltb-length-prefix (suc n) (x ∷ xs) = ground (arith, ltb-length-prefix n xs)

module _ (db : Prisma) (rules : TextRules) (actor : AuthenticatedActor) where
  -- The whole list: the rows that pass the filters of the query, whatever its cursor, the newest first.
  -- A search text counts as a filter by the ids of its newest thousand matches, as in the code.
  pub whole_list : PromptListQuery → Db → List Prompt
  whole_list query s =
      let scope = list_scope actor query in
      let search_ids = find_matches db rules actor scope (truthy query.q) s in
      sort_by newer (keep (wanted rules actor scope query s search_ids) s.prompts)

  -- The limit and the cursor of a query do not change its whole list.
  pub whole_list_same :
      (query : PromptListQuery) (limit : ℕ) (cursor : Option ℕ) (s : Db)
      → whole_list (record query { limit = limit; cursor = cursor }) s ≡ whole_list query s
  unfolding whole_list wanted find_matches list_scope
  whole_list_same query limit cursor s = refl

  -- The rows of a page are the front of what the whole list holds behind the cursor.
  pub page_rows_whole :
      (query : PromptListQuery) (s : Db) (cursor : Option Prompt)
      → HasDistinctIds s.prompts
      → page_rows db rules actor (list_scope actor query) query cursor s
        ≡ prefix (suc query.limit) (keep (behind cursor) (whole_list query s))
  unfolding page_rows whole_list
  page_rows_whole query s cursor distinct =
      let scope = list_scope actor query in
      let search_ids = find_matches db rules actor scope (truthy query.q) s in
      let fits = wanted rules actor scope query s search_ids in
      let apart = apart_rows s.prompts distinct in
      db.ordered_lem (λ p. fits p && behind cursor p) newer (suc query.limit) s.prompts
        newer-IsStrict (AllApart-keep newer (λ p. fits p && behind cursor p) s.prompts apart)
      ∙ ap (λ rows. prefix (suc query.limit) (sort_by newer rows))
          (keep_both fits (behind cursor) (λ p. fits p && behind cursor p) s.prompts (λ p. refl))
      ∙ ap (prefix (suc query.limit)) (
          sym (
            keep-sort_by newer newer-IsStrict (behind cursor) (keep fits s.prompts)
              (AllApart-keep newer fits s.prompts apart)))

  whole_list-IsSorted :
      (query : PromptListQuery) (s : Db)
      → HasDistinctIds s.prompts
      → IsSorted newer (whole_list query s)
  unfolding whole_list
  whole_list-IsSorted query s distinct =
      sort_by-IsSorted newer newer-IsStrict _
        (AllApart-keep newer _ s.prompts (apart_rows s.prompts distinct))

  -- Behind no cursor lies the whole list.
  pub first_rows :
      (query : PromptListQuery) (s : Db)
      → keep (behind none) (whole_list query s) ≡ whole_list query s
  unfolding behind
  first_rows query s = keep_true (whole_list query s)
    where
      keep_true : (rows : List Prompt) → keep (λ p. true) rows ≡ rows
      keep_true [] = refl
      keep_true (p ∷ rows) = ap (λ rs. p ∷ rs) (keep_true rows)

  pub later_rows :
      (query : PromptListQuery) (s : Db) (front back : List Prompt) (c : Prompt)
      → HasDistinctIds s.prompts
      → whole_list query s ≡ front ++ c ∷ back
      → keep (behind (some c)) (whole_list query s) ≡ back
  unfolding behind
  later_rows query s front back c distinct e =
      ap (keep (newer c)) e
      ∙ keep_behind newer newer-IsStrict front back c
          (subst (IsSorted newer) e (whole_list-IsSorted query s distinct))

  -- A row of the whole list is a row of the table that the actor sees.
  whole_list_row :
      (query : PromptListQuery) (s : Db) (front back : List Prompt) (c : Prompt)
      → whole_list query s ≡ front ++ c ∷ back
      → In c s.prompts
        × (c.tenant_id ≡ actor.tenant_id)
        × (in_scope (list_scope actor query) c ≡ true)
  unfolding whole_list wanted
  whole_list_row query s front back c e =
      let scope = list_scope actor query in
      let search_ids = find_matches db rules actor scope (truthy query.q) s in
      let fits = wanted rules actor scope query s search_ids in
      let i : In c (whole_list query s) = subst (In c) (sym e) (In-middle front back c) in
      let (fit, j) = keep_found fits s.prompts c (In-sort_by newer c (keep fits s.prompts) i) in
      (j, ground (arith, nat_eq_iff c.tenant_id actor.tenant_id), ground arith)

  -- The cursor of a page is found again.
  pub find_cursor_again :
      (query : PromptListQuery) (s : Db) (front back : List Prompt) (c : Prompt)
      → HasDistinctIds s.prompts
      → whole_list query s ≡ front ++ c ∷ back
      → find_cursor db rules actor (list_scope actor query) (some c.id) s ≡ ok (some c, s)
  unfolding find_cursor
  find_cursor_again query s front back c distinct e =
      let (i, tenant, seen) = whole_list_row query s front back c e in
      let scope = list_scope actor query in
      let pick : Prompt → Bool =
        λ p. nat_eq p.id c.id && (nat_eq p.tenant_id actor.tenant_id && in_scope scope p) in
      let fits : pick c ≡ true =
        ground (arith, nat_eq_iff c.id c.id, nat_eq_iff c.tenant_id actor.tenant_id) in
      elim (Option-cases (db.find_first pick s.prompts)) [
        | inl e ↦ absurd (ground (arith, db.missed pick s.prompts e, any_of_In pick c s.prompts i))
        | inr (r, e) ↦
            let (hit, j) = db.found pick s.prompts r e in
            let same : r ≡ c =
              same_row s.prompts r c distinct j i (ground (arith, nat_eq_iff r.id c.id)) in
            ground (arith, same)
      ]
