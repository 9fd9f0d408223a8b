-- ===== src/History/List/Walk.antt =====
-- Walking through the whole list page by page with the cursors that the pages give.
use promptlens_v.Prelude.{
  ℕ, ◌≡◌, refl, sym, ap, ◌∙◌, true, Option, none, some, List, [], ◌∷◌, ◌++◌, map, arith, zero, suc,
  ◌<◌, inl, inr, ◌⊎◌, ltb, length, prefix, Bool-cases, is_some,
}
use promptlens_v.Store.{Prisma, ok}
use promptlens_v.Store.Memory.{prefix_whole}
use promptlens_v.Schema.{Db, Prompt}
use promptlens_v.Actor.{AuthenticatedActor}
use promptlens_v.History.List.{
  PromptListQuery, PromptListResponse, TextRules, list, list_body, list_scope, find_cursor,
  page_rows, page_of, map_prompt, last_id,
}
use promptlens_v.History.List.Order.{
  HasDistinctIds, whole_list, page_rows_whole, first_rows, later_rows, find_cursor_again,
  prefix-prefix, ltb-length-prefix,
}
use mathlib.Core.List.{append_assoc}

-- Where more elements follow, a prefix that is not empty has a last one.
split_prefix :
    {A : Type 0} (n : ℕ) (xs : List A)
    → n < length xs
    → (front : List A) × (c : A) × (back : List A) × (xs ≡ front ++ c ∷ back)
      × (prefix (suc n) xs ≡ front ++ c ∷ [])
split_prefix n [] h = absurd (ground arith)
split_prefix zero (x ∷ xs) h = ([], x, xs, refl, refl)
split_prefix (suc n) (x ∷ xs) h =
    let (front, c, back, e, f) = split_prefix n xs (ground arith) in
    (x ∷ front, c, back, ap (λ ys. x ∷ ys) e, ap (λ ys. x ∷ ys) f)

last_id_append : (front : List Prompt) (c : Prompt) → last_id (front ++ c ∷ []) ≡ some c.id
last_id_append [] c = refl
last_id_append (p ∷ []) c = refl
last_id_append (p ∷ q ∷ front) c = last_id_append (q ∷ front) c

module _ (db : Prisma) (rules : TextRules) (actor : AuthenticatedActor) where
  -- What the whole list holds behind the cursor of a query.
  abbrev pub IsRest : PromptListQuery → Db → (cursor : Option ℕ) → List Prompt → Type 0
  IsRest query s cursor rest =
      ((cursor ≡ none) × (rest ≡ whole_list db rules actor query s))
      ⊎ ((front : List Prompt) × (c : Prompt) × (cursor ≡ some c.id)
          × (whole_list db rules actor query s ≡ front ++ c ∷ rest))

  rest_of_whole :
      (query : PromptListQuery) (s : Db) (cursor : Option ℕ) (rest : List Prompt)
      → IsRest query s cursor rest
      → (passed : List Prompt) × (whole_list db rules actor query s ≡ passed ++ rest)
  rest_of_whole query s cursor rest (inl (e, is_whole)) = ([], sym is_whole)
  rest_of_whole query s cursor rest (inr (front, c, e, split)) =
      (front ++ c ∷ [], split ∙ sym (append_assoc front (c ∷ []) rest))

  rows_are :
      (query : PromptListQuery) (s : Db) (rest : List Prompt)
      → HasDistinctIds s.prompts
      → IsRest query s query.cursor rest
      → (cursor : Option Prompt) × (find_cursor db rules actor
            (list_scope actor query)
            query.cursor
            s
          ≡ ok (cursor, s))
        × (page_rows db rules actor (list_scope actor query) query cursor s
            ≡ prefix (suc query.limit) rest)
  unfolding find_cursor list_scope
  rows_are query s rest distinct (inl (e, is_whole)) = (
    none,
    rw e refl,
    page_rows_whole db rules actor query s none distinct
        ∙ ap (prefix (suc query.limit)) (first_rows db rules actor query s ∙ sym is_whole),
  )
  rows_are query s rest distinct (inr (front, c, e, split)) = (
    some c,
    rw e (find_cursor_again db rules actor query s front rest c distinct split),
    page_rows_whole db rules actor query s (some c) distinct
        ∙ ap (prefix (suc query.limit))
            (later_rows db rules actor query s front rest c distinct split),
  )

  list_answers :
      (query : PromptListQuery) (s : Db) (cursor : Option Prompt)
      → find_cursor db rules actor (list_scope actor query) query.cursor s ≡ ok (cursor, s)
      → (list db rules actor query s).0
        ≡ ok (
            page_of db rules s query.limit
              (page_rows db rules actor (list_scope actor query) query cursor s))
  unfolding list list_body
  list_answers query s cursor e =
      ground (arith, db.transaction_lem (list_body db rules actor query) s)

  -- A page holds the front of the rest, and its cursor leads to what is left of it.
  pub record PageOf (query : PromptListQuery) (s : Db) (rest : List Prompt) : Type 0 where
    pub page : PromptListResponse
    pub answered : (list db rules actor query s).0 ≡ ok page
    pub items_are : page.items ≡ map (map_prompt db rules s) (prefix query.limit rest)
    pub next_is :
        ((page.next_cursor ≡ none) × (prefix query.limit rest ≡ rest))
        ⊎ ((left : List Prompt) × (prefix query.limit rest ++ left ≡ rest)
            × (is_some page.next_cursor ≡ true)
            × IsRest query s page.next_cursor left)

  pub rest-PageOf :
      (query : PromptListQuery) (n : ℕ) (s : Db) (rest : List Prompt)
      → query.limit ≡ suc n
      → HasDistinctIds s.prompts
      → IsRest query s query.cursor rest
      → PageOf query s rest
  unfolding page_of
  rest-PageOf query n s rest size distinct at_rest =
      let (cursor, found, rows) = rows_are query s rest distinct at_rest in
      let page = page_of db rules s query.limit (prefix (suc query.limit) rest) in
      record {
        page = page;
        answered =
            list_answers query s cursor found
            ∙ ap (λ r. ok (page_of db rules s query.limit r)) rows;
        items_are = ap (map (map_prompt db rules s)) (prefix-prefix query.limit rest);
        next_is = elim (Bool-cases (ltb query.limit (length rest))) [
          | inr over ↦ inl (
            ground (arith, ltb-length-prefix query.limit rest),
            prefix_whole query.limit rest (ground arith),
          )
          | inl more ↦
              let (front, c, back, split, items) = split_prefix n rest (ground arith) in
              let held : prefix query.limit rest ≡ front ++ c ∷ [] =
                ap (λ k. prefix k rest) size ∙ items in
              let cursor_is : page.next_cursor ≡ some c.id = ground (
                arith,
                ltb-length-prefix query.limit rest,
                ap last_id (prefix-prefix query.limit rest ∙ held) ∙ last_id_append front c,
              ) in
              let (passed, whole) = rest_of_whole query s query.cursor rest at_rest in
              inr (
                back,
                ap (λ rows. rows ++ back) held ∙ append_assoc front (c ∷ []) back ∙ sym split,
                ap is_some cursor_is,
                inr (
                  passed ++ front,
                  c,
                  cursor_is,
                  whole
                      ∙ ap (λ rows. passed ++ rows) split
                      ∙ sym (append_assoc passed front (c ∷ back)),
                ),
              )
        ];
      }
