-- ===== src/History/List/Pages.antt =====
-- What a page of the list holds.
use promptlens_v.Prelude.{
  ℕ, ◌≡◌, refl, ap, ◌∙◌, sym, Option, none, some, List, [], ◌∷◌, map, arith, zero, suc, ◌≤◌, inl,
  inr, length, prefix,
}
use promptlens_v.Store.{Prisma, ok, Result-cases, committed}
use promptlens_v.Schema.{Db, Prompt}
use promptlens_v.Actor.{AuthenticatedActor}
use promptlens_v.History.List.{
  PromptListQuery, PromptListResponse, TextRules, list, list_body, list_scope, find_cursor,
  page_rows, page_of, map_prompt,
}

pub length-map : {A B : Type 0} (f : A → B) (xs : List A) → length (map f xs) ≡ length xs
length-map f [] = refl
length-map f (x ∷ xs) = ap suc (length-map f xs)

pub length-prefix_full :
    {A : Type 0} (n : ℕ) (xs : List A) → n ≤ length xs → length (prefix n xs) ≡ n
length-prefix_full zero xs h = refl
length-prefix_full (suc n) [] h = absurd (ground arith)
length-prefix_full (suc n) (x ∷ xs) h = ground (arith, length-prefix_full n xs)

module _ (db : Prisma) (rules : TextRules) (actor : AuthenticatedActor) where
  -- A page that is followed by another holds as many items as were asked for.
  page_full :
      (s : Db) (limit : ℕ) (rows : List Prompt) (c : ℕ)
      → (page_of db rules s limit rows).next_cursor ≡ some c
      → length (page_of db rules s limit rows).items ≡ limit
  unfolding page_of
  page_full s limit rows c h =
      length-map (map_prompt db rules s) (prefix limit rows)
      ∙ length-prefix_full limit rows (ground arith)

  find_cursor_keeps :
      (scope cursor : Option ℕ) (s s' : Db) (found : Option Prompt)
      → find_cursor db rules actor scope cursor s ≡ ok (found, s')
      → s' ≡ s
  unfolding find_cursor
  find_cursor_keeps scope none s s' found h = ground arith
  find_cursor_keeps scope (some n) s s' found h = ground arith

  list_body_inv :
      (query : PromptListQuery) (s s' : Db) (page : PromptListResponse)
      → list_body db rules actor query s ≡ ok (page, s')
      → (cursor : Option Prompt) × (find_cursor db rules actor
            (list_scope actor query)
            query.cursor
            s
          ≡ ok (cursor, s))
        × (page
            ≡ page_of db rules s query.limit
                (page_rows db rules actor (list_scope actor query) query cursor s))
  unfolding list_body
  list_body_inv query s s' page h =
      elim (Result-cases (find_cursor db rules actor (list_scope actor query) query.cursor s)) [
        | inl ((found, s1), e) ↦
            let same = find_cursor_keeps (list_scope actor query) query.cursor s s1 found e in
            (found, rw same at e, ground (arith, same))
        | inr (x, e) ↦ absurd (ground arith)
      ]

  -- A list that is answered is a page of the state it read.
  pub list_inv :
      (query : PromptListQuery) (s : Db) (page : PromptListResponse)
      → (list db rules actor query s).0 ≡ ok page
      → (cursor : Option Prompt) × (page
          ≡ page_of db rules s query.limit
              (page_rows db rules actor (list_scope actor query) query cursor s))
  unfolding list
  list_inv query s page h =
      let e = rw db.transaction_lem at h in
      let (cursor, found, done) =
        list_body_inv query s _ page (committed s (list_body db rules actor query s) page e) in
      (cursor, done)

  pub list_full :
      (query : PromptListQuery) (s : Db) (page : PromptListResponse) (c : ℕ)
      → (list db rules actor query s).0 ≡ ok page
      → page.next_cursor ≡ some c
      → length page.items ≡ query.limit
  list_full query s page c h more =
      let (cursor, e) = list_inv query s page h in
      ap (λ (x : PromptListResponse). length x.items) e
      ∙ page_full s query.limit _ c (sym (ap (λ (x : PromptListResponse). x.next_cursor) e) ∙ more)
