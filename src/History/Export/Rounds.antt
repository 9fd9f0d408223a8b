-- ===== src/History/Export/Rounds.antt =====
-- The loop of the export ends.
use promptlens_v.Prelude.{
  ℕ, ◌≡◌, refl, ap, ◌∙◌, true, false, Option, none, some, List, [], ◌++◌, map, arith, zero, suc,
  ◌+◌, ◌*◌, ◌≤◌, inl, inr, length, Bool-cases, Option-cases, length-append, is_some,
}
use promptlens_v.Store.{Prisma, Error, Result, ok, err, Result-cases}
use promptlens_v.Schema.{Db}
use promptlens_v.Actor.{AuthenticatedActor}
use promptlens_v.History.List.{
  PromptListQuery, PromptListResponse, PromptDetailResponse, TextRules, list,
}
use promptlens_v.History.List.Pages.{list_full, length-map}
use promptlens_v.History.Export.{
  page_query, page_size, max_records, rounds, exported_item, goes_on, collect,
}

pub page_query_limit :
    (query : PromptListQuery) (cursor : Option ℕ) → (page_query query cursor).limit ≡ page_size
unfolding page_query
page_query_limit query none = refl
page_query_limit query (some c) = refl

module _ (db : Prisma) (rules : TextRules) (actor : AuthenticatedActor)
    (query : PromptListQuery) where
  -- A page after which the loop goes on adds a hundred items.
  pub goes_on_full :
      (s : Db) (cursor : Option ℕ) (items : List PromptDetailResponse) (page : PromptListResponse)
      → (list db rules actor (page_query query cursor) s).0 ≡ ok page
      → goes_on page.next_cursor (items ++ map exported_item page.items) ≡ true
      → length (items ++ map exported_item page.items) ≡ length items + page_size
  goes_on_full s cursor items page h more = elim (Option-cases page.next_cursor) [
    | inl e ↦ absurd (ground arith)
    | inr (c, e) ↦ ground (
      arith,
      length-append items (map exported_item page.items),
      length-map exported_item page.items,
      list_full db rules actor (page_query query cursor) s page c h e,
      page_query_limit query cursor,
    )
  ]

  module _ (world : ℕ → Db) (fuel k : ℕ) (cursor : Option ℕ)
      (items : List PromptDetailResponse) where
    pub collect_fails :
        (x : Error)
        → (list db rules actor (page_query query cursor) (world k)).0 ≡ err x
        → collect db rules actor query world (suc fuel) k cursor items ≡ some (err x)
    unfolding collect
    collect_fails x e = rw (collect, e) refl

    pub collect_stops :
        (page : PromptListResponse)
        → (list db rules actor (page_query query cursor) (world k)).0 ≡ ok page
        → goes_on page.next_cursor (items ++ map exported_item page.items) ≡ false
        → collect db rules actor query world (suc fuel) k cursor items
          ≡ some (ok (items ++ map exported_item page.items))
    unfolding collect
    collect_stops page e over = rw (collect, e, over) refl

    pub collect-goes_on :
        (page : PromptListResponse)
        → (list db rules actor (page_query query cursor) (world k)).0 ≡ ok page
        → goes_on page.next_cursor (items ++ map exported_item page.items) ≡ true
        → collect db rules actor query world (suc fuel) k cursor items
          ≡ collect db rules actor query world fuel
              (suc k)
              page.next_cursor
              (items ++ map exported_item page.items)
    unfolding collect
    collect-goes_on page e more = rw (collect, e, more) refl

  -- A round answers, or leaves its answer to the rounds after it.
  collect_round :
      (world : ℕ → Db) (fuel k : ℕ) (cursor : Option ℕ) (items : List PromptDetailResponse)
      → ((next : Option ℕ) (items' : List PromptDetailResponse)
          → goes_on next items' ≡ true
          → length items' ≡ length items + page_size
          → is_some (collect db rules actor query world fuel (suc k) next items') ≡ true)
      → is_some (collect db rules actor query world (suc fuel) k cursor items) ≡ true
  collect_round world fuel k cursor items rest =
      elim (Result-cases (list db rules actor (page_query query cursor) (world k)).0) [
        | inr (x, e) ↦ ap is_some (collect_fails world fuel k cursor items x e)
        | inl (page, e) ↦
            let items' = items ++ map exported_item page.items in
            elim (Bool-cases (goes_on page.next_cursor items')) [
              | inr over ↦ ap is_some (collect_stops world fuel k cursor items page e over)
              | inl more ↦
                  ap is_some (collect-goes_on world fuel k cursor items page e more)
                  ∙ rest page.next_cursor items' more
                      (goes_on_full (world k) cursor items page e more)
            ]
      ]

  collect_enough_from :
      (world : ℕ → Db) (fuel k : ℕ) (cursor : Option ℕ) (items : List PromptDetailResponse)
      → max_records ≤ length items + page_size * suc fuel
      → is_some (collect db rules actor query world (suc fuel) k cursor items) ≡ true
  collect_enough_from world zero k cursor items enough =
      collect_round world zero k cursor items (λ next items' more e. absurd (ground arith))
  collect_enough_from world (suc fuel) k cursor items enough =
      collect_round world (suc fuel) k cursor items (λ next items' more e.
        collect_enough_from world fuel (suc k) next items' (omega (arith, e, enough)))

  -- Ten rounds are enough for the loop of an export, whatever is written between two of its pages:
  -- it ends with an answer or with the error of a page.
  pub collect_enough :
      (world : ℕ → Db)
      → (items : Result (List PromptDetailResponse)) × (collect db rules actor query world rounds 0
            none []
          ≡ some items)
  collect_enough world = elim (Option-cases (collect db rules actor query world rounds 0 none [])) [
    | inr (items, e) ↦ (items, e)
    | inl e ↦ absurd (ground (arith, collect_enough_from world 9 0 none [] (omega arith)))
  ]
