-- ===== src/History/Export/Whole.antt =====
-- The export against the whole list.
use promptlens_v.Prelude.{
  ℕ, ◌≡◌, refl, sym, ap, ◌∙◌, true, false, Option, none, some, List, [], ◌∷◌, ◌++◌, map, arith,
  zero, suc, ◌+◌, ◌*◌, ◌≤◌, inl, inr, length, prefix, Bool-cases, is_some, any,
}
use promptlens_v.Store.{Prisma, ok}
use promptlens_v.Schema.{Db, Prompt}
use promptlens_v.Actor.{AuthenticatedActor}
use promptlens_v.History.{fresh}
use promptlens_v.History.List.{PromptListQuery, PromptDetailResponse, TextRules, map_prompt}
use promptlens_v.History.List.Order.{HasDistinctIds, whole_list, whole_list_same}
use promptlens_v.History.List.Walk.{IsRest, PageOf, rest-PageOf}
use promptlens_v.History.Export.{
  Printers, ExportFormat, export_file, export_event, finish_export, export_prompts, page_query,
  page_size, max_records, rounds, exported_item, goes_on, collect,
}
use promptlens_v.History.Export.Rounds.{
  page_query_limit, goes_on_full, collect_stops, collect-goes_on,
}
use mathlib.Core.List.{append_assoc}

map-append : {A B : Type 0} (f : A → B) (xs ys : List A) → map f (xs ++ ys) ≡ map f xs ++ map f ys
map-append f [] ys = refl
map-append f (x ∷ xs) ys = ap (λ zs. f x ∷ zs) (map-append f xs ys)

map-map :
    {A B C : Type 0} (g : B → C) (f : A → B) (xs : List A)
    → map g (map f xs) ≡ map (λ x. g (f x)) xs
map-map g f [] = refl
map-map g f (x ∷ xs) = ap (λ zs. g (f x) ∷ zs) (map-map g f xs)

prefix_front :
    {A : Type 0} (n : ℕ) (xs ys : List A) → n ≤ length xs → prefix n xs ≡ prefix n (xs ++ ys)
prefix_front zero xs ys h = refl
prefix_front (suc n) [] ys h = absurd (ground arith)
prefix_front (suc n) (x ∷ xs) ys h = ap (λ zs. x ∷ zs) (prefix_front n xs ys (ground arith))

any-fresh : {A : Type 0} (a : A) (rows : List A) → any (fresh a) rows ≡ false
any-fresh a [] = refl
any-fresh a (x ∷ rows) = any-fresh a rows

module _ (db : Prisma) (rules : TextRules) (actor : AuthenticatedActor) (query : PromptListQuery)
    (s : Db) where
  -- A row as the export writes it.
  abbrev pub exported_row : Prompt → PromptDetailResponse
  exported_row p = exported_item (map_prompt db rules s p)

  page_query_whole :
      (cursor : Option ℕ)
      → whole_list db rules actor (page_query query cursor) s ≡ whole_list db rules actor query s
  unfolding page_query
  page_query_whole none = whole_list_same db rules actor query page_size query.cursor s
  page_query_whole (some c) = whole_list_same db rules actor query page_size (some c) s

  page_query_cursor :
      (cursor : Option ℕ) → query.cursor ≡ none → (page_query query cursor).cursor ≡ cursor
  unfolding page_query
  page_query_cursor none e = e
  page_query_cursor (some c) e = refl

  IsRest-same :
      (q q' : PromptListQuery) (cursor cursor' : Option ℕ) (rest : List Prompt)
      → whole_list db rules actor q s ≡ whole_list db rules actor q' s
      → cursor ≡ cursor'
      → IsRest db rules actor q s cursor rest
      → IsRest db rules actor q' s cursor' rest
  IsRest-same q q' cursor cursor' rest e f (inl (is_none, whole)) = inl (sym f ∙ is_none, whole ∙ e)
  IsRest-same q q' cursor cursor' rest e f (inr (front, c, is_some, split)) =
      inr (front, c, sym f ∙ is_some, sym e ∙ split)

  -- The loop with these items ends with what the rest of the whole list adds to them.
  abbrev Collected :
      (fuel k : ℕ) (cursor : Option ℕ) → List PromptDetailResponse → List Prompt → Type 0
  Collected fuel k cursor items rest =
      (got : List PromptDetailResponse) × (collect db rules actor query (λ _. s) fuel k cursor items
        ≡ some (ok got))
      × (prefix max_records got ≡ prefix max_records (items ++ map exported_row rest))

  module _ (cursor : Option ℕ) (items : List PromptDetailResponse) (rest : List Prompt) where
    -- The page behind the cursor is the start of what is left.
    page_here :
        query.cursor ≡ none
        → HasDistinctIds s.prompts
        → IsRest db rules actor query s cursor rest
        → PageOf db rules actor (page_query query cursor) s rest
    page_here plain distinct at_rest =
        let q = page_query query cursor in
        rest-PageOf db rules actor q 99 s rest (page_query_limit query cursor) distinct (
          IsRest-same query q cursor q.cursor rest (sym (page_query_whole cursor))
            (sym (page_query_cursor cursor plain)) at_rest)

    module _ (p : PageOf db rules actor (page_query query cursor) s rest) where
      grown :
          items ++ map exported_item p.page.items
          ≡ items ++ map exported_row (prefix page_size rest)
      grown =
          ap (λ xs. items ++ map exported_item xs)
            (p.items_are
              ∙ ap (λ n. map (map_prompt db rules s) (prefix n rest))
                  (page_query_limit query cursor))
          ∙ ap (λ xs. items ++ xs)
              (map-map exported_item (map_prompt db rules s) (prefix page_size rest))

      -- The items and what is left of the list are the items before and the rest.
      joined :
          (left : List Prompt)
          → prefix (page_query query cursor).limit rest ++ left ≡ rest
          → (items ++ map exported_item p.page.items) ++ map exported_row left
            ≡ items ++ map exported_row rest
      joined left e =
          let size = page_query_limit query cursor in
          ap (λ xs. xs ++ map exported_row left) grown
          ∙ append_assoc items (map exported_row (prefix page_size rest)) (map exported_row left)
          ∙ ap (λ xs. items ++ xs)
              (sym (map-append exported_row (prefix page_size rest) left)
                ∙ ap (map exported_row) (sym (ap (λ n. prefix n rest ++ left) size) ∙ e))

      all_grown :
          prefix (page_query query cursor).limit rest ≡ rest
          → items ++ map exported_item p.page.items ≡ items ++ map exported_row rest
      all_grown all =
          grown
          ∙ ap (λ xs. items ++ map exported_row xs)
              (sym (ap (λ n. prefix n rest) (page_query_limit query cursor)) ∙ all)

  collect_round-Collected :
      (fuel k : ℕ) (cursor : Option ℕ) (items : List PromptDetailResponse) (rest : List Prompt)
      → query.cursor ≡ none
      → HasDistinctIds s.prompts
      → IsRest db rules actor query s cursor rest
      → ((next : Option ℕ) (items' : List PromptDetailResponse) (left : List Prompt)
          → goes_on next items' ≡ true
          → length items' ≡ length items + page_size
          → IsRest db rules actor query s next left
          → Collected fuel (suc k) next items' left)
      → Collected (suc fuel) k cursor items rest
  collect_round-Collected fuel k cursor items rest plain distinct at_rest later =
      let p = page_here cursor items rest plain distinct at_rest in
      let items' = items ++ map exported_item p.page.items in
      elim (Bool-cases (goes_on p.page.next_cursor items')) [
        | inl more ↦ elim p.next_is [
          | inl (ended, _) ↦ absurd (ground (arith, ended))
          | inr (left, join, _, at_left) ↦
              let (got, e, same) =
                later p.page.next_cursor items' left more
                  (goes_on_full db rules actor query s cursor items p.page p.answered more)
                  (IsRest-same (page_query query cursor) query p.page.next_cursor p.page.next_cursor
                    left (page_query_whole cursor) refl at_left) in
              (
                got,
                collect-goes_on db rules actor query (λ _. s) fuel k cursor items p.page p.answered
                      more
                    ∙ e,
                same ∙ ap (prefix max_records) (joined cursor items rest p left join),
              )
        ]
        | inr over ↦
            let stops =
              collect_stops db rules actor query (λ _. s) fuel k cursor items p.page p.answered
                over in
            elim p.next_is [
              | inl (_, all) ↦
                  (items', stops, ap (prefix max_records) (all_grown cursor items rest p all))
              | inr (left, join, go, _) ↦ (
                items',
                stops,
                prefix_front max_records items' (map exported_row left) (ground arith)
                    ∙ ap (prefix max_records) (joined cursor items rest p left join),
              )
            ]
      ]

  collect-Collected :
      (fuel k : ℕ) (cursor : Option ℕ) (items : List PromptDetailResponse) (rest : List Prompt)
      → query.cursor ≡ none
      → HasDistinctIds s.prompts
      → IsRest db rules actor query s cursor rest
      → max_records ≤ length items + page_size * suc fuel
      → Collected (suc fuel) k cursor items rest
  collect-Collected zero k cursor items rest plain distinct at_rest enough =
      collect_round-Collected zero k cursor items rest plain distinct at_rest
        (λ next items' left more e _. absurd (ground arith))
  collect-Collected (suc fuel) k cursor items rest plain distinct at_rest enough =
      collect_round-Collected (suc fuel) k cursor items rest plain distinct at_rest
        (λ next items' left more e at_left.
          collect-Collected fuel (suc k) next items' left plain distinct at_left
            (omega (arith, e, enough)))

  collect-whole_list :
      query.cursor ≡ none
      → HasDistinctIds s.prompts
      → Collected rounds 0 none [] (whole_list db rules actor query s)
  collect-whole_list plain distinct =
      collect-Collected 9 0 none [] (whole_list db rules actor query s) plain distinct
        (inl (refl, refl)) (omega arith)

  abbrev pub exported_rows : List PromptDetailResponse
  exported_rows = prefix max_records (map exported_row (whole_list db rules actor query s))

  finished :
      (printers : Printers) (format : ExportFormat) (got : List PromptDetailResponse)
      → let rows = prefix max_records got in
        finish_export db rules actor query printers format (some (ok got)) s ≡ (
          ok (export_file printers format rows),
          record s { audit = s.audit ++ export_event actor format (length rows) ∷ [] },
        )
  unfolding finish_export
  finished printers format got =
      let event = export_event actor format (length (prefix max_records got)) in
      rw (finish_export, db.transaction_lem, db.create_lem, any-fresh event s.audit) refl

  -- Where no other request writes meanwhile, the ids of the prompts differ and the query starts
  -- without a cursor, an export answers with the file of the first thousand rows of the whole list:
  -- the rows that pass the other filters of the query, sorted, the newest first, where a query with a
  -- search text takes them from the newest thousand matches of the search only, and so leaves out an
  -- older match that passes every filter. It adds one audit event with their number, and changes
  -- nothing else.
  pub export_prompts-whole_list :
      (printers : Printers) (format : ExportFormat)
      → query.cursor ≡ none
      → HasDistinctIds s.prompts
      → export_prompts db rules actor query printers format (λ _. s) s ≡ (
        ok (export_file printers format exported_rows),
        record s { audit = s.audit ++ export_event actor format (length exported_rows) ∷ [] },
      )
  unfolding export_prompts finish_export
  export_prompts-whole_list printers format plain distinct =
      let (got, e, same) = collect-whole_list plain distinct in
      ap (λ x. finish_export db rules actor query printers format x s) e
      ∙ finished printers format got
      ∙ ap
          (λ rows. (
            ok (export_file printers format rows),
            record s { audit = s.audit ++ export_event actor format (length rows) ∷ [] },
          ))
          same
