-- ===== src/History/List.antt =====
-- apps/api/src/prompts/prompt-history.service.ts: the list of prompts with its filters, its order
-- and its cursor, the detail of a prompt, and packages/contracts/src/prompts/history.ts. The search
-- of PostgreSQL in texts and toLowerCase are parameters, a date is printed by a parameter; a missing
-- project, which the foreign key of the schema rules out, has the empty name.
mod Query
pub mod Pages
pub mod Order
pub mod Walk
mod Tests
pub use Query.*
use promptlens_v.Prelude.{
  ℕ, String, Bool, true, false, ◌&&◌, ◌||◌, Option, none, some, List, [], ◌∷◌, suc, map, ◌==◌, ℕ_eq,
  String_eq, ltb, leb, if◌then◌else◌, is_none, is_some, any, keep, length, prefix,
}
use promptlens_v.Store.{
  Prisma, Tx, Result, ok, err, not_found, ◌>>=◌, ◌>>◌, pure, require, find_first,
}
use promptlens_v.Schema.{
  Db, Prompt, Project, Analysis, AnalysisStatus, PromptVersion, PromptVersionKind, Tag, PromptTag,
}
use promptlens_v.Schema.Tables.{prompts}
use promptlens_v.Schema.Enums.{is_completed}
use promptlens_v.Actor.{AuthenticatedActor}
use promptlens_v.History.{prompt_scope, in_scope, visible}

-- An empty text is as good as none.
pub truthy : Option String → Option String
truthy none = none
truthy (some t) = if t == "" then none else some t

-- `orderBy: [{ occurredAt: 'desc' }, { id: 'desc' }]`: the prompt a comes before b.
abbrev pub newer : Prompt → Prompt → Bool
newer a b = ltb b.occurred_at a.occurred_at || (b.occurred_at == a.occurred_at && ltb b.id a.id)

-- The prompts behind the cursor.
pub behind : Option Prompt → Prompt → Bool
behind none p = true
behind (some c) p =
    ltb p.occurred_at c.occurred_at || (p.occurred_at == c.occurred_at && ltb p.id c.id)

-- A filter that is not given lets every row pass.
abbrev pub passes {ℓ} : {A : Type ℓ} → (A → Bool) → Option A → Bool
passes test none = true
passes test (some a) = test a

pub tagged : Db → (name : String) → Prompt → Bool
tagged s name p =
    any
      (λ (l : PromptTag).
        l.prompt_id == p.id && any (λ (t : Tag). t.id == l.tag_id && t.name == name) s.tags)
      s.prompt_tags

abbrev pub score_within : (min_score max_score score : Option ℕ) → Bool
score_within min_score max_score none = false
score_within min_score max_score (some n) =
    passes (λ low. leb low n) min_score && passes (λ high. leb n high) max_score

pub scored : Db → (min_score max_score : Option ℕ) → Prompt → Bool
scored s min_score max_score p =
    if is_some min_score || is_some max_score
    then any
        (λ (a : Analysis).
          a.prompt_id == p.id
          && (score_within min_score max_score a.score && is_completed a.status))
        s.analyses
    else true

module _ (rules : TextRules) where
  -- The `where` of the list, the cursor left out.
  pub wanted :
      AuthenticatedActor
      → (scope : Option ℕ) → PromptListQuery
      → Db
      → (search_ids : Option (List ℕ)) → Prompt
      → Bool
  wanted actor scope query s search_ids p =
      p.tenant_id == actor.tenant_id
      && (is_none p.deleted_at
          && (in_scope scope p
              && (passes (λ n. p.project_id == n) query.project_id
                  && (passes (λ t. p.platform == t) (truthy query.platform)
                      && (passes (λ t. p.model == t) (truthy query.model)
                          && (passes (any (λ n. p.id == n)) search_ids
                              && (passes (λ t. tagged s (rules.to_lower_case t) p)
                                    (truthy query.tag)
                                  && (scored s query.min_score query.max_score p
                                      && (passes (λ t. leb t p.occurred_at) query.from_time
                                          && passes (λ t. leb p.occurred_at t)
                                              query.to_time)))))))))

  abbrev pub searched : AuthenticatedActor → (scope : Option ℕ) → (q : String) → Prompt → Bool
  searched actor scope q p =
      p.tenant_id == actor.tenant_id
      && (in_scope scope p && (is_none p.deleted_at && rules.found_in p.content q))

-- `projectName`, `tags`, `analyses` and `versions` of `includePrompt`.
abbrev pub name_of : Option Project → String
name_of none = ""
name_of (some p) = p.name

pub tag_names : Db → Prompt → List PromptTag → List String
tag_names s p [] = []
tag_names s p (l ∷ links) =
    let rest = tag_names s p links in
    if l.prompt_id == p.id
    then names_then (keep (λ (t : Tag). t.id == l.tag_id) s.tags) rest
    else rest
  where
    names_then : List Tag → List String → List String
    names_then [] rest = rest
    names_then (t ∷ ts) rest = t.name ∷ rest

abbrev pub latest_analysis : Analysis → Analysis → Bool
latest_analysis a b = ltb b.created_at a.created_at

abbrev pub latest_version : PromptVersion → PromptVersion → Bool
latest_version a b = ltb b.created_at a.created_at

abbrev pub is_improved : PromptVersionKind → Bool
is_improved PromptVersionKind.improved = true
is_improved _ = false

abbrev pub is_version_of : Option ℕ → (analysis_id : ℕ) → Bool
is_version_of none n = false
is_version_of (some m) n = m == n

-- `find((version) => version.analysisId === analysis.id)?.content ?? null`
pub improved_of : (analysis_id : ℕ) → List PromptVersion → Option String
improved_of n [] = none
improved_of n (v ∷ vs) =
    let rest = improved_of n vs in if is_version_of v.analysis_id n then some v.content else rest

pub summary : List Analysis → List PromptVersion → Option AnalysisSummary
summary [] versions = none
summary (a ∷ _) versions = some (record {
  id = a.id;
  status = a.status;
  score = a.score;
  strengths = a.strengths;
  weaknesses = a.weaknesses;
  suggestions = a.suggestions;
  improved_prompt = improved_of a.id versions;
})

abbrev pub last_id : List Prompt → Option ℕ
last_id [] = none
last_id (p ∷ []) = some p.id
last_id (p ∷ q ∷ rest) = last_id (q ∷ rest)

pub list_scope : AuthenticatedActor → PromptListQuery → Option ℕ
list_scope actor query = prompt_scope actor query.user_id (is_given query.mine)
  where
    is_given : Option Bool → Bool
    is_given none = false
    is_given (some mine) = mine

module _ (db : Prisma) (rules : TextRules) where
  pub map_prompt : Db → Prompt → PromptDetailResponse
  map_prompt s p = record {
    id = p.id;
    project_id = p.project_id;
    project_name = name_of (db.find_first (λ r. r.id == p.project_id) s.projects);
    content = p.content;
    platform = p.platform;
    model = p.model;
    occurred_at = rules.to_iso_string p.occurred_at;
    timezone = p.timezone;
    created_at = rules.to_iso_string p.created_at;
    tags = tag_names s p s.prompt_tags;
    analysis = summary (db.find_ordered (λ a. a.prompt_id == p.id) latest_analysis 1 s.analyses) (
        db.find_ordered (λ v. v.prompt_id == p.id && is_improved v.kind) latest_version 1
          s.prompt_versions);
  }

  pub find_cursor :
      AuthenticatedActor → (scope : Option ℕ) → (cursor : Option ℕ) → Tx Db (Option Prompt)
  find_cursor actor scope none = pure none
  find_cursor actor scope (some n) = do
    row ←
        find_first db prompts
          (λ p. p.id == n && (p.tenant_id == actor.tenant_id && in_scope scope p))
    found ← require row (not_found "Cursor not found.")
    pure (some found)

  pub find_matches :
      AuthenticatedActor → (scope : Option ℕ) → (q : Option String) → Db → Option (List ℕ)
  find_matches actor scope none s = none
  find_matches actor scope (some q) s = some (
      map (λ (p : Prompt). p.id)
        (db.find_ordered (searched rules actor scope q) newer 1000 s.prompts))

  -- The rows that a page reads.
  pub page_rows :
      AuthenticatedActor
      → (scope : Option ℕ) → PromptListQuery
      → (cursor : Option Prompt) → Db
      → List Prompt
  page_rows actor scope query cursor s =
      let search_ids = find_matches actor scope (truthy query.q) s in
      db.find_ordered (λ p. wanted rules actor scope query s search_ids p && behind cursor p) newer
        (suc query.limit) s.prompts

  pub page_of : Db → (limit : ℕ) → List Prompt → PromptListResponse
  page_of s limit rows =
      let items = prefix limit rows in
      record {
        items = map (map_prompt s) items;
        next_cursor = if ltb limit (length rows) then last_id items else none;
      }

  pub list_body : AuthenticatedActor → PromptListQuery → Tx Db PromptListResponse
  list_body actor query = do
    cursor ← find_cursor actor (list_scope actor query) query.cursor
    λ s. ok (page_of s query.limit (page_rows actor (list_scope actor query) query cursor s), s)

  pub list : AuthenticatedActor → PromptListQuery → Db → Result PromptListResponse × Db
  list actor query s = db.transaction (list_body actor query) s

  pub detail_body : AuthenticatedActor → (prompt_id : ℕ) → Tx Db PromptDetailResponse
  detail_body actor prompt_id = do
    row ← find_first db prompts (visible actor prompt_id)
    prompt ← require row (not_found "Prompt not found.")
    λ s. ok (map_prompt s prompt, s)

  pub detail : AuthenticatedActor → (prompt_id : ℕ) → Db → Result PromptDetailResponse × Db
  detail actor prompt_id s = db.transaction (detail_body actor prompt_id) s
