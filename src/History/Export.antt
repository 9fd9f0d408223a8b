-- ===== src/History/Export.antt =====
-- apps/api/src/prompts/prompt-history.service.ts: the export, which reads page after page. Another
-- request may write between two pages: page k reads the state `world k`. The loop runs on fuel, ten
-- rounds, which `collect_enough` shows to suffice on any states.
pub mod Rounds
pub mod Whole
pub mod Reading
use promptlens_v.Prelude.{
  ℕ, Chars, codes, String, Bool, true, false, ◌&&◌, Option, none, some, List, [], ◌∷◌, ◌++◌, map,
  zero, suc, ltb, is_some, length, prefix,
}
use promptlens_v.Store.{Prisma, Result, ok, err, Error, create, failure}
use promptlens_v.Schema.{Db, AuditEvent, MetaValue}
use promptlens_v.Schema.Tables.{audit}
use promptlens_v.Actor.{AuthenticatedActor}
use promptlens_v.History.{fresh}
use promptlens_v.History.List.{
  PromptListQuery, PromptListResponse, PromptDetailResponse, AnalysisSummary, TextRules, list,
}
use promptlens_v.History.Csv.{Cell, csv_body}

pub data ExportFormat : Type 0 where
  json csv : ExportFormat

pub record ExportFile : Type 0 where
  pub body : Chars
  pub content_type : String
  pub extension : String

-- The text of a uuid and of a number, and JSON.stringify.
pub record Printers : Type 0 where
  pub uuid : ℕ → Chars
  pub decimal : ℕ → Chars
  pub stringify : List PromptDetailResponse → Chars

abbrev pub page_size : ℕ
page_size = 100

abbrev pub max_records : ℕ
max_records = 1000

abbrev pub rounds : ℕ
rounds = 10

-- `{ ...query, limit: 100, ...(cursor ? { cursor } : {}) }`
pub page_query : PromptListQuery → (cursor : Option ℕ) → PromptListQuery
page_query query none = record query { limit = page_size }
page_query query (some c) = record query { limit = page_size; cursor = some c }

-- `{ ...item, timezone: '', createdAt: item.occurredAt }`
abbrev pub exported_item : PromptDetailResponse → PromptDetailResponse
exported_item item = record item { timezone = ""; created_at = item.occurred_at }

abbrev pub goes_on : (cursor : Option ℕ) → List PromptDetailResponse → Bool
goes_on cursor items = is_some cursor && ltb (length items) max_records

abbrev pub score_of : Option AnalysisSummary → Option ℕ
score_of none = none
score_of (some a) = a.score

abbrev pub improvement_of : Option AnalysisSummary → Option String
improvement_of none = none
improvement_of (some a) = a.improved_prompt

abbrev pub number_cell : Printers → Option ℕ → Cell
number_cell printers none = Cell.absent
number_cell printers (some n) = Cell.text (printers.decimal n)

abbrev pub text_cell : Option String → Cell
text_cell none = Cell.absent
text_cell (some t) = Cell.text (codes t)

abbrev pub id_cell : Printers → PromptDetailResponse → Cell
id_cell printers item = Cell.text (printers.uuid item.id)

abbrev pub other_cells : Printers → PromptDetailResponse → List Cell
other_cells printers item =
    text_cell (some item.project_name)
    ∷ text_cell (some item.platform)
    ∷ text_cell (some item.model)
    ∷ text_cell (some item.occurred_at)
    ∷ number_cell printers (score_of item.analysis)
    ∷ text_cell (some item.content)
    ∷ text_cell (improvement_of item.analysis)
    ∷ []

pub export_file : Printers → ExportFormat → List PromptDetailResponse → ExportFile
export_file printers ExportFormat.json items = record {
  body = printers.stringify items;
  content_type = "application/json; charset=utf-8";
  extension = "json";
}
export_file printers ExportFormat.csv items = record {
  body = csv_body (map (λ item. id_cell printers item ∷ other_cells printers item) items);
  content_type = "text/csv; charset=utf-8";
  extension = "csv";
}

abbrev pub format_name : ExportFormat → String
format_name ExportFormat.json = "json"
format_name ExportFormat.csv = "csv"

abbrev pub export_event : AuthenticatedActor → ExportFormat → (records : ℕ) → AuditEvent
export_event actor format records = record {
  tenant_id = some actor.tenant_id;
  actor_id = some actor.user_id;
  action = "prompts.exported";
  target_type = "prompt_export";
  target_id = none;
  result = "success";
  metadata =
      ("format", MetaValue.text (format_name format)) ∷ ("records", MetaValue.number records) ∷ [];
}

module _ (db : Prisma) (rules : TextRules) (actor : AuthenticatedActor)
    (query : PromptListQuery) where
  -- The do-while loop from page k on; none where the fuel runs out.
  pub collect :
      (world : ℕ → Db) (fuel k : ℕ) (cursor : Option ℕ)
      → List PromptDetailResponse
      → Option (Result (List PromptDetailResponse))
  collect world zero k cursor items = none
  collect world (suc fuel) k cursor items =
      elim ((list db rules actor (page_query query cursor) (world k)).0) [
        | err e ↦ some (err e)
        | ok page ↦
            let items' = items ++ map exported_item page.items in
            elim (goes_on page.next_cursor items') [
              | true ↦ collect world fuel (suc k) page.next_cursor items'
              | false ↦ some (ok items')
            ]
      ]

  finish_export :
      Printers
      → ExportFormat
      → Option (Result (List PromptDetailResponse))
      → Db
      → Result ExportFile × Db
  finish_export printers format none s = (err (failure "Out of fuel."), s)
  finish_export printers format (some (err e)) s = (err e, s)
  finish_export printers format (some (ok items)) s =
      let exported = prefix max_records items in
      answer exported
        (db.transaction (create db audit fresh (export_event actor format (length exported))) s)
    where
      answer : List PromptDetailResponse → Result (Unit {0}) × Db → Result ExportFile × Db
      answer exported (ok done, s') = (ok (export_file printers format exported), s')
      answer exported (err e, s') = (err e, s')

  -- The audit event is written into the state s.
  pub export_prompts : Printers → ExportFormat → (world : ℕ → Db) → Db → Result ExportFile × Db
  export_prompts printers format world s =
      finish_export printers format (collect world rounds 0 none []) s
