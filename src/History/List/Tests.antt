-- ===== src/History/List/Tests.antt =====
-- Examples for the list and the export of prompts.
use promptlens_v.Prelude.{
  ℕ, ◌≡◌, refl, true, false, Option, none, some, List, [], ◌∷◌, map, length, arith, All,
}
use promptlens_v.Store.{Result, ok, err, not_found}
use promptlens_v.Store.Memory.{memory}
use promptlens_v.Schema.{Db, Prompt, ProjectStatus, MembershipRole}
use promptlens_v.Schema.Sample.{blank}
use promptlens_v.Actor.{AuthenticatedActor}
use promptlens_v.History.{prompt_scope}
use promptlens_v.History.List.{
  PromptListQuery, PromptListResponse, PromptDetailResponse, TextRules, list, list_body, list_scope,
  find_cursor, find_matches, page_rows, page_of, map_prompt, wanted, behind, truthy, scored,
  tag_names, summary,
}
use promptlens_v.History.Csv.{columns, starts_formula}
use promptlens_v.History.Csv.Reader.{read_csv}
use promptlens_v.History.Export.{
  Printers, ExportFormat, export_file, export_event, export_prompts, collect, rounds,
}
use promptlens_v.History.Export.Rounds.{collect_enough}
use promptlens_v.History.Export.Whole.{exported_rows, export_prompts-whole_list}
use promptlens_v.History.Export.Reading.{read_row, read_csv-export_file}

abbrev rules : TextRules
rules = record {
  to_lower_case = λ t. t;
  found_in = λ content q. true;
  to_iso_string = λ t. "2026-01-01T00:00:00.000Z";
}

abbrev printers : Printers
printers = record { uuid = λ n. n ∷ []; decimal = λ n. n ∷ []; stringify = λ items. [] }

abbrev owner : AuthenticatedActor
owner = record {
  user_id = 5;
  tenant_id = 1;
  role = MembershipRole.owner;
  session_id = 9;
  is_instance_admin = false;
}

abbrev prompt : (id at : ℕ) → Prompt
prompt id at = record {
  id = id;
  tenant_id = 1;
  project_id = 4;
  user_id = 5;
  connector_installation_id = none;
  client_event_id = none;
  client_event_hash = none;
  content = "=SUM(\"a\", b)";
  platform = "claude-code";
  model = "m";
  occurred_at = at;
  timezone = "UTC";
  metadata = "";
  deleted_at = none;
  created_at = at;
}

abbrev kept : Db
kept = record blank {
  projects =
      record {
        id = 4;
        tenant_id = 1;
        name = "Default";
        description = none;
        status = ProjectStatus.active;
        archived_at = none;
      }
      ∷ [];
  prompts = prompt 1 10 ∷ prompt 2 30 ∷ prompt 3 10 ∷ [];
}

abbrev all_prompts : PromptListQuery
all_prompts = record {
  q = none;
  project_id = none;
  user_id = none;
  platform = some "";
  model = none;
  tag = none;
  mine = none;
  min_score = none;
  max_score = none;
  from_time = none;
  to_time = none;
  cursor = none;
  limit = 2;
}

abbrev ids : Result PromptListResponse → List ℕ × Option ℕ
ids (ok page) = (map (λ (item : PromptDetailResponse). item.id) page.items, page.next_cursor)
ids (err e) = ([], none)

-- Two prompts of the same time stand in the order of their ids.
first_page : ids (list memory rules owner all_prompts kept).0 ≡ (2 ∷ 3 ∷ [], some 3)
unfolding list list_body list_scope find_cursor page_rows page_of map_prompt wanted behind truthy
    scored prompt_scope find_matches summary tag_names
first_page = refl

second_page :
    ids (list memory rules owner (record all_prompts { cursor = some 3 }) kept).0 ≡ (1 ∷ [], none)
unfolding list list_body list_scope find_cursor page_rows page_of map_prompt wanted behind truthy
    scored prompt_scope find_matches summary tag_names
second_page = refl

lost_cursor :
    (list memory rules owner (record all_prompts { cursor = some 8 }) kept).0
    ≡ err (not_found "Cursor not found.")
unfolding list list_body list_scope find_cursor prompt_scope
lost_cursor = refl

collect_enough_example :
    (items : Result (List PromptDetailResponse)) × (collect memory rules owner all_prompts
        (λ _. kept)
        rounds
        0
        none
        []
      ≡ some items)
collect_enough_example = collect_enough memory rules owner all_prompts (λ _. kept)

export_prompts-whole_list_example :
    export_prompts memory rules owner all_prompts printers ExportFormat.csv (λ _. kept) kept ≡ (
      ok (
          export_file printers ExportFormat.csv
            (exported_rows memory rules owner all_prompts kept)),
      record kept {
        audit =
            export_event owner ExportFormat.csv
              (length (exported_rows memory rules owner all_prompts kept))
            ∷ [];
      },
    )
export_prompts-whole_list_example =
    export_prompts-whole_list memory rules owner all_prompts kept printers ExportFormat.csv refl
      (((λ e. ground arith), ((λ e. ground arith), tt)), (((λ e. ground arith), tt), (tt, tt)))

abbrev item : PromptDetailResponse
item = record {
  id = 50;
  project_id = 4;
  project_name = "Default";
  content = "=SUM(\"a\", b)";
  platform = "claude-code";
  model = "m";
  occurred_at = "2026-01-01T00:00:00.000Z";
  timezone = "";
  created_at = "2026-01-01T00:00:00.000Z";
  tags = [];
  analysis = none;
}

read_csv-export_file_example :
    (read_csv (export_file printers ExportFormat.csv (item ∷ [])).body
      ≡ some (columns ∷ read_row printers item ∷ []))
    × All (λ z. All (λ t. starts_formula t ≡ false) (read_row printers z)) (item ∷ [])
read_csv-export_file_example = read_csv-export_file printers (item ∷ [])
