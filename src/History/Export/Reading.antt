-- ===== src/History/Export/Reading.antt =====
-- What a reader of CSV finds in an exported file.
use promptlens_v.Prelude.{Chars, ◌≡◌, false, some, List, [], ◌∷◌, map, All}
use promptlens_v.History.List.{PromptDetailResponse}
use promptlens_v.History.Csv.{Cell, columns, cell_text, guarded, starts_formula}
use promptlens_v.History.Csv.Reader.{read_csv, read_csv-csv_body, guarded_plain}
use promptlens_v.History.Export.{Printers, ExportFormat, export_file, id_cell, other_cells}

-- The texts of the row of an item, each after its guard.
abbrev pub read_row : Printers → PromptDetailResponse → List Chars
read_row printers item =
    map (λ v. guarded (cell_text v)) (id_cell printers item ∷ other_cells printers item)

-- A reader of CSV gets back from the exported file the columns and, for every item, its eight
-- texts, each with the guard against formulas, whatever quotes, commas and line ends they hold;
-- and no text that it gets back starts like a formula.
pub read_csv-export_file :
    (printers : Printers) (items : List PromptDetailResponse)
    → (read_csv (export_file printers ExportFormat.csv items).body
        ≡ some (columns ∷ map (read_row printers) items))
      × All (λ item. All (λ t. starts_formula t ≡ false) (read_row printers item)) items
unfolding export_file
read_csv-export_file printers items =
    (read_csv-csv_body (id_cell printers) (other_cells printers) items, no_formula items)
  where
    plain :
        (cells : List Cell)
        → All (λ t. starts_formula t ≡ false) (map (λ v. guarded (cell_text v)) cells)
    plain [] = tt
    plain (v ∷ cells) = (guarded_plain (cell_text v), plain cells)

    no_formula :
        (items : List PromptDetailResponse)
        → All (λ item. All (λ t. starts_formula t ≡ false) (read_row printers item)) items
    no_formula [] = tt
    no_formula (item ∷ items) =
        (plain (id_cell printers item ∷ other_cells printers item), no_formula items)
