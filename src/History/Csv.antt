-- ===== src/History/Csv.antt =====
-- apps/api/src/prompts/prompt-history.service.ts: the CSV text of an export, as a list of code points.
pub mod Reader
use promptlens_v.Prelude.{
  ℕ, Chars, codes, Bool, Option, none, some, List, [], ◌∷◌, ◌++◌, map, ◌||◌, ◌==◌, ℕ_eq,
  if◌then◌else◌,
}

-- `string | number | null | undefined`, a number with its decimal text.
pub data Cell : Type 0 where
  text : Chars → Cell
  absent : Cell

abbrev pub cell_text : Cell → Chars
cell_text (text t) = t
cell_text absent = []

-- `/^[=+\-@]/`
abbrev pub starts_formula : Chars → Bool
starts_formula [] = Bool.false
starts_formula (c ∷ _) = c == b'=' || (c == b'+' || (c == b'-' || c == b'@'))

pub guarded : Chars → Chars
guarded t = if starts_formula t then b'\'' ∷ t else t

-- `replaceAll('"', '""')`
pub doubled : Chars → Chars
doubled [] = []
doubled (c ∷ t) = let rest = doubled t in if c == b'"' then b'"' ∷ b'"' ∷ rest else c ∷ rest

pub escape : Cell → Chars
escape v = b'"' ∷ doubled (guarded (cell_text v)) ++ b'"' ∷ []

pub join : (separator : Chars) → List Chars → Chars
join separator [] = []
join separator (t ∷ []) = t
join separator (t ∷ u ∷ rest) = t ++ (separator ++ join separator (u ∷ rest))

abbrev pub columns : List Chars
columns = map codes (
    "id" ∷ "project" ∷ "platform" ∷ "model" ∷ "occurredAt" ∷ "score" ∷ "prompt" ∷ "improvedPrompt"
    ∷ [])

pub csv_row : List Cell → Chars
csv_row cells = join (b',' ∷ []) (map escape cells)

pub csv_body : List (List Cell) → Chars
csv_body rows = join (b'\r' ∷ b'\n' ∷ []) (join (b',' ∷ []) columns ∷ map csv_row rows)
