-- ===== src/History/Csv/Reader.antt =====
-- A reader of CSV texts after RFC 4180, written without the code under test: cells may be quoted, a
-- quote inside a quoted cell is doubled, rows end with CR LF.
use promptlens_v.Prelude.{
  ℕ, Chars, ◌≡◌, refl, sym, ap, ◌∙◌, false, Option, none, some, List, [], ◌∷◌, ◌++◌, map, arith,
  ◌==◌, ℕ_eq, nat_eq_iff, if◌then◌else◌,
}
use promptlens_v.History.Csv.{
  Cell, cell_text, starts_formula, guarded, doubled, escape, join, columns, csv_row, csv_body,
}
use mathlib.Core.List.{append_assoc, append-nil}

data Mode : Type 0 where
  start plain quoted closing after_cr broken : Mode

-- What was read: the rows that ended, the cells of the row being read, its last cell.
record Reading : Type 0 where
  rows : List (List Chars)
  row : List Chars
  cell : Chars
  mode : Mode

abbrev end_cell : Reading → Reading
end_cell r = record { rows = r.rows; row = r.row ++ r.cell ∷ []; cell = []; mode = Mode.start }

abbrev put : ℕ → Mode → Reading → Reading
put c m r = record { rows = r.rows; row = r.row; cell = r.cell ++ c ∷ []; mode = m }

abbrev turn : Mode → Reading → Reading
turn m r = record { rows = r.rows; row = r.row; cell = r.cell; mode = m }

abbrev end_row : Reading → Reading
end_row r = record {
  rows = r.rows ++ (r.row ++ r.cell ∷ []) ∷ [];
  row = [];
  cell = [];
  mode = Mode.start;
}

-- What may follow a cell.
abbrev separated : ℕ → Reading → Reading → Reading
separated c r other =
    if c == b',' then end_cell r else if c == b'\r' then turn Mode.after_cr r else other

read_one : Mode → ℕ → Reading → Reading
read_one Mode.start c r =
    if c == b'"' then turn Mode.quoted r else separated c r (put c Mode.plain r)
read_one Mode.plain c r =
    if c == b'"' then turn Mode.broken r else separated c r (put c Mode.plain r)
read_one Mode.quoted c r = if c == b'"' then turn Mode.closing r else put c Mode.quoted r
read_one Mode.closing c r =
    if c == b'"' then put c Mode.quoted r else separated c r (turn Mode.broken r)
read_one Mode.after_cr c r = if c == b'\n' then end_row r else turn Mode.broken r
read_one Mode.broken c r = r

read_on : Chars → Reading → Reading
read_on [] r = r
read_on (c ∷ t) r = read_on t (read_one r.mode c r)

abbrev finish : Mode → Reading → Option (List (List Chars))
finish Mode.quoted r = none
finish Mode.broken r = none
finish Mode.after_cr r = none
finish _ r = some (r.rows ++ (r.row ++ r.cell ∷ []) ∷ [])

abbrev begun : Reading
begun = record { rows = []; row = []; cell = []; mode = Mode.start }

pub read_csv : Chars → Option (List (List Chars))
unfolding read_on
read_csv t = let r = read_on t begun in finish r.mode r

read_on-append : (t u : Chars) (r : Reading) → read_on (t ++ u) r ≡ read_on u (read_on t r)
unfolding read_on
read_on-append [] u r = refl
read_on-append (c ∷ t) u r = read_on-append t u (read_one r.mode c r)

abbrev at_cell : List (List Chars) → List Chars → Chars → Mode → Reading
at_cell rows row cell mode = record { rows = rows; row = row; cell = cell; mode = mode }

module _ (rows : List (List Chars)) (row : List Chars) where
  -- The two quotes of a quote are read as one.
  read_on-doubled :
      (t cell : Chars)
      → read_on (doubled t) (at_cell rows row cell Mode.quoted)
        ≡ at_cell rows row (cell ++ t) Mode.quoted
  unfolding read_on doubled read_one
  read_on-doubled [] cell = ap (λ x. at_cell rows row x Mode.quoted) (sym (append-nil cell))
  read_on-doubled (c ∷ t) cell =
      let e : cell ++ c ∷ t ≡ (cell ++ c ∷ []) ++ t = sym (append_assoc cell (c ∷ []) t) in
      rw e (ground (arith, nat_eq_iff c b'"', read_on-doubled t (cell ++ c ∷ [])))

  read_on-escape :
      (v : Cell)
      → read_on (escape v) (at_cell rows row [] Mode.start)
        ≡ at_cell rows row (guarded (cell_text v)) Mode.closing
  unfolding escape read_on read_one
  read_on-escape v =
      rw
        (
          read_on-append (doubled (guarded (cell_text v))) (b'"' ∷ []) _,
          read_on-doubled (guarded (cell_text v)) [],
        )
        refl

abbrev texts : List Cell → List Chars
texts cells = map (λ v. guarded (cell_text v)) cells

module _ (rows : List (List Chars)) where
  comma :
      (t : Chars) (row : List Chars) (cell : Chars)
      → read_on (b',' ∷ t) (at_cell rows row cell Mode.closing)
        ≡ read_on t (at_cell rows (row ++ cell ∷ []) [] Mode.start)
  unfolding read_on read_one
  comma t row cell = refl

  new_line :
      (t : Chars) (before : List Chars) (last : Chars)
      → read_on (b'\r' ∷ b'\n' ∷ t) (at_cell rows before last Mode.closing)
        ≡ read_on t (at_cell (rows ++ (before ++ last ∷ []) ∷ []) [] [] Mode.start)
  unfolding read_on read_one
  new_line t before last = refl

  -- A row of cells, whatever was read of the row before.
  read_on-csv_row :
      (row : List Chars) (v : Cell) (cells : List Cell)
      → (last : Chars) × (before : List Chars) × (read_on
            (csv_row (v ∷ cells))
            (at_cell rows row [] Mode.start)
          ≡ at_cell rows before last Mode.closing)
        × (before ++ last ∷ [] ≡ row ++ texts (v ∷ cells))
  unfolding csv_row join
  read_on-csv_row row v [] = (guarded (cell_text v), row, read_on-escape rows row v, refl)
  read_on-csv_row row v (w ∷ cells) =
      let (last, before, e, joined) = read_on-csv_row (row ++ guarded (cell_text v) ∷ []) w cells in
      (
        last,
        before,
        read_on-append (escape v) (b',' ∷ csv_row (w ∷ cells)) (at_cell rows row [] Mode.start)
            ∙ ap (read_on (b',' ∷ csv_row (w ∷ cells))) (read_on-escape rows row v)
            ∙ comma (csv_row (w ∷ cells)) row (guarded (cell_text v))
            ∙ e,
        joined ∙ append_assoc row (guarded (cell_text v) ∷ []) (texts (w ∷ cells)),
      )

-- The rows of some items, each with a first cell and more cells.
module _ {A : Type 0} (v : A → Cell) (cells : A → List Cell) where
  abbrev lines : List A → List Chars
  lines items = map (λ a. csv_row (v a ∷ cells a)) items

  abbrev read_lines : List A → List (List Chars)
  read_lines items = map (λ a. texts (v a ∷ cells a)) items

  read_csv_lines :
      (rows : List (List Chars)) (a : A) (items : List A)
      → (last : Chars) × (before : List Chars) × (done : List (List Chars)) × (read_on
            (join (b'\r' ∷ b'\n' ∷ []) (lines (a ∷ items)))
            (at_cell rows [] [] Mode.start)
          ≡ at_cell done before last Mode.closing)
        × (done ++ (before ++ last ∷ []) ∷ [] ≡ rows ++ read_lines (a ∷ items))
  unfolding join
  read_csv_lines rows a [] =
      let (last, before, e, joined) = read_on-csv_row rows [] (v a) (cells a) in
      (last, before, rows, e, ap (λ x. rows ++ x ∷ []) joined)
  read_csv_lines rows a (b ∷ items) =
      let (last, before, e, joined) = read_on-csv_row rows [] (v a) (cells a) in
      let (last', before', done', e', joined') =
        read_csv_lines (rows ++ texts (v a ∷ cells a) ∷ []) b items in
      let rest = join (b'\r' ∷ b'\n' ∷ []) (lines (b ∷ items)) in
      (
        last',
        before',
        done',
        read_on-append (csv_row (v a ∷ cells a)) (b'\r' ∷ b'\n' ∷ rest)
              (at_cell rows [] [] Mode.start)
            ∙ ap (read_on (b'\r' ∷ b'\n' ∷ rest)) e
            ∙ new_line rows rest before last
            ∙ ap (λ x. read_on rest (at_cell (rows ++ x ∷ []) [] [] Mode.start)) joined
            ∙ e',
        joined' ∙ append_assoc rows (texts (v a ∷ cells a) ∷ []) (read_lines (b ∷ items)),
      )

  read_csv_columns :
      (t : Chars)
      → read_on (join (b',' ∷ []) columns ++ b'\r' ∷ b'\n' ∷ t) begun
        ≡ read_on t (at_cell (columns ∷ []) [] [] Mode.start)
  unfolding read_on read_one join
  read_csv_columns t = refl

  read_csv_no_lines : read_csv (join (b',' ∷ []) columns) ≡ some (columns ∷ [])
  unfolding read_csv read_on read_one join
  read_csv_no_lines = refl

  join_more :
      (separator t u : Chars) (rest : List Chars)
      → join separator (t ∷ u ∷ rest) ≡ t ++ (separator ++ join separator (u ∷ rest))
  unfolding join
  join_more separator t u rest = refl

  map-csv_row : (items : List A) → map csv_row (map (λ a. v a ∷ cells a) items) ≡ lines items
  map-csv_row [] = refl
  map-csv_row (a ∷ items) = ap (λ x. csv_row (v a ∷ cells a) ∷ x) (map-csv_row items)

  read_csv_steps :
      (t : Chars) (rows : List (List Chars)) (before : List Chars) (last : Chars)
      → read_on t begun ≡ at_cell rows before last Mode.closing
      → read_csv t ≡ some (rows ++ (before ++ last ∷ []) ∷ [])
  unfolding read_csv
  read_csv_steps t rows before last e = ap (λ r. finish r.mode r) e

  -- What a reader finds in the text: the columns, then the cells of every row.
  pub read_csv-csv_body :
      (items : List A)
      → read_csv (csv_body (map (λ a. v a ∷ cells a) items)) ≡ some (columns ∷ read_lines items)
  unfolding csv_body join
  read_csv-csv_body [] = read_csv_no_lines
  read_csv-csv_body (a ∷ items) =
      let (last, before, done, e, joined) = read_csv_lines (columns ∷ []) a items in
      let rest = join (b'\r' ∷ b'\n' ∷ []) (lines (a ∷ items)) in
      let body : csv_body (map (λ a. v a ∷ cells a) (a ∷ items))
          ≡ join (b',' ∷ []) columns ++ b'\r' ∷ b'\n' ∷ rest =
        ap (λ x. join (b'\r' ∷ b'\n' ∷ []) (join (b',' ∷ []) columns ∷ x)) (map-csv_row (a ∷ items))
        ∙ join_more (b'\r' ∷ b'\n' ∷ []) (join (b',' ∷ []) columns) (csv_row (v a ∷ cells a))
            (lines items) in
      ap read_csv body
      ∙ read_csv_steps _ done before last (read_csv_columns rest ∙ e)
      ∙ ap some joined

-- The guard keeps a text from being taken for a formula.
pub guarded_plain : (t : Chars) → starts_formula (guarded t) ≡ false
unfolding guarded
guarded_plain t = ground arith
