-- ===== src/Planner/Cursor.antt =====
-- The result cursor, crates/sarif_query_planner/src/lib.rs `SarifResult`, and the C interface over
-- it, src/capi/mod.rs. A `usize` is a number below 2^64; its sums and differences wrap, as they do in
-- the release profile. A null pointer is `none`.
use sarif.Text.{ok, err}
use sarif.Base.{
  ℕ, zero, suc, ◌+◌, ◌-◌, ◌%◌, ◌^◌, ◌≤◌, ◌<◌, ◌≡◌, refl, Bool, true, false, Option, none, some,
  List, [], ◌∷◌, map, length, get_elem?, if◌then◌else◌, leb, arith,
}
use sarif.Base.Int.{ℤ, pos}
use sarif.Text.{Text, contains, parse_i64}
use sarif.Planner.Sql.{SarifQuery, SarifPlan, open_database, prepare_query}

pub record SarifResult : Type 0 where
  pub columns : List Text
  pub rows : List (List Text)
  pub current_row : ℕ

-- `SarifResult::default`
abbrev pub default : SarifResult
default = record { columns = []; rows = []; current_row = 0 }

unfoldable pub step : SarifResult → SarifResult × Bool
step r =
    let next = (r.current_row + 1) % 2 ^ 64 in
    (record r { current_row = next }, leb next (length r.rows))

unfoldable pub column_count : SarifResult → ℕ
column_count r = length r.columns

unfoldable pub row_count : SarifResult → ℕ
row_count r = length r.rows

-- `and_then(|row| row.get(col))`
unfoldable pub cell : ℕ → Option (List Text) → Option Text
cell col none = none
cell col (some row) = get_elem? row col

unfoldable pub column_text : SarifResult → ℕ → Option Text
unfolding cell
column_text r col = cell col (get_elem? r.rows ((r.current_row + 2 ^ 64 - 1) % 2 ^ 64))

unfoldable pub column_int : SarifResult → ℕ → Option ℤ
unfolding column_text parse_i64
column_int r col = elim (column_text r col) [ none ↦ none | some t ↦ parse_i64 t ]

-- `sarif_step`: the result behind the pointer, and what the call returns.
unfoldable pub sarif_step : Option SarifResult → Option SarifResult × ℕ
unfolding step
sarif_step none = (none, 0)
sarif_step (some r) = (some (step r).0, if (step r).1 then 1 else 0)

-- `col.try_into().unwrap_or(0)`: a negative column is column 0.
unfoldable pub to_column : ℤ → ℕ
to_column (pos n) = n
to_column (ℤ.negsuc n) = 0

-- `CString::new`: a text with a zero in it is refused.
unfoldable pub c_string : Option Text → Option Text
unfolding contains
c_string none = none
c_string (some t) = if contains t (0 ∷ []) then none else some t

unfoldable pub sarif_column_text : Option SarifResult → ℤ → Option Text
unfolding c_string to_column
sarif_column_text none col = none
sarif_column_text (some r) col = c_string (column_text r (to_column col))

unfoldable pub sarif_column_int : Option SarifResult → ℤ → ℤ
unfolding column_int to_column
sarif_column_int none col = pos 0
sarif_column_int (some r) col = elim (column_int r (to_column col)) [ none ↦ pos 0 | some v ↦ v ]

unfoldable pub sarif_execute : Option SarifPlan → Option SarifResult
sarif_execute none = none
sarif_execute (some plan) = some default

unfoldable pub sarif_open : (Text → Bool) → Option Text → Option SarifQuery
unfolding open_database
sarif_open file_exists none = none
sarif_open file_exists (some path) = elim (open_database file_exists path) [
  | ok query ↦ some query
  | err _ ↦ none
]

-- The outer `none` is that of `prepare_query`.
unfoldable pub sarif_prepare : Option SarifQuery → Option Text → Option (Option SarifPlan)
unfolding prepare_query
sarif_prepare none sql = some none
sarif_prepare (some db) none = some none
sarif_prepare (some db) (some sql) = elim (prepare_query db sql) [
  | none ↦ none
  | some (err _) ↦ some none
  | some (ok plan) ↦ some (some plan)
]

with_cell : Option Text → Option (List (Option Text)) → Option (List (Option Text))
with_cell c none = none
with_cell c (some cells) = some (c ∷ cells)

-- The loop of a client, `while (sarif_step(r)) { use(sarif_column_text(r, col)); }`, on `fuel`
-- rounds: the cells that it meets.
unfoldable pub read_column : ℕ → ℕ → SarifResult → Option (List (Option Text))
unfolding with_cell
read_column zero col r = none
read_column (suc fuel) col r =
    let s = step r in
    let rest = with_cell (column_text s.0 col) (read_column fuel col s.0) in
    if s.1 then rest else some []

rows_from : ℕ → List (List Text) → List (List Text)
rows_from zero rows = rows
rows_from (suc n) [] = []
rows_from (suc n) (row ∷ rows) = rows_from n rows

rows_from-nil : (n : ℕ) (rows : List (List Text)) → rows_from n rows ≡ [] → length rows ≤ n
unfolding rows_from
rows_from-nil zero [] h = omega arith
rows_from-nil zero (row ∷ rows) h = absurd (cc)
rows_from-nil (suc n) [] h = omega arith
rows_from-nil (suc n) (row ∷ rows) h = omega (arith, rows_from-nil n rows h)

rows_from-cons :
    (n : ℕ) (rows : List (List Text)) (row : List Text) (rest : List (List Text))
    → rows_from n rows ≡ row ∷ rest
    → (get_elem? rows n ≡ some row) × (rows_from (suc n) rows ≡ rest) × (n < length rows)
unfolding rows_from
rows_from-cons zero [] row rest h = absurd (cc)
rows_from-cons zero (x ∷ rows) row rest h = (cc, cc, omega arith)
rows_from-cons (suc n) [] row rest h = absurd (cc)
rows_from-cons (suc n) (x ∷ rows) row rest h =
    let (a, b, c) = rows_from-cons n rows row rest h in (a, b, omega arith)

-- On a row that there is, a step returns true and the cell is the row's.
step_cell :
    (r : SarifResult) (row : List Text) (col : ℕ)
    → length r.rows < 2 ^ 64
    → r.current_row < length r.rows
    → get_elem? r.rows r.current_row ≡ some row
    → ((step r).1 ≡ true)
      × ((step r).0.current_row ≡ suc r.current_row)
      × (column_text (step r).0 col ≡ get_elem? row col)
unfolding step column_text
step_cell r row col small lt here =
    let i = r.current_row in
    let up : (i + 1) % 2 ^ 64 ≡ suc i = omega arith in
    let back : (suc i + 2 ^ 64 - 1) % 2 ^ 64 ≡ i = omega arith in
    (ground arith, up, rw (up, back, here) refl)

step_end :
    (r : SarifResult)
    → length r.rows < 2 ^ 64 - 1
    → r.current_row ≡ length r.rows
    → (step r).1 ≡ false
unfolding step
step_end r small h =
    let up : (r.current_row + 1) % 2 ^ 64 ≡ suc r.current_row = omega arith in ground arith

step_rows : (r : SarifResult) → (step r).0.rows ≡ r.rows
unfolding step
step_rows r = refl

read_from :
    (fuel : ℕ) (rest : List (List Text)) (col : ℕ) (r : SarifResult)
    → rows_from r.current_row r.rows ≡ rest
    → length r.rows < 2 ^ 64 - 1
    → r.current_row ≤ length r.rows
    → length rest < fuel
    → read_column fuel col r ≡ some (map (λ row. get_elem? row col) rest)
unfolding read_column
read_from zero rest col r here small le lt = absurd (omega arith)
read_from (suc fuel) [] col r here small le lt =
    rw (step_end r small (omega (arith, rows_from-nil r.current_row r.rows here))) refl
read_from (suc fuel) (row ∷ rest) col r here small le lt =
    let (at, next, below) = rows_from-cons r.current_row r.rows row rest here in
    let (moved, now, cell_of) = step_cell r row col (omega arith) below at in
    let same = step_rows r in
    let ih =
      read_from fuel rest col (step r).0 (rw (now, same) next) (rw same small)
        (rw (now, same) below) (omega arith) in
    rw (moved, cell_of, ih) refl

-- A client that steps through a fresh result meets each row once, in order, and reads from each the
-- cell of its column, or none where the row is too short; then the step reports the end.
pub read_column-rows :
    (r : SarifResult) (col : ℕ)
    → r.current_row ≡ 0
    → length r.rows < 2 ^ 64 - 1
    → read_column (suc (length r.rows)) col r ≡ some (map (λ row. get_elem? row col) r.rows)
unfolding rows_from
read_column-rows r col fresh small =
    read_from (suc (length r.rows)) r.rows col r (rw fresh refl) small (omega arith) (omega arith)
