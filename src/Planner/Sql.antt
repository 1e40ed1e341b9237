-- ===== src/Planner/Sql.antt =====
-- The SQL reader, crates/sarif_query_planner/src/lib.rs `parse_sql`, `extract_table`,
-- `extract_where`, `extract_limit`, `parse_expr`, `open_database` and `prepare_query`.
pub mod Laws
pub mod Reads
use sarif.Text.{Result, ok, err}
use sarif.Base.{
  ℕ, zero, suc, ◌+◌, ◌≡◌, Bool, true, false, not, ◌||◌, Option, none, some, List, [], ◌∷◌, ◌++◌,
  length, if◌then◌else◌,
}
use sarif.Text.{
  Text, codes, starts_with, find, contains, before_any, drop, trim, to_uppercase, split,
  trim_quotes_start, trim_quotes_end, ends_with_char, parse_i64, parse_usize,
}
use sarif.Planner.Plan.{
  Expr, identifier, literal_int, literal_text, binary, BinaryOp, MaybeExpr, no_expr, an_expr,
  no_columns, column, no_joins, no_order_by, SelectPlan, select, no_subquery, Statement,
  select_statement, QueryPlan,
}
use sarif.Planner.Optimizer.{OptimizedPlan, optimize}

infixl 5 ◌>>=◌
abbrev pub ◌>>=◌ {ℓ κ} : {A : Type ℓ} {B : Type κ} → Option A → (A → Option B) → Option B
none >>= f = none
some a >>= f = f a

-- `Expr::Binary` of the readings of `parts[0]` and `parts[1]`; out of range is `none`.
unfoldable pub first_two : (Text → Option Expr) → BinaryOp → List Text → Option Expr
first_two read op [] = none
first_two read op (a ∷ []) = none
first_two read op (a ∷ b ∷ _) = do l ← read a; r ← read b; some (binary l op r)

-- `if parts.len() == 2 { .. } else { Expr::Identifier(trimmed) }`
unfoldable pub exactly_two : (Text → Option Expr) → BinaryOp → Text → List Text → Option Expr
exactly_two read op trimmed (a ∷ b ∷ []) = do l ← read a; r ← read b; some (binary l op r)
exactly_two read op trimmed _ = some (identifier trimmed)

-- The branches that do not recur.
unfoldable pub parse_atom : Text → Expr
unfolding starts_with ends_with_char trim_quotes_start trim_quotes_end parse_i64
parse_atom t =
    if starts_with t (codes "\"") || ends_with_char 34 t
    then literal_text (trim_quotes_end (trim_quotes_start t))
    else elim (parse_i64 t) [ some v ↦ literal_int v | none ↦ identifier t ]

-- `none` is a want of fuel, or a part out of range.
unfoldable pub parse_expr : ℕ → Text → Option Expr
unfolding first_two exactly_two
parse_expr zero s = none
parse_expr (suc n) s =
    let t = trim s in
    if contains t (codes " AND ")
    then exactly_two (parse_expr n) BinaryOp.and t (split t (codes " AND "))
    else if contains t (codes " OR ")
    then exactly_two (parse_expr n) BinaryOp.or t (split t (codes " OR "))
    else if contains t (codes "==")
    then first_two (parse_expr n) BinaryOp.eq (split t (codes "=="))
    else if contains t (codes ">")
    then first_two (parse_expr n) BinaryOp.gt (split t (codes ">"))
    else some (parse_atom t)

unfoldable pub extract_table : Text → Option Text
extract_table sql_upper = do
  from_idx ← find sql_upper (codes "FROM ")
  some (before_any (codes " \n") (drop (from_idx + 5) sql_upper))

-- One level of recursion for each character of the condition, and one more.
unfoldable pub extract_where : Text → Option MaybeExpr
extract_where sql = elim (find (to_uppercase sql) (codes "WHERE ")) [
  | none ↦ some no_expr
  | some where_idx ↦
      let condition = drop (where_idx + 6) sql in
      parse_expr (suc (length condition)) condition >>= λ e. some (an_expr e)
]

unfoldable pub extract_limit : Text → Option ℕ
extract_limit sql_upper = do
  limit_idx ← find sql_upper (codes "LIMIT ")
  parse_usize (before_any (codes " \n") (drop (limit_idx + 6) sql_upper))

unfoldable pub unwrap_or : Option Text → Text → Text
unwrap_or none d = d
unwrap_or (some t) d = t

-- `starts_with("SELECT")` on the text in capitals
unfoldable pub is_select : Text → Bool
is_select sql = starts_with (to_uppercase (trim sql)) (codes "SELECT")

unfoldable pub parse_sql : Text → Option (Result QueryPlan)
parse_sql text =
    let sql = trim text in
    let parts = to_uppercase sql in
    let plan = extract_where sql >>= λ where_expr. some (
      ok (record {
        statements =
            select_statement (
              select (unwrap_or (extract_table parts) (codes "data.bcs"))
                (column (codes "*") no_expr none no_columns) where_expr no_joins [] no_order_by
                (extract_limit parts) no_subquery)
            ∷ [];
      })) in
    if not (is_select text) then some (err (codes "only SELECT statements are supported")) else plan

pub record QueryMetadata : Type 0 where
  pub table_count : ℕ
  pub column_count : ℕ

pub record SarifQuery : Type 0 where
  pub path : Text
  pub metadata : QueryMetadata

pub record SarifPlan : Type 0 where
  pub query : SarifQuery
  pub optimized : Option OptimizedPlan

-- `Path::exists` is the parameter `file_exists`.
unfoldable pub open_database : (Text → Bool) → Text → Result SarifQuery
open_database file_exists path =
    if not (file_exists path)
    then err (codes "database file not found: " ++ path)
    else ok (record { path = path; metadata = record { table_count = 0; column_count = 0 } })

unfoldable pub prepare_query : SarifQuery → Text → Option (Result SarifPlan)
prepare_query db sql = elim (parse_sql sql) [
  | none ↦ none
  | some (err message) ↦ some (err message)
  | some (ok plan) ↦ some (ok (record { query = db; optimized = some (optimize plan) }))
]
