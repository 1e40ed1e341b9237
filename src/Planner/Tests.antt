-- ===== src/Planner/Tests.antt =====
-- Tests and examples of the query planner, crates/sarif_query_planner/src: the queries of the
-- source's own tests, and what they become.
use sarif.Text.{ok, err}
use sarif.Base.{ℕ, ◌≡◌, refl, false, none, some, [], ◌∷◌, map, get_elem?, arith}
use sarif.Base.Int.{pos}
use sarif.Text.{
  Text, codes, trim, trim_end, contains, split, starts_with, find, drop, before_any, to_uppercase,
}
use sarif.Text.Balance.{scan}
use sarif.Planner.Plan.{
  Expr, identifier, literal_int, binary, call, exists, in_list, BinaryOp, no_expr, an_expr, nil,
  cons, no_columns, no_joins, no_order_by, no_subquery, SelectPlan, select,
}
use sarif.Planner.Optimizer.{
  determine_select_order, needed, pipeline, determine_select_order-needed, table_of,
}
use sarif.Planner.Pretty.{pretty_expr}
use sarif.Planner.Balance.{ClosedExpr, pretty_expr-Closed}
use sarif.Planner.Codegen.{generate_text_search, generate_text_search-Braced}
use sarif.Planner.Sql.{
  parse_atom, parse_expr, parse_sql, is_select, extract_table, extract_where, prepare_query,
  SarifQuery,
}
use sarif.Planner.Sql.Laws.{parse_expr_total}
use sarif.Planner.Sql.Reads.{
  IsTable, table_plan, limited, filtered, parse_sql-limited, parse_sql-filtered,
}
use sarif.Text.Search.{IsTrimmed}
use sarif.Base.Int.{negsuc}
use sarif.Planner.Cursor.{
  sarif_column_text, column_text, SarifResult, read_column, read_column-rows,
}

abbrev condition : Text
condition = codes "age > 18 AND name == \"bob\""

abbrev condition_expr : Expr
condition_expr =
    binary (binary (identifier (codes "age")) BinaryOp.gt (literal_int (pos 18))) BinaryOp.and
      (binary (identifier (codes "name")) BinaryOp.eq (Expr.literal_text (codes "bob")))

condition_read : parse_expr 27 condition ≡ some condition_expr
unfolding parse_expr parse_atom trim contains split starts_with
condition_read = refl

parse_expr_total_example : (e : Expr) × (parse_expr 27 condition ≡ some e)
parse_expr_total_example = parse_expr_total 27 condition (omega arith)

-- The right side of `>=` keeps the sign of equality.
at_least_read :
    parse_expr 9 (codes "age >= 18")
    ≡ some (binary (identifier (codes "age")) BinaryOp.gt (identifier (codes "= 18")))
unfolding parse_expr parse_atom trim contains split starts_with
at_least_read = refl

-- Of a chain of comparisons the third part is dropped.
chain_read :
    parse_expr 12 (codes "a == b == c")
    ≡ some (binary (identifier (codes "a")) BinaryOp.eq (identifier (codes "b")))
unfolding parse_expr parse_atom trim contains split starts_with
chain_read = refl

abbrev query : Text
query = codes "select * from users where age > 18 limit 5"

-- The table's name is read from the text in capitals.
table_read : extract_table (to_uppercase query) ≡ some (codes "USERS")
unfolding extract_table to_uppercase find drop before_any
table_read = refl

-- The condition runs to the end of the text, the limit in it.
where_read :
    extract_where query
    ≡ some
        (an_expr (binary (identifier (codes "age")) BinaryOp.gt (identifier (codes "18 limit 5"))))
unfolding extract_where find drop to_uppercase parse_expr parse_atom trim contains split starts_with
where_read = refl

-- A name in small letters, which is read in capitals.
users-IsTable : IsTable (codes "users")
unfolding to_uppercase contains starts_with
users-IsTable = record {
  unbroken = (refl, (refl, (refl, (refl, (refl, tt)))));
  no_where = refl;
  no_limit = refl;
}

parse_sql-limited_example :
    parse_sql (limited (codes "users") 5) ≡ some (ok (table_plan (codes "USERS") no_expr (some 5)))
unfolding to_uppercase
parse_sql-limited_example = parse_sql-limited (codes "users") users-IsTable 5

adults-IsTrimmed : IsTrimmed (codes "age > 18")
unfolding trim_end
adults-IsTrimmed = (λ e. absurd (cc e), refl)

adults_unlimited : contains (to_uppercase (codes "age > 18")) (codes "LIMIT ") ≡ false
unfolding contains starts_with to_uppercase
adults_unlimited = refl

parse_sql-filtered_example :
    (e : Expr) × (parse_expr 9 (codes "age > 18") ≡ some e)
    × (parse_sql (filtered (codes "users") (codes "age > 18"))
        ≡ some (ok (table_plan (codes "USERS") (an_expr e) none)))
unfolding to_uppercase
parse_sql-filtered_example =
    parse_sql-filtered (codes "users") users-IsTable (codes "age > 18") adults-IsTrimmed
      adults_unlimited

abbrev db : SarifQuery
db = record { path = codes "data.bcs"; metadata = record { table_count = 0; column_count = 0 } }

-- What is no SELECT is refused.
refused :
    prepare_query db (codes "delete from users")
    ≡ some (err (codes "only SELECT statements are supported"))
unfolding prepare_query parse_sql is_select extract_where find trim to_uppercase starts_with
refused = refl

-- A statement with a condition, an order and a limit.
abbrev plan : SelectPlan
plan =
    select (codes "users") no_columns (an_expr condition_expr) no_joins [] no_order_by (some 5)
      no_subquery

determine_select_order-needed_example : determine_select_order plan ≡ needed plan pipeline
determine_select_order-needed_example = determine_select_order-needed plan

-- `COUNT(id) IN (SUM(x), 3)` beside a subquery
abbrev nested : Expr
nested =
    binary
      (in_list (call (codes "COUNT") (cons (identifier (codes "id")) nil) none)
        (cons (literal_int (pos 3)) nil))
      BinaryOp.or (exists plan)

nested-Closed : ClosedExpr (λ _. []) nested
unfolding ClosedExpr scan
nested-Closed = (
  ((λ d. refl, (λ d. refl, tt)), (tt, tt)),
  (λ d. refl, tt, (((λ d. refl), tt), ((λ d. refl), λ d. refl)), tt, tt, tt),
)

pretty_expr-Closed_example : scan 40 41 2 (pretty_expr (λ _. []) nested) ≡ some 2
pretty_expr-Closed_example = pretty_expr-Closed (λ _. []) nested nested-Closed 2

plan-Braced : (d : ℕ) → scan 123 125 d (table_of plan) ≡ some d
unfolding table_of scan
plan-Braced d = refl

generate_text_search-Braced_example : scan 123 125 0 (generate_text_search plan) ≡ some 0
generate_text_search-Braced_example = generate_text_search-Braced plan plan-Braced 0

abbrev people : SarifResult
people = record {
  columns = codes "id" ∷ codes "name" ∷ [];
  rows = (codes "1" ∷ codes "Alice" ∷ []) ∷ (codes "2" ∷ []) ∷ [];
  current_row = 0;
}

read_column-rows_example : read_column 3 1 people ≡ some (map (λ row. get_elem? row 1) people.rows)
read_column-rows_example = read_column-rows people 1 refl (omega arith)

-- A negative column is column 0.
negative_column :
    sarif_column_text (some (record people { current_row = 1 })) (negsuc 6) ≡ some (codes "1")
unfolding sarif_column_text column_text contains starts_with
negative_column = refl
