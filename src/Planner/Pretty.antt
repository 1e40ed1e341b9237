-- ===== src/Planner/Pretty.antt =====
-- Plans as text, crates/sarif_query_planner/src/plan.rs `pretty`. `f64::to_string` is the parameter
-- `show_f64`.
use sarif.Base.{ℕ, Option, none, some, List, [], ◌∷◌, ◌++◌, if◌then◌else◌}
use sarif.Text.{Text, codes, contains, join, show_ℕ, show_ℤ}
use sarif.Planner.Plan.{
  JoinKind, inner, left, right, SortOrder, asc, desc, BinaryOp, eq, ne, lt, le, gt, ge, and, or,
  add, sub, mul, div, Aggregate, count, sum, avg, min, max, Expr, identifier, literal_int,
  literal_f64, literal_text, binary, call, in_list, exists, Exprs, nil, cons, MaybeExpr, no_expr,
  an_expr, Columns, no_columns, column, Joins, no_joins, join_on, Orders, no_orders, order,
  MaybeOrder, no_order_by, order_by, SelectPlan, select, Statement, select_statement, QueryPlan,
}

-- `BinaryOp::symbol`
unfoldable pub symbol : BinaryOp → Text
symbol eq = codes "=="
symbol ne = codes "!="
symbol lt = codes "<"
symbol le = codes "<="
symbol gt = codes ">"
symbol ge = codes ">="
symbol and = codes "AND"
symbol or = codes "OR"
symbol add = codes "+"
symbol sub = codes "-"
symbol mul = codes "*"
symbol div = codes "/"

-- `SortOrder::keyword`
unfoldable pub sort_keyword : SortOrder → Text
sort_keyword asc = codes "ASC"
sort_keyword desc = codes "DESC"

-- `Aggregate::keyword`
unfoldable pub aggregate_keyword : Aggregate → Text
aggregate_keyword count = codes "COUNT"
aggregate_keyword sum = codes "SUM"
aggregate_keyword avg = codes "AVG"
aggregate_keyword min = codes "MIN"
aggregate_keyword max = codes "MAX"

unfoldable pub join_keyword : JoinKind → Text
join_keyword inner = codes "INNER JOIN"
join_keyword left = codes "LEFT JOIN"
join_keyword right = codes "RIGHT JOIN"

-- The arm `LiteralF64`.
unfoldable pub with_point : Text → Text
unfolding contains
with_point s = if contains s (codes ".") then s else s ++ codes ".0"

-- `if let Some(limit) = self.limit`
unfoldable pub limit_clause : Option ℕ → Text
unfolding show_ℕ
limit_clause none = []
limit_clause (some n) = codes " LIMIT " ++ show_ℕ n

unfoldable pub group_clause : List Text → Text
unfolding join
group_clause [] = []
group_clause (g ∷ gs) = codes " GROUP BY " ++ join (codes ", ") (g ∷ gs)

unfoldable pub alias_clause : Option Text → Text
alias_clause none = []
alias_clause (some a) = codes " AS " ++ a

module _ (show_f64 : ℕ → Text) where
  unfoldable mutual
    unfolding symbol sort_keyword join_keyword with_point show_ℤ join limit_clause group_clause
        alias_clause

    -- `Expr::pretty`, with `BinaryExpr::pretty`, `CallExpr::pretty`, `InExpr::pretty` and
    -- `ExistsExpr::pretty`
    pub pretty_expr : Expr → Text
    pretty_expr (identifier name) = name
    pretty_expr (literal_int v) = show_ℤ v
    pretty_expr (literal_f64 v) = with_point (show_f64 v)
    pretty_expr (literal_text s) = codes "\"" ++ (s ++ codes "\"")
    pretty_expr (binary l op r) =
        codes "("
        ++ (pretty_expr l
            ++ (codes " " ++ (symbol op ++ (codes " " ++ (pretty_expr r ++ codes ")")))))
    pretty_expr (call callee args _) =
        callee ++ (codes "(" ++ (join (codes ", ") (pretty_exprs args) ++ codes ")"))
    pretty_expr (in_list e values) =
        pretty_expr e ++ (codes " IN (" ++ (join (codes ", ") (pretty_exprs values) ++ codes ")"))
    pretty_expr (exists plan) = codes "EXISTS (" ++ (pretty_select plan ++ codes ")")

    pub pretty_exprs : Exprs → List Text
    pretty_exprs nil = []
    pretty_exprs (cons e es) = pretty_expr e ∷ pretty_exprs es

    pub where_clause : MaybeExpr → Text
    where_clause no_expr = []
    where_clause (an_expr e) = codes " WHERE " ++ pretty_expr e

    -- `Column::pretty` on the first
    pub pretty_columns : Columns → List Text
    pretty_columns no_columns = []
    pretty_columns (column name expr alias cs) = pretty_column name alias expr ∷ pretty_columns cs

    pub pretty_column : Text → Option Text → MaybeExpr → Text
    pretty_column name alias no_expr = name
    pretty_column name alias (an_expr e) =
        pretty_expr e ++ (codes " AS " ++ (name ++ alias_clause alias))

    -- `Join::pretty` on the first, with the space before it
    pub pretty_joins : Joins → Text
    pretty_joins no_joins = []
    pretty_joins (join_on kind table condition js) =
        codes " "
        ++ (join_keyword kind
            ++ (codes " "
                ++ (table ++ (codes " ON " ++ (pretty_expr condition ++ pretty_joins js)))))

    -- `OrderBy::pretty`
    pub pretty_orders : Orders → List Text
    pretty_orders no_orders = []
    pretty_orders (order e o os) =
        (pretty_expr e ++ (codes " " ++ sort_keyword o)) ∷ pretty_orders os

    pub order_clause : MaybeOrder → Text
    order_clause no_order_by = []
    order_clause (order_by os) = codes " ORDER BY " ++ join (codes ", ") (pretty_orders os)

    -- `SelectPlan::pretty`
    pub pretty_select : SelectPlan → Text
    pretty_select (select table columns where_expr joins group_by ordering limit _) =
        codes "SELECT "
        ++ (join (codes ", ") (pretty_columns columns)
            ++ (codes " FROM "
                ++ (table
                    ++ (where_clause where_expr
                        ++ (pretty_joins joins
                            ++ (group_clause group_by
                                ++ (order_clause ordering ++ limit_clause limit)))))))

  -- `Statement::pretty`
  unfoldable pub pretty_statement : Statement → Text
  unfolding pretty_select
  pretty_statement (select_statement plan) = pretty_select plan

  pretty_lines : List Statement → Text
  unfolding pretty_statement
  pretty_lines [] = []
  pretty_lines (s ∷ ss) = pretty_statement s ++ (codes "\n" ++ pretty_lines ss)

  -- `QueryPlan::pretty`
  unfoldable pub pretty_plan : QueryPlan → Text
  unfolding pretty_lines
  pretty_plan plan = pretty_lines plan.statements
