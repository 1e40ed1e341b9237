-- ===== src/Planner/Balance.antt =====
-- What crates/sarif_query_planner/src/plan.rs `pretty` prints has matching parentheses.
use sarif.Base.{
  ℕ, suc, ◌≡◌, refl, Option, none, some, List, [], ◌∷◌, ◌++◌, All, Bool-cases, inl, inr,
}
use sarif.Text.{Text, codes, contains, join}
use sarif.Text.Balance.{
  scan, IsBalanced, IsBalanced-append, IsBalanced-nil, IsBalanced-join, IsBalanced-show_ℕ,
  IsBalanced-show_ℤ, parentheses_digits, scan-through,
}
use sarif.Planner.Plan.{
  JoinKind, inner, SortOrder, asc, desc, BinaryOp, eq, Expr, identifier, literal_int, literal_f64,
  literal_text, binary, call, in_list, exists, Exprs, nil, cons, MaybeExpr, no_expr, an_expr,
  Columns, no_columns, column, Joins, no_joins, join_on, Orders, no_orders, order, MaybeOrder,
  no_order_by, order_by, SelectPlan, select,
}
use sarif.Planner.Pretty.{
  symbol, sort_keyword, join_keyword, with_point, limit_clause, group_clause, alias_clause,
  pretty_expr, pretty_exprs, where_clause, pretty_columns, pretty_column, pretty_joins,
  pretty_orders, order_clause, pretty_select,
}

-- The parentheses of a text match.
abbrev pub Closed : Text → Type 0
Closed = IsBalanced 40 41

pub OptionClosed : Option Text → Type 0
OptionClosed none = Unit
OptionClosed (some t) = Closed t

module _ (show_f64 : ℕ → Text) where
  -- The parentheses match in each name and text that a plan holds.
  unfoldable mutual
    unfolding OptionClosed

    pub ClosedExpr : Expr → Type 0
    ClosedExpr (identifier name) = Closed name
    ClosedExpr (literal_int v) = Unit
    ClosedExpr (literal_f64 v) = Closed (show_f64 v)
    ClosedExpr (literal_text s) = Closed s
    ClosedExpr (binary l op r) = ClosedExpr l × ClosedExpr r
    ClosedExpr (call callee args _) = Closed callee × ClosedExprs args
    ClosedExpr (in_list e values) = ClosedExpr e × ClosedExprs values
    ClosedExpr (exists plan) = ClosedSelect plan

    pub ClosedExprs : Exprs → Type 0
    ClosedExprs nil = Unit
    ClosedExprs (cons e es) = ClosedExpr e × ClosedExprs es

    pub ClosedMaybe : MaybeExpr → Type 0
    ClosedMaybe no_expr = Unit
    ClosedMaybe (an_expr e) = ClosedExpr e

    pub ClosedColumns : Columns → Type 0
    ClosedColumns no_columns = Unit
    ClosedColumns (column name e alias cs) =
        Closed name × OptionClosed alias × ClosedMaybe e × ClosedColumns cs

    pub ClosedJoins : Joins → Type 0
    ClosedJoins no_joins = Unit
    ClosedJoins (join_on _ table condition js) =
        Closed table × ClosedExpr condition × ClosedJoins js

    pub ClosedOrders : Orders → Type 0
    ClosedOrders no_orders = Unit
    ClosedOrders (order e _ os) = ClosedExpr e × ClosedOrders os

    pub ClosedOrder : MaybeOrder → Type 0
    ClosedOrder no_order_by = Unit
    ClosedOrder (order_by os) = ClosedOrders os

    pub ClosedSelect : SelectPlan → Type 0
    ClosedSelect (select table columns w joins groups o _ _) =
        Closed table
        × ClosedColumns columns
        × ClosedMaybe w
        × ClosedJoins joins
        × All Closed groups
        × ClosedOrder o

symbol-Closed : (op : BinaryOp) → Closed (symbol op)
unfolding symbol scan
symbol-Closed eq d = refl
symbol-Closed _ d = refl

sort_keyword-Closed : (o : SortOrder) → Closed (sort_keyword o)
unfolding sort_keyword scan
sort_keyword-Closed asc d = refl
sort_keyword-Closed desc d = refl

join_keyword-Closed : (k : JoinKind) → Closed (join_keyword k)
unfolding join_keyword scan
join_keyword-Closed inner d = refl
join_keyword-Closed _ d = refl

comma-Closed : Closed (codes ", ")
unfolding scan
comma-Closed d = refl

with_point-Closed : (t : Text) → Closed t → Closed (with_point t)
unfolding with_point
with_point-Closed t h = elim (Bool-cases (contains t (codes "."))) [
  | inl e ↦ rw e h
  | inr e ↦ rw e (IsBalanced-append 40 41 t (codes ".0") h (unfold scan in λ d. refl))
]

limit_clause-Closed : (l : Option ℕ) → Closed (limit_clause l)
unfolding limit_clause scan
limit_clause-Closed none d = refl
limit_clause-Closed (some n) d = IsBalanced-show_ℕ 40 41 parentheses_digits n d

group_clause-Closed : (gs : List Text) → All Closed gs → Closed (group_clause gs)
unfolding group_clause
group_clause-Closed [] h = IsBalanced-nil 40 41
group_clause-Closed (g ∷ gs) h =
    IsBalanced-append 40 41 (codes " GROUP BY ") (join (codes ", ") (g ∷ gs))
      (unfold scan in λ d. refl) (IsBalanced-join 40 41 (codes ", ") (g ∷ gs) comma-Closed h)

alias_clause-Closed : (a : Option Text) → OptionClosed a → Closed (alias_clause a)
unfolding alias_clause OptionClosed scan
alias_clause-Closed none h d = refl
alias_clause-Closed (some a) h d = h d

through :
    (t u : Text) (d e : ℕ) → Closed t → scan 40 41 d u ≡ some e → scan 40 41 d (t ++ u) ≡ some e
through t u d e h k = scan-through 40 41 t u d e h k

joined-Closed : (ts : List Text) → All Closed ts → Closed (join (codes ", ") ts)
joined-Closed ts h = IsBalanced-join 40 41 (codes ", ") ts comma-Closed h

module _ (show_f64 : ℕ → Text) where
  mutual
    unfolding pretty_expr ClosedExpr scan

    expr : (e : Expr) → ClosedExpr show_f64 e → Closed (pretty_expr show_f64 e)
    expr (identifier name) h d = h d
    expr (literal_int v) h d = IsBalanced-show_ℤ v d
    expr (literal_f64 v) h d = with_point-Closed (show_f64 v) h d
    expr (literal_text s) h d = through s (codes "\"") d d h refl
    expr (binary l op r) h d = through (pretty_expr show_f64 l) _ (suc d) d (expr l h.0) (
        through (symbol op) _ (suc d) d (symbol-Closed op)
          (through (pretty_expr show_f64 r) (codes ")") (suc d) d (expr r h.1) refl))
    expr (call callee args _) h d = through callee _ d d h.0 (
        through (join (codes ", ") (pretty_exprs show_f64 args)) (codes ")") (suc d) d
          (joined-Closed (pretty_exprs show_f64 args) (exprs args h.1)) refl)
    expr (in_list e values) h d = through (pretty_expr show_f64 e) _ d d (expr e h.0) (
        through (join (codes ", ") (pretty_exprs show_f64 values)) (codes ")") (suc d) d
          (joined-Closed (pretty_exprs show_f64 values) (exprs values h.1)) refl)
    expr (exists plan) h d =
        through (pretty_select show_f64 plan) (codes ")") (suc d) d (select_plan plan h) refl

    exprs : (es : Exprs) → ClosedExprs show_f64 es → All Closed (pretty_exprs show_f64 es)
    exprs nil h = tt
    exprs (cons e es) h = (expr e h.0, exprs es h.1)

    maybe : (e : MaybeExpr) → ClosedMaybe show_f64 e → Closed (where_clause show_f64 e)
    maybe no_expr h d = refl
    maybe (an_expr e) h d = expr e h d

    columns : (cs : Columns) → ClosedColumns show_f64 cs → All Closed (pretty_columns show_f64 cs)
    columns no_columns h = tt
    columns (column name e alias cs) h = (one_column name alias e h.0 h.1 h.2, columns cs h.3)

    one_column :
        (name : Text) (alias : Option Text) (e : MaybeExpr)
        → Closed name
        → OptionClosed alias
        → ClosedMaybe show_f64 e
        → Closed (pretty_column show_f64 name alias e)
    one_column name alias no_expr hn ha he d = hn d
    one_column name alias (an_expr e) hn ha he d =
        through (pretty_expr show_f64 e) _ d d (expr e he)
          (through name (alias_clause alias) d d hn (alias_clause-Closed alias ha d))

    joins : (js : Joins) → ClosedJoins show_f64 js → Closed (pretty_joins show_f64 js)
    joins no_joins h d = refl
    joins (join_on kind table condition js) h d =
        through (join_keyword kind) _ d d (join_keyword-Closed kind) (
          through table _ d d h.0 (
            through (pretty_expr show_f64 condition) (pretty_joins show_f64 js) d d
              (expr condition h.1) (joins js h.2 d)))

    orders : (os : Orders) → ClosedOrders show_f64 os → All Closed (pretty_orders show_f64 os)
    orders no_orders h = tt
    orders (order e o os) h = (
      λ d. through (pretty_expr show_f64 e) _ d d (expr e h.0) (sort_keyword-Closed o d),
      orders os h.1,
    )

    order_part : (o : MaybeOrder) → ClosedOrder show_f64 o → Closed (order_clause show_f64 o)
    order_part no_order_by h d = refl
    order_part (order_by os) h d = joined-Closed (pretty_orders show_f64 os) (orders os h) d

    select_plan : (p : SelectPlan) → ClosedSelect show_f64 p → Closed (pretty_select show_f64 p)
    select_plan (select table cs w js gs o l _) h d =
        through (join (codes ", ") (pretty_columns show_f64 cs)) _ d d
          (joined-Closed (pretty_columns show_f64 cs) (columns cs h.1))
          (through table _ d d h.0 (
            through (where_clause show_f64 w) _ d d (maybe w h.2) (
              through (pretty_joins show_f64 js) _ d d (joins js h.3) (
                through (group_clause gs) _ d d (group_clause-Closed gs h.4) (
                  through (order_clause show_f64 o) (limit_clause l) d d (order_part o h.5)
                    (limit_clause-Closed l d))))))

  -- The parentheses of a printed expression match, if they match in every name and text literal in
  -- it and in the printed form of its floats: at each operator, call, list and subquery.
  pub pretty_expr-Closed :
      (e : Expr)
      → ClosedExpr show_f64 e
      → (depth : ℕ) → scan 40 41 depth (pretty_expr show_f64 e) ≡ some depth
  pretty_expr-Closed e h = expr e h

  pub pretty_select-Closed :
      (p : SelectPlan)
      → ClosedSelect show_f64 p
      → (depth : ℕ) → scan 40 41 depth (pretty_select show_f64 p) ≡ some depth
  pretty_select-Closed p h = select_plan p h
