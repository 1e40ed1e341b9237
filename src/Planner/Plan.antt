-- ===== src/Planner/Plan.antt =====
-- Query plans, crates/sarif_query_planner/src/plan.rs: the data types. A `Vec` or an `Option` of a
-- type of the block is a type of the block. An `f64` is the number of its bits.
use sarif.Base.{ℕ, Option, List}
use sarif.Base.Int.{ℤ}
use sarif.Text.{Text}

pub data JoinKind : Type 0 where
  inner left right : JoinKind

pub data SortOrder : Type 0 where
  asc desc : SortOrder

pub data BinaryOp : Type 0 where
  eq ne lt le gt ge and or add sub mul div : BinaryOp

pub data Aggregate : Type 0 where
  count sum avg min max : Aggregate

mutual
  pub data Expr : Type 0 where
    identifier : Text → Expr
    literal_int : ℤ → Expr
    literal_f64 : ℕ → Expr
    literal_text : Text → Expr
    -- left, op, right
    binary : Expr → BinaryOp → Expr → Expr
    -- callee, args, aggregate
    call : Text → Exprs → Option Aggregate → Expr
    -- expr, values
    in_list : Expr → Exprs → Expr
    exists : SelectPlan → Expr

  pub data Exprs : Type 0 where
    nil : Exprs
    cons : Expr → Exprs → Exprs

  pub data MaybeExpr : Type 0 where
    no_expr : MaybeExpr
    an_expr : Expr → MaybeExpr

  -- name, expr and alias of the first column, the others
  pub data Columns : Type 0 where
    no_columns : Columns
    column : Text → MaybeExpr → Option Text → Columns → Columns

  -- kind, table and condition of the first join, the others
  pub data Joins : Type 0 where
    no_joins : Joins
    join_on : JoinKind → Text → Expr → Joins → Joins

  -- `OrderBy::expressions`
  pub data Orders : Type 0 where
    no_orders : Orders
    order : Expr → SortOrder → Orders → Orders

  pub data MaybeOrder : Type 0 where
    no_order_by : MaybeOrder
    order_by : Orders → MaybeOrder

  -- table, columns, where_clause, joins, group_by, order_by, limit, subquery
  pub data SelectPlan : Type 0 where
    select :
        Text
        → Columns
        → MaybeExpr
        → Joins
        → List Text
        → MaybeOrder
        → Option ℕ
        → MaybeSelect
        → SelectPlan

  pub data MaybeSelect : Type 0 where
    no_subquery : MaybeSelect
    subquery : SelectPlan → MaybeSelect

pub data Statement : Type 0 where
  select_statement : SelectPlan → Statement

pub record QueryPlan : Type 0 where
  pub statements : List Statement
