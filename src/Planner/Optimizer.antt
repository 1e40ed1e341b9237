-- ===== src/Planner/Optimizer.antt =====
-- The optimizer, crates/sarif_query_planner/src/optimizer.rs: the order in which the parts of a
-- statement are executed, and its printed form.
use sarif.Base.{◌≡◌, Bool, true, false, none, some, List, [], ◌∷◌, ◌++◌, map, if◌then◌else◌, arith}
use sarif.Text.{Text, codes}
use sarif.Planner.Plan.{
  no_expr, an_expr, no_joins, join_on, MaybeOrder, no_order_by, SelectPlan, select, MaybeSelect,
  no_subquery, Statement, select_statement, QueryPlan,
}

pub data SelectOperation : Type 0 where
  table_scan filter joins group_by aggregate order_by limit subquery : SelectOperation

pub record OptimizedSelect : Type 0 where
  pub original : SelectPlan
  pub execution_order : List SelectOperation

pub data OptimizedStatement : Type 0 where
  optimized_select : OptimizedSelect → OptimizedStatement

pub record OptimizedPlan : Type 0 where
  pub statements : List OptimizedStatement

-- The tests of `determine_select_order` on a plan.
unfoldable pub has_subquery : SelectPlan → Bool
has_subquery (select _ _ _ _ _ _ _ no_subquery) = false
has_subquery (select _ _ _ _ _ _ _ (MaybeSelect.subquery _)) = true

unfoldable pub has_where : SelectPlan → Bool
has_where (select _ _ no_expr _ _ _ _ _) = false
has_where (select _ _ (an_expr _) _ _ _ _ _) = true

unfoldable pub has_joins : SelectPlan → Bool
has_joins (select _ _ _ no_joins _ _ _ _) = false
has_joins (select _ _ _ (join_on _ _ _ _) _ _ _ _) = true

unfoldable pub has_group_by : SelectPlan → Bool
has_group_by (select _ _ _ _ [] _ _ _) = false
has_group_by (select _ _ _ _ (_ ∷ _) _ _ _) = true

unfoldable pub has_order_by : SelectPlan → Bool
has_order_by (select _ _ _ _ _ no_order_by _ _) = false
has_order_by (select _ _ _ _ _ (MaybeOrder.order_by _) _ _) = true

unfoldable pub has_limit : SelectPlan → Bool
has_limit (select _ _ _ _ _ _ none _) = false
has_limit (select _ _ _ _ _ _ (some _) _) = true

-- `if test { order.push(..) }`
push_if : Bool → List SelectOperation → List SelectOperation → List SelectOperation
push_if test ops order = if test then order ++ ops else order

unfoldable pub determine_select_order : SelectPlan → List SelectOperation
unfolding push_if has_subquery has_where has_joins has_group_by has_order_by has_limit
determine_select_order plan =
    let order1 = push_if (has_subquery plan) (subquery ∷ []) [] in
    let order2 = order1 ++ (table_scan ∷ []) in
    let order3 = push_if (has_where plan) (filter ∷ []) order2 in
    let order4 = push_if (has_joins plan) (joins ∷ []) order3 in
    let order5 = push_if (has_group_by plan) (group_by ∷ aggregate ∷ []) order4 in
    let order6 = push_if (has_order_by plan) (order_by ∷ []) order5 in
    push_if (has_limit plan) (limit ∷ []) order6

unfoldable pub optimize_select : SelectPlan → OptimizedSelect
optimize_select plan = record { original = plan; execution_order = determine_select_order plan }

unfoldable pub optimize_statement : Statement → OptimizedStatement
unfolding optimize_select
optimize_statement (select_statement plan) = optimized_select (optimize_select plan)

unfoldable pub optimize : QueryPlan → OptimizedPlan
unfolding optimize_statement
optimize plan = record { statements = map optimize_statement plan.statements }

-- `SelectOperation::keyword`
unfoldable pub keyword : SelectOperation → Text
keyword table_scan = codes "table-scan"
keyword filter = codes "filter"
keyword joins = codes "joins"
keyword group_by = codes "group-by"
keyword aggregate = codes "aggregate"
keyword order_by = codes "order-by"
keyword limit = codes "limit"
keyword subquery = codes "subquery"

operation_lines : List SelectOperation → Text
unfolding keyword
operation_lines [] = []
operation_lines (op ∷ ops) = codes "  - " ++ (keyword op ++ (codes "\n" ++ operation_lines ops))

unfoldable pub table_of : SelectPlan → Text
table_of (select table _ _ _ _ _ _ _) = table

-- `OptimizedSelect::pretty`
unfoldable pub pretty_optimized_select : OptimizedSelect → Text
unfolding operation_lines table_of
pretty_optimized_select s =
    codes "SELECT " ++ (table_of s.original ++ (codes "\n" ++ operation_lines s.execution_order))

statement_lines : List OptimizedStatement → Text
unfolding pretty_optimized_select
statement_lines [] = []
statement_lines (optimized_select s ∷ ss) =
    pretty_optimized_select s ++ (codes "\n" ++ statement_lines ss)

-- `OptimizedPlan::pretty`
unfoldable pub pretty_optimized_plan : OptimizedPlan → Text
unfolding statement_lines
pretty_optimized_plan plan = codes "OPTIMIZED PLAN\n" ++ statement_lines plan.statements

-- The order in which the stages of a statement depend on one another.
unfoldable pub pipeline : List SelectOperation
pipeline = subquery ∷ table_scan ∷ filter ∷ joins ∷ group_by ∷ aggregate ∷ order_by ∷ limit ∷ []

-- Whether a statement has the clause that a stage carries out.
unfoldable pub needs : SelectPlan → SelectOperation → Bool
needs plan table_scan = true
needs plan filter = has_where plan
needs plan joins = has_joins plan
needs plan group_by = has_group_by plan
needs plan aggregate = has_group_by plan
needs plan order_by = has_order_by plan
needs plan limit = has_limit plan
needs plan subquery = has_subquery plan

-- The stages of a list that a statement needs, in the list's order.
unfoldable pub needed : SelectPlan → List SelectOperation → List SelectOperation
needed plan [] = []
needed plan (op ∷ ops) = if needs plan op then op ∷ needed plan ops else needed plan ops

-- The execution order of a plan is the pipeline, without the stages whose clause the plan does not
-- have.
pub determine_select_order-needed :
    (plan : SelectPlan) → determine_select_order plan ≡ needed plan pipeline
unfolding determine_select_order needed pipeline needs
determine_select_order-needed (select _ _ w j g o l s) = ground arith
