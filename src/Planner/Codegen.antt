-- ===== src/Planner/Codegen.antt =====
-- The code generator, crates/sarif_query_planner/src/codegen.rs: the Sarif program for a plan, line by
-- line. Writing to a `String` is appending to a text, and cannot fail.
use sarif.Text.{Result, ok}
use sarif.Base.{ℕ, suc, ◌≡◌, refl, String, Option, none, some, [], ◌∷◌, ◌++◌}
use sarif.Text.{Text, codes, show_ℕ}
use sarif.Text.Balance.{scan, IsBalanced, IsBalanced-show_ℕ, braces_digits, scan-through}
use sarif.Planner.Plan.{
  Expr, binary, in_list, exists, BinaryOp, eq, gt, MaybeExpr, no_expr, an_expr, MaybeOrder,
  no_order_by, SelectPlan, select,
}
use sarif.Planner.Optimizer.{table_of}

-- `writeln!` of a literal
abbrev line : String → Text
line s = codes s ++ (10 ∷ [])

unfoldable pub generate_binary_filter : BinaryOp → Text
generate_binary_filter eq =
    line " if text_contains(line, lhs) {"
    ++ (line " text_builder_append(result, line)" ++ line " }")
generate_binary_filter gt =
    line " if text_len(line) > rhs {" ++ (line " text_builder_append(result, line)" ++ line " }")
generate_binary_filter _ = line " text_builder_append(result, line)"

unfoldable pub generate_in_filter : Text
generate_in_filter = line " text_builder_append(result, line)"

unfoldable pub generate_exists_filter : Text
generate_exists_filter = line " text_builder_append(result, line)"

unfoldable pub generate_where_filter : Expr → Text
unfolding generate_binary_filter generate_in_filter generate_exists_filter
generate_where_filter (binary _ op _) = generate_binary_filter op
generate_where_filter (in_list _ _) = generate_in_filter
generate_where_filter (exists _) = generate_exists_filter
generate_where_filter _ = []

unfoldable pub filtered_lines : MaybeExpr → Text
filtered_lines (an_expr e) =
    line " let filtered = repeat {" ++ (generate_where_filter e ++ line " } in lines")
filtered_lines no_expr = line " let filtered = lines"

unfoldable pub limited_lines : Option ℕ → Text
limited_lines (some n) = codes " let limited = repeat { i32 } in 0.." ++ (show_ℕ n ++ (10 ∷ []))
limited_lines none = []

unfoldable pub sorted_lines : MaybeOrder → Text
sorted_lines no_order_by = line " let sorted = filtered"
sorted_lines (MaybeOrder.order_by _) = line " let sorted = text_sort(filtered)"

unfoldable pub generate_text_search : SelectPlan → Text
generate_text_search (select table _ where_expr _ _ ordering limit _) =
    line "fn query_execute(db: Text) -> Text {"
    ++ (line " let lines = text_split(db, \"\\n\")"
        ++ (line " let result = text_builder_new()"
            ++ (filtered_lines where_expr
                ++ (limited_lines limit
                    ++ (sorted_lines ordering
                        ++ (line " text_builder_finish(result)"
                            ++ (line "}"
                                ++ (line "fn main() -> Text {"
                                    ++ (codes " let db = file_mmap(\""
                                        ++ (table
                                            ++ (line "\")"
                                                ++ (line " query_execute(db)"
                                                    ++ line "}"))))))))))))

unfoldable pub generate_sarif : SelectPlan → Result Text
generate_sarif plan = ok (generate_text_search plan)

-- The braces of a text match.
abbrev Braced : Text → Type 0
Braced = IsBalanced 123 125

through :
    (t u : Text) (d e : ℕ) → Braced t → scan 123 125 d u ≡ some e → scan 123 125 d (t ++ u) ≡ some e
through t u d e h k = scan-through 123 125 t u d e h k

generate_binary_filter-Braced : (op : BinaryOp) → Braced (generate_binary_filter op)
unfolding generate_binary_filter scan
generate_binary_filter-Braced eq d = refl
generate_binary_filter-Braced _ d = refl

generate_where_filter-Braced : (e : Expr) → Braced (generate_where_filter e)
unfolding generate_where_filter scan
generate_where_filter-Braced (binary _ op _) d = generate_binary_filter-Braced op d
generate_where_filter-Braced _ d = refl

filtered_lines-Braced : (w : MaybeExpr) → Braced (filtered_lines w)
unfolding filtered_lines scan
filtered_lines-Braced (an_expr e) d =
    through (generate_where_filter e) (line " } in lines") (suc d) d
      (generate_where_filter-Braced e) refl
filtered_lines-Braced no_expr d = refl

limited_lines-Braced : (l : Option ℕ) → Braced (limited_lines l)
unfolding limited_lines scan
limited_lines-Braced (some n) d =
    through (show_ℕ n) (10 ∷ []) d d (IsBalanced-show_ℕ 123 125 braces_digits n) refl
limited_lines-Braced none d = refl

sorted_lines-Braced : (o : MaybeOrder) → Braced (sorted_lines o)
unfolding sorted_lines scan
sorted_lines-Braced no_order_by d = refl
sorted_lines-Braced (MaybeOrder.order_by _) d = refl

-- The braces of the generated program match, for every plan whose table's name has matching ones,
-- whatever its condition, order and limit.
pub generate_text_search-Braced :
    (p : SelectPlan)
    → Braced (table_of p)
    → (d : ℕ) → scan 123 125 d (generate_text_search p) ≡ some d
unfolding generate_text_search scan table_of
generate_text_search-Braced (select table _ w _ _ o l _) h d =
    through (filtered_lines w) _ (suc d) d (filtered_lines-Braced w) (
      through (limited_lines l) _ (suc d) d (limited_lines-Braced l) (
        through (sorted_lines o) _ (suc d) d (sorted_lines-Braced o)
          (through table _ (suc d) d h refl)))
