-- ===== src/Parser/ExprsRun.antt =====
-- How the functions on expressions run, crates/sarif_syntax/src/parser.rs.
use sarif.Base.{ℕ, suc, refl, Option, some}
use sarif.Syntax.Token.{TokenKind, is_trivia}
use sarif.Syntax.Tree.{NodeKind}
use sarif.Parser.Kinds.{same_kind}
use sarif.Parser.Build.{Build}
use sarif.Parser.Types.{Call}
use sarif.Parser.Runs.{Fact, Any, Clean, Here, Runs}
use sarif.Parser.Rules.{
  weaken, lower, down, knowing, stop_runs, ◌⨟◌, ◌⟫◌, ◌⨾◌, if_at_runs, branch_runs, peek_runs,
}
use sarif.Parser.Trivia.{trivia_runs, trivia_peek, trivia_here}
use sarif.Parser.Steps.{bump_runs, bump_takes, expect_runs, expect_takes}
use sarif.Parser.Nodes.{node_of_runs, list_of_runs}
use sarif.Parser.Loops.{loop_runs, until_runs, separated_runs, by_kind_any, stop-Any, here_clean}
use sarif.Parser.Works.{Works, Works-expr, Works-body, Works-if}
use sarif.Parser.Peek.{starts_match_pattern, repeat_has_binding}
use sarif.Parser.TypesRun.{parse_type_path-Runs, parse_match_pattern-Runs}
use sarif.Parser.Exprs.{
  parse_arg_list, field_init, parse_field_init_list, field_update, parse_field_update_list,
  parse_if_expr, parse_match_arm, parse_match_expr, parse_repeat_expr, parse_for_expr,
  parse_while_expr, parse_comptime_expr, parse_perform_expr, repeat_length, parse_array_expr,
}

repeat_length-Runs :
    (rec : Call → Build) (m : ℕ) (o : Option TokenKind) → Runs 0 Clean m (repeat_length rec o) Any
unfolding repeat_length
repeat_length-Runs rec m (some TokenKind.ident) = expect_runs TokenKind.ident
repeat_length-Runs rec m _ = expect_runs TokenKind.integer

module _ (rec : Call → Build) (m : ℕ) (w : Works rec m) where
  pub parse_arg_list-Runs : Runs 0 Any m (parse_arg_list rec) Clean
  unfolding parse_arg_list is_trivia
  parse_arg_list-Runs =
      list_of_runs NodeKind.arg_list (separated_runs TokenKind.r_paren refl (Works-expr w 0))

  field_init-Runs : {P : Fact} → Runs 0 P m (field_init rec) Any
  unfolding field_init
  field_init-Runs = node_of_runs NodeKind.field_init (
      trivia_runs
      ⨟ expect_runs TokenKind.ident
      ⨟ trivia_runs
      ⨟ if_at_runs TokenKind.colon (bump_runs ⨟ trivia_runs ⨟ Works-expr w 0) stop-Any)

  pub parse_field_init_list-Runs : Runs 0 Any m (parse_field_init_list rec) Clean
  unfolding parse_field_init_list is_trivia
  parse_field_init_list-Runs =
      list_of_runs NodeKind.field_init_list (separated_runs TokenKind.r_brace refl field_init-Runs)

  field_update-Runs : {P : Fact} → Runs 0 P m (field_update rec) Any
  unfolding field_update
  field_update-Runs = node_of_runs NodeKind.field_update (
      trivia_runs
      ⨟ expect_runs TokenKind.dot
      ⨟ trivia_runs
      ⨟ expect_runs TokenKind.ident
      ⨟ trivia_runs
      ⨟ expect_runs TokenKind.eq
      ⨟ trivia_runs
      ⨟ Works-expr w 0)

  pub parse_field_update_list-Runs : {P : Fact} → Runs 0 P m (parse_field_update_list rec) Clean
  unfolding parse_field_update_list is_trivia Any
  parse_field_update_list-Runs =
      list_of_runs NodeKind.field_update_list
        (knowing (λ s p. tt) (separated_runs TokenKind.r_brace refl field_update-Runs))

  pub parse_if_expr-Runs : Runs 1 (Here TokenKind.kw_if) (suc m) (parse_if_expr rec) Any
  unfolding parse_if_expr same_kind is_trivia
  parse_if_expr-Runs = node_of_runs NodeKind.expr_if (
      trivia_here TokenKind.kw_if refl
      ⨾ expect_takes TokenKind.kw_if refl refl
      ⟫ trivia_runs
      ⨟ Works-expr w 0
      ⨟ trivia_runs
      ⨟ Works-body w
      ⨟ peek_runs TokenKind.kw_else
          (trivia_peek TokenKind.kw_else
            ⨟ weaken (expect_takes TokenKind.kw_else refl refl)
            ⨟ trivia_runs
            ⨟ if_at_runs TokenKind.kw_if (node_of_runs NodeKind.body (Works-if w)) (Works-body w))
          stop-Any)

  parse_match_arm-Runs : {P : Fact} → Runs 0 P m (parse_match_arm rec) Any
  unfolding parse_match_arm is_trivia
  parse_match_arm-Runs = node_of_runs NodeKind.match_arm (
      down (parse_match_pattern-Runs rec m w)
      ⨟ trivia_runs
      ⨟ expect_runs TokenKind.fat_arrow
      ⨟ trivia_runs
      ⨟ if_at_runs TokenKind.l_brace (here_clean TokenKind.l_brace refl (Works-body w))
          (node_of_runs NodeKind.body (Works-expr w 0)))

  pub parse_match_expr-Runs : Runs 1 (Here TokenKind.kw_match) (suc m) (parse_match_expr rec) Any
  unfolding parse_match_expr same_kind is_trivia
  parse_match_expr-Runs = node_of_runs NodeKind.expr_match (
      trivia_here TokenKind.kw_match refl
      ⨾ expect_takes TokenKind.kw_match refl refl
      ⟫ trivia_runs
      ⨟ Works-expr w 0
      ⨟ trivia_runs
      ⨟ expect_runs TokenKind.l_brace
      ⨟ trivia_runs
      ⨟ loop_runs (λ next k le t.
        branch_runs starts_match_pattern
          (lower le parse_match_arm-Runs
            ⨟ trivia_runs
            ⨟ if_at_runs TokenKind.comma
                (weaken (bump_takes TokenKind.comma refl ⟫ trivia_runs ⨟ t)) stop_runs)
          stop_runs)
      ⨟ expect_runs TokenKind.r_brace)

  pub parse_repeat_expr-Runs : Runs 1 (Here TokenKind.kw_repeat) (suc m) (parse_repeat_expr rec) Any
  unfolding parse_repeat_expr same_kind is_trivia
  parse_repeat_expr-Runs = node_of_runs NodeKind.expr_repeat (
      trivia_here TokenKind.kw_repeat refl
      ⨾ expect_takes TokenKind.kw_repeat refl refl
      ⟫ trivia_runs
      ⨟ branch_runs repeat_has_binding
          (bump_runs ⨟ trivia_runs ⨟ expect_runs TokenKind.kw_in ⨟ trivia_runs) stop_runs
      ⨟ Works-expr w 0
      ⨟ trivia_runs
      ⨟ Works-body w)

  pub parse_for_expr-Runs : Runs 1 (Here TokenKind.kw_for) (suc m) (parse_for_expr rec) Any
  unfolding parse_for_expr same_kind is_trivia
  parse_for_expr-Runs = node_of_runs NodeKind.expr_for (
      trivia_here TokenKind.kw_for refl
      ⨾ expect_takes TokenKind.kw_for refl refl
      ⟫ trivia_runs
      ⨟ expect_runs TokenKind.ident
      ⨟ trivia_runs
      ⨟ expect_runs TokenKind.kw_in
      ⨟ trivia_runs
      ⨟ Works-expr w 0
      ⨟ trivia_runs
      ⨟ expect_runs TokenKind.dot_dot
      ⨟ trivia_runs
      ⨟ Works-expr w 0
      ⨟ trivia_runs
      ⨟ Works-body w)

  pub parse_while_expr-Runs : Runs 1 (Here TokenKind.kw_while) (suc m) (parse_while_expr rec) Any
  unfolding parse_while_expr same_kind is_trivia
  parse_while_expr-Runs = node_of_runs NodeKind.expr_while (
      trivia_here TokenKind.kw_while refl
      ⨾ expect_takes TokenKind.kw_while refl refl
      ⟫ trivia_runs
      ⨟ Works-expr w 0
      ⨟ trivia_runs
      ⨟ Works-body w)

  pub parse_comptime_expr-Runs :
      Runs 1 (Here TokenKind.kw_comptime) (suc m) (parse_comptime_expr rec) Any
  unfolding parse_comptime_expr same_kind is_trivia
  parse_comptime_expr-Runs =
      node_of_runs NodeKind.expr_comptime
        (expect_takes TokenKind.kw_comptime refl refl ⟫ trivia_runs ⨟ Works-body w)

  pub parse_perform_expr-Runs :
      Runs 1 (Here TokenKind.kw_perform) (suc m) (parse_perform_expr rec) Any
  unfolding parse_perform_expr same_kind is_trivia
  parse_perform_expr-Runs = node_of_runs NodeKind.expr_perform (
      expect_takes TokenKind.kw_perform refl refl
      ⟫ trivia_runs
      ⨟ down (parse_type_path-Runs rec m w)
      ⨟ trivia_runs
      ⨟ expect_runs TokenKind.l_paren
      ⨟ parse_arg_list-Runs
      ⨟ expect_runs TokenKind.r_paren)

  pub parse_array_expr-Runs : Runs 1 (Here TokenKind.l_bracket) (suc m) (parse_array_expr rec) Any
  unfolding parse_array_expr same_kind is_trivia
  parse_array_expr-Runs = node_of_runs NodeKind.expr_array (
      trivia_here TokenKind.l_bracket refl
      ⨾ expect_takes TokenKind.l_bracket refl refl
      ⟫ loop_runs (λ next k le t. until_runs TokenKind.r_bracket refl (
          trivia_runs
          ⨟ until_runs TokenKind.r_bracket refl (
              lower le (Works-expr w 0)
              ⨟ trivia_runs
              ⨟ if_at_runs TokenKind.semicolon
                  (bump_runs
                    ⨟ trivia_runs
                    ⨟ by_kind_any (repeat_length rec) (repeat_length-Runs rec _)
                    ⨟ trivia_runs)
                  (if_at_runs TokenKind.comma (weaken (bump_takes TokenKind.comma refl ⟫ t))
                    stop_runs))))
      ⨟ expect_runs TokenKind.r_bracket)
