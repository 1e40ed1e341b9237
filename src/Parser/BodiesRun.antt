-- ===== src/Parser/BodiesRun.antt =====
-- How the functions on statements and bodies run, crates/sarif_syntax/src/parser.rs.
use sarif.Base.{ℕ, suc, ◌≡◌, refl, Bool, true, false, Option, some, ◌≤◌, arith}
use sarif.Syntax.Token.{TokenKind, is_trivia}
use sarif.Syntax.Tree.{NodeKind}
use sarif.Parser.Kinds.{same_kind}
use sarif.Parser.State.{Parser}
use sarif.Parser.Build.{Build, ◌▸◌, trivia}
use sarif.Parser.Types.{Call}
use sarif.Parser.Runs.{Fact, Any, Clean, Here, Runs}
use sarif.Parser.Rules.{
  weaken, lower, down, knowing, stop_runs, ◌⨟◌, ◌⟫◌, ◌⨾◌, if_at_runs, branch_runs, peek_runs,
}
use sarif.Parser.Trivia.{trivia_runs, trivia_peek, trivia_here}
use sarif.Parser.Steps.{bump_runs, bump_takes, expect_runs, expect_takes}
use sarif.Parser.Nodes.{node_of_runs, within_runs, wrap_runs}
use sarif.Parser.Loops.{loop_runs, until_runs, by_kind_runs, by_kind_any, stop-Any, here_clean}
use sarif.Parser.Works.{Works, Works-expr, Works-body}
use sarif.Parser.Ready.{
  Ready, Here-Ready, split_runs, absurd_truth, reporting_runs, bump_with_ready, until_ready,
}
use sarif.Base.{◌&&◌}
use sarif.Text.{codes, same_text}
use sarif.Parser.Peek.{starts_expr, next_expr_is_statement, next_name_is_assign_statement}
use sarif.Parser.Bodies.{
  expect_assign_op, unexpected_token, parse_tuple_destructure_pattern, parse_let_stmt,
  parse_assign_target_expr, parse_assign_stmt, parse_expr_stmt, parse_with_arena_stmt, statement,
  parse_expr_body, parse_inline_expr_body,
}
use sarif.Parser.OperatorsRun.{Works-lower, below, parse_expr_bp-Ready, parse_expr_bp-Runs}

expect_assign_op-Runs : (m : ℕ) (o : Option TokenKind) → Runs 0 Clean m (expect_assign_op o) Any
unfolding expect_assign_op
expect_assign_op-Runs m (some TokenKind.plus_eq) = expect_runs TokenKind.plus_eq
expect_assign_op-Runs m (some TokenKind.minus_eq) = expect_runs TokenKind.minus_eq
expect_assign_op-Runs m (some TokenKind.star_eq) = expect_runs TokenKind.star_eq
expect_assign_op-Runs m (some TokenKind.slash_eq) = expect_runs TokenKind.slash_eq
expect_assign_op-Runs m _ = expect_runs TokenKind.eq

starts_not_last : (k : TokenKind) → starts_expr k ≡ true → same_kind k TokenKind.eof ≡ false
unfolding starts_expr same_kind
starts_not_last TokenKind.eof e = absurd_truth e
starts_not_last _ e = refl

first_true : (a b : Bool) → (a && b) ≡ true → a ≡ true
first_true true b e = refl
first_true false b e = e

starts_ready :
    (k : TokenKind) (s : Parser)
    → is_trivia k ≡ false
    → Here k s
    → (starts_expr k && next_expr_is_statement s) ≡ true
    → Ready s
starts_ready k s e h t =
    Here-Ready k s e (starts_not_last k (first_true (starts_expr k) (next_expr_is_statement s) t)) h

pub before : {k m : ℕ} → suc k ≤ m → k ≤ m
before le = omega (arith, le)

module _ (rec : Call → Build) (m : ℕ) (w : Works rec m) where
  parse_tuple_destructure_pattern-Runs :
      {k : ℕ} → Runs 0 Clean k (parse_tuple_destructure_pattern rec) Any
  unfolding parse_tuple_destructure_pattern same_kind
  parse_tuple_destructure_pattern-Runs =
      expect_runs TokenKind.l_paren
      ⨟ trivia_runs
      ⨟ loop_runs (λ next k le t.
        expect_runs TokenKind.ident
        ⨟ trivia_runs
        ⨟ if_at_runs TokenKind.comma (weaken (bump_takes TokenKind.comma refl ⟫ trivia_runs ⨟ t))
            stop_runs)
      ⨟ expect_runs TokenKind.r_paren

  parse_let_stmt-Runs : Runs 1 (Here TokenKind.kw_let) (suc m) (parse_let_stmt rec) Any
  unfolding parse_let_stmt same_kind is_trivia
  parse_let_stmt-Runs = node_of_runs NodeKind.let_stmt (
      expect_takes TokenKind.kw_let refl refl
      ⟫ trivia_runs
      ⨟ if_at_runs TokenKind.kw_mut (bump_runs ⨟ trivia_runs) stop_runs
      ⨟ if_at_runs TokenKind.l_paren
          (here_clean TokenKind.l_paren refl parse_tuple_destructure_pattern-Runs)
          (if_at_runs TokenKind.ident bump_runs
            (if_at_runs TokenKind.underscore bump_runs (expect_runs TokenKind.ident)))
      ⨟ trivia_runs
      ⨟ expect_runs TokenKind.eq
      ⨟ trivia_runs
      ⨟ down (parse_expr_bp-Runs rec m w 0)
      ⨟ trivia_runs
      ⨟ expect_runs TokenKind.semicolon)

  parse_assign_target_expr-Runs :
      Runs 1 (Here TokenKind.ident) (suc m) (parse_assign_target_expr rec) Any
  unfolding parse_assign_target_expr same_kind is_trivia
  parse_assign_target_expr-Runs = within_runs (
      node_of_runs NodeKind.expr_name
        (trivia_here TokenKind.ident refl ⨾ expect_takes TokenKind.ident refl refl)
      ⟫ loop_runs (λ next k le t.
        peek_runs TokenKind.dot
          (weaken (
            wrap_runs NodeKind.expr_field (
              trivia_peek TokenKind.dot
              ⨾ expect_takes TokenKind.dot refl refl
              ⟫ trivia_runs
              ⨟ expect_runs TokenKind.ident)
            ⟫ t))
          (peek_runs TokenKind.l_bracket
            (weaken (
              wrap_runs NodeKind.expr_index (
                trivia_peek TokenKind.l_bracket
                ⨾ expect_takes TokenKind.l_bracket refl refl
                ⟫ trivia_runs
                ⨟ lower (before le) (Works-expr w 0)
                ⨟ trivia_runs
                ⨟ expect_runs TokenKind.r_bracket)
              ⟫ t))
            stop-Any)))

  parse_assign_stmt-Runs : Runs 1 (Here TokenKind.ident) (suc m) (parse_assign_stmt rec) Any
  unfolding parse_assign_stmt
  parse_assign_stmt-Runs = node_of_runs NodeKind.assign_stmt (
      parse_assign_target_expr-Runs
      ⟫ trivia_runs
      ⨟ by_kind_any expect_assign_op (expect_assign_op-Runs m)
      ⨟ trivia_runs
      ⨟ down (parse_expr_bp-Runs rec m w 0)
      ⨟ trivia_runs
      ⨟ expect_runs TokenKind.semicolon)

  parse_expr_stmt-Ready : Runs 1 Ready (suc m) (parse_expr_stmt rec) Any
  unfolding parse_expr_stmt
  parse_expr_stmt-Ready =
      node_of_runs NodeKind.expr_stmt
        (parse_expr_bp-Ready rec m w 0 ⟫ trivia_runs ⨟ expect_runs TokenKind.semicolon)

  parse_with_arena_stmt-Runs : Runs 1 (Here TokenKind.ident) (suc m) (parse_with_arena_stmt rec) Any
  unfolding parse_with_arena_stmt same_kind
  parse_with_arena_stmt-Runs =
      node_of_runs NodeKind.with_arena_stmt
        (bump_takes TokenKind.ident refl ⟫ trivia_runs ⨟ Works-body w)

  -- A statement, on to the next round.
  on :
      {P : Fact} {a next : Build}
      → Runs 1 P (suc m) a Any
      → Runs 0 Clean m next Clean
      → Runs 0 P (suc m) (a ▸ trivia ▸ next) Clean
  on r t = weaken (r ⟫ trivia_runs ⨟ t)

  statement-Runs :
      (next : Build)
      → Runs 0 Clean m next Clean
      → (k : TokenKind) → is_trivia k ≡ false
      → Runs 0 (Here k) (suc m) (statement rec next (some k)) Clean
  unfolding statement is_trivia same_kind
  statement-Runs next t TokenKind.kw_let e = on parse_let_stmt-Runs t
  statement-Runs next t TokenKind.ident e =
      branch_runs (λ s. same_text s.current.lexeme (codes "with_arena"))
        (on parse_with_arena_stmt-Runs t)
        (branch_runs next_name_is_assign_statement (on parse_assign_stmt-Runs t) (
          branch_runs next_expr_is_statement
            (on (knowing (λ s h. Here-Ready TokenKind.ident s refl refl h) parse_expr_stmt-Ready) t)
            (here_clean TokenKind.ident refl stop_runs)))
  statement-Runs next t k e =
      split_runs (λ s. starts_expr k && next_expr_is_statement s) (λ s h b. starts_ready k s e h b)
        (λ s h b. h) (on parse_expr_stmt-Ready t) (here_clean k e stop_runs)

module _ (rec : Call → Build) (m : ℕ) (w : Works rec m) where
  pub parse_expr_body-Runs : Runs 0 Clean (suc m) (parse_expr_body rec) Any
  unfolding parse_expr_body is_trivia
  parse_expr_body-Runs = node_of_runs NodeKind.body (
      expect_runs TokenKind.l_brace
      ⨟ trivia_runs
      ⨟ loop_runs (λ next k le t.
        by_kind_runs (statement rec next) (statement-Runs rec k (Works-lower (below le) w) next t))
      ⨟ until_runs TokenKind.r_brace refl (
          parse_expr_bp-Runs rec m w 0
          ⨟ trivia_runs
          ⨟ loop_runs (λ next k le t. until_ready TokenKind.r_brace refl (
              weaken
                (bump_with_ready (λ u. reporting_runs (unexpected_token u)) ⟫ trivia_runs ⨟ t))))
      ⨟ expect_runs TokenKind.r_brace)

  pub parse_inline_expr_body-Runs : Runs 0 Clean (suc m) (parse_inline_expr_body rec) Any
  unfolding parse_inline_expr_body
  parse_inline_expr_body-Runs = node_of_runs NodeKind.body (
      expect_runs TokenKind.eq
      ⨟ trivia_runs
      ⨟ parse_expr_bp-Runs rec m w 0
      ⨟ trivia_runs
      ⨟ expect_runs TokenKind.semicolon)
