-- ===== src/Parser/Bodies.antt =====
-- Primary expressions, operators, statements and bodies, crates/sarif_syntax/src/parser.rs.
use sarif.Base.{ℕ, Bool, false, ◌&&◌, Option, none, some, [], ◌∷◌, ◌++◌, if◌then◌else◌, leb, ltb}
use sarif.Text.{Text, codes, same_text}
use sarif.Syntax.Token.{Token, TokenKind, Diagnostic, diagnostic}
use sarif.Syntax.Tree.{Elements, none_left, NodeKind}
use sarif.Parser.Kinds.{debug}
use sarif.Parser.State.{peek_trivia_then, next_non_trivia_kind_is_numeric_literal}
use sarif.Parser.Build.{
  Build, stop, ◌▸◌, branch, if_at, by_kind, bump_with, bump, trivia, expect, node_of, wrap, within,
  collecting_on, finish_node, loop,
}
use sarif.Parser.Peek.{
  starts_expr, next_expr_is_statement, next_name_is_assign_statement, starts_record_literal,
  infix_binding_power,
}
use sarif.Parser.Types.{Call, postfix_call, body_call, expr_call, until}
use sarif.Parser.Exprs.{
  reporting, parse_error_expr, missing_expr, literal, parse_arg_list, parse_field_init_list,
  parse_field_update_list, parse_if_expr, parse_match_expr, parse_repeat_expr, parse_for_expr,
  parse_while_expr, parse_perform_expr, parse_comptime_expr, parse_handle_expr, parse_array_expr,
}

pub first_is_uppercase : Text → Bool
first_is_uppercase [] = false
first_is_uppercase (c ∷ _) = leb 65 c && leb c 90

unfoldable pub expect_assign_op : Option TokenKind → Build
expect_assign_op (some TokenKind.plus_eq) = expect TokenKind.plus_eq
expect_assign_op (some TokenKind.minus_eq) = expect TokenKind.minus_eq
expect_assign_op (some TokenKind.star_eq) = expect TokenKind.star_eq
expect_assign_op (some TokenKind.slash_eq) = expect TokenKind.slash_eq
expect_assign_op _ = expect TokenKind.eq

unfoldable pub unexpected_token : Token → Diagnostic
unfolding diagnostic debug
unexpected_token t =
    diagnostic (codes "parse.unexpected-token")
      (codes "unexpected token `" ++ (debug t.kind ++ codes "` in function body")) t.span
      (some (
        codes
          "This stage-0 body grammar accepts zero or more `let`/assignment/unit-expression statements followed by one optional tail expression."))

module _ (rec : Call → Build) where
  -- The children of a negative number, its trivia and its minus in them, with the number.
  unfoldable pub finish_number : Elements → Option TokenKind → Build
  unfolding parse_error_expr
  finish_number children (some TokenKind.integer) =
      finish_node NodeKind.expr_integer (expect TokenKind.integer) children
  finish_number children (some TokenKind.float) =
      finish_node NodeKind.expr_float (expect TokenKind.float) children
  finish_number children _ = parse_error_expr

  unfoldable pub negative_number : Build
  unfolding finish_number
  negative_number =
      collecting_on none_left (trivia ▸ expect TokenKind.minus ▸ trivia)
        (λ children. by_kind (finish_number children))

  -- A name, with its token in the children, by the lexeme of the token.
  unfoldable pub finish_name : Text → Elements → Build
  unfolding first_is_uppercase parse_field_init_list
  finish_name lexeme children =
      if same_text lexeme (codes "result")
      then finish_node NodeKind.expr_contract_result stop children
      else branch (λ s. first_is_uppercase lexeme && starts_record_literal s)
          (finish_node NodeKind.expr_record
            (trivia
              ▸ expect TokenKind.l_brace
              ▸ parse_field_init_list rec
              ▸ trivia
              ▸ expect TokenKind.r_brace)
            children)
          (finish_node NodeKind.expr_name stop children)

  -- The current token is the one that `expect` takes.
  unfoldable pub named : Elements → Build
  unfolding finish_name
  named children cs s =
      collecting_on children (expect TokenKind.ident) (finish_name s.current.lexeme) cs s

  unfoldable pub name : Build
  unfolding named
  name = collecting_on none_left trivia named

  unfoldable pub group : Build
  group = node_of NodeKind.expr_group (
      trivia
      ▸ expect TokenKind.l_paren
      ▸ trivia
      ▸ rec (expr_call 0)
      ▸ trivia
      ▸ expect TokenKind.r_paren)

  -- The arms of `parse_primary_expr`.
  unfoldable pub primary : Option TokenKind → Build
  unfolding parse_if_expr parse_match_expr parse_repeat_expr parse_for_expr parse_while_expr
      parse_perform_expr parse_comptime_expr parse_handle_expr parse_array_expr literal
      negative_number name group parse_error_expr missing_expr
  primary (some TokenKind.kw_if) = parse_if_expr rec
  primary (some TokenKind.kw_match) = parse_match_expr rec
  primary (some TokenKind.kw_repeat) = parse_repeat_expr rec
  primary (some TokenKind.kw_for) = parse_for_expr rec
  primary (some TokenKind.kw_while) = parse_while_expr rec
  primary (some TokenKind.kw_perform) = parse_perform_expr rec
  primary (some TokenKind.kw_comptime) = parse_comptime_expr rec
  primary (some TokenKind.kw_handle) = parse_handle_expr rec
  primary (some TokenKind.l_bracket) = parse_array_expr rec
  primary (some TokenKind.integer) = literal NodeKind.expr_integer TokenKind.integer
  primary (some TokenKind.float) = literal NodeKind.expr_float TokenKind.float
  primary (some TokenKind.minus) =
      branch next_non_trivia_kind_is_numeric_literal negative_number parse_error_expr
  primary (some TokenKind.string) = literal NodeKind.expr_string TokenKind.string
  primary (some TokenKind.kw_true) = literal NodeKind.expr_bool TokenKind.kw_true
  primary (some TokenKind.kw_false) = literal NodeKind.expr_bool TokenKind.kw_false
  primary (some TokenKind.ident) = name
  primary (some TokenKind.l_paren) = group
  primary (some _) = parse_error_expr
  primary none = missing_expr

  unfoldable pub parse_primary_expr : Build
  unfolding primary
  parse_primary_expr = by_kind primary

  -- `parse_prefix_expr`, on the kind that comes.
  unfoldable pub prefix : Option TokenKind → Build
  unfolding primary
  prefix (some TokenKind.kw_not) =
      node_of NodeKind.expr_unary (trivia ▸ expect TokenKind.kw_not ▸ trivia ▸ rec postfix_call)
  prefix other = primary other

  unfoldable pub parse_prefix_expr : Build
  unfolding prefix
  parse_prefix_expr = by_kind prefix

  -- A round of the loop of `parse_postfix_expr`, on the expression before it.
  unfoldable pub postfix_round : Build → Build
  unfolding parse_arg_list parse_field_update_list
  postfix_round next =
      branch (peek_trivia_then TokenKind.l_paren)
        (wrap NodeKind.expr_call
            (trivia ▸ expect TokenKind.l_paren ▸ parse_arg_list rec ▸ expect TokenKind.r_paren)
          ▸ next)
        (branch (peek_trivia_then TokenKind.dot)
          (wrap NodeKind.expr_field
              (trivia ▸ expect TokenKind.dot ▸ trivia ▸ expect TokenKind.ident)
            ▸ next)
          (branch (peek_trivia_then TokenKind.l_bracket)
            (wrap NodeKind.expr_index (
                trivia
                ▸ expect TokenKind.l_bracket
                ▸ trivia
                ▸ rec (expr_call 0)
                ▸ trivia
                ▸ expect TokenKind.r_bracket)
              ▸ next)
            (branch (peek_trivia_then TokenKind.kw_with)
              (wrap NodeKind.expr_record_update (
                  trivia
                  ▸ expect TokenKind.kw_with
                  ▸ trivia
                  ▸ expect TokenKind.l_brace
                  ▸ trivia
                  ▸ parse_field_update_list rec
                  ▸ trivia
                  ▸ expect TokenKind.r_brace)
                ▸ next)
              stop)))

  unfoldable pub parse_postfix_expr : Build
  unfolding parse_prefix_expr postfix_round
  parse_postfix_expr = within (parse_prefix_expr ▸ loop postfix_round)

  -- A round of the loop of `parse_expr_bp`, on the kind that comes and its binding powers.
  unfoldable pub operator : ℕ → Build → TokenKind → Option (ℕ × ℕ) → Build
  operator min_bp next k none = stop
  operator min_bp next k (some (left_bp, right_bp)) =
      if ltb left_bp min_bp
      then stop
      else wrap NodeKind.expr_binary (trivia ▸ expect k ▸ trivia ▸ rec (expr_call right_bp)) ▸ next

  unfoldable pub operator_at : ℕ → Build → Option TokenKind → Build
  unfolding operator
  operator_at min_bp next none = stop
  operator_at min_bp next (some k) = operator min_bp next k (infix_binding_power k)

  unfoldable pub parse_expr_bp : ℕ → Build
  unfolding parse_postfix_expr operator_at
  parse_expr_bp min_bp =
      within (parse_postfix_expr ▸ loop (λ next. by_kind (operator_at min_bp next)))

  unfoldable pub parse_tuple_destructure_pattern : Build
  parse_tuple_destructure_pattern =
      expect TokenKind.l_paren
      ▸ trivia
      ▸ loop (λ next.
        expect TokenKind.ident ▸ trivia ▸ if_at TokenKind.comma (bump ▸ trivia ▸ next) stop)
      ▸ expect TokenKind.r_paren

  unfoldable pub parse_let_stmt : Build
  unfolding parse_tuple_destructure_pattern parse_expr_bp
  parse_let_stmt = node_of NodeKind.let_stmt (
      expect TokenKind.kw_let
      ▸ trivia
      ▸ if_at TokenKind.kw_mut (bump ▸ trivia) stop
      ▸ if_at TokenKind.l_paren parse_tuple_destructure_pattern
          (if_at TokenKind.ident bump (if_at TokenKind.underscore bump (expect TokenKind.ident)))
      ▸ trivia
      ▸ expect TokenKind.eq
      ▸ trivia
      ▸ parse_expr_bp 0
      ▸ trivia
      ▸ expect TokenKind.semicolon)

  unfoldable pub parse_assign_target_expr : Build
  parse_assign_target_expr = within (
      node_of NodeKind.expr_name (trivia ▸ expect TokenKind.ident)
      ▸ loop (λ next.
        branch (peek_trivia_then TokenKind.dot)
          (wrap NodeKind.expr_field
              (trivia ▸ expect TokenKind.dot ▸ trivia ▸ expect TokenKind.ident)
            ▸ next)
          (branch (peek_trivia_then TokenKind.l_bracket)
            (wrap NodeKind.expr_index (
                trivia
                ▸ expect TokenKind.l_bracket
                ▸ trivia
                ▸ rec (expr_call 0)
                ▸ trivia
                ▸ expect TokenKind.r_bracket)
              ▸ next)
            stop)))

  unfoldable pub parse_assign_stmt : Build
  unfolding parse_assign_target_expr expect_assign_op parse_expr_bp
  parse_assign_stmt = node_of NodeKind.assign_stmt (
      parse_assign_target_expr
      ▸ trivia
      ▸ by_kind expect_assign_op
      ▸ trivia
      ▸ parse_expr_bp 0
      ▸ trivia
      ▸ expect TokenKind.semicolon)

  unfoldable pub parse_expr_stmt : Build
  unfolding parse_expr_bp
  parse_expr_stmt =
      node_of NodeKind.expr_stmt (parse_expr_bp 0 ▸ trivia ▸ expect TokenKind.semicolon)

  unfoldable pub parse_with_arena_stmt : Build
  parse_with_arena_stmt = node_of NodeKind.with_arena_stmt (bump ▸ trivia ▸ rec body_call)

  -- The statement that comes, if one does, and the next round.
  unfoldable pub statement : Build → Option TokenKind → Build
  unfolding parse_let_stmt parse_with_arena_stmt parse_assign_stmt parse_expr_stmt
  statement next (some TokenKind.kw_let) = parse_let_stmt ▸ trivia ▸ next
  statement next (some TokenKind.ident) =
      branch (λ s. same_text s.current.lexeme (codes "with_arena"))
        (parse_with_arena_stmt ▸ trivia ▸ next)
        (branch next_name_is_assign_statement (parse_assign_stmt ▸ trivia ▸ next)
          (branch next_expr_is_statement (parse_expr_stmt ▸ trivia ▸ next) stop))
  statement next (some k) =
      branch (λ s. starts_expr k && next_expr_is_statement s) (parse_expr_stmt ▸ trivia ▸ next) stop
  statement next none = stop

  unfoldable pub parse_expr_body : Build
  unfolding statement until parse_expr_bp unexpected_token
  parse_expr_body = node_of NodeKind.body (
      expect TokenKind.l_brace
      ▸ trivia
      ▸ loop (λ next. by_kind (statement next))
      ▸ until TokenKind.r_brace (
          parse_expr_bp 0
          ▸ trivia
          ▸ loop (λ next.
            until TokenKind.r_brace
              (bump_with (λ t. reporting (unexpected_token t)) ▸ trivia ▸ next)))
      ▸ expect TokenKind.r_brace)

  unfoldable pub parse_inline_expr_body : Build
  unfolding parse_expr_bp
  parse_inline_expr_body =
      node_of NodeKind.body
        (expect TokenKind.eq ▸ trivia ▸ parse_expr_bp 0 ▸ trivia ▸ expect TokenKind.semicolon)
