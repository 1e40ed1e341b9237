-- ===== src/Parser/Exprs.antt =====
-- Expressions, bodies and statements, crates/sarif_syntax/src/parser.rs.
use sarif.Base.{Option, some, ◌++◌}
use sarif.Text.{codes}
use sarif.Syntax.Token.{Token, TokenKind, Diagnostic, diagnostic}
use sarif.Syntax.Tree.{a_node, NodeKind, empty_node}
use sarif.Parser.Kinds.{debug}
use sarif.Parser.State.{push, peek_trivia_then}
use sarif.Parser.Build.{
  Build, stop, ◌▸◌, branch, if_at, by_kind, bump_with, bump, trivia, report, expect, node_of,
  list_of, loop,
}
use sarif.Parser.Peek.{starts_match_pattern, repeat_has_binding}
use sarif.Parser.Types.{
  Call, body_call, if_call, expr_call, until, separated, parse_type_path, parse_match_pattern,
}

-- `self.diagnostics.push(d)` among the pushes of a function.
unfoldable pub reporting : Diagnostic → Build
unfolding report
reporting d cs s = some (cs, report d s)

unfoldable pub expected_expression : Token → Diagnostic
unfolding diagnostic debug
expected_expression t =
    diagnostic (codes "parse.expected-expression")
      (codes "expected expression, found `" ++ (debug t.kind ++ codes "`")) t.span
      (some (
        codes
          "Use a literal, array literal, name, record literal, field access, indexing expression, grouped expression, function call, `if`, `match`, or `repeat`."))

unfoldable pub parse_error_expr : Build
unfolding expected_expression
parse_error_expr = node_of NodeKind.error (bump_with (λ t. reporting (expected_expression t)))

-- `Node::empty(NodeKind::Error, self.current().span.start)`
unfoldable pub missing_expr : Build
missing_expr cs s = some (push cs (a_node (empty_node NodeKind.error s.current.span.start)), s)

-- A literal of one token.
unfoldable pub literal : NodeKind → TokenKind → Build
literal node kind = node_of node (trivia ▸ expect kind)

module _ (rec : Call → Build) where
  abbrev pub expr : Build
  expr = rec (expr_call 0)

  abbrev pub block : Build
  block = rec body_call

  unfoldable pub parse_arg_list : Build
  parse_arg_list = list_of NodeKind.arg_list (separated TokenKind.r_paren expr)

  unfoldable pub field_init : Build
  field_init =
      node_of NodeKind.field_init (
        trivia
        ▸ expect TokenKind.ident
        ▸ trivia
        ▸ if_at TokenKind.colon (bump ▸ trivia ▸ expr) stop)

  unfoldable pub parse_field_init_list : Build
  unfolding field_init
  parse_field_init_list = list_of NodeKind.field_init_list (separated TokenKind.r_brace field_init)

  unfoldable pub field_update : Build
  field_update = node_of NodeKind.field_update (
      trivia
      ▸ expect TokenKind.dot
      ▸ trivia
      ▸ expect TokenKind.ident
      ▸ trivia
      ▸ expect TokenKind.eq
      ▸ trivia
      ▸ expr)

  unfoldable pub parse_field_update_list : Build
  unfolding field_update
  parse_field_update_list =
      list_of NodeKind.field_update_list (separated TokenKind.r_brace field_update)

  unfoldable pub parse_if_expr : Build
  parse_if_expr = node_of NodeKind.expr_if (
      trivia
      ▸ expect TokenKind.kw_if
      ▸ trivia
      ▸ expr
      ▸ trivia
      ▸ block
      ▸ branch (peek_trivia_then TokenKind.kw_else)
          (trivia
            ▸ expect TokenKind.kw_else
            ▸ trivia
            ▸ if_at TokenKind.kw_if (node_of NodeKind.body (rec if_call)) block)
          stop)

  unfoldable pub parse_match_arm : Build
  unfolding parse_match_pattern
  parse_match_arm = node_of NodeKind.match_arm (
      parse_match_pattern rec
      ▸ trivia
      ▸ expect TokenKind.fat_arrow
      ▸ trivia
      ▸ if_at TokenKind.l_brace block (node_of NodeKind.body expr))

  unfoldable pub parse_match_expr : Build
  unfolding parse_match_arm
  parse_match_expr = node_of NodeKind.expr_match (
      trivia
      ▸ expect TokenKind.kw_match
      ▸ trivia
      ▸ expr
      ▸ trivia
      ▸ expect TokenKind.l_brace
      ▸ trivia
      ▸ loop (λ next.
        branch starts_match_pattern
          (parse_match_arm ▸ trivia ▸ if_at TokenKind.comma (bump ▸ trivia ▸ next) stop) stop)
      ▸ expect TokenKind.r_brace)

  unfoldable pub parse_repeat_expr : Build
  parse_repeat_expr = node_of NodeKind.expr_repeat (
      trivia
      ▸ expect TokenKind.kw_repeat
      ▸ trivia
      ▸ branch repeat_has_binding (bump ▸ trivia ▸ expect TokenKind.kw_in ▸ trivia) stop
      ▸ expr
      ▸ trivia
      ▸ block)

  unfoldable pub parse_for_expr : Build
  parse_for_expr = node_of NodeKind.expr_for (
      trivia
      ▸ expect TokenKind.kw_for
      ▸ trivia
      ▸ expect TokenKind.ident
      ▸ trivia
      ▸ expect TokenKind.kw_in
      ▸ trivia
      ▸ expr
      ▸ trivia
      ▸ expect TokenKind.dot_dot
      ▸ trivia
      ▸ expr
      ▸ trivia
      ▸ block)

  unfoldable pub parse_while_expr : Build
  parse_while_expr =
      node_of NodeKind.expr_while
        (trivia ▸ expect TokenKind.kw_while ▸ trivia ▸ expr ▸ trivia ▸ block)

  unfoldable pub parse_comptime_expr : Build
  parse_comptime_expr =
      node_of NodeKind.expr_comptime (expect TokenKind.kw_comptime ▸ trivia ▸ block)

  unfoldable pub parse_perform_expr : Build
  unfolding parse_arg_list parse_type_path
  parse_perform_expr = node_of NodeKind.expr_perform (
      expect TokenKind.kw_perform
      ▸ trivia
      ▸ parse_type_path rec
      ▸ trivia
      ▸ expect TokenKind.l_paren
      ▸ parse_arg_list
      ▸ expect TokenKind.r_paren)

  -- The parameters of an arm of `handle`: the loop has no break.
  unfoldable pub handle_param : Build → Build
  handle_param next =
      until TokenKind.r_paren
        (expect TokenKind.ident ▸ trivia ▸ if_at TokenKind.comma (bump ▸ trivia) stop ▸ next)

  unfoldable pub handle_params : Build
  unfolding handle_param
  handle_params = loop handle_param

  unfoldable pub handle_arm : Build
  unfolding handle_params
  handle_arm = node_of NodeKind.handle_arm (
      expect TokenKind.ident
      ▸ trivia
      ▸ expect TokenKind.l_paren
      ▸ trivia
      ▸ handle_params
      ▸ expect TokenKind.r_paren
      ▸ trivia
      ▸ expect TokenKind.fat_arrow
      ▸ trivia
      ▸ block)

  unfoldable pub parse_handle_expr : Build
  unfolding handle_arm until
  parse_handle_expr = node_of NodeKind.expr_handle (
      expect TokenKind.kw_handle
      ▸ trivia
      ▸ block
      ▸ trivia
      ▸ expect TokenKind.kw_with
      ▸ trivia
      ▸ expect TokenKind.l_brace
      ▸ trivia
      ▸ loop (λ next. until TokenKind.r_brace (handle_arm ▸ trivia ▸ next))
      ▸ expect TokenKind.r_brace)

  -- The length of `[value; length]`.
  unfoldable pub repeat_length : Option TokenKind → Build
  repeat_length (some TokenKind.ident) = expect TokenKind.ident
  repeat_length _ = expect TokenKind.integer

  unfoldable pub parse_array_expr : Build
  unfolding until repeat_length
  parse_array_expr = node_of NodeKind.expr_array (
      trivia
      ▸ expect TokenKind.l_bracket
      ▸ loop (λ next. until TokenKind.r_bracket (
          trivia
          ▸ until TokenKind.r_bracket (
              expr
              ▸ trivia
              ▸ if_at TokenKind.semicolon (bump ▸ trivia ▸ by_kind repeat_length ▸ trivia)
                  (if_at TokenKind.comma (bump ▸ next) stop))))
      ▸ expect TokenKind.r_bracket)
