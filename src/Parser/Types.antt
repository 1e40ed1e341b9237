-- ===== src/Parser/Types.antt =====
-- Types, parameters, fields and match patterns, crates/sarif_syntax/src/parser.rs.
use sarif.Base.{ℕ, ◌||◌, Option, some}
use sarif.Syntax.Token.{TokenKind}
use sarif.Syntax.Tree.{NodeKind}
use sarif.Parser.State.{at, peek_trivia_then}
use sarif.Parser.Build.{
  Build, stop, ◌▸◌, branch, if_at, by_kind, bump, trivia, expect, node_of, list_of, loop,
}

-- The functions that a later function calls, at a token that is further on: `parse_type`,
-- `parse_expr_bp`, `parse_postfix_expr`, `parse_expr_body` and `parse_if_expr`.
pub data Call : Type 0 where
  type_call postfix_call body_call if_call : Call
  expr_call : ℕ → Call

-- `while !self.at(close) && !self.at(Eof) { a }`, where `a` holds the next round; and the test with
-- which a round breaks off after its trivia.
unfoldable pub until : TokenKind → Build → Build
until close a = branch (λ s. at close s || at TokenKind.eof s) stop a

-- The rounds of a list in brackets: trivia, an entry, trivia and a comma, or a break.
unfoldable pub separated : TokenKind → Build → Build
unfolding until
separated close entry = loop (λ next.
    until close (trivia ▸ until close (entry ▸ trivia ▸ if_at TokenKind.comma (bump ▸ next) stop)))

module _ (rec : Call → Build) where
  -- The loop over the dots.
  unfoldable pub parse_type_path : Build
  parse_type_path = node_of NodeKind.type_path (
      expect TokenKind.ident
      ▸ loop (λ next.
        branch (peek_trivia_then TokenKind.dot)
          (trivia ▸ expect TokenKind.dot ▸ trivia ▸ expect TokenKind.ident ▸ next) stop)
      ▸ branch (peek_trivia_then TokenKind.l_bracket)
          (trivia
            ▸ expect TokenKind.l_bracket
            ▸ trivia
            ▸ rec type_call
            ▸ trivia
            ▸ expect TokenKind.r_bracket)
          stop)

  -- The length of an array type.
  unfoldable pub array_length : Option TokenKind → Build
  array_length (some TokenKind.integer) = expect TokenKind.integer
  array_length (some TokenKind.ident) = expect TokenKind.ident
  array_length _ = expect TokenKind.integer

  unfoldable pub parse_array_type : Build
  unfolding array_length
  parse_array_type = node_of NodeKind.type_array (
      expect TokenKind.l_bracket
      ▸ trivia
      ▸ rec type_call
      ▸ trivia
      ▸ expect TokenKind.semicolon
      ▸ trivia
      ▸ by_kind array_length
      ▸ trivia
      ▸ expect TokenKind.r_bracket)

  unfoldable pub parse_type : Build
  unfolding parse_array_type parse_type_path
  parse_type = if_at TokenKind.l_bracket parse_array_type parse_type_path

  unfoldable pub parse_param : Build
  unfolding parse_type
  parse_param =
      node_of NodeKind.param
        (expect TokenKind.ident ▸ trivia ▸ expect TokenKind.colon ▸ trivia ▸ parse_type)

  unfoldable pub parse_param_list : Build
  unfolding parse_param
  parse_param_list = list_of NodeKind.param_list (separated TokenKind.r_paren parse_param)

  -- A field of a struct, in `parse_field_list`.
  unfoldable pub parse_field : Build
  unfolding parse_type
  parse_field =
      node_of NodeKind.field
        (expect TokenKind.ident ▸ trivia ▸ expect TokenKind.colon ▸ trivia ▸ parse_type)

  unfoldable pub parse_field_list : Build
  unfolding parse_field
  parse_field_list = list_of NodeKind.field_list (separated TokenKind.r_brace parse_field)

  -- A parameter of `parse_generic_params`.
  unfoldable pub generic_param : Build
  generic_param = node_of NodeKind.generic_param (
      expect TokenKind.ident
      ▸ trivia
      ▸ if_at TokenKind.colon (bump ▸ trivia ▸ expect TokenKind.ident ▸ trivia) stop)

  unfoldable pub parse_generic_params : Build
  unfolding generic_param
  parse_generic_params = node_of NodeKind.generic_param_list (
      expect TokenKind.l_bracket
      ▸ trivia
      ▸ if_at TokenKind.r_bracket stop
          (loop (λ next. generic_param ▸ if_at TokenKind.comma (bump ▸ trivia ▸ next) stop))
      ▸ expect TokenKind.r_bracket)

  unfoldable pub parse_effects_clause : Build
  parse_effects_clause = node_of NodeKind.effects_clause (
      expect TokenKind.kw_effects
      ▸ trivia
      ▸ expect TokenKind.l_bracket
      ▸ list_of NodeKind.effect_list (separated TokenKind.r_bracket (expect TokenKind.ident))
      ▸ expect TokenKind.r_bracket)

  -- An arrow and a type, where there is one.
  unfoldable pub return_type : Build
  unfolding parse_type
  return_type =
      if_at TokenKind.arrow (node_of NodeKind.return_type (bump ▸ trivia ▸ parse_type)) stop

  -- A function without a body, in `parse_effect_item` and `parse_extern_block`.
  unfoldable pub parse_signature : Build
  unfolding parse_param_list return_type
  parse_signature = node_of NodeKind.fn_item (
      bump
      ▸ trivia
      ▸ expect TokenKind.ident
      ▸ trivia
      ▸ expect TokenKind.l_paren
      ▸ parse_param_list
      ▸ expect TokenKind.r_paren
      ▸ trivia
      ▸ return_type
      ▸ trivia
      ▸ expect TokenKind.semicolon)

  -- The arms of `parse_match_pattern_atom`.
  unfoldable pub pattern_atom : Option TokenKind → Build
  unfolding parse_type_path
  pattern_atom (some TokenKind.ident) =
      parse_type_path
      ▸ trivia
      ▸ if_at TokenKind.l_paren
          (bump ▸ trivia ▸ expect TokenKind.ident ▸ trivia ▸ expect TokenKind.r_paren)
          (if_at TokenKind.l_brace (bump ▸ trivia ▸ expect TokenKind.r_brace) stop)
  pattern_atom (some TokenKind.integer) =
      expect TokenKind.integer
      ▸ trivia
      ▸ if_at TokenKind.dot_dot (expect TokenKind.dot_dot ▸ trivia ▸ expect TokenKind.integer) stop
  pattern_atom (some TokenKind.string) = expect TokenKind.string
  pattern_atom (some TokenKind.kw_true) = expect TokenKind.kw_true
  pattern_atom (some TokenKind.kw_false) = expect TokenKind.kw_false
  pattern_atom (some TokenKind.underscore) = expect TokenKind.underscore
  pattern_atom _ = bump

  unfoldable pub parse_match_pattern_atom : Build
  unfolding pattern_atom
  parse_match_pattern_atom = node_of NodeKind.match_pattern (trivia ▸ by_kind pattern_atom)

  unfoldable pub parse_match_pattern : Build
  unfolding parse_match_pattern_atom
  parse_match_pattern = node_of NodeKind.match_pattern (
      trivia
      ▸ parse_match_pattern_atom
      ▸ trivia
      ▸ loop (λ next.
        if_at TokenKind.pipe (bump ▸ trivia ▸ parse_match_pattern_atom ▸ trivia ▸ next) stop))
