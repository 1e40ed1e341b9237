-- ===== src/Parser/Items.antt =====
-- Items and the source file, crates/sarif_syntax/src/parser.rs.
use sarif.Base.{ℕ, zero, suc, Option, none, some, List, [], ◌∷◌, ◌++◌}
use sarif.Text.{codes}
use sarif.Syntax.Token.{Token, TokenKind, Diagnostic, diagnostic}
use sarif.Syntax.Tree.{
  a_node, Node, node, Elements, none_left, element, NodeKind, new_node, span_from_elements,
}
use sarif.Parser.Kinds.{debug}
use sarif.Parser.State.{Parser, push_all}
use sarif.Parser.Build.{
  Build, stop, ◌▸◌, if_at, bump_with, bump, trivia, expect, node_of, list_of, loop,
}
use sarif.Parser.Types.{
  Call, type_call, postfix_call, body_call, if_call, expr_call, separated, parse_type,
  parse_param_list, parse_field_list, parse_generic_params, parse_effects_clause, return_type,
  parse_signature,
}
use sarif.Parser.Exprs.{reporting, parse_if_expr}
use sarif.Parser.Bodies.{parse_postfix_expr, parse_expr_bp, parse_expr_body, parse_inline_expr_body}

module _ (rec : Call → Build) where
  unfoldable pub parse_const_item : Build
  unfolding parse_type parse_expr_bp
  parse_const_item = node_of NodeKind.const_item (
      expect TokenKind.kw_const
      ▸ trivia
      ▸ expect TokenKind.ident
      ▸ trivia
      ▸ expect TokenKind.colon
      ▸ trivia
      ▸ parse_type rec
      ▸ trivia
      ▸ expect TokenKind.eq
      ▸ trivia
      ▸ parse_expr_bp rec 0
      ▸ trivia
      ▸ if_at TokenKind.semicolon bump stop)

  unfoldable pub parse_contract_clause : TokenKind → NodeKind → Build
  unfolding parse_expr_bp
  parse_contract_clause keyword kind = node_of kind (expect keyword ▸ trivia ▸ parse_expr_bp rec 0)

  unfoldable pub parse_fn_item : Build
  unfolding parse_generic_params parse_param_list return_type parse_effects_clause
      parse_contract_clause parse_inline_expr_body parse_expr_body
  parse_fn_item = node_of NodeKind.fn_item (
      expect TokenKind.kw_fn
      ▸ trivia
      ▸ expect TokenKind.ident
      ▸ trivia
      ▸ if_at TokenKind.l_bracket (parse_generic_params rec ▸ trivia) stop
      ▸ expect TokenKind.l_paren
      ▸ parse_param_list rec
      ▸ expect TokenKind.r_paren
      ▸ trivia
      ▸ return_type rec
      ▸ trivia
      ▸ if_at TokenKind.kw_effects (parse_effects_clause rec) stop
      ▸ trivia
      ▸ if_at TokenKind.kw_requires
          (parse_contract_clause TokenKind.kw_requires NodeKind.requires_clause) stop
      ▸ trivia
      ▸ if_at TokenKind.kw_ensures
          (parse_contract_clause TokenKind.kw_ensures NodeKind.ensures_clause) stop
      ▸ trivia
      ▸ if_at TokenKind.eq (parse_inline_expr_body rec) (parse_expr_body rec))

  unfoldable pub parse_import_item : Build
  parse_import_item = node_of NodeKind.import_item (
      expect TokenKind.kw_from
      ▸ trivia
      ▸ expect TokenKind.ident
      ▸ trivia
      ▸ expect TokenKind.kw_import
      ▸ trivia
      ▸ expect TokenKind.ident
      ▸ trivia
      ▸ loop (λ next.
        if_at TokenKind.comma (bump ▸ trivia ▸ expect TokenKind.ident ▸ trivia ▸ next) stop)
      ▸ if_at TokenKind.semicolon bump stop)

  unfoldable pub parse_variant : Build
  unfolding parse_type parse_expr_bp
  parse_variant = node_of NodeKind.variant (
      expect TokenKind.ident
      ▸ trivia
      ▸ if_at TokenKind.l_paren (bump ▸ trivia ▸ parse_type rec ▸ trivia ▸ expect TokenKind.r_paren)
          stop
      ▸ trivia
      ▸ if_at TokenKind.eq (bump ▸ trivia ▸ parse_expr_bp rec 0) stop)

  unfoldable pub parse_variant_list : Build
  unfolding parse_variant
  parse_variant_list = list_of NodeKind.variant_list (separated TokenKind.r_brace parse_variant)

  -- An item of a keyword, a name and a list in braces.
  unfoldable pub braced_item : NodeKind → TokenKind → Build → Build
  braced_item kind keyword entries = node_of kind (
      expect keyword
      ▸ trivia
      ▸ expect TokenKind.ident
      ▸ trivia
      ▸ expect TokenKind.l_brace
      ▸ entries
      ▸ expect TokenKind.r_brace)

  unfoldable pub parse_enum_item : Build
  unfolding parse_variant_list braced_item
  parse_enum_item = braced_item NodeKind.enum_item TokenKind.kw_enum parse_variant_list

  unfoldable pub parse_struct_item : Build
  unfolding parse_field_list braced_item
  parse_struct_item = braced_item NodeKind.struct_item TokenKind.kw_struct (parse_field_list rec)

  -- The functions of an effect or of an extern block.
  unfoldable pub signatures : Build
  unfolding parse_signature
  signatures = loop (λ next. if_at TokenKind.kw_fn (parse_signature rec ▸ trivia ▸ next) stop)

  unfoldable pub parse_effect_item : Build
  unfolding signatures
  parse_effect_item = node_of NodeKind.effect_item (
      expect TokenKind.kw_effect
      ▸ trivia
      ▸ expect TokenKind.ident
      ▸ trivia
      ▸ expect TokenKind.l_brace
      ▸ trivia
      ▸ signatures
      ▸ expect TokenKind.r_brace)

  unfoldable pub parse_extern_block : Build
  unfolding signatures
  parse_extern_block = node_of NodeKind.extern_block (
      expect TokenKind.kw_extern
      ▸ trivia
      ▸ expect TokenKind.l_brace
      ▸ trivia
      ▸ signatures
      ▸ expect TokenKind.r_brace)

  -- The item that a token begins.
  unfoldable pub item : TokenKind → Option Build
  unfolding parse_enum_item parse_struct_item parse_effect_item parse_extern_block parse_const_item
      parse_fn_item parse_import_item
  item TokenKind.kw_enum = some parse_enum_item
  item TokenKind.kw_struct = some parse_struct_item
  item TokenKind.kw_effect = some parse_effect_item
  item TokenKind.kw_extern = some parse_extern_block
  item TokenKind.kw_const = some parse_const_item
  item TokenKind.kw_fn = some parse_fn_item
  item TokenKind.kw_from = some parse_import_item
  item _ = none

-- The modifiers in front of an item, which become its first children.
unfoldable pub adopt : Elements → Elements → Elements
unfolding push_all span_from_elements
adopt (element m ms) (element (a_node (node kind _ children)) none_left) =
    let all = element m (push_all ms children) in
    element (a_node (node kind (span_from_elements all) all)) none_left
adopt modifiers parsed = push_all modifiers parsed

unfoldable pub modifiers : Build
modifiers =
    if_at TokenKind.attr_repr (bump ▸ trivia) stop ▸ if_at TokenKind.kw_pub (bump ▸ trivia) stop

-- The item after the modifiers and the next round, or the break.
unfoldable pub item_or_break : Option Build → Build → Elements → Build
unfolding adopt
item_or_break none next mods cs s = some (push_all cs mods, s)
item_or_break (some parse) next mods cs s = elim (parse none_left s) [
  | none ↦ none
  | some (parsed, after) ↦ (trivia ▸ next) (push_all cs (adopt mods parsed)) after
]

module _ (rec : Call → Build) where
  unfoldable pub item_round : Build → Build
  unfolding modifiers item item_or_break
  item_round next cs s = elim (modifiers none_left s) [
    | none ↦ none
    | some (mods, after) ↦ item_or_break (item rec after.current.kind) next mods cs after
  ]

  unfoldable pub items : Build
  unfolding item_round
  items = loop item_round

-- The functions at a depth of calls.
unfoldable pub functions : ℕ → Call → Build
unfolding parse_type parse_postfix_expr parse_expr_body parse_if_expr parse_expr_bp
functions zero call cs s = none
functions (suc n) type_call cs s = parse_type (λ c. functions n c) cs s
functions (suc n) postfix_call cs s = parse_postfix_expr (λ c. functions n c) cs s
functions (suc n) body_call cs s = parse_expr_body (λ c. functions n c) cs s
functions (suc n) if_call cs s = parse_if_expr (λ c. functions n c) cs s
functions (suc n) (expr_call min_bp) cs s = parse_expr_bp (λ c. functions n c) min_bp cs s

unfoldable pub out_of_order : Token → Diagnostic
unfolding diagnostic debug
out_of_order t =
    diagnostic (codes "parse.out-of-order-item")
      (codes "unexpected token `"
        ++ (debug t.kind
            ++ codes "`: expected a top-level item (pub, enum, struct, effect, extern, const, fn)"))
      t.span (some (codes "Move this item to its canonical section."))

-- The children of the source file, on functions of a depth.
unfoldable pub source_file : ℕ → Build
unfolding functions items out_of_order
source_file depth =
    trivia
    ▸ items (functions depth)
    ▸ if_at TokenKind.eof stop (bump_with (λ t. reporting (out_of_order t)))
    ▸ if_at TokenKind.eof bump stop

pub record ParseOutput : Type 0 where
  pub root : Node
  pub diagnostics : List Diagnostic

-- What the source file leaves: the output, and the parser at its end.
unfoldable pub output_of : Option (Elements × Parser) → Option (ParseOutput × Parser)
unfolding new_node
output_of none = none
output_of (some (children, s)) =
    some (record { root = new_node NodeKind.source_file children; diagnostics = s.diagnostics }, s)

-- `parse`: the tokens are the first and the later ones. The depth counts calls of functions, and no
-- more are nested than there are tokens.
unfoldable pub parse : ℕ → Token → List Token → Option (ParseOutput × Parser)
unfolding source_file output_of
parse depth first later =
    output_of
      (source_file depth none_left (record { current = first; later = later; diagnostics = [] }))

-- `parse` of a slice, of which the cursor needs a token.
unfoldable pub parse_tokens : ℕ → List Token → Option (ParseOutput × Parser)
unfolding parse
parse_tokens depth [] = none
parse_tokens depth (first ∷ later) = parse depth first later
