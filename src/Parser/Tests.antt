-- ===== src/Parser/Tests.antt =====
-- Tests and examples of the parser on short lists of tokens.
use sarif.Base.{false, ◌≡◌, refl, true, Option, none, some, List, [], ◌∷◌, length, arith}
use sarif.Text.{Text, codes}
use sarif.Syntax.Token.{Token, TokenKind, span}
use sarif.Syntax.Tree.{a_node, a_token, node, Elements, none_left, element, NodeKind}
use sarif.Syntax.Tests.{single, single-Scans, fine, fine_lexed, fine_run}
use sarif.Parser.Kinds.{same_kind}
use sarif.Parser.State.{Parser, at, advance, push, push_all, peek_trivia_then, peek_non_trivia_kind}
use sarif.Parser.Build.{
  rounds, ◌▸◌, trivia, loop, if_at, stop, node_of, expect, within, by_kind, bump, branch, wrap,
}
use sarif.Parser.Peek.{infix_binding_power, starts_expr}
use sarif.Parser.Types.{expr_call}
use sarif.Parser.Exprs.{handle_param}
use sarif.Parser.Items.{parse, functions, ParseOutput}
use sarif.Parser.Leaves.{node_leaves}
use sarif.Parser.Runs.{is_plain, IsEnded}
use sarif.Parser.Works.{Works}
use sarif.Parser.Total.{Parsed, parse-Parsed, functions-Works}
use sarif.Parser.Source.{is_handle, ParsedSource, parse_tokens-lex}
use sarif.Parser.Stuck.{is_odd, handle_param-hangs}

abbrev tok : TokenKind → Text → Token
tok k lexeme = record { kind = k; lexeme = lexeme; span = span 0 0 }

abbrev end : Token
end = tok TokenKind.eof []

abbrev space : Token
space = tok TokenKind.whitespace (codes " ")

abbrev number : Text → Token
number = tok TokenKind.integer

-- `const x: T = 1;`, without the first token.
abbrev a_const : List Token
a_const =
    space
    ∷ tok TokenKind.ident (codes "x")
    ∷ tok TokenKind.colon (codes ":")
    ∷ tok TokenKind.ident (codes "T")
    ∷ tok TokenKind.eq (codes "=")
    ∷ number (codes "1")
    ∷ tok TokenKind.semicolon (codes ";")
    ∷ end
    ∷ []

abbrev kw_const : Token
kw_const = tok TokenKind.kw_const (codes "const")

a_const-IsEnded : IsEnded kw_const a_const
unfolding IsEnded is_plain same_kind
a_const-IsEnded = (refl, (refl, (refl, (refl, (refl, (refl, (refl, (refl, (refl, refl)))))))))

parse-Parsed_example : Parsed 8 kw_const a_const
parse-Parsed_example = parse-Parsed 8 kw_const a_const a_const-IsEnded (omega arith)

abbrev tokens_of : Option (ParseOutput × Parser) → List Token
tokens_of none = []
tokens_of (some (out, _)) = node_leaves out.root

-- All but the end, which has no lexeme.
all_kept : length (tokens_of (parse 8 kw_const a_const)) ≡ 8
unfolding parse node_leaves ◌▸◌ trivia loop if_at at stop node_of expect advance peek_trivia_then
    within by_kind peek_non_trivia_kind infix_binding_power bump push
all_kept = refl

functions-Works_example : Works (functions 3) 3
functions-Works_example = functions-Works 3

-- `0 =>`, where the parameters of an arm of `handle` are to stand.
abbrev odd : Parser
odd = record {
  current = number (codes "0");
  later = tok TokenKind.fat_arrow (codes "=>") ∷ end ∷ [];
  diagnostics = [];
}

odd-is : is_odd odd.current.kind ≡ true
unfolding is_odd
odd-is = refl

handle_param-hangs_example : rounds 100 (handle_param (functions 4)) none_left odd ≡ none
handle_param-hangs_example = handle_param-hangs (functions 4) 100 none_left odd odd-is

parse_tokens-lex_example : ParsedSource fine 5 fine_lexed
unfolding is_handle same_kind
parse_tokens-lex_example =
    parse_tokens-lex single fine 3 5 [] fine_lexed single-Scans tt (omega arith) fine_run refl
      (omega arith)

-- The children that are nodes, in an expression in operators.
unfoldable shape : Elements → List NodeKind
shape none_left = []
shape (element (a_token t) es) = shape es
shape (element (a_node (node k _ _)) es) = k ∷ shape es

abbrev children_of : Elements → Elements
children_of (element (a_node (node _ _ es)) _) = es
children_of es = es

abbrev built : Option (Elements × Parser) → Elements
built none = none_left
built (some (es, _)) = es

abbrev parsed_from : Token → List Token → Elements
parsed_from t ts =
    built
      (functions 9 (expr_call 0) none_left (record { current = t; later = ts; diagnostics = [] }))

-- `1 + 2 * 3` is a sum whose second term is a product.
product_first :
    shape (
      children_of (
        parsed_from (number (codes "1")) (
          tok TokenKind.plus (codes "+")
          ∷ number (codes "2")
          ∷ tok TokenKind.star (codes "*")
          ∷ number (codes "3")
          ∷ end
          ∷ [])))
    ≡ NodeKind.expr_integer ∷ NodeKind.expr_binary ∷ []
unfolding shape functions within ◌▸◌ by_kind peek_non_trivia_kind node_of trivia expect at loop
    branch peek_trivia_then advance infix_binding_power wrap push_all push
product_first = refl

-- `1 - 2 - 3` is a difference whose first term is one.
left_first :
    shape (
      children_of (
        parsed_from (number (codes "1")) (
          tok TokenKind.minus (codes "-")
          ∷ number (codes "2")
          ∷ tok TokenKind.minus (codes "-")
          ∷ number (codes "3")
          ∷ end
          ∷ [])))
    ≡ NodeKind.expr_binary ∷ NodeKind.expr_integer ∷ []
unfolding shape functions within ◌▸◌ by_kind peek_non_trivia_kind node_of trivia expect at loop
    branch peek_trivia_then advance infix_binding_power wrap push_all push
left_first = refl

-- `not x;` is a statement of the grammar, but it is not tried as one.
not_a_statement : starts_expr TokenKind.kw_not ≡ false
unfolding starts_expr
not_a_statement = refl

-- `not 1 == 2` compares what `not` gives with 2: in the grammar it negates the comparison.
not_binds_tighter :
    shape (
      children_of (
        parsed_from
          (tok TokenKind.kw_not (codes "not"))
          (number (codes "1") ∷ tok TokenKind.eq_eq (codes "==") ∷ number (codes "2") ∷ end ∷ [])))
    ≡ NodeKind.expr_unary ∷ NodeKind.expr_integer ∷ []
unfolding shape functions within ◌▸◌ by_kind peek_non_trivia_kind node_of trivia expect at loop
    branch peek_trivia_then advance infix_binding_power wrap push_all push
not_binds_tighter = refl
