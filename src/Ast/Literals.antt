-- ===== src/Ast/Literals.antt =====
-- The lowering of literals, crates/sarif_syntax/src/ast.rs.
use sarif.Base.{ℕ, ◌==◌, Bool, true, false, ◌||◌, Option, none, some, [], ◌∷◌, if◌then◌else◌}
use sarif.Base.Int.{ℤ}
use sarif.Text.{Text, parse_i64}
use sarif.Mir.{Span}
use sarif.Syntax.Token.{Token, TokenKind}
use sarif.Syntax.Tree.{a_node, a_token, Elements, none_left, element}
use sarif.Parser.Kinds.{same_kind}

-- What a character after a backslash stands for, in front of the rest.
unfoldable pub escaped : ℕ → Text → Text
escaped c rest =
    if c == 92
    then 92 ∷ rest
    else if c == 34
    then 34 ∷ rest
    else if c == 110
    then 10 ∷ rest
    else if c == 116
    then 9 ∷ rest
    else if c == 114
    then 13 ∷ rest
    else if c == 48
    then 0 ∷ rest
    else 92 ∷ c ∷ rest

-- A backslash at the end stays, as any other character does there.
unfoldable pub unescape_string : Text → Text
unfolding escaped
unescape_string [] = []
unescape_string (c ∷ []) = c ∷ []
unescape_string (c ∷ d ∷ ds) =
    let next = unescape_string (d ∷ ds) in
    let after = unescape_string ds in if c == 92 then escaped d after else c ∷ next

-- `Self::first_token(node, kind)`, on the children of the node.
unfoldable pub first_token : TokenKind → Elements → Option Token
unfolding same_kind
first_token kind none_left = none
first_token kind (element (a_node _) es) = first_token kind es
first_token kind (element (a_token t) es) =
    if same_kind t.kind kind then some t else first_token kind es

unfoldable pub any_minus : Elements → Bool
unfolding same_kind
any_minus none_left = false
any_minus (element (a_node _) es) = any_minus es
any_minus (element (a_token t) es) = same_kind t.kind TokenKind.minus || any_minus es

unfoldable pub signed_numeric_lexeme : Elements → Token → Text
unfolding any_minus
signed_numeric_lexeme children token =
    if any_minus children then 45 ∷ token.lexeme else token.lexeme

pub record IntegerExpr : Type 0 where
  pub value : ℤ
  pub span : Span

unfoldable pub lower_integer_expr : Elements → Option IntegerExpr
unfolding first_token signed_numeric_lexeme parse_i64
lower_integer_expr children = elim (first_token TokenKind.integer children) [
  | none ↦ none
  | some token ↦ elim (parse_i64 (signed_numeric_lexeme children token)) [
    | none ↦ none
    | some value ↦ some (record { value = value; span = token.span })
  ]
]

pub record BoolExpr : Type 0 where
  pub value : Bool
  pub span : Span

-- The first token that is `true` or `false`.
unfoldable pub first_bool : Elements → Option Token
unfolding same_kind
first_bool none_left = none
first_bool (element (a_node _) es) = first_bool es
first_bool (element (a_token t) es) =
    if same_kind t.kind TokenKind.kw_true || same_kind t.kind TokenKind.kw_false
    then some t
    else first_bool es

unfoldable pub lower_bool_expr : Elements → Option BoolExpr
unfolding first_bool same_kind
lower_bool_expr children = elim (first_bool children) [
  | none ↦ none
  | some token ↦ some (record { value = same_kind token.kind TokenKind.kw_true; span = token.span })
]

-- `has_interpolation`
unfoldable pub has_interpolation : Text → Bool
has_interpolation [] = false
has_interpolation (c ∷ []) = c == 123
has_interpolation (c ∷ d ∷ ds) =
    let next = has_interpolation (d ∷ ds) in
    let after = has_interpolation ds in
    if c == 123 then (if d == 123 then after else true) else next
