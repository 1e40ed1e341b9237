-- ===== src/Syntax/Kind.antt =====
-- The kinds of tokens that the generated scanner of crates/sarif_syntax/src/lexer.rs tells apart.
use sarif.Syntax.Token.{TokenKind}

pub data RawTokenKind : Type 0 where
  whitespace newline comment kw_and kw_const kw_comptime kw_ensures kw_extern kw_effect kw_enum
        kw_effects kw_else kw_false kw_fn kw_for kw_from kw_handle kw_if kw_import kw_in kw_let
        kw_match kw_mut kw_not kw_or kw_perform kw_pub kw_repeat kw_requires kw_struct kw_true
        kw_while kw_with arrow amp caret colon comma dot_dot dot eq plus_eq minus_eq star_eq
        slash_eq fat_arrow eq_eq ge gt l_brace l_bracket le lt l_paren minus not_eq pipe plus
        r_brace r_bracket r_paren semicolon shl slash shr star percent percent_eq underscore float
        integer string attr_repr ident :
      RawTokenKind

unfoldable pub map_token_kind : RawTokenKind → TokenKind
map_token_kind whitespace = TokenKind.whitespace
map_token_kind newline = TokenKind.newline
map_token_kind comment = TokenKind.comment
map_token_kind kw_and = TokenKind.kw_and
map_token_kind kw_const = TokenKind.kw_const
map_token_kind kw_comptime = TokenKind.kw_comptime
map_token_kind kw_ensures = TokenKind.kw_ensures
map_token_kind kw_extern = TokenKind.kw_extern
map_token_kind kw_effect = TokenKind.kw_effect
map_token_kind kw_enum = TokenKind.kw_enum
map_token_kind kw_effects = TokenKind.kw_effects
map_token_kind kw_else = TokenKind.kw_else
map_token_kind kw_false = TokenKind.kw_false
map_token_kind kw_fn = TokenKind.kw_fn
map_token_kind kw_for = TokenKind.kw_for
map_token_kind kw_from = TokenKind.kw_from
map_token_kind kw_handle = TokenKind.kw_handle
map_token_kind kw_if = TokenKind.kw_if
map_token_kind kw_import = TokenKind.kw_import
map_token_kind kw_in = TokenKind.kw_in
map_token_kind kw_let = TokenKind.kw_let
map_token_kind kw_match = TokenKind.kw_match
map_token_kind kw_mut = TokenKind.kw_mut
map_token_kind kw_not = TokenKind.kw_not
map_token_kind kw_or = TokenKind.kw_or
map_token_kind kw_perform = TokenKind.kw_perform
map_token_kind kw_pub = TokenKind.kw_pub
map_token_kind kw_repeat = TokenKind.kw_repeat
map_token_kind kw_requires = TokenKind.kw_requires
map_token_kind kw_struct = TokenKind.kw_struct
map_token_kind kw_true = TokenKind.kw_true
map_token_kind kw_while = TokenKind.kw_while
map_token_kind kw_with = TokenKind.kw_with
map_token_kind arrow = TokenKind.arrow
map_token_kind amp = TokenKind.amp
map_token_kind caret = TokenKind.caret
map_token_kind colon = TokenKind.colon
map_token_kind comma = TokenKind.comma
map_token_kind dot = TokenKind.dot
map_token_kind eq = TokenKind.eq
map_token_kind plus_eq = TokenKind.plus_eq
map_token_kind minus_eq = TokenKind.minus_eq
map_token_kind star_eq = TokenKind.star_eq
map_token_kind slash_eq = TokenKind.slash_eq
map_token_kind fat_arrow = TokenKind.fat_arrow
map_token_kind eq_eq = TokenKind.eq_eq
map_token_kind ge = TokenKind.ge
map_token_kind gt = TokenKind.gt
map_token_kind l_brace = TokenKind.l_brace
map_token_kind l_bracket = TokenKind.l_bracket
map_token_kind le = TokenKind.le
map_token_kind lt = TokenKind.lt
map_token_kind l_paren = TokenKind.l_paren
map_token_kind minus = TokenKind.minus
map_token_kind not_eq = TokenKind.not_eq
map_token_kind pipe = TokenKind.pipe
map_token_kind plus = TokenKind.plus
map_token_kind r_brace = TokenKind.r_brace
map_token_kind r_bracket = TokenKind.r_bracket
map_token_kind r_paren = TokenKind.r_paren
map_token_kind semicolon = TokenKind.semicolon
map_token_kind shl = TokenKind.shl
map_token_kind slash = TokenKind.slash
map_token_kind shr = TokenKind.shr
map_token_kind star = TokenKind.star
map_token_kind percent = TokenKind.percent
map_token_kind percent_eq = TokenKind.percent_eq
map_token_kind underscore = TokenKind.underscore
map_token_kind float = TokenKind.float
map_token_kind integer = TokenKind.integer
map_token_kind string = TokenKind.string
map_token_kind attr_repr = TokenKind.attr_repr
map_token_kind ident = TokenKind.ident
map_token_kind dot_dot = TokenKind.dot_dot
