-- ===== src/Parser/Kinds.antt =====
-- The kinds of tokens by number and by name: what `PartialEq` and `Debug`, which are derived in
-- crates/sarif_syntax/src/lib.rs, tell of a `TokenKind`.
use sarif.Base.{
  ℕ, ◌≡◌, refl, sym, ap, ◌∙◌, Bool, true, ◌==◌, ==_iff, some, List, [], ◌∷◌, get_elem?,
}
use sarif.Text.{Text, codes}
use sarif.Syntax.Token.{TokenKind}

unfoldable pub index : TokenKind → ℕ
index TokenKind.whitespace = 0
index TokenKind.newline = 1
index TokenKind.comment = 2
index TokenKind.ident = 3
index TokenKind.integer = 4
index TokenKind.float = 5
index TokenKind.string = 6
index TokenKind.kw_and = 7
index TokenKind.kw_const = 8
index TokenKind.kw_comptime = 9
index TokenKind.kw_ensures = 10
index TokenKind.kw_extern = 11
index TokenKind.kw_effect = 12
index TokenKind.kw_enum = 13
index TokenKind.kw_effects = 14
index TokenKind.kw_else = 15
index TokenKind.kw_false = 16
index TokenKind.kw_fn = 17
index TokenKind.kw_for = 18
index TokenKind.kw_from = 19
index TokenKind.kw_handle = 20
index TokenKind.kw_if = 21
index TokenKind.kw_import = 22
index TokenKind.kw_in = 23
index TokenKind.kw_let = 24
index TokenKind.kw_match = 25
index TokenKind.kw_mut = 26
index TokenKind.kw_not = 27
index TokenKind.kw_or = 28
index TokenKind.kw_perform = 29
index TokenKind.kw_pub = 30
index TokenKind.kw_repeat = 31
index TokenKind.kw_requires = 32
index TokenKind.kw_struct = 33
index TokenKind.kw_true = 34
index TokenKind.kw_while = 35
index TokenKind.kw_with = 36
index TokenKind.arrow = 37
index TokenKind.amp = 38
index TokenKind.caret = 39
index TokenKind.colon = 40
index TokenKind.comma = 41
index TokenKind.dot = 42
index TokenKind.dot_dot = 43
index TokenKind.eq = 44
index TokenKind.plus_eq = 45
index TokenKind.minus_eq = 46
index TokenKind.star_eq = 47
index TokenKind.slash_eq = 48
index TokenKind.fat_arrow = 49
index TokenKind.eq_eq = 50
index TokenKind.ge = 51
index TokenKind.gt = 52
index TokenKind.l_brace = 53
index TokenKind.l_bracket = 54
index TokenKind.le = 55
index TokenKind.lt = 56
index TokenKind.l_paren = 57
index TokenKind.minus = 58
index TokenKind.not_eq = 59
index TokenKind.pipe = 60
index TokenKind.plus = 61
index TokenKind.r_brace = 62
index TokenKind.r_bracket = 63
index TokenKind.r_paren = 64
index TokenKind.semicolon = 65
index TokenKind.shl = 66
index TokenKind.slash = 67
index TokenKind.shr = 68
index TokenKind.star = 69
index TokenKind.percent = 70
index TokenKind.percent_eq = 71
index TokenKind.underscore = 72
index TokenKind.attr_repr = 73
index TokenKind.invalid = 74
index TokenKind.eof = 75

-- Every kind, at its number.
abbrev kinds : List TokenKind
kinds =
    TokenKind.whitespace ∷ TokenKind.newline ∷ TokenKind.comment ∷ TokenKind.ident
    ∷ TokenKind.integer ∷ TokenKind.float ∷ TokenKind.string ∷ TokenKind.kw_and ∷ TokenKind.kw_const
    ∷ TokenKind.kw_comptime ∷ TokenKind.kw_ensures ∷ TokenKind.kw_extern ∷ TokenKind.kw_effect
    ∷ TokenKind.kw_enum ∷ TokenKind.kw_effects ∷ TokenKind.kw_else ∷ TokenKind.kw_false
    ∷ TokenKind.kw_fn ∷ TokenKind.kw_for ∷ TokenKind.kw_from ∷ TokenKind.kw_handle ∷ TokenKind.kw_if
    ∷ TokenKind.kw_import ∷ TokenKind.kw_in ∷ TokenKind.kw_let ∷ TokenKind.kw_match
    ∷ TokenKind.kw_mut ∷ TokenKind.kw_not ∷ TokenKind.kw_or ∷ TokenKind.kw_perform
    ∷ TokenKind.kw_pub ∷ TokenKind.kw_repeat ∷ TokenKind.kw_requires ∷ TokenKind.kw_struct
    ∷ TokenKind.kw_true ∷ TokenKind.kw_while ∷ TokenKind.kw_with ∷ TokenKind.arrow ∷ TokenKind.amp
    ∷ TokenKind.caret ∷ TokenKind.colon ∷ TokenKind.comma ∷ TokenKind.dot ∷ TokenKind.dot_dot
    ∷ TokenKind.eq ∷ TokenKind.plus_eq ∷ TokenKind.minus_eq ∷ TokenKind.star_eq ∷ TokenKind.slash_eq
    ∷ TokenKind.fat_arrow ∷ TokenKind.eq_eq ∷ TokenKind.ge ∷ TokenKind.gt ∷ TokenKind.l_brace
    ∷ TokenKind.l_bracket ∷ TokenKind.le ∷ TokenKind.lt ∷ TokenKind.l_paren ∷ TokenKind.minus
    ∷ TokenKind.not_eq ∷ TokenKind.pipe ∷ TokenKind.plus ∷ TokenKind.r_brace ∷ TokenKind.r_bracket
    ∷ TokenKind.r_paren ∷ TokenKind.semicolon ∷ TokenKind.shl ∷ TokenKind.slash ∷ TokenKind.shr
    ∷ TokenKind.star ∷ TokenKind.percent ∷ TokenKind.percent_eq ∷ TokenKind.underscore
    ∷ TokenKind.attr_repr ∷ TokenKind.invalid ∷ TokenKind.eof ∷ []

get_elem?-index : (k : TokenKind) → get_elem? kinds (index k) ≡ some k
unfolding index
get_elem?-index TokenKind.whitespace = refl
get_elem?-index _ = refl

some_injective : {A : Type 0} {a b : A} → some a ≡ some b → a ≡ b
some_injective {a} {b} e = cc

-- `==` on kinds
unfoldable pub same_kind : TokenKind → TokenKind → Bool
unfolding index
same_kind j k = index j == index k

pub same_kind_eq : (j k : TokenKind) → same_kind j k ≡ true → j ≡ k
unfolding same_kind
same_kind_eq j k h = some_injective (
    sym (get_elem?-index j)
    ∙ (ap (get_elem? kinds) ((==_iff (index j) (index k)).0 h) ∙ get_elem?-index k))

-- `{:?}` of a kind
unfoldable pub debug : TokenKind → Text
debug TokenKind.whitespace = codes "Whitespace"
debug TokenKind.newline = codes "Newline"
debug TokenKind.comment = codes "Comment"
debug TokenKind.ident = codes "Ident"
debug TokenKind.integer = codes "Integer"
debug TokenKind.float = codes "Float"
debug TokenKind.string = codes "String"
debug TokenKind.kw_and = codes "KwAnd"
debug TokenKind.kw_const = codes "KwConst"
debug TokenKind.kw_comptime = codes "KwComptime"
debug TokenKind.kw_ensures = codes "KwEnsures"
debug TokenKind.kw_extern = codes "KwExtern"
debug TokenKind.kw_effect = codes "KwEffect"
debug TokenKind.kw_enum = codes "KwEnum"
debug TokenKind.kw_effects = codes "KwEffects"
debug TokenKind.kw_else = codes "KwElse"
debug TokenKind.kw_false = codes "KwFalse"
debug TokenKind.kw_fn = codes "KwFn"
debug TokenKind.kw_for = codes "KwFor"
debug TokenKind.kw_from = codes "KwFrom"
debug TokenKind.kw_handle = codes "KwHandle"
debug TokenKind.kw_if = codes "KwIf"
debug TokenKind.kw_import = codes "KwImport"
debug TokenKind.kw_in = codes "KwIn"
debug TokenKind.kw_let = codes "KwLet"
debug TokenKind.kw_match = codes "KwMatch"
debug TokenKind.kw_mut = codes "KwMut"
debug TokenKind.kw_not = codes "KwNot"
debug TokenKind.kw_or = codes "KwOr"
debug TokenKind.kw_perform = codes "KwPerform"
debug TokenKind.kw_pub = codes "KwPub"
debug TokenKind.kw_repeat = codes "KwRepeat"
debug TokenKind.kw_requires = codes "KwRequires"
debug TokenKind.kw_struct = codes "KwStruct"
debug TokenKind.kw_true = codes "KwTrue"
debug TokenKind.kw_while = codes "KwWhile"
debug TokenKind.kw_with = codes "KwWith"
debug TokenKind.arrow = codes "Arrow"
debug TokenKind.amp = codes "Amp"
debug TokenKind.caret = codes "Caret"
debug TokenKind.colon = codes "Colon"
debug TokenKind.comma = codes "Comma"
debug TokenKind.dot = codes "Dot"
debug TokenKind.dot_dot = codes "DotDot"
debug TokenKind.eq = codes "Eq"
debug TokenKind.plus_eq = codes "PlusEq"
debug TokenKind.minus_eq = codes "MinusEq"
debug TokenKind.star_eq = codes "StarEq"
debug TokenKind.slash_eq = codes "SlashEq"
debug TokenKind.fat_arrow = codes "FatArrow"
debug TokenKind.eq_eq = codes "EqEq"
debug TokenKind.ge = codes "Ge"
debug TokenKind.gt = codes "Gt"
debug TokenKind.l_brace = codes "LBrace"
debug TokenKind.l_bracket = codes "LBracket"
debug TokenKind.le = codes "Le"
debug TokenKind.lt = codes "Lt"
debug TokenKind.l_paren = codes "LParen"
debug TokenKind.minus = codes "Minus"
debug TokenKind.not_eq = codes "NotEq"
debug TokenKind.pipe = codes "Pipe"
debug TokenKind.plus = codes "Plus"
debug TokenKind.r_brace = codes "RBrace"
debug TokenKind.r_bracket = codes "RBracket"
debug TokenKind.r_paren = codes "RParen"
debug TokenKind.semicolon = codes "Semicolon"
debug TokenKind.shl = codes "Shl"
debug TokenKind.slash = codes "Slash"
debug TokenKind.shr = codes "Shr"
debug TokenKind.star = codes "Star"
debug TokenKind.percent = codes "Percent"
debug TokenKind.percent_eq = codes "PercentEq"
debug TokenKind.underscore = codes "Underscore"
debug TokenKind.attr_repr = codes "AttrRepr"
debug TokenKind.invalid = codes "Invalid"
debug TokenKind.eof = codes "Eof"
