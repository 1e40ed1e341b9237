-- ===== src/Ast/Tests.antt =====
-- Tests and examples of the lowering of literals.
use sarif.Base.{◌≡◌, refl, true, false, none, some, [], ◌∷◌, ◌⊎◌, sym, ap}
use sarif.Base.Int.{negsuc}
use sarif.Text.{Text, codes, show_ℕ}
use sarif.Syntax.Token.{Token, TokenKind, span}
use sarif.Syntax.Tree.{a_token, Elements, none_left, element}
use sarif.Parser.Kinds.{same_kind}
use sarif.Ast.Literals.{unescape_string, lower_integer_expr, has_interpolation}
use sarif.Ast.Tokens.{HasToken, IsFirst, here, past_token}
use sarif.Parser.Ready.{absurd_truth}
use sarif.Ast.Laws.{escape, unescape_string-escape, integer_of, with_span, lower_integer_expr-exact}

-- A letter, a line feed, a backslash and a quote.
abbrev mixed : Text
mixed = 97 ∷ 10 ∷ 92 ∷ 34 ∷ []

unescape_string-escape_example : unescape_string (escape mixed) ≡ mixed
unescape_string-escape_example = unescape_string-escape mixed

trailing : unescape_string (97 ∷ 92 ∷ []) ≡ 97 ∷ 92 ∷ []
unfolding unescape_string
trailing = refl

unknown : unescape_string (92 ∷ 113 ∷ []) ≡ 92 ∷ 113 ∷ []
unfolding unescape_string
unknown = refl

abbrev minus_token : Token
minus_token = record { kind = TokenKind.minus; lexeme = codes "-"; span = span 0 1 }

abbrev number_token : Token
number_token = record { kind = TokenKind.integer; lexeme = codes "42"; span = span 1 3 }

abbrev negative : Elements
negative = element (a_token minus_token) (element (a_token number_token) none_left)

number-IsFirst : IsFirst TokenKind.integer number_token negative
unfolding same_kind
number-IsFirst =
    past_token (λ e. absurd_truth (sym (ap (λ k. same_kind k TokenKind.minus) e))) (here refl)

number_written : number_token.lexeme ≡ show_ℕ 42
unfolding show_ℕ
number_written = refl

lower_integer_expr-exact_example :
    (HasToken TokenKind.minus negative
      × (lower_integer_expr negative ≡ with_span number_token (integer_of true 42)))
    ⊎ (¬ HasToken TokenKind.minus negative
        × (lower_integer_expr negative ≡ with_span number_token (integer_of false 42)))
lower_integer_expr-exact_example =
    lower_integer_expr-exact negative number_token 42 number-IsFirst number_written

lowest : integer_of true 9223372036854775808 ≡ some (negsuc 9223372036854775807)
unfolding integer_of
lowest = refl

too_low : integer_of true 9223372036854775809 ≡ none
unfolding integer_of
too_low = refl

interpolated : has_interpolation (codes "a {b}") ≡ true
unfolding has_interpolation
interpolated = refl

doubled : has_interpolation (codes "a {{b") ≡ false
unfolding has_interpolation
doubled = refl
