-- ===== src/Ast/Laws.antt =====
-- What the lowering of literals gives, crates/sarif_syntax/src/ast.rs.
use sarif.Ast.Tokens.{IsFirst, HasToken, first_token-IsFirst, any_minus-HasToken, not-HasToken}
use sarif.Base.{
  ℕ, ◌+◌, ◌^◌, ◌≡◌, refl, ap, ◌∙◌, ◌==◌, ==_iff, Bool, true, false, Option, none, some, [], ◌∷◌,
  ◌++◌, ltb, Bool-cases, inl, inr, ◌⊎◌, if◌then◌else◌,
}
use sarif.Base.Int.{ℤ, pos}
use sarif.Text.{Text, parse_i64, show_ℕ, negate}
use sarif.Text.Numbers.{parse_i64-show_ℕ, parse_i64-minus}
use sarif.Syntax.Token.{Token, TokenKind}
use sarif.Syntax.Tree.{Elements}
use sarif.Ast.Literals.{
  escaped, unescape_string, first_token, any_minus, signed_numeric_lexeme, IntegerExpr,
  lower_integer_expr,
}

-- A character as it is written in a literal.
unfoldable pub escape_char : ℕ → Text
escape_char c =
    if c == 92
    then 92 ∷ 92 ∷ []
    else if c == 34
    then 92 ∷ 34 ∷ []
    else if c == 10
    then 92 ∷ 110 ∷ []
    else if c == 9
    then 92 ∷ 116 ∷ []
    else if c == 13
    then 92 ∷ 114 ∷ []
    else if c == 0
    then 92 ∷ 48 ∷ []
    else c ∷ []

-- A text as it is written in a literal.
unfoldable pub escape : Text → Text
unfolding escape_char
escape [] = []
escape (c ∷ cs) = escape_char c ++ escape cs

plain_char :
    (c : ℕ) (t : Text) → (c == 92) ≡ false → unescape_string (c ∷ t) ≡ c ∷ unescape_string t
unfolding unescape_string
plain_char c [] e = refl
plain_char c (d ∷ ds) e = rw e refl

escape_undone : (c : ℕ) (t : Text) → unescape_string (escape_char c ++ t) ≡ c ∷ unescape_string t
unfolding escape_char unescape_string escaped
escape_undone c t = elim (Bool-cases (c == 92)) [
  | inl e ↦ let same : c ≡ 92 = (==_iff c 92).0 e in rw same refl
  | inr a ↦ elim (Bool-cases (c == 34)) [
    | inl e ↦ let same : c ≡ 34 = (==_iff c 34).0 e in rw same refl
    | inr b ↦ elim (Bool-cases (c == 10)) [
      | inl e ↦ let same : c ≡ 10 = (==_iff c 10).0 e in rw same refl
      | inr d ↦ elim (Bool-cases (c == 9)) [
        | inl e ↦ let same : c ≡ 9 = (==_iff c 9).0 e in rw same refl
        | inr f ↦ elim (Bool-cases (c == 13)) [
          | inl e ↦ let same : c ≡ 13 = (==_iff c 13).0 e in rw same refl
          | inr g ↦ elim (Bool-cases (c == 0)) [
            | inl e ↦ let same : c ≡ 0 = (==_iff c 0).0 e in rw same refl
            | inr h ↦ rw (a, b, d, f, g, h) (plain_char c t a)
          ]
        ]
      ]
    ]
  ]
]

-- The escapes of a text in a literal are undone: what is written with a backslash in front of a
-- backslash and a quote, and as a letter or 0 after a backslash for the line feed, the tabulator, the
-- carriage return and the null character, is read as the text.
pub unescape_string-escape : (s : Text) → unescape_string (escape s) ≡ s
unfolding escape unescape_string
unescape_string-escape [] = refl
unescape_string-escape (c ∷ cs) =
    escape_undone c (escape cs) ∙ ap (λ t. c ∷ t) (unescape_string-escape cs)

-- What an integer literal is lowered to, by whether a minus stands in front of it.
unfoldable pub integer_of : Bool → ℕ → Option ℤ
unfolding negate
integer_of true n = if ltb n (2 ^ 63 + 1) then some (negate n) else none
integer_of false n = if ltb n (2 ^ 63) then some (pos n) else none

unfoldable pub with_span : Token → Option ℤ → Option IntegerExpr
with_span t none = none
with_span t (some v) = some (record { value = v; span = t.span })

signed_read :
    (b : Bool) (n : ℕ) (lexeme : Text)
    → lexeme ≡ show_ℕ n
    → parse_i64 (if b then 45 ∷ lexeme else lexeme) ≡ integer_of b n
unfolding integer_of
signed_read true n lexeme e = ap (λ t. parse_i64 (45 ∷ t)) e ∙ parse_i64-minus n
signed_read false n lexeme e = ap parse_i64 e ∙ parse_i64-show_ℕ n

lowered :
    (t : Token) (r s : Option ℤ)
    → r ≡ s
    → elim r [ none ↦ none | some value ↦ some (record { value = value; span = t.span }) ]
      ≡ with_span t s
unfolding with_span
lowered t r none e = rw e refl
lowered t r (some v) e = rw e refl

signed_lowered :
    (b : Bool) (children : Elements) (t : Token) (n : ℕ)
    → any_minus children ≡ b
    → first_token TokenKind.integer children ≡ some t
    → t.lexeme ≡ show_ℕ n
    → lower_integer_expr children ≡ with_span t (integer_of b n)
unfolding lower_integer_expr signed_numeric_lexeme
signed_lowered b children t n m e f =
    rw (e, lower_integer_expr)
      (rw m (
        lowered t (parse_i64 (if b then 45 ∷ t.lexeme else t.lexeme)) (integer_of b n)
          (signed_read b n t.lexeme f)))

-- An integer literal is read exactly. Let the first token of kind `Integer` that stands among the
-- children themselves have the digits of a number. If a token of kind `Minus` stands among the
-- children, the value is the number's negative, and there is none if that does not fit `i64`; if no
-- such token does, the value is the number, and there is none if that does not fit.
pub lower_integer_expr-exact :
    (children : Elements) (t : Token) (n : ℕ)
    → IsFirst TokenKind.integer t children
    → t.lexeme ≡ show_ℕ n
    → (HasToken TokenKind.minus children
        × (lower_integer_expr children ≡ with_span t (integer_of true n)))
      ⊎ (¬ HasToken TokenKind.minus children
          × (lower_integer_expr children ≡ with_span t (integer_of false n)))
lower_integer_expr-exact children t n first f =
    let e = first_token-IsFirst first in
    elim (Bool-cases (any_minus children)) [
      | inl m ↦ inl (any_minus-HasToken children m, signed_lowered true children t n m e f)
      | inr m ↦ inr (not-HasToken children m, signed_lowered false children t n m e f)
    ]
