-- ===== src/Parser/Peek.antt =====
-- The tests of crates/sarif_syntax/src/parser.rs that look ahead, and the binding powers.
use sarif.Base.{
  ℕ, ◌+◌, ◌-◌, ◌==◌, Bool, true, false, ◌&&◌, ◌||◌, Option, none, some, List, [], ◌∷◌,
  if◌then◌else◌,
}
use sarif.Syntax.Token.{Token, TokenKind, is_trivia}
use sarif.Parser.State.{Parser, at, after_trivia, first_kind, has_kind, peek_non_trivia_kind}

-- `Self::starts_expr(kind)`
unfoldable pub starts_expr : TokenKind → Bool
starts_expr TokenKind.integer = true
starts_expr TokenKind.float = true
starts_expr TokenKind.minus = true
starts_expr TokenKind.string = true
starts_expr TokenKind.kw_true = true
starts_expr TokenKind.kw_false = true
starts_expr TokenKind.ident = true
starts_expr TokenKind.l_bracket = true
starts_expr TokenKind.l_paren = true
starts_expr TokenKind.kw_if = true
starts_expr TokenKind.kw_match = true
starts_expr TokenKind.kw_repeat = true
starts_expr TokenKind.kw_for = true
starts_expr TokenKind.kw_while = true
starts_expr TokenKind.kw_comptime = true
starts_expr TokenKind.kw_handle = true
starts_expr _ = false

-- What a token leads a scan to: the end with an answer, or on from another place.
pub data Verdict (A : Type 0) : Type 0 where
  answer : Bool → Verdict A
  goes : A → Verdict A

-- A round of the loop of `next_expr_is_statement`, at a depth of brackets.
unfoldable depth_after : ℕ → TokenKind → Verdict ℕ
depth_after depth TokenKind.l_paren = goes (depth + 1)
depth_after depth TokenKind.l_bracket = goes (depth + 1)
depth_after depth TokenKind.l_brace = goes (depth + 1)
depth_after depth TokenKind.r_paren = if depth == 0 then answer false else goes (depth - 1)
depth_after depth TokenKind.r_bracket = if depth == 0 then answer false else goes (depth - 1)
depth_after depth TokenKind.r_brace = if depth == 0 then answer false else goes (depth - 1)
depth_after depth TokenKind.semicolon = if depth == 0 then answer true else goes depth
depth_after depth _ = goes depth

unfoldable statement_from : ℕ → List Token → Bool
unfolding depth_after
statement_from depth [] = false
statement_from depth (t ∷ ts) = elim (depth_after depth t.kind) [
  | answer b ↦ b
  | goes d ↦ statement_from d ts
]

-- `self.next_expr_is_statement()`
unfoldable pub next_expr_is_statement : Parser → Bool
unfolding statement_from
next_expr_is_statement s = statement_from 0 (s.current ∷ s.later)

-- Where `next_name_is_assign_statement` stands: before the name, after it or a part of it, after a
-- dot, or in brackets.
pub data Place : Type 0 where
  before_name after_part after_dot : Place
  in_brackets : ℕ → Place

unfoldable assigns : TokenKind → Bool
assigns TokenKind.eq = true
assigns TokenKind.plus_eq = true
assigns TokenKind.minus_eq = true
assigns TokenKind.star_eq = true
assigns TokenKind.slash_eq = true
assigns _ = false

unfoldable place_after : Place → TokenKind → Verdict Place
unfolding is_trivia assigns
place_after (in_brackets d) TokenKind.l_bracket = goes (in_brackets (d + 1))
place_after (in_brackets d) TokenKind.r_bracket =
    if d - 1 == 0 then goes after_part else goes (in_brackets (d - 1))
place_after (in_brackets d) _ = goes (in_brackets d)
place_after before_name TokenKind.ident = goes after_part
place_after after_dot TokenKind.ident = goes after_part
place_after after_part TokenKind.dot = goes after_dot
place_after after_part TokenKind.l_bracket = goes (in_brackets 1)
place_after after_part k = if is_trivia k then goes after_part else answer (assigns k)
place_after p k = if is_trivia k then goes p else answer false

unfoldable assign_from : Place → List Token → Bool
unfolding place_after
assign_from p [] = false
assign_from p (t ∷ ts) = elim (place_after p t.kind) [ answer b ↦ b | goes q ↦ assign_from q ts ]

-- `self.next_name_is_assign_statement()`, whose indices go through the tokens once.
unfoldable pub next_name_is_assign_statement : Parser → Bool
unfolding assign_from
next_name_is_assign_statement s = assign_from before_name (s.current ∷ s.later)

tail : List Token → List Token
tail [] = []
tail (_ ∷ ts) = ts

ends_field : Option TokenKind → Bool
ends_field (some TokenKind.colon) = true
ends_field (some TokenKind.comma) = true
ends_field (some TokenKind.r_brace) = true
ends_field _ = false

-- `self.starts_record_literal()`
unfoldable pub starts_record_literal : Parser → Bool
unfolding has_kind first_kind after_trivia tail ends_field
starts_record_literal s =
    let brace = after_trivia (s.current ∷ s.later) in
    let name = after_trivia (tail brace) in
    let end = after_trivia (tail name) in
    has_kind TokenKind.l_brace brace
    && (has_kind TokenKind.r_brace name
        || has_kind TokenKind.ident name && ends_field (first_kind end))

starts_pattern : Option TokenKind → Bool
starts_pattern (some TokenKind.ident) = true
starts_pattern (some TokenKind.integer) = true
starts_pattern (some TokenKind.string) = true
starts_pattern (some TokenKind.kw_true) = true
starts_pattern (some TokenKind.kw_false) = true
starts_pattern (some TokenKind.underscore) = true
starts_pattern _ = false

-- `self.starts_match_pattern()`
unfoldable pub starts_match_pattern : Parser → Bool
unfolding starts_pattern peek_non_trivia_kind
starts_match_pattern s = starts_pattern (peek_non_trivia_kind s)

-- `repeat_has_binding`
unfoldable pub repeat_has_binding : Parser → Bool
unfolding at has_kind after_trivia
repeat_has_binding s = at TokenKind.ident s && has_kind TokenKind.kw_in (after_trivia s.later)

unfoldable pub infix_binding_power : TokenKind → Option (ℕ × ℕ)
infix_binding_power TokenKind.kw_or = some (1, 2)
infix_binding_power TokenKind.kw_and = some (3, 4)
infix_binding_power TokenKind.pipe = some (5, 6)
infix_binding_power TokenKind.caret = some (7, 8)
infix_binding_power TokenKind.amp = some (9, 10)
infix_binding_power TokenKind.eq_eq = some (11, 12)
infix_binding_power TokenKind.not_eq = some (11, 12)
infix_binding_power TokenKind.lt = some (11, 12)
infix_binding_power TokenKind.le = some (11, 12)
infix_binding_power TokenKind.gt = some (11, 12)
infix_binding_power TokenKind.ge = some (11, 12)
infix_binding_power TokenKind.shl = some (13, 14)
infix_binding_power TokenKind.shr = some (13, 14)
infix_binding_power TokenKind.plus = some (15, 16)
infix_binding_power TokenKind.minus = some (15, 16)
infix_binding_power TokenKind.star = some (17, 18)
infix_binding_power TokenKind.slash = some (17, 18)
infix_binding_power TokenKind.percent = some (17, 18)
infix_binding_power _ = none
