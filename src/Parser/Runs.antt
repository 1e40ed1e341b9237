-- ===== src/Parser/Runs.antt =====
-- What it is for a piece of crates/sarif_syntax/src/parser.rs to run: to end, without going back, with
-- each token that has a lexeme either among the children or still to come.
use sarif.Base.{
  ℕ, ◌+◌, ◌≤◌, ◌<◌, ◌≡◌, Bool, true, false, not, ◌&&◌, Option, some, List, [], ◌∷◌, ◌++◌, length,
}
use sarif.Syntax.Token.{Token, TokenKind, is_trivia}
use sarif.Syntax.Tree.{Elements}
use sarif.Parser.Kinds.{same_kind}
use sarif.Parser.State.{Parser, peek_trivia_then}
use sarif.Parser.Build.{Build}
use sarif.Parser.Leaves.{written, elements_leaves}

-- Neither the end nor the word `handle`.
unfoldable pub is_plain : TokenKind → Bool
unfolding same_kind
is_plain k = not (same_kind k TokenKind.eof) && not (same_kind k TokenKind.kw_handle)

-- The last token, and only the last, is `Eof`; it has no text, and none is `handle`.
unfoldable pub IsEnded : Token → List Token → Type 0
IsEnded t [] = (t.kind ≡ TokenKind.eof) × (t.lexeme ≡ [])
IsEnded t (u ∷ us) = (is_plain t.kind ≡ true) × IsEnded u us

abbrev pub IsWell : Parser → Type 0
IsWell s = IsEnded s.current s.later

abbrev pub size : Parser → ℕ
size s = length s.later

abbrev pub unread : Parser → List Token
unread s = written (s.current ∷ s.later)

-- What is known of a parser before or after a piece.
abbrev pub Fact : Type 1
Fact = Parser → Type 0

unfoldable pub Any : Fact
Any s = Unit

unfoldable pub Clean : Fact
Clean s = is_trivia s.current.kind ≡ false

unfoldable pub Here : TokenKind → Fact
Here k s = s.current.kind ≡ k

unfoldable pub Peeks : TokenKind → Fact
Peeks k s = peek_trivia_then k s ≡ true

-- A result that has read at least `d` more tokens.
pub record Outcome (d : ℕ) (Q : Fact) (r : Option (Elements × Parser)) (cs : Elements) (s : Parser)
    : Type 0 where
  pub children : Elements
  pub after : Parser
  pub ran : r ≡ some (children, after)
  pub well : IsWell after
  pub fact : Q after
  pub forward : size after + d ≤ size s
  pub kept : elements_leaves children ++ unread after ≡ elements_leaves cs ++ unread s

-- A piece ends, on parsers with fewer than `m` later tokens.
pub record Runs (d : ℕ) (P : Fact) (m : ℕ) (b : Build) (Q : Fact) : Type 0 where
  pub run : (cs : Elements) (s : Parser) → IsWell s → size s < m → P s → Outcome d Q (b cs s) cs s
