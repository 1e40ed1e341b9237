-- ===== src/Parser/State.antt =====
-- The state of crates/sarif_syntax/src/parser.rs `Parser`. Of the tokens and the cursor it keeps the
-- tokens from the cursor on: the current one and the later ones. The last token is never passed.
use sarif.Base.{Bool, true, false, Option, none, some, List, [], ◌∷◌, if◌then◌else◌}
use sarif.Syntax.Token.{Token, TokenKind, Diagnostic, is_trivia}
use sarif.Syntax.Tree.{Element, Elements, none_left, element}
use sarif.Parser.Kinds.{same_kind}

pub record Parser : Type 0 where
  pub current : Token
  pub later : List Token
  pub diagnostics : List Diagnostic

-- `self.at(kind)`
unfoldable pub at : TokenKind → Parser → Bool
unfolding same_kind
at k s = same_kind s.current.kind k

-- The cursor after `bump`, which stays at the last token.
unfoldable pub advance : Parser → Parser
advance s = elim s.later [ [] ↦ s | t ∷ ts ↦ record s { current = t; later = ts } ]

-- `children.push(e)`
unfoldable pub push : Elements → Element → Elements
push none_left e = element e none_left
push (element f es) e = element f (push es e)

-- `children.extend(others)`
unfoldable pub push_all : Elements → Elements → Elements
push_all none_left others = others
push_all (element f es) others = element f (push_all es others)

-- `is_trivia` of the token at an index, and the kind of the first that is not, from a token on; at
-- the end there is none.
unfoldable pub after_trivia : List Token → List Token
unfolding is_trivia
after_trivia [] = []
after_trivia (t ∷ ts) = let rest = after_trivia ts in if is_trivia t.kind then rest else t ∷ ts

unfoldable pub first_kind : List Token → Option TokenKind
first_kind [] = none
first_kind (t ∷ _) = some t.kind

-- `self.peek_non_trivia_kind()` and `self.current_non_trivia_kind()`
unfoldable pub peek_non_trivia_kind : Parser → Option TokenKind
unfolding first_kind after_trivia
peek_non_trivia_kind s = first_kind (after_trivia (s.current ∷ s.later))

-- `token.kind == kind` of a token that may be missing
unfoldable pub has_kind : TokenKind → List Token → Bool
unfolding same_kind
has_kind k [] = false
has_kind k (t ∷ _) = same_kind t.kind k

-- `self.peek_trivia_then(kind)`
unfoldable pub peek_trivia_then : TokenKind → Parser → Bool
unfolding has_kind after_trivia
peek_trivia_then k s = has_kind k (after_trivia (s.current ∷ s.later))

unfoldable pub number_of : Option TokenKind → Bool
number_of (some TokenKind.integer) = true
number_of (some TokenKind.float) = true
number_of _ = false

-- `self.next_non_trivia_kind_is_numeric_literal()`
unfoldable pub next_non_trivia_kind_is_numeric_literal : Parser → Bool
unfolding number_of first_kind after_trivia
next_non_trivia_kind_is_numeric_literal s = number_of (first_kind (after_trivia s.later))
