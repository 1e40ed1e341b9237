-- ===== src/Ast/Tokens.antt =====
-- Which tokens stand among the children of a node, for the literals of
-- crates/sarif_syntax/src/ast.rs, said without its functions.
use sarif.Base.{◌≡◌, refl, ap, true, false, some, inl, inr, Bool-cases, ==_iff}
use sarif.Syntax.Token.{Token, TokenKind}
use sarif.Syntax.Tree.{Node, a_node, a_token, Element, Elements, none_left, element}
use sarif.Parser.Kinds.{index, same_kind, same_kind_eq}
use sarif.Ast.Literals.{first_token, any_minus}

-- A token of a kind stands among the children.
pub data HasToken (k : TokenKind) : Elements → Type 0 where
  there : {t : Token} {es : Elements} → t.kind ≡ k → HasToken k (element (a_token t) es)
  later : {e : Element} {es : Elements} → HasToken k es → HasToken k (element e es)

-- A token is the first of its kind among the children; those inside a child do not count.
pub data IsFirst (k : TokenKind) (t : Token) : Elements → Type 0 where
  here : {es : Elements} → t.kind ≡ k → IsFirst k t (element (a_token t) es)
  past_node : {n : Node} {es : Elements} → IsFirst k t es → IsFirst k t (element (a_node n) es)
  past_token :
      {u : Token} {es : Elements}
      → ¬ (u.kind ≡ k)
      → IsFirst k t es
      → IsFirst k t (element (a_token u) es)

same_kind_self : (j k : TokenKind) → j ≡ k → same_kind j k ≡ true
unfolding same_kind
same_kind_self j k e = (==_iff (index j) (index k)).1 (ap index e)

same_kind_other : (j k : TokenKind) → ¬ (j ≡ k) → same_kind j k ≡ false
same_kind_other j k d = elim (Bool-cases (same_kind j k)) [
  | inl s ↦ absurd (d (same_kind_eq j k s))
  | inr s ↦ s
]

pub first_token-IsFirst :
    {k : TokenKind} {t : Token} {es : Elements} → IsFirst k t es → first_token k es ≡ some t
unfolding first_token
first_token-IsFirst (here {es} e) = rw (same_kind_self _ _ e) refl
first_token-IsFirst (past_node f) = first_token-IsFirst f
first_token-IsFirst (past_token {u} {es} d f) = rw (same_kind_other _ _ d) (first_token-IsFirst f)

pub any_minus-HasToken : (es : Elements) → any_minus es ≡ true → HasToken TokenKind.minus es
unfolding any_minus
any_minus-HasToken none_left h = absurd (cc)
any_minus-HasToken (element (a_node n) es) h = later (any_minus-HasToken es h)
any_minus-HasToken (element (a_token t) es) h =
    elim (Bool-cases (same_kind t.kind TokenKind.minus)) [
      | inl s ↦ there (same_kind_eq t.kind TokenKind.minus s)
      | inr s ↦ later (any_minus-HasToken es (rw s at h))
    ]

HasToken-any_minus : {es : Elements} → HasToken TokenKind.minus es → any_minus es ≡ true
unfolding any_minus
HasToken-any_minus (there {t} {es} e) = rw (same_kind_self _ _ e) refl
HasToken-any_minus (later {e = a_node n} h) = HasToken-any_minus h
HasToken-any_minus (later {e = a_token t} h) =
    elim (Bool-cases (same_kind t.kind TokenKind.minus)) [
      | inl s ↦ rw s refl
      | inr s ↦ rw s (HasToken-any_minus h)
    ]

pub not-HasToken : (es : Elements) → any_minus es ≡ false → ¬ HasToken TokenKind.minus es
not-HasToken es h m = let wrong : true ≡ false = cc (HasToken-any_minus m) in absurd (cc)
