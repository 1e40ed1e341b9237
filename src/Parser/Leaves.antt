-- ===== src/Parser/Leaves.antt =====
-- The leaves of a tree: the tokens in it that have a lexeme, in their order. A token that stands in for
-- a missing one has none.
use sarif.Base.{ℕ, ◌≡◌, refl, sym, ap, ◌∙◌, List, [], ◌∷◌, ◌++◌}
use mathlib.Core.List.{append_assoc, append-nil}
use sarif.Text.{Text}
use sarif.Syntax.Token.{Token}
use sarif.Syntax.Lossless.{text_of}
use sarif.Syntax.Tree.{
  Element, a_node, a_token, Node, node, Elements, none_left, element, NodeKind, new_node,
  empty_node,
}
use sarif.Parser.State.{push, push_all}
use sarif.Parser.Build.{list_node}
use sarif.Parser.Items.{adopt}

unfoldable pub keep : Text → Token → List Token
keep [] t = []
keep (c ∷ cs) t = t ∷ []

abbrev pub with_text : Token → List Token
with_text t = keep t.lexeme t

pub with_text-nil : (t : Token) → t.lexeme ≡ [] → with_text t ≡ []
unfolding keep
with_text-nil t e = ap (λ x. keep x t) e

-- The tokens with a lexeme.
unfoldable pub written : List Token → List Token
unfolding keep
written [] = []
written (t ∷ ts) = with_text t ++ written ts

unfoldable mutual
  unfolding keep

  pub element_leaves : Element → List Token
  element_leaves (a_node n) = node_leaves n
  element_leaves (a_token t) = with_text t

  pub node_leaves : Node → List Token
  node_leaves (node _ _ es) = elements_leaves es

  pub elements_leaves : Elements → List Token
  elements_leaves none_left = []
  elements_leaves (element e es) = element_leaves e ++ elements_leaves es

-- The text of a tree.
abbrev pub node_text : Node → Text
node_text n = text_of (node_leaves n)

pub elements_leaves-push :
    (es : Elements) (e : Element)
    → elements_leaves (push es e) ≡ elements_leaves es ++ element_leaves e
unfolding elements_leaves push
elements_leaves-push none_left e = append-nil (element_leaves e)
elements_leaves-push (element f es) e =
    ap (λ t. element_leaves f ++ t) (elements_leaves-push es e)
    ∙ sym (append_assoc (element_leaves f) (elements_leaves es) (element_leaves e))

pub elements_leaves-push_all :
    (es fs : Elements) → elements_leaves (push_all es fs) ≡ elements_leaves es ++ elements_leaves fs
unfolding elements_leaves push_all
elements_leaves-push_all none_left fs = refl
elements_leaves-push_all (element f es) fs =
    ap (λ t. element_leaves f ++ t) (elements_leaves-push_all es fs)
    ∙ sym (append_assoc (element_leaves f) (elements_leaves es) (elements_leaves fs))

pub node_leaves-new_node :
    (k : NodeKind) (es : Elements) → node_leaves (new_node k es) ≡ elements_leaves es
unfolding node_leaves new_node
node_leaves-new_node k es = refl

pub node_leaves-list_node :
    (k : NodeKind) (o : ℕ) (es : Elements) → node_leaves (list_node k o es) ≡ elements_leaves es
unfolding node_leaves list_node new_node empty_node elements_leaves
node_leaves-list_node k o none_left = refl
node_leaves-list_node k o (element e es) = refl

-- Modifiers that move into their item stay in front of it.
pub elements_leaves-adopt :
    (ms es : Elements) → elements_leaves (adopt ms es) ≡ elements_leaves ms ++ elements_leaves es
unfolding adopt elements_leaves node_leaves element_leaves
elements_leaves-adopt none_left es = elements_leaves-push_all none_left es
elements_leaves-adopt (element m ms) none_left = elements_leaves-push_all (element m ms) none_left
elements_leaves-adopt (element m ms) (element (a_token t) es) =
    elements_leaves-push_all (element m ms) (element (a_token t) es)
elements_leaves-adopt (element m ms) (element (a_node (node k s children)) (element e es)) =
    elements_leaves-push_all (element m ms) (element (a_node (node k s children)) (element e es))
elements_leaves-adopt (element m ms) (element (a_node (node k s children)) none_left) =
    simp (elements_leaves-push_all, append_assoc, append-nil)

keep_text : (x : Text) (t : Token) → t.lexeme ≡ x → text_of (keep x t) ≡ x
unfolding keep text_of
keep_text [] t e = refl
keep_text (c ∷ cs) t e = append-nil t.lexeme ∙ e

text_of-append : (ts us : List Token) → text_of (ts ++ us) ≡ text_of ts ++ text_of us
unfolding text_of
text_of-append [] us = refl
text_of-append (t ∷ ts) us =
    ap (λ x. t.lexeme ++ x) (text_of-append ts us)
    ∙ sym (append_assoc t.lexeme (text_of ts) (text_of us))

-- What has no lexeme adds nothing to the text.
pub text_of-written : (ts : List Token) → text_of (written ts) ≡ text_of ts
unfolding written text_of
text_of-written [] = refl
text_of-written (t ∷ ts) =
    text_of-append (with_text t) (written ts)
    ∙ (ap (λ x. x ++ text_of (written ts)) (keep_text t.lexeme t refl)
        ∙ ap (λ x. t.lexeme ++ x) (text_of-written ts))
