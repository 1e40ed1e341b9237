-- ===== src/Parser/Trivia.antt =====
-- How the loop over trivia runs, crates/sarif_syntax/src/parser.rs `collect_trivia`: it stops at the
-- first token that is none, which the tokens that look ahead see.
use sarif.Base.{
  ℕ, ◌≡◌, refl, sym, ap, ◌∙◌, true, false, Option, some, List, [], ◌∷◌, ◌++◌, arith, Bool-cases,
  inl, inr,
}
use mathlib.Core.Path.{subst}
use mathlib.Core.List.{append_assoc}
use sarif.Syntax.Token.{Token, TokenKind, Diagnostic, is_trivia}
use sarif.Syntax.Tree.{a_token, Elements}
use sarif.Parser.Kinds.{same_kind_eq}
use sarif.Parser.State.{Parser, push, after_trivia, has_kind, peek_trivia_then}
use sarif.Parser.Build.{trivia, collect}
use sarif.Parser.Leaves.{written, element_leaves, elements_leaves, elements_leaves-push}
use sarif.Parser.Runs.{IsEnded, IsWell, Fact, Clean, Here, Peeks, Outcome, Runs}
use sarif.Parser.Rules.{forgetting}

pub stays :
    (P : Fact) (cs : Elements) (s : Parser) → IsWell s → P s → Outcome 0 P (some (cs, s)) cs s
stays P cs s w p = record {
  children = cs;
  after = s;
  ran = refl;
  well = w;
  fact = p;
  forward = omega arith;
  kept = refl;
}

-- A token more among the children is one less to read.
pub moved :
    (cs : Elements) (t u : Token) (us : List Token) (x : List Token)
    → x ≡ elements_leaves (push cs (a_token t)) ++ written (u ∷ us)
    → x ≡ elements_leaves cs ++ written (t ∷ u ∷ us)
unfolding written element_leaves
moved cs t u us x e =
    e
    ∙ (ap (λ y. y ++ written (u ∷ us)) (elements_leaves-push cs (a_token t))
        ∙ append_assoc (elements_leaves cs) (element_leaves (a_token t)) (written (u ∷ us)))

pub eof_not_trivia : (t : Token) → t.kind ≡ TokenKind.eof → is_trivia t.kind ≡ false
unfolding is_trivia
eof_not_trivia t e = rw e refl

pub after_trivia_stays :
    (t : Token) (ts : List Token) → is_trivia t.kind ≡ false → after_trivia (t ∷ ts) ≡ t ∷ ts
unfolding after_trivia
after_trivia_stays t ts e = rw e refl

pub after_trivia_skips :
    (t : Token) (ts : List Token)
    → is_trivia t.kind ≡ true
    → after_trivia (t ∷ ts) ≡ after_trivia ts
unfolding after_trivia
after_trivia_skips t ts e = rw e refl

-- The parser at a token.
abbrev pub at_token : Token → List Token → List Diagnostic → Parser
at_token t us ds = record { current = t; later = us; diagnostics = ds }

abbrev Reached : (List Token → Type 0) → Fact
Reached A s = Clean s × A (s.current ∷ s.later)

stays_here :
    (A : List Token → Type 0) (t : Token) (us : List Token) (ds : List Diagnostic) (cs : Elements)
    → IsEnded t us
    → A (after_trivia (t ∷ us))
    → is_trivia t.kind ≡ false
    → Outcome 0 (Reached A) (some (cs, at_token t us ds)) cs (at_token t us ds)
unfolding Clean
stays_here A t us ds cs w p e =
    stays (Reached A) cs (at_token t us ds) w (e, subst A (after_trivia_stays t us e) p)

skipped :
    (Q : Fact) (t u : Token) (us : List Token) (ds : List Diagnostic) (cs : Elements)
    (r : Option (Elements × Parser))
    → Outcome 0 Q r (push cs (a_token t)) (at_token u us ds)
    → Outcome 0 Q r cs (at_token t (u ∷ us) ds)
skipped Q t u us ds cs r o = record {
  children = o.children;
  after = o.after;
  ran = o.ran;
  well = o.well;
  fact = o.fact;
  forward = omega (arith, o.forward);
  kept = moved cs t u us _ o.kept;
}

collect-Outcome :
    (A : List Token → Type 0) (t : Token) (us : List Token) (ds : List Diagnostic) (cs : Elements)
    → IsEnded t us
    → A (after_trivia (t ∷ us))
    → Outcome 0 (Reached A) (collect t us ds cs) cs (at_token t us ds)
unfolding collect IsEnded
collect-Outcome A t [] ds cs w p =
    let e = eof_not_trivia t w.0 in rw e (stays_here A t [] ds cs w p e)
collect-Outcome A t (u ∷ us) ds cs w p = elim (Bool-cases (is_trivia t.kind)) [
  | inl e ↦ rw e (
      skipped (Reached A) t u us ds cs _ (
        collect-Outcome A u us ds (push cs (a_token t)) w.1
          (subst A (after_trivia_skips t (u ∷ us) e) p)))
  | inr e ↦ rw e (stays_here A t (u ∷ us) ds cs w p e)
]

pub trivia_reaches :
    (A : List Token → Type 0) (m : ℕ) (P : Fact)
    → ((s : Parser) → P s → A (after_trivia (s.current ∷ s.later)))
    → Runs 0 P m trivia (Reached A)
unfolding trivia
trivia_reaches A m P f = record {
  run = λ cs s w lt p. collect-Outcome A s.current s.later s.diagnostics cs w (f s p);
}

pub trivia_runs : {P : Fact} {m : ℕ} → Runs 0 P m trivia Clean
trivia_runs {P} {m} = forgetting (λ s q. q.0) (trivia_reaches (λ ts. Unit) m P (λ s p. tt))

pub trivia_peek : {m : ℕ} → (k : TokenKind) → Runs 0 (Peeks k) m trivia (Here k)
unfolding Peeks Here has_kind peek_trivia_then
trivia_peek k =
    forgetting (λ s q. same_kind_eq s.current.kind k q.1)
      (trivia_reaches (λ ts. has_kind k ts ≡ true) _ (Peeks k) (λ s p. p))

pub Clean-Here : (k : TokenKind) (s : Parser) → is_trivia k ≡ false → Here k s → Clean s
unfolding Clean Here
Clean-Here k s e h = ap is_trivia h ∙ e

unfoldable HeadIs : TokenKind → List Token → Type 0
HeadIs k [] = ⊥
HeadIs k (t ∷ _) = t.kind ≡ k

pub after_trivia-Clean :
    (s : Parser) → Clean s → after_trivia (s.current ∷ s.later) ≡ s.current ∷ s.later
unfolding Clean
after_trivia-Clean s c = after_trivia_stays s.current s.later c

-- At a token that is no trivia, the loop does nothing.
pub trivia_here :
    {m : ℕ} → (k : TokenKind) → is_trivia k ≡ false → Runs 0 (Here k) m trivia (Here k)
unfolding Here HeadIs
trivia_here k e =
    forgetting (λ s q. q.1)
      (trivia_reaches (HeadIs k) _ (Here k)
        (λ s h. subst (HeadIs k) (sym (after_trivia-Clean s (Clean-Here k s e h))) h))
