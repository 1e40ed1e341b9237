-- ===== src/Parser/Steps.antt =====
-- How the pieces that take a token run, crates/sarif_syntax/src/parser.rs `bump` and `expect`.
use sarif.Base.{
  ℕ, ◌+◌, ◌<◌, ◌≡◌, refl, ap, ◌∙◌, true, false, Option, none, some, List, [], ◌∷◌, ◌++◌, arith,
  Bool-cases, inl, inr, ==_iff,
}
use mathlib.Core.List.{append-nil}
use sarif.Syntax.Token.{Token, TokenKind, Diagnostic, is_trivia}
use sarif.Syntax.Tree.{a_token, Elements}
use sarif.Mir.{Span}
use sarif.Parser.Kinds.{same_kind, index}
use sarif.Parser.State.{Parser, at, advance, push}
use sarif.Parser.Build.{
  Build, and_then, stop, bump_with, bump, skip, collect_trivia_into_cursor, report, expected_token,
  take_or_insert, expect_with, expect,
}
use sarif.Parser.Leaves.{
  written, with_text-nil, element_leaves, elements_leaves, elements_leaves-push,
}
use sarif.Parser.Runs.{IsEnded, IsWell, size, unread, Fact, Any, Clean, Here, Outcome, Runs}
use sarif.Parser.Rules.{stop_runs}
use sarif.Parser.Trivia.{moved, at_token, Clean-Here}

pub without_text :
    (cs : Elements) (t : Token)
    → t.lexeme ≡ []
    → elements_leaves (push cs (a_token t)) ≡ elements_leaves cs
unfolding element_leaves
without_text cs t e =
    elements_leaves-push cs (a_token t)
    ∙ (ap (λ x. elements_leaves cs ++ x) (with_text-nil t e) ∙ append-nil (elements_leaves cs))

-- A token that is taken, where it may be the last.
took :
    (cs : Elements) (t : Token) (us : List Token) (ds : List Diagnostic)
    → IsEnded t us
    → Outcome 0 Any (some (push cs (a_token t), advance (at_token t us ds))) cs (at_token t us ds)
unfolding advance IsEnded Any
took cs t [] ds w = record {
  children = push cs (a_token t);
  after = at_token t [] ds;
  ran = refl;
  well = w;
  fact = tt;
  forward = omega arith;
  kept = ap (λ x. x ++ written (t ∷ [])) (without_text cs t w.1);
}
took cs t (u ∷ us) ds w = record {
  children = push cs (a_token t);
  after = at_token u us ds;
  ran = refl;
  well = w.1;
  fact = tt;
  forward = omega arith;
  kept = moved cs t u us _ refl;
}

pub not_last : (k : TokenKind) → k ≡ TokenKind.eof → same_kind k TokenKind.eof ≡ false → ⊥
unfolding same_kind index
not_last k e d = cc (e, d)

-- And where it is not.
pub passed :
    (cs : Elements) (t : Token) (us : List Token) (ds : List Diagnostic)
    → IsEnded t us
    → same_kind t.kind TokenKind.eof ≡ false
    → Outcome 1 Any (some (push cs (a_token t), advance (at_token t us ds))) cs (at_token t us ds)
unfolding advance IsEnded Any
passed cs t [] ds w d = elim (not_last t.kind w.0 d) [ ]
passed cs t (u ∷ us) ds w d = record {
  children = push cs (a_token t);
  after = at_token u us ds;
  ran = refl;
  well = w.1;
  fact = tt;
  forward = omega arith;
  kept = moved cs t u us _ refl;
}

-- More to do after a token.
pub on_from :
    {d e : ℕ} {P Q : Fact} {m : ℕ} {b : Build} {r : Option (Elements × Parser)} {cs : Elements}
    {s : Parser}
    → (o : Outcome d P r cs s) → size s < m
    → Runs e P m b Q
    → Outcome (d + e) Q (and_then r b) cs s
on_from {b} o lt t =
    let u = t.run o.children o.after o.well (omega (arith, o.forward)) o.fact in
    record {
      children = u.children;
      after = u.after;
      ran = ap (λ x. and_then x b) o.ran ∙ u.ran;
      well = u.well;
      fact = u.fact;
      forward = omega (arith, o.forward, u.forward);
      kept = u.kept ∙ o.kept;
    }

pub bump_with_runs :
    {P Q : Fact} {m : ℕ} {f : Token → Build}
    → ((t : Token) → Runs 0 Any m (f t) Q)
    → Runs 0 P m (bump_with f) Q
unfolding bump_with
bump_with_runs g = record {
  run = λ cs s w lt p. on_from (took cs s.current s.later s.diagnostics w) lt (g s.current);
}

pub Here-not :
    (k : TokenKind) (s : Parser)
    → same_kind k TokenKind.eof ≡ false
    → Here k s
    → same_kind s.current.kind TokenKind.eof ≡ false
unfolding Here
Here-not k s e h = ap (λ j. same_kind j TokenKind.eof) h ∙ e

pub bump_with_takes :
    {Q : Fact} {m : ℕ} {f : Token → Build}
    → (k : TokenKind) → same_kind k TokenKind.eof ≡ false
    → ((t : Token) → Runs 0 Any m (f t) Q)
    → Runs 1 (Here k) m (bump_with f) Q
unfolding bump_with
bump_with_takes k e g = record {
  run = λ cs s w lt p.
      on_from (passed cs s.current s.later s.diagnostics w (Here-not k s e p)) lt (g s.current);
}

pub bump_runs : {P : Fact} {m : ℕ} → Runs 0 P m bump Any
unfolding bump
bump_runs = bump_with_runs (λ t. stop_runs)

pub bump_takes :
    {m : ℕ} → (k : TokenKind) → same_kind k TokenKind.eof ≡ false → Runs 1 (Here k) m bump Any
unfolding bump
bump_takes k e = bump_with_takes k e (λ t. stop_runs)

skip_clean :
    (t : Token) (us : List Token) (ds : List Diagnostic)
    → is_trivia t.kind ≡ false
    → skip t us ds ≡ some (at_token t us ds)
unfolding skip
skip_clean t [] ds e = rw e refl
skip_clean t (u ∷ us) ds e = rw e refl

-- A missing token leaves the parser where it is.
inserted :
    (cs : Elements) (k : TokenKind) (s : Parser) (p : Span)
    → IsWell s
    → Outcome 0 Any
        (some (
          push cs (a_token (record { kind = k; lexeme = []; span = p })),
          report (expected_token k s.current) s,
        ))
        cs
        s
unfolding report Any
inserted cs k s p w =
    let t : Token = record { kind = k; lexeme = []; span = p } in
    record {
      children = push cs (a_token t);
      after = report (expected_token k s.current) s;
      ran = refl;
      well = w;
      fact = tt;
      forward = omega arith;
      kept = ap (λ x. x ++ unread s) (without_text cs t refl);
    }

pub expect_is :
    (k : TokenKind) (cs : Elements) (s : Parser)
    → Clean s
    → expect k cs s ≡ take_or_insert k (λ _. stop) cs s
unfolding expect expect_with collect_trivia_into_cursor Clean
expect_is k cs s c =
    ap (λ r. elim r [ none ↦ none | some after ↦ take_or_insert k (λ _. stop) cs after ])
      (skip_clean s.current s.later s.diagnostics c)

take_runs :
    (k : TokenKind) (cs : Elements) (s : Parser)
    → IsWell s
    → Outcome 0 Any (take_or_insert k (λ _. stop) cs s) cs s
unfolding take_or_insert bump_with stop
take_runs k cs s w = elim (Bool-cases (at k s)) [
  | inl e ↦ rw e (took cs s.current s.later s.diagnostics w)
  | inr e ↦ rw e (inserted cs k s s.current.span w)
]

pub at-Here : (k : TokenKind) (s : Parser) → Here k s → at k s ≡ true
unfolding Here at same_kind
at-Here k s h = ap (λ j. same_kind j k) h ∙ (==_iff (index k) (index k)).1 refl

take_takes :
    (k : TokenKind) (cs : Elements) (s : Parser)
    → same_kind k TokenKind.eof ≡ false
    → IsWell s
    → Here k s
    → Outcome 1 Any (take_or_insert k (λ _. stop) cs s) cs s
unfolding take_or_insert bump_with stop
take_takes k cs s d w h =
    rw (at-Here k s h) (passed cs s.current s.later s.diagnostics w (Here-not k s d h))

pub expect_runs : {m : ℕ} → (k : TokenKind) → Runs 0 Clean m (expect k) Any
expect_runs k = record { run = λ cs s w lt c. rw (expect_is k cs s c) (take_runs k cs s w) }

pub expect_takes :
    {m : ℕ}
    → (k : TokenKind) → same_kind k TokenKind.eof ≡ false
    → is_trivia k ≡ false
    → Runs 1 (Here k) m (expect k) Any
expect_takes k d e = record {
  run = λ cs s w lt h. rw (expect_is k cs s (Clean-Here k s e h)) (take_takes k cs s d w h);
}
