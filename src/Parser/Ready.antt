-- ===== src/Parser/Ready.antt =====
-- How the pieces run at a token that is neither trivia nor the last, crates/sarif_syntax/src/parser.rs.
use sarif.Base.{
  ℕ, ◌≡◌, refl, sym, ap, ◌∙◌, Bool, true, false, ◌||◌, Option, some, List, [], ◌∷◌, arith,
  Bool-cases, inl, inr, ==_iff,
}
use mathlib.Core.Path.{subst}
use sarif.Syntax.Token.{Token, TokenKind, Diagnostic, is_trivia}
use sarif.Parser.Kinds.{same_kind, same_kind_eq, index}
use sarif.Parser.State.{
  Parser, at, after_trivia, first_kind, has_kind, peek_non_trivia_kind, peek_trivia_then,
}
use sarif.Parser.Build.{Build, and_then, ◌▸◌, branch, by_kind, bump_with, report}
use sarif.Parser.Runs.{is_plain, IsEnded, Fact, Any, Clean, Here, Peeks, Outcome, Runs}
use sarif.Parser.Rules.{weaken, stop_runs}
use sarif.Parser.Trivia.{eof_not_trivia, after_trivia_stays, after_trivia_skips, Clean-Here}
use sarif.Parser.Types.{until}
use sarif.Parser.Loops.{kind_clean, Here-own, ends_clean}
use sarif.Parser.Exprs.{reporting}
use sarif.Parser.Steps.{not_last, passed, on_from, Here-not}

unfoldable pub Ready : Fact
Ready s = Clean s × (same_kind s.current.kind TokenKind.eof ≡ false)

pub Ready-Clean : (s : Parser) → Ready s → Clean s
unfolding Ready
Ready-Clean s r = r.0

pub Here-Ready :
    (k : TokenKind) (s : Parser)
    → is_trivia k ≡ false
    → same_kind k TokenKind.eof ≡ false
    → Here k s
    → Ready s
unfolding Ready
Here-Ready k s e d h = (Clean-Here k s e h, Here-not k s d h)

-- One piece, and one that reads nothing for sure.
pub after_that :
    {d : ℕ} {P Q R : Fact} {m : ℕ} {a b : Build}
    → Runs d P m a Q
    → Runs 0 Q m b R
    → Runs d P m (a ▸ b) R
unfolding ◌▸◌
after_that {b} r t = record {
  run = λ cs s w lt p.
      let o = r.run cs s w lt p in
      let u = t.run o.children o.after o.well (omega (arith, o.forward)) o.fact in
      record {
        children = u.children;
        after = u.after;
        ran = ap (λ x. and_then x b) o.ran ∙ u.ran;
        well = u.well;
        fact = u.fact;
        forward = omega (arith, o.forward, u.forward);
        kept = u.kept ∙ o.kept;
      };
}

pub split_runs :
    {d : ℕ} {P T F Q : Fact} {m : ℕ} {a b : Build}
    → (test : Parser → Bool) → ((s : Parser) → P s → test s ≡ true → T s)
    → ((s : Parser) → P s → test s ≡ false → F s)
    → Runs d T m a Q
    → Runs d F m b Q
    → Runs d P m (branch test a b) Q
unfolding branch
split_runs test f g r t = record {
  run = λ cs s w lt p. elim (Bool-cases (test s)) [
    | inl e ↦ rw e (r.run cs s w lt (f s p e))
    | inr e ↦ rw e (t.run cs s w lt (g s p e))
  ];
}

-- The last token, or one before it.
pub clean_split :
    {Q : Fact} {m : ℕ} {b : Build}
    → Runs 1 Ready m b Q
    → Runs 0 (Here TokenKind.eof) m b Q
    → Runs 0 Clean m b Q
unfolding Ready Here
clean_split r t = record {
  run = λ cs s w lt c. elim (Bool-cases (same_kind s.current.kind TokenKind.eof)) [
    | inl e ↦ t.run cs s w lt (same_kind_eq s.current.kind TokenKind.eof e)
    | inr e ↦ (weaken r).run cs s w lt (c, e)
  ];
}

pub absurd_truth : {A : Type 0} → false ≡ true → A
absurd_truth e = let wrong : ⊥ = cc e in elim wrong [ ]

plain_of :
    (t : Token) (us : List Token)
    → IsEnded t us
    → same_kind t.kind TokenKind.eof ≡ false
    → is_plain t.kind ≡ true
unfolding IsEnded
plain_of t [] w d = elim (not_last t.kind w.0 d) [ ]
plain_of t (u ∷ us) w d = w.0

pub by_kind_ready :
    {d : ℕ} {Q : Fact} {m : ℕ}
    → (f : Option TokenKind → Build)
    → ((k : TokenKind) → is_trivia k ≡ false → is_plain k ≡ true → Runs d (Here k) m (f (some k)) Q)
    → Runs d Ready m (by_kind f) Q
unfolding by_kind Clean Ready
by_kind_ready {d} {Q} f r = record {
  run = λ cs s w lt c.
      subst (λ k. Outcome d Q (f k cs s) cs s) (sym (kind_clean s c.0))
        ((r s.current.kind c.0 (plain_of s.current s.later w c.1)).run cs s w lt (Here-own s));
}

-- At a token that is known.
pub by_kind_here :
    {d : ℕ} {Q : Fact} {m : ℕ}
    → (f : Option TokenKind → Build) (k : TokenKind) → is_trivia k ≡ false
    → Runs d (Here k) m (f (some k)) Q
    → Runs d (Here k) m (by_kind f) Q
unfolding by_kind Here
by_kind_here {d} {Q} f k e r = record {
  run = λ cs s w lt h.
      subst (λ j. Outcome d Q (f j cs s) cs s) (sym (kind_clean s (Clean-Here k s e h) ∙ ap some h))
        (r.run cs s w lt h);
}

pub reporting_runs : {P : Fact} {m : ℕ} → (d : Diagnostic) → Runs 0 P m (reporting d) Any
unfolding reporting report Any
reporting_runs d = record {
  run = λ cs s w lt p. record {
    children = cs;
    after = report d s;
    ran = refl;
    well = w;
    fact = tt;
    forward = omega arith;
    kept = refl;
  };
}

pub bump_with_ready :
    {Q : Fact} {m : ℕ} {f : Token → Build}
    → ((t : Token) → Runs 0 Any m (f t) Q)
    → Runs 1 Ready m (bump_with f) Q
unfolding bump_with Ready
bump_with_ready g = record {
  run = λ cs s w lt p. on_from (passed cs s.current s.later s.diagnostics w p.1) lt (g s.current);
}

or_false : (a b : Bool) → (a || b) ≡ false → b ≡ false
or_false true b e = cc e
or_false false b e = e

until_ready_else :
    (close : TokenKind) (s : Parser)
    → Clean s
    → (at close s || at TokenKind.eof s) ≡ false
    → Ready s
unfolding Ready at
until_ready_else close s c e = (c, or_false (at close s) (at TokenKind.eof s) e)

-- Inside of brackets there is a token.
pub until_ready :
    {m : ℕ} {a : Build}
    → (close : TokenKind) → is_trivia close ≡ false
    → Runs 0 Ready m a Clean
    → Runs 0 Clean m (until close a) Clean
unfolding until
until_ready close e r =
    split_runs (λ s. at close s || at TokenKind.eof s) (λ s p h. ends_clean close s e h)
      (λ s p h. until_ready_else close s p h) stop_runs r

-- What looking ahead finds: a kind.
abbrev Found : List Token → TokenKind → Type 0
Found ts k = (first_kind ts ≡ some k) × (has_kind k ts ≡ true)

Found-here : (t : Token) (us : List Token) → Found (t ∷ us) t.kind
unfolding first_kind has_kind same_kind
Found-here t us = (refl, (==_iff (index t.kind) (index t.kind)).1 refl)

-- Among the tokens there is one that is no trivia.
found :
    (t : Token) (us : List Token) → IsEnded t us → (k : TokenKind) × Found (after_trivia (t ∷ us)) k
unfolding IsEnded
found t [] w = (
  t.kind,
  subst (λ ts. Found ts t.kind) (sym (after_trivia_stays t [] (eof_not_trivia t w.0)))
      (Found-here t []),
)
found t (u ∷ us) w = elim (Bool-cases (is_trivia t.kind)) [
  | inl e ↦
      let f = found u us w.1 in
      (f.0, subst (λ ts. Found ts f.0) (sym (after_trivia_skips t (u ∷ us) e)) f.1)
  | inr e ↦ (
    t.kind,
    subst (λ ts. Found ts t.kind) (sym (after_trivia_stays t (u ∷ us) e)) (Found-here t (u ∷ us)),
  )
]

-- On the kind that comes, wherever the parser is.
pub by_kind_peek :
    {d : ℕ} {P Q : Fact} {m : ℕ}
    → (f : Option TokenKind → Build) → ((k : TokenKind) → Runs d (Peeks k) m (f (some k)) Q)
    → Runs d P m (by_kind f) Q
unfolding by_kind Peeks peek_trivia_then peek_non_trivia_kind
by_kind_peek {d} {P} {Q} f r = record {
  run = λ cs s w lt p.
      let o = found s.current s.later w in
      subst (λ k. Outcome d Q (f k cs s) cs s) (sym o.1.0) ((r o.0).run cs s w lt o.1.1);
}
