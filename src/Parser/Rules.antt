-- ===== src/Parser/Rules.antt =====
-- How the pieces of sarif.Parser.Build run, each from its parts.
use sarif.Base.{ℕ, suc, ◌+◌, ◌≤◌, ◌<◌, ◌≡◌, refl, ap, ◌∙◌, Bool, true, arith, Bool-cases, inl, inr}
use sarif.Syntax.Token.{TokenKind}
use sarif.Parser.Kinds.{same_kind_eq}
use sarif.Parser.State.{Parser, at, peek_trivia_then}
use sarif.Parser.Build.{Build, and_then, stop, ◌▸◌, branch, if_at}
use sarif.Parser.Runs.{size, Fact, Here, Peeks, Runs}

pub weaken : {P Q : Fact} {m : ℕ} {b : Build} → Runs 1 P m b Q → Runs 0 P m b Q
weaken r = record {
  run = λ cs s w lt p.
      let o = r.run cs s w lt p in
      record {
        children = o.children;
        after = o.after;
        ran = o.ran;
        well = o.well;
        fact = o.fact;
        forward = omega (arith, o.forward);
        kept = o.kept;
      };
}

-- On fewer tokens.
pub lower : {d : ℕ} {P Q : Fact} {m k : ℕ} {b : Build} → k ≤ m → Runs d P m b Q → Runs d P k b Q
lower le r = record { run = λ cs s w lt p. r.run cs s w (omega arith) p }

pub down : {d : ℕ} {P Q : Fact} {m : ℕ} {b : Build} → Runs d P (suc m) b Q → Runs d P m b Q
down r = record { run = λ cs s w lt p. r.run cs s w (omega arith) p }

-- From more, and to less.
pub knowing :
    {d : ℕ} {P P' Q : Fact} {m : ℕ} {b : Build}
    → ((s : Parser) → P s → P' s)
    → Runs d P' m b Q
    → Runs d P m b Q
knowing f r = record { run = λ cs s w lt p. r.run cs s w lt (f s p) }

pub forgetting :
    {d : ℕ} {P Q Q' : Fact} {m : ℕ} {b : Build}
    → ((s : Parser) → Q s → Q' s)
    → Runs d P m b Q
    → Runs d P m b Q'
forgetting f r = record {
  run = λ cs s w lt p.
      let o = r.run cs s w lt p in
      record {
        children = o.children;
        after = o.after;
        ran = o.ran;
        well = o.well;
        fact = f o.after o.fact;
        forward = o.forward;
        kept = o.kept;
      };
}

pub stop_runs : {P : Fact} {m : ℕ} → Runs 0 P m stop P
unfolding stop
stop_runs = record {
  run = λ cs s w lt p. record {
    children = cs;
    after = s;
    ran = refl;
    well = w;
    fact = p;
    forward = omega arith;
    kept = refl;
  };
}

-- One piece after another, on the tokens that the first leaves.
sequel :
    {d e : ℕ} {P Q R : Fact} {m n : ℕ} {a b : Build}
    → ((k : ℕ) → k + d < m → k < n)
    → Runs d P m a Q
    → Runs e Q n b R
    → Runs (d + e) P m (a ▸ b) R
unfolding ◌▸◌
sequel {d} {b} le r t = record {
  run = λ cs s w lt p.
      let o = r.run cs s w lt p in
      let u =
        t.run o.children o.after o.well (le (size o.after) (omega (arith, o.forward))) o.fact in
      record {
        children = u.children;
        after = u.after;
        ran = ap (λ x. and_then x b) o.ran ∙ u.ran;
        well = u.well;
        fact = u.fact;
        forward = omega (arith, o.forward, u.forward);
        kept = u.kept ∙ o.kept;
      };
}

infixr 3 ◌⨟◌ ◌⟫◌ ◌⨾◌
-- The second where the first began.
pub ◌⨟◌ :
    {P Q R : Fact} {m : ℕ} {a b : Build} → Runs 0 P m a Q → Runs 0 Q m b R → Runs 0 P m (a ▸ b) R
r ⨟ t = sequel (λ k h. omega arith) r t

-- The second reads a token.
pub ◌⨾◌ :
    {P Q R : Fact} {m : ℕ} {a b : Build} → Runs 0 P m a Q → Runs 1 Q m b R → Runs 1 P m (a ▸ b) R
r ⨾ t = sequel (λ k h. omega arith) r t

-- The first has read a token.
pub ◌⟫◌ :
    {P Q R : Fact} {m : ℕ} {a b : Build}
    → Runs 1 P (suc m) a Q
    → Runs 0 Q m b R
    → Runs 1 P (suc m) (a ▸ b) R
r ⟫ t = sequel (λ k h. omega arith) r t

tested :
    (d : ℕ) (P Q : Fact) (m : ℕ) (test : Parser → Bool) (a b : Build)
    → Runs d (λ s. test s ≡ true) m a Q
    → Runs d P m b Q
    → Runs d P m (branch test a b) Q
unfolding branch
tested d P Q m test a b r t = record {
  run = λ cs s w lt p. elim (Bool-cases (test s)) [
    | inl e ↦ rw e (r.run cs s w lt e)
    | inr e ↦ rw e (t.run cs s w lt p)
  ];
}

both :
    (d : ℕ) (P Q : Fact) (m : ℕ) (test : Parser → Bool) (a b : Build)
    → Runs d P m a Q
    → Runs d P m b Q
    → Runs d P m (branch test a b) Q
unfolding branch
both d P Q m test a b r t = record {
  run = λ cs s w lt p. elim (Bool-cases (test s)) [
    | inl e ↦ rw e (r.run cs s w lt p)
    | inr e ↦ rw e (t.run cs s w lt p)
  ];
}

pub Here-at : (k : TokenKind) (s : Parser) → at k s ≡ true → Here k s
unfolding at Here
Here-at k s e = same_kind_eq s.current.kind k e

Peeks-then : (k : TokenKind) (s : Parser) → peek_trivia_then k s ≡ true → Peeks k s
unfolding Peeks
Peeks-then k s e = e

at_first :
    (d : ℕ) (P Q : Fact) (m : ℕ) (k : TokenKind) (a b : Build)
    → Runs d (Here k) m a Q
    → Runs d P m b Q
    → Runs d P m (if_at k a b) Q
unfolding if_at
at_first d P Q m k a b r t = tested d P Q m (at k) a b (knowing (λ s e. Here-at k s e) r) t

pub if_at_runs :
    {d : ℕ} {P Q : Fact} {m : ℕ} {a b : Build}
    → (k : TokenKind) → Runs d (Here k) m a Q
    → Runs d P m b Q
    → Runs d P m (if_at k a b) Q
if_at_runs k r t = at_first _ _ _ _ k _ _ r t

pub branch_runs :
    {d : ℕ} {P Q : Fact} {m : ℕ} {a b : Build}
    → (test : Parser → Bool) → Runs d P m a Q
    → Runs d P m b Q
    → Runs d P m (branch test a b) Q
branch_runs test r t = both _ _ _ _ test _ _ r t

pub peek_runs :
    {d : ℕ} {P Q : Fact} {m : ℕ} {a b : Build}
    → (k : TokenKind) → Runs d (Peeks k) m a Q
    → Runs d P m b Q
    → Runs d P m (branch (peek_trivia_then k) a b) Q
peek_runs k r t = tested _ _ _ _ (peek_trivia_then k) _ _ (knowing (λ s e. Peeks-then k s e) r) t

-- The fact that a test holds.
pub tested_runs :
    {d : ℕ} {P T Q : Fact} {m : ℕ} {a b : Build}
    → (test : Parser → Bool) → ((s : Parser) → test s ≡ true → T s)
    → Runs d T m a Q
    → Runs d P m b Q
    → Runs d P m (branch test a b) Q
tested_runs test f r t = tested _ _ _ _ test _ _ (knowing f r) t
