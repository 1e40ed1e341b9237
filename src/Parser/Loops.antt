-- ===== src/Parser/Loops.antt =====
-- How the loops and the choices on the kind that comes run, crates/sarif_syntax/src/parser.rs.
use sarif.Base.{
  ℕ, zero, suc, ◌≤◌, ◌<◌, ◌≡◌, refl, sym, ap, Bool, true, false, ◌||◌, ◌⊎◌, Option, some, arith,
  inl, inr,
}
use mathlib.Core.Path.{subst}
use sarif.Syntax.Token.{TokenKind, is_trivia}
use sarif.Parser.Kinds.{same_kind}
use sarif.Parser.State.{Parser, at, first_kind, peek_non_trivia_kind}
use sarif.Parser.Build.{Build, stop, by_kind, rounds, loop}
use sarif.Parser.Runs.{size, Fact, Any, Clean, Here, Outcome, Runs}
use sarif.Parser.Rules.{
  weaken, lower, knowing, forgetting, stop_runs, ◌⨟◌, ◌⟫◌, Here-at, if_at_runs, tested_runs,
}
use sarif.Parser.Trivia.{trivia_runs, Clean-Here, after_trivia-Clean}
use sarif.Parser.Steps.{bump_takes}
use sarif.Parser.Types.{until, separated}

not_below : (n : ℕ) → n < 0 → ⊥
not_below n lt = omega arith

not_above : (k : ℕ) → suc k ≤ 0 → ⊥
not_above k lt = omega arith

or_cases : (a b : Bool) → (a || b) ≡ true → (a ≡ true) ⊎ (b ≡ true)
or_cases true b e = inl refl
or_cases false b e = inr e

-- A loop whose rounds go forward, by the number of tokens left.
rounds_runs :
    (f : Build → Build) (P Q : Fact) (m : ℕ)
    → ((next : Build) (k : ℕ) → suc k ≤ m → Runs 0 P k next Q → Runs 0 P (suc k) (f next) Q)
    → (n k : ℕ) → k ≤ n
    → k ≤ m
    → Runs 0 P k (rounds n f) Q
unfolding rounds
rounds_runs f P Q m step n zero a b = record {
  run = λ cs s w lt p. elim (not_below (size s) lt) [ ];
}
rounds_runs f P Q m step zero (suc k) a b = elim (not_above k a) [ ]
rounds_runs f P Q m step (suc n) (suc k) a b =
    step _ k b (rounds_runs f P Q m step n k (omega arith) (omega arith))

pub loop_runs :
    {P Q : Fact} {m : ℕ} {f : Build → Build}
    → ((next : Build) (k : ℕ) → suc k ≤ m → Runs 0 P k next Q → Runs 0 P (suc k) (f next) Q)
    → Runs 0 P m (loop f) Q
unfolding loop
loop_runs {P} {Q} {m} {f} step = record {
  run = λ cs s w lt p.
      (rounds_runs f P Q m step (suc (suc (size s))) (suc (size s)) (omega arith) (omega arith)).run
        cs s w (omega arith) p;
}

-- An end of a list is no trivia.
pub ends_clean :
    (close : TokenKind) (s : Parser)
    → is_trivia close ≡ false
    → (at close s || at TokenKind.eof s) ≡ true
    → Clean s
unfolding is_trivia
ends_clean close s e h = elim (or_cases (at close s) (at TokenKind.eof s) h) [
  | inl a ↦ Clean-Here close s e (Here-at close s a)
  | inr a ↦ Clean-Here TokenKind.eof s refl (Here-at TokenKind.eof s a)
]

pub until_runs :
    {P : Fact} {m : ℕ} {a : Build}
    → (close : TokenKind) → is_trivia close ≡ false
    → Runs 0 P m a Clean
    → Runs 0 P m (until close a) Clean
unfolding until
until_runs close e r =
    tested_runs (λ s. at close s || at TokenKind.eof s) (λ s h. ends_clean close s e h) stop_runs r

-- The lists in brackets, of entries that need not go forward.
pub separated_runs :
    {m : ℕ} {entry : Build}
    → (close : TokenKind) → is_trivia close ≡ false
    → Runs 0 Clean m entry Any
    → Runs 0 Any m (separated close entry) Clean
unfolding separated same_kind
separated_runs close e r = loop_runs (λ next k le t. until_runs close e (
    trivia_runs
    ⨟ until_runs close e (
        lower le r
        ⨟ trivia_runs
        ⨟ if_at_runs TokenKind.comma (weaken (bump_takes TokenKind.comma refl ⟫ t)) stop_runs)))

-- The kind that comes is none but trivia, and at a token that is none, it is the token's.
pub kind_clean : (s : Parser) → Clean s → peek_non_trivia_kind s ≡ some s.current.kind
unfolding peek_non_trivia_kind first_kind
kind_clean s c = ap first_kind (after_trivia-Clean s c)

pub Here-own : (s : Parser) → Here s.current.kind s
unfolding Here
Here-own s = refl

pub by_kind_runs :
    {d : ℕ} {Q : Fact} {m : ℕ}
    → (f : Option TokenKind → Build)
    → ((k : TokenKind) → is_trivia k ≡ false → Runs d (Here k) m (f (some k)) Q)
    → Runs d Clean m (by_kind f) Q
unfolding by_kind Clean
by_kind_runs {d} {Q} f r = record {
  run = λ cs s w lt c.
      subst (λ k. Outcome d Q (f k cs s) cs s) (sym (kind_clean s c))
        ((r s.current.kind c).run cs s w lt (Here-own s));
}

pub by_kind_any :
    {d : ℕ} {Q : Fact} {m : ℕ}
    → (f : Option TokenKind → Build) → ((k : Option TokenKind) → Runs d Clean m (f k) Q)
    → Runs d Clean m (by_kind f) Q
by_kind_any f r = by_kind_runs f (λ k e. knowing (λ s h. Clean-Here k s e h) (r (some k)))

pub stop-Any : {P : Fact} {m : ℕ} → Runs 0 P m stop Any
unfolding Any
stop-Any = forgetting (λ s p. tt) stop_runs

pub to_any : {d : ℕ} {P Q : Fact} {m : ℕ} {b : Build} → Runs d P m b Q → Runs d P m b Any
unfolding Any
to_any r = forgetting (λ s p. tt) r

pub here_clean :
    {d : ℕ} {Q : Fact} {m : ℕ} {b : Build}
    → (k : TokenKind) → is_trivia k ≡ false
    → Runs d Clean m b Q
    → Runs d (Here k) m b Q
here_clean k e r = knowing (λ s h. Clean-Here k s e h) r
