-- ===== src/Parser/NamesRun.antt =====
-- How the functions on negative numbers and on names run, crates/sarif_syntax/src/parser.rs.
use sarif.Base.{ℕ, suc, ◌≡◌, refl, sym, true, false, ◌&&◌, some, List, [], ◌∷◌, arith}
use mathlib.Core.Path.{subst}
use sarif.Text.{Text}
use sarif.Syntax.Token.{Token, TokenKind, Diagnostic, is_trivia}
use sarif.Syntax.Tree.{a_token, Elements, NodeKind}
use sarif.Parser.Kinds.{same_kind}
use sarif.Parser.State.{Parser, advance, push, push_all, after_trivia, first_kind}
use sarif.Parser.Build.{Build, stop, by_kind, bump_with, trivia, collect, take_or_insert, expect}
use sarif.Parser.Runs.{IsEnded, Fact, Any, Clean, Here, Outcome, Runs}
use sarif.Parser.Rules.{stop_runs, ◌⨟◌, ◌⨾◌}
use sarif.Parser.Trivia.{stays, moved, trivia_reaches, trivia_here, at_token, trivia_runs}
use sarif.Parser.Steps.{bump_with_runs, expect_runs, expect_takes}
use sarif.Parser.State.{number_of}
use sarif.Parser.Types.{Call}
use sarif.Parser.Nodes.{
  node_of_runs, Goes, finish_runs, collecting_runs, Goes-on, Goes-if, Goes-branch,
}
use sarif.Parser.Loops.{kind_clean}
use sarif.Parser.Ready.{Ready, after_that, absurd_truth, reporting_runs, bump_with_ready}
use sarif.Parser.Works.{Works}
use sarif.Parser.Steps.{expect_is, at-Here}
use sarif.Parser.Exprs.{parse_error_expr, expected_expression}
use sarif.Parser.ExprsRun.{parse_field_init_list-Runs}
use sarif.Parser.Bodies.{
  finish_number, negative_number, first_is_uppercase, finish_name, named, name,
}
use sarif.Parser.Peek.{starts_record_literal}
use sarif.Text.{codes, same_text}

pub parse_error_expr-Runs : {P : Fact} {m : ℕ} → Runs 0 P m parse_error_expr Any
unfolding parse_error_expr
parse_error_expr-Runs =
    node_of_runs NodeKind.error (bump_with_runs (λ t. reporting_runs (expected_expression t)))

pub parse_error_expr-Ready : {m : ℕ} → Runs 1 Ready m parse_error_expr Any
unfolding parse_error_expr
parse_error_expr-Ready =
    node_of_runs NodeKind.error (bump_with_ready (λ t. reporting_runs (expected_expression t)))

-- The tokens that follow begin with a number.
abbrev Numeric : List Token → Type 0
Numeric ts = number_of (first_kind ts) ≡ true

unfoldable pub Negative : Fact
Negative s = Here TokenKind.minus s × Numeric (after_trivia s.later)

unfoldable Numbered : Fact
Numbered s = Numeric (after_trivia (s.current ∷ s.later))

pub collect_clean :
    (t : Token) (us : List Token) (ds : List Diagnostic) (cs : Elements)
    → is_trivia t.kind ≡ false
    → collect t us ds cs ≡ some (cs, at_token t us ds)
unfolding collect
collect_clean t [] ds cs e = rw e refl
collect_clean t (u ∷ us) ds cs e = rw e refl

trivia_still :
    {P : Fact} {m : ℕ}
    → ((s : Parser) → P s → is_trivia s.current.kind ≡ false)
    → Runs 0 P m trivia P
unfolding trivia
trivia_still {P} f = record {
  run = λ cs s w lt p.
      subst (λ r. Outcome 0 P r cs s)
        (sym (collect_clean s.current s.later s.diagnostics cs (f s p))) (stays P cs s w p);
}

Negative-clean : (s : Parser) → Negative s → is_trivia s.current.kind ≡ false
unfolding Negative Here is_trivia
Negative-clean s n = rw (n.0) refl

no_number : Numeric [] → ⊥
unfolding number_of first_kind
no_number e = cc e

passed-Numeric :
    (cs : Elements) (t : Token) (us : List Token) (ds : List Diagnostic)
    → IsEnded t us
    → Numeric (after_trivia us)
    → Outcome 1 Numbered
        (some (push cs (a_token t), advance (at_token t us ds)))
        cs
        (at_token t us ds)
unfolding advance IsEnded Numbered after_trivia
passed-Numeric cs t [] ds w n = elim (no_number n) [ ]
passed-Numeric cs t (u ∷ us) ds w n = record {
  children = push cs (a_token t);
  after = at_token u us ds;
  ran = refl;
  well = w.1;
  fact = n;
  forward = omega arith;
  kept = moved cs t u us _ refl;
}

expect_minus : {m : ℕ} → Runs 1 Negative m (expect TokenKind.minus) Numbered
unfolding Negative Clean take_or_insert bump_with stop
expect_minus = record {
  run = λ cs s w lt n.
      subst (λ r. Outcome 1 Numbered r cs s)
        (sym (expect_is TokenKind.minus cs s (Negative-clean s n)))
        (rw (at-Here TokenKind.minus s n.0)
          (passed-Numeric cs s.current s.later s.diagnostics w n.1));
}

Numbered-trivia : {m : ℕ} → Runs 0 Numbered m trivia (λ s. Clean s × Numeric (s.current ∷ s.later))
unfolding Numbered
Numbered-trivia = trivia_reaches Numeric _ Numbered (λ s p. p)

finish_number-Goes :
    (rec : Call → Build) (k : TokenKind) (m : ℕ)
    → number_of (some k) ≡ true
    → Goes 0 Clean m (λ children. finish_number rec children (some k)) Any
unfolding finish_number number_of
finish_number-Goes rec TokenKind.integer m e =
    finish_runs NodeKind.expr_integer (expect_runs TokenKind.integer)
finish_number-Goes rec TokenKind.float m e =
    finish_runs NodeKind.expr_float (expect_runs TokenKind.float)
finish_number-Goes rec _ m e = absurd_truth e

by_number :
    (rec : Call → Build) {m : ℕ}
    → Goes 0
        (λ s. Clean s × Numeric (s.current ∷ s.later))
        m
        (λ children. by_kind (finish_number rec children))
        Any
unfolding by_kind first_kind Clean
by_number rec {m} = record {
  go = λ children cs s w lt p.
      subst (λ k. Outcome 0 Any (finish_number rec children k cs s) (push_all cs children) s)
        (sym (kind_clean s p.0))
        ((finish_number-Goes rec s.current.kind m p.1).go children cs s w lt p.0);
}

pub negative_number-Runs :
    (rec : Call → Build) {m : ℕ} → Runs 1 Negative m (negative_number rec) Any
unfolding negative_number
negative_number-Runs rec =
    collecting_runs (trivia_still Negative-clean ⨾ after_that expect_minus Numbered-trivia)
      (by_number rec)

module _ (rec : Call → Build) (m : ℕ) (w : Works rec m) where
  finish_name-Goes :
      (lexeme : Text) → Goes 0 Any m (λ children. finish_name rec lexeme children) Any
  unfolding finish_name
  finish_name-Goes lexeme =
      Goes-if (same_text lexeme (codes "result"))
        (finish_runs NodeKind.expr_contract_result stop_runs)
        (Goes-branch (λ s. first_is_uppercase lexeme && starts_record_literal s)
          (finish_runs NodeKind.expr_record (
            trivia_runs
            ⨟ expect_runs TokenKind.l_brace
            ⨟ parse_field_init_list-Runs rec m w
            ⨟ trivia_runs
            ⨟ expect_runs TokenKind.r_brace))
          (finish_runs NodeKind.expr_name stop_runs))

  named-Goes : Goes 1 (Here TokenKind.ident) (suc m) (named rec) Any
  unfolding named same_kind is_trivia
  named-Goes = record {
    go = λ children cs s well lt h.
        (Goes-on (expect_takes TokenKind.ident refl refl) (finish_name-Goes s.current.lexeme)).go
          children cs s well lt h;
  }

  pub name-Runs : Runs 1 (Here TokenKind.ident) (suc m) (name rec) Any
  unfolding name is_trivia
  name-Runs = collecting_runs (trivia_here TokenKind.ident refl) named-Goes
