-- ===== src/Parser/OperatorsRun.antt =====
-- How the functions on primary expressions and operators run, crates/sarif_syntax/src/parser.rs.
use sarif.Base.{ℕ, suc, ◌≡◌, refl, Bool, true, false, Option, none, some, ◌≤◌, arith}
use sarif.Syntax.Token.{TokenKind, is_trivia}
use sarif.Syntax.Tree.{NodeKind}
use sarif.Parser.Kinds.{same_kind}
use sarif.Parser.State.{Parser}
use sarif.Parser.Build.{Build, loop, by_kind}
use sarif.Parser.Types.{Call}
use sarif.Parser.Runs.{Fact, Any, Clean, Here, Peeks, Runs}
use sarif.Parser.Rules.{weaken, lower, knowing, stop_runs, ◌⨟◌, ◌⟫◌, ◌⨾◌, peek_runs}
use sarif.Parser.Trivia.{trivia_runs, trivia_peek, trivia_here}
use sarif.Parser.Steps.{expect_runs, expect_takes}
use sarif.Parser.Nodes.{node_of_runs, within_runs, wrap_runs}
use sarif.Parser.Loops.{loop_runs, stop-Any}
use sarif.Parser.Works.{Works, Works-expr, Works-postfix}
use sarif.Parser.Ready.{
  Ready, Here-Ready, after_that, split_runs, clean_split, absurd_truth, by_kind_ready, by_kind_here,
  by_kind_peek,
}
use sarif.Base.{not, ◌&&◌, if◌then◌else◌, ltb}
use sarif.Parser.State.{next_non_trivia_kind_is_numeric_literal}
use sarif.Parser.Runs.{is_plain}
use sarif.Parser.Peek.{infix_binding_power}
use sarif.Parser.Exprs.{literal, parse_error_expr}
use sarif.Parser.Bodies.{
  group, primary, prefix, parse_prefix_expr, postfix_round, parse_postfix_expr, operator,
  operator_at, parse_expr_bp,
}
use sarif.Parser.NamesRun.{
  parse_error_expr-Runs, parse_error_expr-Ready, Negative, negative_number-Runs, name-Runs,
}
use sarif.Parser.ExprsRun.{
  parse_arg_list-Runs, parse_field_update_list-Runs, parse_if_expr-Runs, parse_match_expr-Runs,
  parse_repeat_expr-Runs, parse_for_expr-Runs, parse_while_expr-Runs, parse_comptime_expr-Runs,
  parse_perform_expr-Runs, parse_array_expr-Runs,
}

literal-Runs :
    {m : ℕ}
    → (node : NodeKind) (k : TokenKind) → same_kind k TokenKind.eof ≡ false
    → is_trivia k ≡ false
    → Runs 1 (Here k) m (literal node k) Any
unfolding literal
literal-Runs node k d e = node_of_runs node (trivia_here k e ⨾ expect_takes k d e)

first_of : (a b : Bool) → (not a && b) ≡ true → a ≡ false
first_of true b e = absurd_truth e
first_of false b e = refl

pub below : {k m : ℕ} → suc k ≤ suc m → k ≤ m
below le = omega (arith, le)

if_runs :
    {d : ℕ} {P Q : Fact} {m : ℕ} {a b : Build}
    → (c : Bool) → Runs d P m a Q
    → Runs d P m b Q
    → Runs d P m (if c then a else b) Q
if_runs true r t = r
if_runs false r t = t

plain_not_last : (k : TokenKind) → is_plain k ≡ true → same_kind k TokenKind.eof ≡ false
unfolding is_plain
plain_not_last k e = first_of (same_kind k TokenKind.eof) (not (same_kind k TokenKind.kw_handle)) e

minus_number :
    (s : Parser)
    → Here TokenKind.minus s
    → next_non_trivia_kind_is_numeric_literal s ≡ true
    → Negative s
unfolding Negative next_non_trivia_kind_is_numeric_literal
minus_number s h e = (h, e)

error_here :
    {m : ℕ}
    → (k : TokenKind) → is_trivia k ≡ false
    → is_plain k ≡ true
    → Runs 1 (Here k) m parse_error_expr Any
error_here k e p = knowing (λ s h. Here-Ready k s e (plain_not_last k p) h) parse_error_expr-Ready

-- On fewer tokens still.
pub Works-lower : {rec : Call → Build} {m k : ℕ} → k ≤ m → Works rec m → Works rec k
Works-lower le w = λ c. lower le (w c)

module _ (rec : Call → Build) (m : ℕ) (w : Works rec m) where
  group-Runs : Runs 1 (Here TokenKind.l_paren) (suc m) (group rec) Any
  unfolding group same_kind is_trivia
  group-Runs = node_of_runs NodeKind.expr_group (
      trivia_here TokenKind.l_paren refl
      ⨾ expect_takes TokenKind.l_paren refl refl
      ⟫ trivia_runs
      ⨟ Works-expr w 0
      ⨟ trivia_runs
      ⨟ expect_runs TokenKind.r_paren)

  primary-Runs :
      (k : TokenKind)
      → is_trivia k ≡ false
      → is_plain k ≡ true
      → Runs 1 (Here k) (suc m) (primary rec (some k)) Any
  unfolding primary same_kind is_trivia is_plain
  primary-Runs TokenKind.kw_if e p = parse_if_expr-Runs rec m w
  primary-Runs TokenKind.kw_match e p = parse_match_expr-Runs rec m w
  primary-Runs TokenKind.kw_repeat e p = parse_repeat_expr-Runs rec m w
  primary-Runs TokenKind.kw_for e p = parse_for_expr-Runs rec m w
  primary-Runs TokenKind.kw_while e p = parse_while_expr-Runs rec m w
  primary-Runs TokenKind.kw_perform e p = parse_perform_expr-Runs rec m w
  primary-Runs TokenKind.kw_comptime e p = parse_comptime_expr-Runs rec m w
  primary-Runs TokenKind.kw_handle e p = absurd_truth p
  primary-Runs TokenKind.l_bracket e p = parse_array_expr-Runs rec m w
  primary-Runs TokenKind.integer e p =
      literal-Runs NodeKind.expr_integer TokenKind.integer refl refl
  primary-Runs TokenKind.float e p = literal-Runs NodeKind.expr_float TokenKind.float refl refl
  primary-Runs TokenKind.minus e p =
      split_runs next_non_trivia_kind_is_numeric_literal minus_number (λ s h t. h)
        (negative_number-Runs rec) (error_here TokenKind.minus refl refl)
  primary-Runs TokenKind.string e p = literal-Runs NodeKind.expr_string TokenKind.string refl refl
  primary-Runs TokenKind.kw_true e p = literal-Runs NodeKind.expr_bool TokenKind.kw_true refl refl
  primary-Runs TokenKind.kw_false e p = literal-Runs NodeKind.expr_bool TokenKind.kw_false refl refl
  primary-Runs TokenKind.ident e p = name-Runs rec m w
  primary-Runs TokenKind.l_paren e p = group-Runs
  primary-Runs k e p = error_here k e p

  prefix-Runs :
      (k : TokenKind)
      → is_trivia k ≡ false
      → is_plain k ≡ true
      → Runs 1 (Here k) (suc m) (prefix rec (some k)) Any
  unfolding prefix same_kind is_trivia
  prefix-Runs TokenKind.kw_not e p = node_of_runs NodeKind.expr_unary (
      trivia_here TokenKind.kw_not refl
      ⨾ expect_takes TokenKind.kw_not refl refl
      ⟫ trivia_runs
      ⨟ Works-postfix w)
  prefix-Runs k e p = primary-Runs k e p

  parse_prefix_expr-Runs : Runs 1 Ready (suc m) (parse_prefix_expr rec) Any
  unfolding parse_prefix_expr
  parse_prefix_expr-Runs = by_kind_ready (prefix rec) prefix-Runs

  -- At the last token there is an error.
  prefix_last : Runs 0 (Here TokenKind.eof) (suc m) (parse_prefix_expr rec) Any
  unfolding parse_prefix_expr prefix primary is_trivia
  prefix_last = by_kind_here (prefix rec) TokenKind.eof refl parse_error_expr-Runs

postfix_round-Runs :
    (rec : Call → Build) (m : ℕ) (next : Build)
    → Works rec m
    → Runs 0 Any m next Any
    → Runs 0 Any (suc m) (postfix_round rec next) Any
unfolding postfix_round same_kind is_trivia
postfix_round-Runs rec m next w t =
    peek_runs TokenKind.l_paren
      (weaken (
        wrap_runs NodeKind.expr_call (
          trivia_peek TokenKind.l_paren
          ⨾ expect_takes TokenKind.l_paren refl refl
          ⟫ parse_arg_list-Runs rec m w
          ⨟ expect_runs TokenKind.r_paren)
        ⟫ t))
      (peek_runs TokenKind.dot
        (weaken (
          wrap_runs NodeKind.expr_field (
            trivia_peek TokenKind.dot
            ⨾ expect_takes TokenKind.dot refl refl
            ⟫ trivia_runs
            ⨟ expect_runs TokenKind.ident)
          ⟫ t))
        (peek_runs TokenKind.l_bracket
          (weaken (
            wrap_runs NodeKind.expr_index (
              trivia_peek TokenKind.l_bracket
              ⨾ expect_takes TokenKind.l_bracket refl refl
              ⟫ trivia_runs
              ⨟ Works-expr w 0
              ⨟ trivia_runs
              ⨟ expect_runs TokenKind.r_bracket)
            ⟫ t))
          (peek_runs TokenKind.kw_with
            (weaken (
              wrap_runs NodeKind.expr_record_update (
                trivia_peek TokenKind.kw_with
                ⨾ expect_takes TokenKind.kw_with refl refl
                ⟫ trivia_runs
                ⨟ expect_runs TokenKind.l_brace
                ⨟ trivia_runs
                ⨟ parse_field_update_list-Runs rec m w
                ⨟ trivia_runs
                ⨟ expect_runs TokenKind.r_brace)
              ⟫ t))
            stop_runs)))

infix_taken :
    (k : TokenKind) (p : ℕ × ℕ)
    → infix_binding_power k ≡ some p
    → (same_kind k TokenKind.eof ≡ false) × (is_trivia k ≡ false)
unfolding infix_binding_power same_kind is_trivia
infix_taken TokenKind.kw_or p e = (refl, refl)
infix_taken TokenKind.kw_and p e = (refl, refl)
infix_taken TokenKind.pipe p e = (refl, refl)
infix_taken TokenKind.caret p e = (refl, refl)
infix_taken TokenKind.amp p e = (refl, refl)
infix_taken TokenKind.eq_eq p e = (refl, refl)
infix_taken TokenKind.not_eq p e = (refl, refl)
infix_taken TokenKind.lt p e = (refl, refl)
infix_taken TokenKind.le p e = (refl, refl)
infix_taken TokenKind.gt p e = (refl, refl)
infix_taken TokenKind.ge p e = (refl, refl)
infix_taken TokenKind.shl p e = (refl, refl)
infix_taken TokenKind.shr p e = (refl, refl)
infix_taken TokenKind.plus p e = (refl, refl)
infix_taken TokenKind.minus p e = (refl, refl)
infix_taken TokenKind.star p e = (refl, refl)
infix_taken TokenKind.slash p e = (refl, refl)
infix_taken TokenKind.percent p e = (refl, refl)
infix_taken _ p e = let wrong : ⊥ = cc e in elim wrong [ ]

operator-Runs :
    (rec : Call → Build) (m min_bp : ℕ) (next : Build) (k : TokenKind) (o : Option (ℕ × ℕ))
    → infix_binding_power k ≡ o
    → Works rec m
    → Runs 0 Any m next Any
    → Runs 0 (Peeks k) (suc m) (operator rec min_bp next k o) Any
unfolding operator
operator-Runs rec m min_bp next k none e w t = stop-Any
operator-Runs rec m min_bp next k (some (l, r)) e w t = if_runs (ltb l min_bp) stop-Any (
    let taken = infix_taken k (l, r) e in
    weaken (
      wrap_runs NodeKind.expr_binary
        (trivia_peek k ⨾ expect_takes k taken.0 taken.1 ⟫ trivia_runs ⨟ Works-expr w r)
      ⟫ t))

module _ (rec : Call → Build) (m : ℕ) (w : Works rec m) where
  postfix_loop : Runs 0 Any (suc m) (loop (postfix_round rec)) Any
  postfix_loop =
      loop_runs (λ next k le t. postfix_round-Runs rec k next (Works-lower (below le) w) t)

  pub parse_postfix_expr-Ready : Runs 1 Ready (suc m) (parse_postfix_expr rec) Any
  unfolding parse_postfix_expr
  parse_postfix_expr-Ready = within_runs (after_that (parse_prefix_expr-Runs rec m w) postfix_loop)

  pub parse_postfix_expr-Runs : Runs 0 Clean (suc m) (parse_postfix_expr rec) Any
  unfolding parse_postfix_expr
  parse_postfix_expr-Runs =
      clean_split parse_postfix_expr-Ready (within_runs (prefix_last rec m w ⨟ postfix_loop))

  operators :
      (min_bp : ℕ) → Runs 0 Any (suc m) (loop (λ next. by_kind (operator_at rec min_bp next))) Any
  unfolding operator_at
  operators min_bp = loop_runs (λ next k le t. by_kind_peek (operator_at rec min_bp next) (λ j.
      operator-Runs rec k min_bp next j (infix_binding_power j) refl (Works-lower (below le) w) t))

  pub parse_expr_bp-Ready : (min_bp : ℕ) → Runs 1 Ready (suc m) (parse_expr_bp rec min_bp) Any
  unfolding parse_expr_bp
  parse_expr_bp-Ready min_bp = within_runs (after_that parse_postfix_expr-Ready (operators min_bp))

  pub parse_expr_bp-Runs : (min_bp : ℕ) → Runs 0 Clean (suc m) (parse_expr_bp rec min_bp) Any
  unfolding parse_expr_bp
  parse_expr_bp-Runs min_bp = within_runs (parse_postfix_expr-Runs ⨟ operators min_bp)
