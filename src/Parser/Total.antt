-- ===== src/Parser/Total.antt =====
-- The whole parser, crates/sarif_syntax/src/parser.rs `parse`.
use sarif.Base.{ℕ, suc, ◌≡◌, refl, some, ◌≤◌, arith}
use sarif.Syntax.Token.{Token, TokenKind}
use sarif.Syntax.Tree.{NodeKind, Elements}
use sarif.Parser.Kinds.{same_kind}
use sarif.Parser.State.{Parser}
use sarif.Parser.Build.{stop, bump_with, bump, report}
use sarif.Parser.Types.{type_call, postfix_call, body_call, if_call, expr_call}
use sarif.Parser.Runs.{Fact, Any, Here, Outcome, Runs}
use sarif.Parser.Rules.{weaken, stop_runs, ◌⨟◌, if_at_runs}
use sarif.Parser.Trivia.{trivia_runs}
use sarif.Parser.Steps.{bump_with_runs}
use sarif.Parser.Works.{Works}
use sarif.Parser.Ready.{absurd_truth}
use sarif.Base.{zero, List, [], ◌∷◌, ◌++◌, sym, ap, ◌∙◌, length}
use mathlib.Core.List.{append-nil}
use sarif.Syntax.Tree.{none_left, new_node}
use sarif.Syntax.Token.{Diagnostic}
use sarif.Parser.State.{advance}
use sarif.Parser.Exprs.{reporting}
use sarif.Parser.Leaves.{written, with_text-nil, elements_leaves, node_leaves, node_leaves-new_node}
use sarif.Parser.Trivia.{at_token}
use sarif.Parser.Steps.{without_text}
use sarif.Syntax.Tree.{a_token}
use sarif.Parser.State.{push}
use sarif.Parser.Runs.{is_plain, IsEnded, unread}
use sarif.Parser.Items.{functions, source_file, out_of_order, ParseOutput, output_of, parse}
use sarif.Parser.TypesRun.{parse_type-Runs}
use sarif.Parser.ExprsRun.{parse_if_expr-Runs}
use sarif.Parser.OperatorsRun.{parse_postfix_expr-Runs, parse_expr_bp-Runs}
use sarif.Parser.BodiesRun.{parse_expr_body-Runs}
use sarif.Parser.ItemsRun.{items-Runs}
use sarif.Parser.Works.{start}

-- At a depth of calls above the number of tokens after the current one, `parse_type`,
-- `parse_postfix_expr`, `parse_expr_body`, `parse_if_expr` and `parse_expr_bp` end, if the last token
-- and no other is Eof, without text, none is the word `handle`, and the current one is no trivia (for
-- `parse_if_expr` is `if`). They leave such a row of tokens, never go back, and then each token with
-- a lexeme is either among the children or ahead, in order.
pub functions-Works : (n : ℕ) → Works (functions n) n
unfolding functions start
functions-Works zero call = record {
  run = λ cs s w lt p. let wrong : ⊥ = omega (arith, lt) in elim wrong [ ];
}
functions-Works (suc n) type_call = parse_type-Runs _ n (functions-Works n)
functions-Works (suc n) postfix_call = parse_postfix_expr-Runs _ n (functions-Works n)
functions-Works (suc n) body_call = parse_expr_body-Runs _ n (functions-Works n)
functions-Works (suc n) if_call = weaken (parse_if_expr-Runs _ n (functions-Works n))
functions-Works (suc n) (expr_call min_bp) = parse_expr_bp-Runs _ n (functions-Works n) min_bp

-- Nothing is left, or an error says so.
unfoldable Complete : Fact
Complete s = s.diagnostics ≡ [] → unread s ≡ []

ended_empty :
    (t : Token) (us : List Token) → IsEnded t us → t.kind ≡ TokenKind.eof → written (t ∷ us) ≡ []
unfolding IsEnded written is_plain same_kind
ended_empty t [] w e = ap (λ x. x ++ []) (with_text-nil t w.1)
ended_empty t (u ∷ us) w e = absurd_truth (sym (ap is_plain e) ∙ w.0)

end_complete : {m : ℕ} → Runs 0 (Here TokenKind.eof) m stop Complete
unfolding Complete Here stop
end_complete = record {
  run = λ cs s w lt h. record {
    children = cs;
    after = s;
    ran = refl;
    well = w;
    fact = λ d. ended_empty s.current s.later w h;
    forward = omega arith;
    kept = refl;
  };
}

snoc_not_nil : {A : Type 0} → (xs : List A) (x : A) → xs ++ (x ∷ []) ≡ [] → ⊥
snoc_not_nil [] x e = cc e
snoc_not_nil (y ∷ ys) x e = cc e

reported : {P : Fact} {m : ℕ} → (d : Diagnostic) → Runs 0 P m (reporting d) Complete
unfolding Complete reporting report
reported d = record {
  run = λ cs s w lt p. record {
    children = cs;
    after = report d s;
    ran = refl;
    well = w;
    fact = λ e. elim (snoc_not_nil s.diagnostics d e) [ ];
    forward = omega arith;
    kept = refl;
  };
}

-- Past the last token there is no more.
last-Outcome :
    (cs : Elements) (t : Token) (us : List Token) (ds : List Diagnostic)
    → IsEnded t us
    → t.kind ≡ TokenKind.eof
    → Outcome 0 Complete (bump cs (at_token t us ds)) cs (at_token t us ds)
unfolding IsEnded Complete bump bump_with advance stop is_plain same_kind
last-Outcome cs t [] ds w e = record {
  children = push cs (a_token t);
  after = at_token t [] ds;
  ran = refl;
  well = w;
  fact = λ d. ended_empty t [] w e;
  forward = omega arith;
  kept = ap (λ x. x ++ written (t ∷ [])) (without_text cs t w.1);
}
last-Outcome cs t (u ∷ us) ds w e = absurd_truth (sym (ap is_plain e) ∙ w.0)

last_taken : {m : ℕ} → Runs 0 (Here TokenKind.eof) m bump Complete
unfolding Here
last_taken = record { run = λ cs s w lt h. last-Outcome cs s.current s.later s.diagnostics w h }

source_file-Runs : (depth : ℕ) → Runs 0 Any (suc depth) (source_file depth) Complete
unfolding source_file
source_file-Runs depth =
    trivia_runs
    ⨟ items-Runs (functions depth) depth (functions-Works depth)
    ⨟ if_at_runs TokenKind.eof end_complete (bump_with_runs (λ t. reported (out_of_order t)))
    ⨟ if_at_runs TokenKind.eof last_taken stop_runs

-- What `parse` gives: an output, and the parser at the end. The tokens with a lexeme are the leaves of
-- the tree and then those that are unread, and none is unread where there is no diagnostic.
pub record Parsed (depth : ℕ) (first : Token) (later : List Token) : Type 0 where
  pub output : ParseOutput
  pub end : Parser
  pub gives : parse depth first later ≡ some (output, end)
  pub keeps : node_leaves output.root ++ unread end ≡ written (first ∷ later)
  pub complete : output.diagnostics ≡ [] → node_leaves output.root ≡ written (first ∷ later)

-- The parser ends and loses nothing: on tokens of which the last and no other is `Eof`, with no lexeme,
-- and none is the word `handle`, with a depth of calls of at least the number of the tokens after the
-- first, `parse` gives an output; the leaves of its tree that have a lexeme, and then the tokens with
-- a lexeme that are left unread, are the tokens with a lexeme in their order; and without a diagnostic
-- the leaves are all of them.
pub parse-Parsed :
    (depth : ℕ) (first : Token) (later : List Token)
    → IsEnded first later
    → length later ≤ depth
    → Parsed depth first later
unfolding parse output_of Complete Any elements_leaves
parse-Parsed depth first later w le =
    let o =
      (source_file-Runs depth).run none_left (at_token first later []) w (omega (arith, le)) tt in
    record {
      output = record {
        root = new_node NodeKind.source_file o.children;
        diagnostics = o.after.diagnostics;
      };
      end = o.after;
      gives = ap output_of o.ran;
      keeps =
          ap (λ u. u ++ unread o.after) (node_leaves-new_node NodeKind.source_file o.children)
          ∙ o.kept;
      complete = λ e.
          node_leaves-new_node NodeKind.source_file o.children
          ∙ (sym (append-nil (elements_leaves o.children))
              ∙ (ap (λ u. elements_leaves o.children ++ u) (sym (o.fact e)) ∙ o.kept));
    }
