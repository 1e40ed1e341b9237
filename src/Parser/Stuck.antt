-- ===== src/Parser/Stuck.antt =====
-- The loop over the parameters of an arm, crates/sarif_syntax/src/parser.rs `parse_handle_expr`.
use sarif.Base.{ℕ, zero, suc, ◌≡◌, refl, ap, ◌∙◌, Bool, true, false, ◌||◌, none, some, []}
use sarif.Syntax.Token.{Token, TokenKind, is_trivia}
use sarif.Syntax.Tree.{Elements, a_token}
use sarif.Parser.Kinds.{same_kind}
use sarif.Parser.State.{Parser, at, push}
use sarif.Parser.Build.{
  Build, rounds, and_then, ◌▸◌, stop, if_at, branch, trivia, expect, take_or_insert, report,
  expected_token,
}
use sarif.Parser.Types.{Call, until}
use sarif.Parser.Exprs.{handle_param}
use sarif.Parser.Runs.{Clean}
use sarif.Parser.Steps.{expect_is}
use sarif.Parser.NamesRun.{collect_clean}

-- A kind that is no parameter and ends no list of them.
unfoldable pub is_odd : TokenKind → Bool
is_odd TokenKind.whitespace = false
is_odd TokenKind.newline = false
is_odd TokenKind.comment = false
is_odd TokenKind.ident = false
is_odd TokenKind.comma = false
is_odd TokenKind.r_paren = false
is_odd TokenKind.eof = false
is_odd _ = true

odd_kind :
    (k : TokenKind)
    → is_odd k ≡ true
    → (is_trivia k ≡ false)
      × (same_kind k TokenKind.ident ≡ false)
      × (same_kind k TokenKind.comma ≡ false)
      × ((same_kind k TokenKind.r_paren || same_kind k TokenKind.eof) ≡ false)
unfolding is_odd is_trivia same_kind
odd_kind TokenKind.whitespace e = absurd (cc)
odd_kind TokenKind.newline e = absurd (cc)
odd_kind TokenKind.comment e = absurd (cc)
odd_kind TokenKind.ident e = absurd (cc)
odd_kind TokenKind.comma e = absurd (cc)
odd_kind TokenKind.r_paren e = absurd (cc)
odd_kind TokenKind.eof e = absurd (cc)
odd_kind _ e = (refl, refl, refl, refl)

-- The token that is put in for one that is missing.
abbrev missing : TokenKind → Parser → Token
missing k s = record { kind = k; lexeme = []; span = s.current.span }

expect-missing :
    (k : TokenKind) (cs : Elements) (s : Parser)
    → Clean s
    → at k s ≡ false
    → expect k cs s ≡ some (push cs (a_token (missing k s)), report (expected_token k s.current) s)
unfolding take_or_insert stop
expect-missing k cs s c e = expect_is k cs s c ∙ rw e refl

trivia_none : (cs : Elements) (s : Parser) → Clean s → trivia cs s ≡ some (cs, s)
unfolding trivia Clean
trivia_none cs s c = collect_clean s.current s.later s.diagnostics cs c

branch-false :
    (test : Parser → Bool) (a b : Build) (cs : Elements) (s : Parser)
    → test s ≡ false
    → branch test a b cs s ≡ b cs s
unfolding branch
branch-false test a b cs s e = rw e refl

then_on :
    (a b : Build) (cs ds : Elements) (s t : Parser) → a cs s ≡ some (ds, t) → (a ▸ b) cs s ≡ b ds t
unfolding ◌▸◌
then_on a b cs ds s t e = ap (λ r. and_then r b) e

no_comma :
    (a : Build) (cs : Elements) (s : Parser)
    → at TokenKind.comma s ≡ false
    → if_at TokenKind.comma a stop cs s ≡ some (cs, s)
unfolding if_at stop
no_comma a cs s e = branch-false (at TokenKind.comma) a stop cs s e

-- A round leaves the parser at the token where it was, with one more diagnostic.
abbrev round_end : Elements → Parser → Elements × Parser
round_end cs s = (
  push cs (a_token (missing TokenKind.ident s)),
  report (expected_token TokenKind.ident s.current) s,
)

round_stays :
    (rec : Call → Build) (next : Build) (cs : Elements) (s : Parser)
    → is_odd s.current.kind ≡ true
    → handle_param rec next cs s ≡ next (round_end cs s).0 (round_end cs s).1
unfolding handle_param until at Clean report
round_stays rec next cs s e =
    let (clean, no_name, comma, inside) = odd_kind s.current.kind e in
    let (ds, t) = round_end cs s in
    branch-false (λ u. at TokenKind.r_paren u || at TokenKind.eof u) _ _ cs s inside
    ∙ (then_on _ _ cs ds s t (expect-missing TokenKind.ident cs s clean no_name)
        ∙ (then_on _ _ ds ds t t (trivia_none ds t clean)
            ∙ then_on _ _ ds ds t t (no_comma _ ds t comma)))

-- The loop over the parameters of an arm of `handle` ends within no number of rounds at a token that is
-- neither a name, a comma, a closing parenthesis, trivia nor the last.
pub handle_param-hangs :
    (rec : Call → Build) (n : ℕ) (cs : Elements) (s : Parser)
    → is_odd s.current.kind ≡ true
    → rounds n (handle_param rec) cs s ≡ none
unfolding rounds report
handle_param-hangs rec zero cs s e = refl
handle_param-hangs rec (suc n) cs s e =
    let (ds, t) = round_end cs s in
    round_stays rec (λ es u. rounds n (handle_param rec) es u) cs s e
    ∙ handle_param-hangs rec n ds t e
