-- ===== src/Parser/Works.antt =====
-- What the functions of the parser that a call can reach are taken to do, on fewer tokens.
use sarif.Base.{ℕ}
use sarif.Syntax.Token.{TokenKind}
use sarif.Parser.Build.{Build}
use sarif.Parser.Types.{Call, type_call, postfix_call, body_call, if_call, expr_call}
use sarif.Parser.Runs.{Fact, Any, Clean, Here, Runs}

unfoldable pub start : Call → Fact
start if_call = Here TokenKind.kw_if
start _ = Clean

abbrev pub Works : (Call → Build) → ℕ → Type 0
Works rec m = (c : Call) → Runs 0 (start c) m (rec c) Any

pub Works-type : {rec : Call → Build} {m : ℕ} → Works rec m → Runs 0 Clean m (rec type_call) Any
unfolding start
Works-type w = w type_call

pub Works-expr :
    {rec : Call → Build} {m : ℕ} → Works rec m → (n : ℕ) → Runs 0 Clean m (rec (expr_call n)) Any
unfolding start
Works-expr w n = w (expr_call n)

pub Works-body : {rec : Call → Build} {m : ℕ} → Works rec m → Runs 0 Clean m (rec body_call) Any
unfolding start
Works-body w = w body_call

pub Works-postfix :
    {rec : Call → Build} {m : ℕ} → Works rec m → Runs 0 Clean m (rec postfix_call) Any
unfolding start
Works-postfix w = w postfix_call

pub Works-if :
    {rec : Call → Build} {m : ℕ} → Works rec m → Runs 0 (Here TokenKind.kw_if) m (rec if_call) Any
unfolding start
Works-if w = w if_call
