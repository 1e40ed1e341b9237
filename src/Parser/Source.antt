-- ===== src/Parser/Source.antt =====
-- The lexer and the parser together, crates/sarif_syntax/src/lexer.rs `lex` and parser.rs `parse`.
use sarif.Base.{
  ℕ, suc, ◌≤◌, ◌<◌, ◌≡◌, refl, sym, ap, ◌∙◌, Bool, true, false, ◌||◌, Option, some, List, [], ◌∷◌,
  ◌++◌, length, any, arith,
}
use mathlib.Core.Path.{subst}
use sarif.Text.{Text}
use sarif.Syntax.Token.{Token, TokenKind, Diagnostic}
use sarif.Syntax.Kind.{RawTokenKind, map_token_kind}
use sarif.Syntax.Lexer.{IdentCache, Lexed, Scanned, lex, with_eof}
use sarif.Syntax.Covered.{Consistent, Scans, Covered, ended, good, bad, removed, lex-Covered}
use sarif.Syntax.Lossless.{text_of, is_removal, lex_lossless}
use sarif.Parser.Kinds.{same_kind}
use sarif.Parser.State.{Parser}
use sarif.Parser.Leaves.{node_text, text_of-written}
use sarif.Parser.Runs.{is_plain, IsEnded}
use sarif.Parser.Items.{ParseOutput, parse_tokens}
use sarif.Parser.Total.{parse-Parsed}
use sarif.Parser.Ready.{absurd_truth}

unfoldable pub is_handle : Token → Bool
unfolding same_kind
is_handle t = same_kind t.kind TokenKind.kw_handle

raw_not_last : (k : RawTokenKind) → same_kind (map_token_kind k) TokenKind.eof ≡ false
unfolding same_kind map_token_kind
raw_not_last RawTokenKind.whitespace = refl
raw_not_last _ = refl

raw_plain :
    (k : RawTokenKind)
    → same_kind (map_token_kind k) TokenKind.kw_handle ≡ false
    → is_plain (map_token_kind k) ≡ true
unfolding is_plain
raw_plain k e = rw (raw_not_last k, e) refl

-- A list of tokens that ends with `Eof`.
unfoldable pub IsWhole : List Token → Type 0
IsWhole [] = ⊥
IsWhole (t ∷ ts) = IsEnded t ts

IsWhole-cons :
    (t : Token) (ts : List Token) → is_plain t.kind ≡ true → IsWhole ts → IsWhole (t ∷ ts)
unfolding IsWhole IsEnded
IsWhole-cons t [] p w = elim w [ ]
IsWhole-cons t (u ∷ us) p w = (p, w)

first_or : (a b : Bool) → (a || b) ≡ false → (a ≡ false) × (b ≡ false)
first_or true b e = absurd_truth (sym e)
first_or false b e = (refl, e)

invalid_plain : is_plain TokenKind.invalid ≡ true
unfolding is_plain same_kind
invalid_plain = refl

Covered-IsWhole :
    (source : Text) (p : ℕ) (ts : List Token) (ds : List Diagnostic) (end : Token)
    → Covered source p ts ds
    → any is_handle (ts ++ (end ∷ [])) ≡ false
    → end.kind ≡ TokenKind.eof
    → end.lexeme ≡ []
    → IsWhole (ts ++ (end ∷ []))
unfolding IsWhole IsEnded is_handle
Covered-IsWhole source p ts ds end ended h e l = (e, l)
Covered-IsWhole source p _ ds end (good {ts} k f lt le c) h e l =
    let parts =
      first_or (same_kind (map_token_kind k) TokenKind.kw_handle) (any is_handle (ts ++ (end ∷ [])))
        h in
    IsWhole-cons _ (ts ++ (end ∷ [])) (raw_plain k parts.0)
      (Covered-IsWhole source f ts ds end c parts.1 e l)
Covered-IsWhole source p _ _ end (bad {ts} {ds} f lt le c) h e l =
    IsWhole-cons _ (ts ++ (end ∷ [])) invalid_plain (Covered-IsWhole source f ts ds end c h e l)
Covered-IsWhole source p ts _ end (removed {ds} lt c) h e l =
    Covered-IsWhole source (suc p) ts ds end c h e l

-- What the parser gives for a whole list of tokens.
pub record ParsedAll (depth : ℕ) (tokens : List Token) : Type 0 where
  pub output : ParseOutput
  pub end : Parser
  pub gives : parse_tokens depth tokens ≡ some (output, end)
  pub complete : output.diagnostics ≡ [] → node_text output.root ≡ text_of tokens

parse_whole :
    (depth : ℕ) (tokens : List Token)
    → IsWhole tokens
    → length tokens ≤ suc depth
    → ParsedAll depth tokens
unfolding IsWhole parse_tokens
parse_whole depth [] w le = elim w [ ]
parse_whole depth (t ∷ ts) w le =
    let o = parse-Parsed depth t ts w (omega (arith, le)) in
    record {
      output = o.output;
      end = o.end;
      gives = o.gives;
      complete = λ e. ap text_of (o.complete e) ∙ text_of-written (t ∷ ts);
    }

-- What the front end gives for a source.
pub record ParsedSource (source : Text) (depth : ℕ) (l : Lexed) : Type 0 where
  pub output : ParseOutput
  pub end : Parser
  pub gives : parse_tokens depth l.tokens ≡ some (output, end)
  pub complete :
      any is_removal l.diagnostics ≡ false
      → output.diagnostics ≡ []
      → node_text output.root ≡ source

eof_of :
    (source : Text) (m : Lexed)
    → Covered source 0 m.tokens m.diagnostics
    → any is_handle (with_eof m).tokens ≡ false
    → IsWhole (with_eof m).tokens
unfolding with_eof
eof_of source m c h = Covered-IsWhole source 0 m.tokens m.diagnostics _ c h refl refl

some_same : {A : Type 0} {a b : A} → some a ≡ some b → a ≡ b
some_same {a} {b} e = cc

-- Lexing and then parsing a source loses none of it: with a scanner that behaves as `Scans` says, a
-- cache whose entries stand for themselves and more rounds than the source has characters, where the
-- lexer gives no token `handle` and the depth of calls is at least the number of its tokens less one,
-- the parser gives an output; and if no byte was removed and the parser reports nothing, the text of the
-- tree is the source.
pub parse_tokens-lex :
    (next : Text → ℕ → Option Scanned) (source : Text) (fuel depth : ℕ) (cache : IdentCache)
    (l : Lexed)
    → Scans next
    → Consistent cache
    → length source < fuel
    → lex next source fuel cache ≡ some l
    → any is_handle l.tokens ≡ false
    → length l.tokens ≤ suc depth
    → ParsedSource source depth l
parse_tokens-lex next source fuel depth cache l h kept enough ran free deep =
    let (m, ran_too, cover) = lex-Covered next h source fuel cache kept enough in
    let same : with_eof m ≡ l = some_same (sym ran_too ∙ ran) in
    let free_too : any is_handle (with_eof m).tokens ≡ false =
      subst (λ x. any is_handle x.tokens ≡ false) (sym same) free in
    let whole : IsWhole l.tokens =
      subst (λ x. IsWhole x.tokens) same (eof_of source m cover free_too) in
    let o = parse_whole depth l.tokens whole deep in
    record {
      output = o.output;
      end = o.end;
      gives = o.gives;
      complete =
          λ clean e. o.complete e ∙ lex_lossless next source fuel cache l h kept enough ran clean;
    }
