-- ===== src/Syntax/Covered.antt =====
-- The rounds of crates/sarif_syntax/src/lexer.rs `lex` cover the source.
use sarif.Base.{
  ℕ, zero, suc, ◌+◌, ◌-◌, ◌≤◌, ◌<◌, ◌≡◌, refl, sym, ap, ◌∙◌, Option, none, some, List, [], ◌∷◌,
  length, All, arith, Bool-cases, inl, inr, ◌==◌, ◌⊎◌,
}
use mathlib.Core.Path.{subst}
use sarif.Text.{Text, drop, same_text}
use sarif.Text.Laws.{same_text_eq}
use sarif.Syntax.Token.{Token, TokenKind, Diagnostic, span}
use sarif.Syntax.Kind.{RawTokenKind, map_token_kind}
use sarif.Syntax.Lexer.{
  IdentCache, cached, intern_ident, slice, lexeme_of, null_byte, invalid_token, Lexed, Scanned,
  a_kind, an_error, push_token, push_diagnostic, lex_round, lex_loop, lex, with_eof,
}

-- What the scanner does by its documentation: a token begins where the last one ended and is not
-- empty, an error may be empty before the end, no range passes the end, and only the end ends it.
pub record Scans (next : Text → ℕ → Option Scanned) : Type 0 where
  pub at_end : (t : Text) (p : ℕ) → next t p ≡ none → length t ≤ p
  pub of_kind :
      (t : Text) (p : ℕ) (k : RawTokenKind) (s e : ℕ)
      → next t p ≡ some (a_kind k s e)
      → (s ≡ p) × (s < e) × (e ≤ length t)
  pub of_error :
      (t : Text) (p s e : ℕ)
      → next t p ≡ some (an_error s e)
      → (s ≡ p) × (s ≤ e) × (e ≤ length t) × (s < length t)

-- Tokens and diagnostics that cover a source from a position to its end: each token is the text of its
-- span, of the kind of a raw one, an invalid one has its diagnostic, and what is between tokens is single bytes, each with the
-- diagnostic of its removal.
pub data Covered (source : Text) : ℕ → List Token → List Diagnostic → Type 0 where
  ended : Covered source (length source) [] []
  good :
      {p : ℕ} {ts : List Token} {ds : List Diagnostic} (k : RawTokenKind) (e : ℕ)
      → p < e
      → e ≤ length source
      → Covered source e ts ds
      → Covered source p
          (record { kind = map_token_kind k; lexeme = slice p e source; span = span p e } ∷ ts)
          ds
  bad :
      {p : ℕ} {ts : List Token} {ds : List Diagnostic} (e : ℕ)
      → p < e
      → e ≤ length source
      → Covered source e ts ds
      → Covered source p
          (record { kind = TokenKind.invalid; lexeme = slice p e source; span = span p e } ∷ ts)
          (invalid_token (slice p e source) (span p e) ∷ ds)
  removed :
      {p : ℕ} {ts : List Token} {ds : List Diagnostic}
      → p < length source
      → Covered source (suc p) ts ds
      → Covered source p ts (null_byte source p ∷ ds)

-- Each key of the cache stands for itself.
abbrev pub Consistent : IdentCache → Type 0
Consistent cache = All (λ entry. entry.0 ≡ entry.1) cache

cached_same :
    (s : Text) (cache : IdentCache)
    → Consistent cache
    → (cached s cache ≡ none) ⊎ (cached s cache ≡ some s)
unfolding cached
cached_same s [] h = inl refl
cached_same s ((k, v) ∷ cache) h = elim (Bool-cases (same_text k s)) [
  | inl b ↦ inr (rw b (ap some (sym h.0 ∙ same_text_eq k s b)))
  | inr b ↦ rw b (cached_same s cache h.1)
]

intern_same :
    (s : Text) (cache : IdentCache)
    → Consistent cache
    → ((intern_ident s cache).0 ≡ s) × Consistent (intern_ident s cache).1
unfolding intern_ident
intern_same s cache h = elim (cached_same s cache h) [
  | inl e ↦ rw (e, intern_ident) (refl, (refl, h))
  | inr e ↦ rw (e, intern_ident) (refl, h)
]

lexeme_same :
    (k : RawTokenKind) (s : Text) (cache : IdentCache)
    → Consistent cache
    → ((lexeme_of k s cache).0 ≡ s) × Consistent (lexeme_of k s cache).1
unfolding lexeme_of
lexeme_same RawTokenKind.ident s cache h = intern_same s cache h
lexeme_same _ s cache h = (refl, h)

length-drop : (n : ℕ) (t : Text) → length (drop n t) ≡ length t - n
unfolding drop
length-drop zero t = omega arith
length-drop (suc n) [] = omega arith
length-drop (suc n) (c ∷ cs) = omega (arith, length-drop n cs)

module _ (next : Text → ℕ → Option Scanned) (h : Scans next) (source : Text) where
  -- What the rest of the loop gives when it has covered the source from `p` on.
  abbrev Covers : Option Lexed → ℕ → Type 0
  Covers r p = (l : Lexed) × (r ≡ some l) × Covered source p l.tokens l.diagnostics

  -- The rounds after one, for every place where they may go on.
  abbrev Goes : (ℕ → ℕ → IdentCache → Option Lexed) → ℕ → Type 0
  Goes loop p =
      (o q : ℕ) (cache : IdentCache)
      → Consistent cache
      → p < o + q
      → o + q ≤ length source
      → Covers (loop o q cache) (o + q)

  pushed_token :
      (t : Token) (r : Option Lexed) (p after : ℕ)
      → ((ts : List Token) (ds : List Diagnostic)
          → Covered source after ts ds
          → Covered source p (t ∷ ts) ds)
      → Covers r after
      → Covers (push_token t r) p
  pushed_token t r p after f (l, e, c) =
      (record l { tokens = t ∷ l.tokens }, rw e refl, f l.tokens l.diagnostics c)

  pushed_diagnostic :
      (d : Diagnostic) (r : Option Lexed) (p after : ℕ)
      → ((ts : List Token) (ds : List Diagnostic)
          → Covered source after ts ds
          → Covered source p ts (d ∷ ds))
      → Covers r after
      → Covers (push_diagnostic d r) p
  pushed_diagnostic d r p after f (l, e, c) =
      (record l { diagnostics = d ∷ l.diagnostics }, rw e refl, f l.tokens l.diagnostics c)

  -- A token whose lexeme came out of the cache.
  good_lexeme :
      (k : RawTokenKind) (p e : ℕ) (lexeme : Text) (ts : List Token) (ds : List Diagnostic)
      → lexeme ≡ slice p e source
      → p < e
      → e ≤ length source
      → Covered source e ts ds
      → Covered source p
          (record { kind = map_token_kind k; lexeme = lexeme; span = span p e } ∷ ts)
          ds
  good_lexeme k p e lexeme ts ds same lt le c =
      subst
        (λ x.
          Covered source p (record { kind = map_token_kind k; lexeme = x; span = span p e } ∷ ts)
            ds)
        (sym same) (good k e lt le c)

  pushed_invalid :
      (r : Option Lexed) (p e : ℕ)
      → p < e
      → e ≤ length source
      → Covers r e
      → Covers
          (push_token
            (record { kind = TokenKind.invalid; lexeme = slice p e source; span = span p e })
            (push_diagnostic (invalid_token (slice p e source) (span p e)) r))
          p
  pushed_invalid r p e lt le (l, ran, c) = (
    record l {
      tokens =
          record { kind = TokenKind.invalid; lexeme = slice p e source; span = span p e }
          ∷ l.tokens;
      diagnostics = invalid_token (slice p e source) (span p e) ∷ l.diagnostics;
    },
    rw ran refl,
    bad e lt le c,
  )

  kind-Covers :
      (loop : ℕ → ℕ → IdentCache → Option Lexed) (o s f : ℕ) (cache : IdentCache) (k : RawTokenKind)
      → Consistent cache
      → s < f
      → f ≤ length (drop o source)
      → Goes loop (o + s)
      → Covers (lex_round source (some (a_kind k s f)) o cache loop) (o + s)
  unfolding lex_round
  kind-Covers loop o s f cache k c lt within go =
      let inside : o + f ≤ length source = omega (arith, length-drop o source) in
      let later : o + s < o + f = omega arith in
      let (same, kept) = lexeme_same k (slice (o + s) (o + f) source) cache c in
      pushed_token _ _ (o + s) (o + f)
        (λ ts ds cov. good_lexeme k (o + s) (o + f) _ ts ds same later inside cov)
        (go o f _ kept later inside)

  error-Covers :
      (loop : ℕ → ℕ → IdentCache → Option Lexed) (o s f : ℕ) (cache : IdentCache)
      → Consistent cache
      → s ≤ f
      → f ≤ length (drop o source)
      → s < length (drop o source)
      → Goes loop (o + s)
      → Covers (lex_round source (some (an_error s f)) o cache loop) (o + s)
  unfolding lex_round
  error-Covers loop o s f cache c le within inner go = elim (Bool-cases (s == f)) [
    | inl e ↦
        let there : o + s < length source = omega (arith, length-drop o source) in
        let next_byte : o + s < o + s + 1 + 0 = omega arith in
        let inside : o + s + 1 + 0 ≤ length source = omega arith in
        let after : o + s + 1 + 0 ≡ suc (o + s) = omega arith in
        rw (e, lex_round)
          (pushed_diagnostic _ _ (o + s) (o + s + 1 + 0)
            (λ ts ds cov. removed there (subst (λ x. Covered source x ts ds) after cov))
            (go (o + s + 1) 0 cache c next_byte inside))
    | inr e ↦
        let inside : o + f ≤ length source = omega (arith, length-drop o source) in
        let later : o + s < o + f = ground (arith) in
        rw (e, lex_round)
          (pushed_invalid _ (o + s) (o + f) later inside (go o f cache c later inside))
  ]

  round-Covers :
      (loop : ℕ → ℕ → IdentCache → Option Lexed) (o q : ℕ) (cache : IdentCache) (r : Option Scanned)
      → next (drop o source) q ≡ r
      → Consistent cache
      → o + q ≤ length source
      → Goes loop (o + q)
      → Covers (lex_round source r o cache loop) (o + q)
  unfolding lex_round
  round-Covers loop o q cache none e c le go =
      let all : o + q ≡ length source =
        omega (arith, h.at_end (drop o source) q e, length-drop o source) in
      (_, refl, subst (λ p. Covered source p [] []) (sym all) ended)
  round-Covers loop o q cache (some (a_kind k s f)) e c le go =
      let (start, some_text, within) = h.of_kind (drop o source) q k s f e in
      subst (λ x. Covers (lex_round source (some (a_kind k s f)) o cache loop) (o + x)) start
        (kind-Covers loop o s f cache k c some_text within
          (subst (λ x. Goes loop (o + x)) (sym start) go))
  round-Covers loop o q cache (some (an_error s f)) e c le go =
      let (start, forward, within, inner) = h.of_error (drop o source) q s f e in
      subst (λ x. Covers (lex_round source (some (an_error s f)) o cache loop) (o + x)) start
        (error-Covers loop o s f cache c forward within inner
          (subst (λ x. Goes loop (o + x)) (sym start) go))

  loop-Covers :
      (fuel o q : ℕ) (cache : IdentCache)
      → Consistent cache
      → o + q ≤ length source
      → length source < fuel + (o + q)
      → Covers (lex_loop next source fuel o q cache) (o + q)
  unfolding lex_loop
  loop-Covers zero o q cache c le enough = absurd (omega arith)
  loop-Covers (suc fuel) o q cache c le enough =
      round-Covers (λ a b d. lex_loop next source fuel a b d) o q cache (next (drop o source) q)
        refl c le (λ a b d kept further inside. loop-Covers fuel a b d kept inside (omega arith))

  -- With a scanner that behaves as `Scans` says, a cache whose entries stand for themselves and more
  -- rounds than the source has characters the lexer ends: its tokens, before the `Eof`, and its
  -- diagnostics cover the whole source.
  pub lex-Covered :
      (fuel : ℕ) (cache : IdentCache)
      → Consistent cache
      → length source < fuel
      → (l : Lexed) × (lex next source fuel cache ≡ some (with_eof l))
        × Covered source 0 l.tokens l.diagnostics
  unfolding lex
  lex-Covered fuel cache kept enough =
      let (l, ran, cover) = loop-Covers fuel 0 0 cache kept (omega arith) (omega arith) in
      (l, rw (ran, lex) refl, cover)
