-- ===== src/Syntax/Lexer.antt =====
-- The lexer, crates/sarif_syntax/src/lexer.rs `lex` and `intern_ident`. The scanner that the logos
-- crate generates is the parameter `next`: on a slice and the position where its last token ended it
-- gives the result and the range of the next token. A source is the list of its bytes. A `push` is
-- a `∷` on what the later rounds push.
use sarif.Base.{
  ℕ, zero, suc, ◌+◌, ◌-◌, ◌/◌, ◌%◌, ◌==◌, Option, none, some, List, [], ◌∷◌, ◌++◌, if◌then◌else◌,
  get_elem?, ltb,
}
use sarif.Text.{Text, codes, drop, same_text, show_ℕ}
use sarif.Mir.{Span}
use sarif.Syntax.Token.{Token, TokenKind, Diagnostic, diagnostic, span, empty_at}
use sarif.Syntax.Kind.{RawTokenKind, map_token_kind}

-- IDENT_CACHE, the latest entry first.
abbrev pub IdentCache : Type 0
IdentCache = List (Text × Text)

unfoldable pub cached : Text → IdentCache → Option Text
unfolding same_text
cached s [] = none
cached s ((key, value) ∷ cache) = if same_text key s then some value else cached s cache

-- The text and the cache after it.
unfoldable pub intern_ident : Text → IdentCache → Text × IdentCache
unfolding cached
intern_ident s cache = elim (cached s cache) [
  | some interned ↦ (interned, cache)
  | none ↦ (s, (s, s) ∷ cache)
]

unfoldable pub take : ℕ → Text → Text
take zero t = []
take (suc n) [] = []
take (suc n) (c ∷ cs) = c ∷ take n cs

-- `&source[first..last]`
unfoldable pub slice : ℕ → ℕ → Text → Text
unfolding take drop
slice first last source = take (last - first) (drop first source)

-- The lexeme of a token of a kind.
unfoldable pub lexeme_of : RawTokenKind → Text → IdentCache → Text × IdentCache
unfolding intern_ident
lexeme_of RawTokenKind.ident s cache = intern_ident s cache
lexeme_of _ s cache = (s, cache)

hex_digit : ℕ → ℕ
hex_digit d = if ltb d 10 then 48 + d else 87 + d

-- `{:02x}` of a byte
hex : ℕ → Text
unfolding hex_digit
hex b = hex_digit (b / 16) ∷ hex_digit (b % 16) ∷ []

-- `source.as_bytes()[i]`; out of range is 0.
byte_at : Text → ℕ → ℕ
byte_at source i = elim (get_elem? source i) [ some b ↦ b | none ↦ 0 ]

unfoldable pub null_byte : Text → ℕ → Diagnostic
unfolding diagnostic hex byte_at
null_byte source at =
    diagnostic (codes "lex.null-byte")
      (codes "byte 0x" ++ (hex (byte_at source at) ++ (codes " at position " ++ show_ℕ at)))
      (span at (at + 1)) (some (codes "Remove this byte from source."))

unfoldable pub invalid_token : Text → Span → Diagnostic
unfolding diagnostic
invalid_token lexeme at =
    diagnostic (codes "lex.invalid-token") (codes "invalid token `" ++ (lexeme ++ codes "`")) at
      (some (codes "Sarif source is ASCII-keyword based; remove or replace this token."))

-- What the loop pushes, and the last `source_offset`.
pub record Lexed : Type 0 where
  pub tokens : List Token
  pub diagnostics : List Diagnostic
  pub source_offset : ℕ
  pub cache : IdentCache

-- What `lexer.next()` and `lexer.span()` give: `Ok` or `Err`, with the range in the slice.
pub data Scanned : Type 0 where
  a_kind : RawTokenKind → ℕ → ℕ → Scanned
  an_error : ℕ → ℕ → Scanned

-- The pushes of one round, before those of the rounds after it.
abbrev pub push_token : Token → Option Lexed → Option Lexed
push_token t none = none
push_token t (some l) = some (record l { tokens = t ∷ l.tokens })

abbrev pub push_diagnostic : Diagnostic → Option Lexed → Option Lexed
push_diagnostic d none = none
push_diagnostic d (some l) = some (record l { diagnostics = d ∷ l.diagnostics })

-- One round, with the rounds after it as `loop`: of the offset, the position and the cache.
unfoldable pub lex_round :
    Text → Option Scanned → ℕ → IdentCache → (ℕ → ℕ → IdentCache → Option Lexed) → Option Lexed
unfolding slice lexeme_of null_byte invalid_token map_token_kind
lex_round source none source_offset cache loop =
    some (record { tokens = []; diagnostics = []; source_offset = source_offset; cache = cache })
lex_round source (some (a_kind kind s e)) source_offset cache loop =
    let lexeme = lexeme_of kind (slice (source_offset + s) (source_offset + e) source) cache in
    push_token
      (record {
        kind = map_token_kind kind;
        lexeme = lexeme.0;
        span = span (source_offset + s) (source_offset + e);
      })
      (loop source_offset e lexeme.1)
lex_round source (some (an_error s e)) source_offset cache loop =
    let lexeme = slice (source_offset + s) (source_offset + e) source in
    let at = span (source_offset + s) (source_offset + e) in
    if s == e
    then push_diagnostic (null_byte source (source_offset + s))
        (loop (source_offset + s + 1) 0 cache)
    else push_token (record { kind = TokenKind.invalid; lexeme = lexeme; span = at })
        (push_diagnostic (invalid_token lexeme at) (loop source_offset e cache))

-- The `Eof` after the other tokens.
unfoldable pub with_eof : Lexed → Lexed
unfolding empty_at
with_eof l = record l {
  tokens =
      l.tokens
      ++ (record { kind = TokenKind.eof; lexeme = []; span = empty_at l.source_offset } ∷ []);
}

module _ (next : Text → ℕ → Option Scanned) (source : Text) where
  -- The loop on `fuel` rounds: the scanner is at `position` of the slice from `source_offset` on.
  unfoldable pub lex_loop : ℕ → ℕ → ℕ → IdentCache → Option Lexed
  unfolding lex_round drop
  lex_loop zero source_offset position cache = none
  lex_loop (suc fuel) source_offset position cache =
      lex_round source (next (drop source_offset source) position) source_offset cache
        (λ o p c. lex_loop fuel o p c)

  -- One round more than the text has characters is enough.
  unfoldable pub lex : ℕ → IdentCache → Option Lexed
  unfolding lex_loop
  lex fuel cache = elim (lex_loop fuel 0 0 cache) [ none ↦ none | some l ↦ some (with_eof l) ]
