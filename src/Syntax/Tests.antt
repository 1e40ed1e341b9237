-- ===== src/Syntax/Tests.antt =====
-- Tests and examples of the lexer, with a scanner of single characters in place of the generated one.
use sarif.Base.{
  ℕ, zero, suc, ◌≤◌, ◌<◌, ◌≡◌, refl, Option, none, some, [], ◌∷◌, length, arith, get_elem?,
  if◌then◌else◌, ◌==◌,
}
use sarif.Text.{Text, drop}
use sarif.Syntax.Token.{TokenKind, span}
use sarif.Syntax.Kind.{RawTokenKind}
use sarif.Syntax.Lexer.{IdentCache, Lexed, Scanned, a_kind, an_error, lex, with_eof}
use sarif.Syntax.Covered.{Consistent, Scans, Covered, lex-Covered}
use sarif.Syntax.Lossless.{text_of, lex_lossless}

-- Each character is a token, but a zero is an empty error.
unfoldable scan_at : Option ℕ → ℕ → Option Scanned
scan_at none p = none
scan_at (some c) p =
    if c == 0 then some (an_error p p) else some (a_kind RawTokenKind.ident p (suc p))

unfoldable pub single : Text → ℕ → Option Scanned
unfolding scan_at
single t p = scan_at (get_elem? t p) p

get_elem?-le : (t : Text) (p : ℕ) → get_elem? t p ≡ none → length t ≤ p
get_elem?-le [] p e = omega arith
get_elem?-le (c ∷ cs) zero e = absurd (cc)
get_elem?-le (c ∷ cs) (suc p) e = omega (arith, get_elem?-le cs p e)

get_elem?-lt : (t : Text) (p c : ℕ) → get_elem? t p ≡ some c → p < length t
get_elem?-lt [] p c e = absurd (cc)
get_elem?-lt (d ∷ cs) zero c e = omega arith
get_elem?-lt (d ∷ cs) (suc p) c e = omega (arith, get_elem?-lt cs p c e)

scan_end : (o : Option ℕ) (p : ℕ) → scan_at o p ≡ none → o ≡ none
unfolding scan_at
scan_end none p e = refl
scan_end (some c) p e = absurd (ground arith)

scan_kind :
    (o : Option ℕ) (p : ℕ) (k : RawTokenKind) (s f : ℕ)
    → scan_at o p ≡ some (a_kind k s f)
    → (c : ℕ) × (o ≡ some c) × (s ≡ p) × (f ≡ suc p)
unfolding scan_at
scan_kind none p k s f e = absurd (cc)
scan_kind (some c) p k s f e = (c, refl, ground arith, ground arith)

scan_error :
    (o : Option ℕ) (p s f : ℕ)
    → scan_at o p ≡ some (an_error s f)
    → (c : ℕ) × (o ≡ some c) × (s ≡ p) × (f ≡ p)
unfolding scan_at
scan_error none p s f e = absurd (cc)
scan_error (some c) p s f e = (c, refl, ground arith, ground arith)

single_end : (t : Text) (p : ℕ) → single t p ≡ none → length t ≤ p
unfolding single
single_end t p e = get_elem?-le t p (scan_end (get_elem? t p) p e)

single_kind :
    (t : Text) (p : ℕ) (k : RawTokenKind) (s f : ℕ)
    → single t p ≡ some (a_kind k s f)
    → (s ≡ p) × (s < f) × (f ≤ length t)
unfolding single
single_kind t p k s f e =
    let (c, there, start, stop) = scan_kind (get_elem? t p) p k s f e in
    let inside = get_elem?-lt t p c there in (start, omega arith, omega arith)

single_error :
    (t : Text) (p s f : ℕ)
    → single t p ≡ some (an_error s f)
    → (s ≡ p) × (s ≤ f) × (f ≤ length t) × (s < length t)
unfolding single
single_error t p s f e =
    let (c, there, start, stop) = scan_error (get_elem? t p) p s f e in
    let inside = get_elem?-lt t p c there in (start, omega arith, omega arith, omega arith)

pub single-Scans : Scans single
single-Scans = record { at_end = single_end; of_kind = single_kind; of_error = single_error }

-- Two letters, and a zero between them.
abbrev broken : Text
broken = 97 ∷ 0 ∷ 98 ∷ []

-- A cache that an earlier source filled.
abbrev warm : IdentCache
warm = (98 ∷ [], 98 ∷ []) ∷ []

warm-Consistent : Consistent warm
warm-Consistent = (refl, tt)

lex-Covered_example :
    (l : Lexed) × (lex single broken 4 warm ≡ some (with_eof l))
    × Covered broken 0 l.tokens l.diagnostics
lex-Covered_example = lex-Covered single single-Scans broken 4 warm warm-Consistent (omega arith)

abbrev pub fine : Text
fine = 97 ∷ 98 ∷ []

abbrev pub fine_lexed : Lexed
fine_lexed = record {
  tokens =
      record { kind = TokenKind.ident; lexeme = 97 ∷ []; span = span 0 1 }
      ∷ record { kind = TokenKind.ident; lexeme = 98 ∷ []; span = span 1 2 }
      ∷ record { kind = TokenKind.eof; lexeme = []; span = span 0 0 }
      ∷ [];
  diagnostics = [];
  source_offset = 0;
  cache = (98 ∷ [], 98 ∷ []) ∷ (97 ∷ [], 97 ∷ []) ∷ [];
}

-- The `Eof` of a source of two characters stands at 0.
pub fine_run : lex single fine 3 [] ≡ some fine_lexed
unfolding lex single drop with_eof
fine_run = refl

lex_lossless_example : text_of fine_lexed.tokens ≡ fine
lex_lossless_example =
    lex_lossless single fine 3 [] fine_lexed single-Scans tt (omega arith) fine_run refl
