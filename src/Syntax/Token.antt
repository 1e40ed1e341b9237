-- ===== src/Syntax/Token.antt =====
-- Tokens and diagnostics, crates/sarif_syntax/src/lib.rs.
use sarif.Base.{ℕ, Bool, true, false, Option, none}
use sarif.Text.{Text}
use sarif.Mir.{Span}

-- `Span::new`
abbrev pub span : ℕ → ℕ → Span
span first last = record { start = first; end = last }

-- `Span::empty_at`
unfoldable pub empty_at : ℕ → Span
empty_at offset = span offset offset

pub record Diagnostic : Type 0 where
  pub code : Text
  pub message : Text
  pub span : Span
  pub help : Option Text
  pub origin_span : Option Span

-- `Diagnostic::new`
unfoldable pub diagnostic : Text → Text → Span → Option Text → Diagnostic
diagnostic code message at help = record {
  code = code;
  message = message;
  span = at;
  help = help;
  origin_span = none;
}

pub data TokenKind : Type 0 where
  whitespace newline comment ident integer float string kw_and kw_const kw_comptime kw_ensures
        kw_extern kw_effect kw_enum kw_effects kw_else kw_false kw_fn kw_for kw_from kw_handle kw_if
        kw_import kw_in kw_let kw_match kw_mut kw_not kw_or kw_perform kw_pub kw_repeat kw_requires
        kw_struct kw_true kw_while kw_with arrow amp caret colon comma dot dot_dot eq plus_eq
        minus_eq star_eq slash_eq fat_arrow eq_eq ge gt l_brace l_bracket le lt l_paren minus not_eq
        pipe plus r_brace r_bracket r_paren semicolon shl slash shr star percent percent_eq
        underscore attr_repr invalid eof :
      TokenKind

-- `TokenKind::is_trivia`
unfoldable pub is_trivia : TokenKind → Bool
is_trivia whitespace = true
is_trivia newline = true
is_trivia comment = true
is_trivia _ = false

pub record Token : Type 0 where
  pub kind : TokenKind
  pub lexeme : Text
  pub span : Span
