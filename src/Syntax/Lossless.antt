-- ===== src/Syntax/Lossless.antt =====
-- The lexemes of crates/sarif_syntax/src/lexer.rs `lex` are the source.
use sarif.Base.{
  ℕ, zero, suc, ◌+◌, ◌-◌, ◌≤◌, ◌<◌, ◌≡◌, refl, sym, ap, ◌∙◌, Bool, true, false, Option, some, List,
  [], ◌∷◌, ◌++◌, length, any, arith, ◌||◌,
}
use mathlib.Core.Path.{subst}
use sarif.Text.{Text, codes, drop, same_text}
use sarif.Syntax.Token.{Token, Diagnostic}
use sarif.Syntax.Lexer.{take, slice, null_byte, Lexed, Scanned, lex, with_eof}
use sarif.Syntax.Lexer.{IdentCache}
use sarif.Syntax.Covered.{Consistent, Scans, Covered, ended, good, bad, removed, lex-Covered}

-- The lexemes one after another.
unfoldable pub text_of : List Token → Text
text_of [] = []
text_of (t ∷ ts) = t.lexeme ++ text_of ts

-- Whether a diagnostic is that of a removed byte.
unfoldable pub is_removal : Diagnostic → Bool
is_removal d = same_text d.code (codes "lex.null-byte")

append-slice : (n : ℕ) (t : Text) → take n t ++ drop n t ≡ t
unfolding take drop
append-slice zero t = refl
append-slice (suc n) [] = refl
append-slice (suc n) (c ∷ cs) = ap (λ r. c ∷ r) (append-slice n cs)

drop_nil : (n : ℕ) → drop n [] ≡ []
unfolding drop
drop_nil zero = refl
drop_nil (suc n) = refl

drop-drop : (n m : ℕ) (t : Text) → drop n (drop m t) ≡ drop (n + m) t
unfolding drop
drop-drop n zero t = let same : n + 0 ≡ n = omega arith in rw same refl
drop-drop n (suc m) [] = let next : n + suc m ≡ suc (n + m) = omega arith in rw next (drop_nil n)
drop-drop n (suc m) (c ∷ cs) =
    let next : n + suc m ≡ suc (n + m) = omega arith in rw next (drop-drop n m cs)

drop-length : (t : Text) → drop (length t) t ≡ []
unfolding drop
drop-length [] = refl
drop-length (c ∷ cs) = drop-length cs

slice-drop : (p e : ℕ) (t : Text) → p ≤ e → slice p e t ++ drop e t ≡ drop p t
unfolding slice
slice-drop p e t le =
    let same : e - p + p ≡ e = omega arith in
    let rest = drop-drop (e - p) p t in
    subst (λ x. take (e - p) (drop p t) ++ x ≡ drop p t) (rest ∙ ap (λ n. drop n t) same)
      (append-slice (e - p) (drop p t))

null_byte-is_removal : (source : Text) (p : ℕ) → is_removal (null_byte source p) ≡ true
unfolding is_removal null_byte same_text
null_byte-is_removal source p = refl

or_false : (a b : Bool) → (a || b) ≡ false → b ≡ false
or_false true b h = absurd (cc)
or_false false b h = h

text_of-Covered :
    (source : Text) (p : ℕ) (ts : List Token) (ds : List Diagnostic)
    → Covered source p ts ds
    → any is_removal ds ≡ false
    → text_of ts ≡ drop p source
unfolding text_of
text_of-Covered source p ts ds ended h = sym (drop-length source)
text_of-Covered source p _ ds (good {ts} k e lt le c) h =
    rw (text_of-Covered source e ts ds c h) (slice-drop p e source (omega arith))
text_of-Covered source p _ _ (bad {ts} {ds} e lt le c) h =
    let before : p ≤ e = omega (arith, lt) in
    let clean : any is_removal ds ≡ false = or_false _ _ h in
    rw (text_of-Covered source e ts ds c clean) (slice-drop p e source before)
text_of-Covered source p ts _ (removed {ds} lt c) h =
    let found = null_byte-is_removal source p in
    let no : true ≡ false = subst (λ b. (b || any is_removal ds) ≡ false) found h in absurd (cc)

some_injective : {A : Type 0} {a b : A} → some a ≡ some b → a ≡ b
some_injective {a} {b} e = cc

text_of_eof : (ts : List Token) (t : Token) → t.lexeme ≡ [] → text_of (ts ++ (t ∷ [])) ≡ text_of ts
unfolding text_of
text_of_eof [] t e = rw e refl
text_of_eof (u ∷ ts) t e = ap (λ r. u.lexeme ++ r) (text_of_eof ts t e)

text_of-with_eof : (m : Lexed) → text_of (with_eof m).tokens ≡ text_of m.tokens
unfolding with_eof
text_of-with_eof m = text_of_eof m.tokens _ refl

diagnostics-with_eof : (m : Lexed) → (with_eof m).diagnostics ≡ m.diagnostics
unfolding with_eof
diagnostics-with_eof m = refl

-- The lexer is lossless: with a scanner that behaves as `Scans` says, a cache whose entries stand for
-- themselves and more rounds than the source has characters, on a source of which it removed no byte
-- the lexemes of its tokens one after another are the source.
pub lex_lossless :
    (next : Text → ℕ → Option Scanned) (source : Text) (fuel : ℕ) (cache : IdentCache) (l : Lexed)
    → Scans next
    → Consistent cache
    → length source < fuel
    → lex next source fuel cache ≡ some l
    → any is_removal l.diagnostics ≡ false
    → text_of l.tokens ≡ source
unfolding drop
lex_lossless next source fuel cache l h kept enough ran clean =
    let (m, ran_too, cover) = lex-Covered next h source fuel cache kept enough in
    let same : with_eof m ≡ l = some_injective (sym ran_too ∙ ran) in
    let clean_too =
      subst (λ x. any is_removal x ≡ false) (diagnostics-with_eof m)
        (subst (λ x. any is_removal x.diagnostics ≡ false) (sym same) clean) in
    subst (λ x. text_of x.tokens ≡ source) same
      (text_of-with_eof m ∙ text_of-Covered source 0 m.tokens m.diagnostics cover clean_too)
