-- ===== src/Command/Keeps.antt =====
-- What the loop of apps/sarifc/src/command.rs `parse_command_inner` keeps.
use sarif.Base.{
  ◌≡◌, refl, sym, arith, Bool, true, false, not, ◌&&◌, ◌||◌, Option, none, some, List, [], ◌∷◌,
  ◌++◌, if◌then◌else◌,
}
use sarif.Text.{Text, codes, same_text, Result, ok, err}
use sarif.Command.Suggest.{closest_command}
use sarif.Command.Parse.{
  core, total, rt, native, wasm, c, place, CommandKind, Options, Valued, Arg, separator, word,
  valued, format_is, positional, unknown, set_single, set_valued, set_missing, set_format, set_path,
  and_then, step_arg, parse_args, is_some,
}

-- A property of what there is if there was no error.
unfoldable pub IfOk : {A : Type 0} → (A → Type 0) → Result A → Type 0
IfOk P (err _) = Unit
IfOk P (ok a) = P a

-- A property of the options that every write of the loop keeps.
pub record Kept (P : Options → Type 0) : Type 0 where
  of_single : (a : Arg) (s : Options) → P s → IfOk P (set_single a s)
  of_valued : (o : Valued) (v : Text) (s : Options) → P s → IfOk P (set_valued o v s)
  of_missing : (o : Valued) (s : Options) → P s → IfOk P (set_missing o s)
  of_args :
      (rest : List Text) (s : Options)
      → P s
      → P (record s { program_args = s.program_args ++ rest })

module _ (P : Options → Type 0) (k : Kept P) where
  and_then_keeps :
      (r : Result Options) (next : Options → Result Options)
      → IfOk P r
      → ((s : Options) → P s → IfOk P (next s))
      → IfOk P (and_then r next)
  unfolding IfOk
  and_then_keeps (err m) next p of_next = tt
  and_then_keeps (ok s) next p of_next = of_next s p

  step_arg_keeps :
      (a : Arg) (rest : List Text) (s : Options) (next : Option Valued → Options → Result Options)
      → P s
      → ((w : Option Valued) (t : Options) → P t → IfOk P (next w t))
      → IfOk P (step_arg a rest s next)
  unfolding step_arg IfOk
  step_arg_keeps separator rest s next p of_next = k.of_args rest s p
  step_arg_keeps (valued o) rest s next p of_next = of_next (some o) s p
  step_arg_keeps a rest s next p of_next =
      and_then_keeps (set_single a s) (next none) (k.of_single a s p) (of_next none)

  -- The loop keeps it.
  pub parse_args_keeps :
      (args : List Text) (waiting : Option Valued) (s : Options)
      → P s
      → IfOk P (parse_args args waiting s)
  unfolding parse_args IfOk
  parse_args_keeps [] none s p = p
  parse_args_keeps [] (some o) s p = k.of_missing o s p
  parse_args_keeps (v ∷ rest) (some o) s p =
      and_then_keeps (set_valued o v s) (λ t. parse_args rest none t) (k.of_valued o v s p)
        (λ t q. parse_args_keeps rest none t q)
  parse_args_keeps (a ∷ rest) none s p =
      step_arg_keeps _ rest s (λ w t. parse_args rest w t) p (λ w t q. parse_args_keeps rest w t q)

-- The test of a format, and the write after it.
two_tests :
    (P : Options → Type 0) (a b : Bool) (m : Text) (u : Options)
    → ((a || b) ≡ true → P u)
    → IfOk P (if not a && not b then err m else ok u)
unfolding IfOk
two_tests P true b m u h = h refl
two_tests P false true m u h = h refl
two_tests P false false m u h = tt

-- The tests of a value, each of which writes, and the error after them.
three_tests :
    (P : Options → Type 0) (p q r : Bool) (x y z : Options) (m : Text)
    → P x
    → P y
    → P z
    → IfOk P (if p then ok x else if q then ok y else if r then ok z else err m)
unfolding IfOk
three_tests P true q r x y z m of_x of_y of_z = of_x
three_tests P false true r x y z m of_x of_y of_z = of_y
three_tests P false false true x y z m of_x of_y of_z = of_z
three_tests P false false false x y z m of_x of_y of_z = tt

module _ (P : Options → Type 0) where
  -- What no write but those of `kind`, `path` and `format` can break.
  pub record Local : Type 0 where
    of_options :
        (s u : Options) → s.kind ≡ u.kind → s.path ≡ u.path → s.format ≡ u.format → P s → P u
    of_format : (f : Text) (s : Options) → P s → IfOk P (set_format f s)
    of_path : (t : Text) (s : Options) → P s → IfOk P (set_path t s)
    of_kind : (k : CommandKind) (s : Options) → P s → P (record s { kind = some k })

  single : Local → (a : Arg) (s : Options) → P s → IfOk P (set_single a s)
  unfolding set_single IfOk
  single l (word k) s p = l.of_kind k s p
  single l (format_is f) s p = l.of_format f s p
  single l (positional t) s p = l.of_path t s p
  single l (unknown t) s p = tt
  single l a s p = l.of_options s _ refl refl refl p

  value : Local → (o : Valued) (v : Text) (s : Options) → P s → IfOk P (set_valued o v s)
  unfolding set_valued IfOk
  value l Valued.format v s p = l.of_format v s p
  value l Valued.profile v s p =
      three_tests P _ _ _ (record s { profile = core }) (record s { profile = total })
        (record s { profile = rt }) _ (l.of_options s _ refl refl refl p)
        (l.of_options s _ refl refl refl p) (l.of_options s _ refl refl refl p)
  value l Valued.target v s p =
      three_tests P _ _ _ (record s { target = native }) (record s { target = wasm })
        (record s { target = c }) _ (l.of_options s _ refl refl refl p)
        (l.of_options s _ refl refl refl p) (l.of_options s _ refl refl refl p)
  value l o v s p = l.of_options s _ refl refl refl p

  missing : Local → (o : Valued) (s : Options) → P s → IfOk P (set_missing o s)
  unfolding set_missing IfOk
  missing l Valued.format s p = tt
  missing l o s p = l.of_options s _ refl refl refl p

  pub Local-Kept : Local → Kept P
  Local-Kept l = record {
    of_single = single l;
    of_valued = value l;
    of_missing = missing l;
    of_args = λ rest s p. l.of_options s _ refl refl refl p;
  }

-- A path is there only if a command is.
unfoldable pub PathAfterKind : Options → Type 0
PathAfterKind s = (not (is_some s.path) || is_some s.kind) ≡ true

options-PathAfterKind :
    (s u : Options) → s.kind ≡ u.kind → s.path ≡ u.path → PathAfterKind s → PathAfterKind u
unfolding PathAfterKind
options-PathAfterKind s u k p h = rw (sym k, sym p) h

set_kind-PathAfterKind :
    (k : CommandKind) (s : Options) → PathAfterKind s → PathAfterKind (record s { kind = some k })
unfolding PathAfterKind is_some
set_kind-PathAfterKind k s h = ground arith

set_format-PathAfterKind :
    (f : Text) (s : Options) → PathAfterKind s → IfOk PathAfterKind (set_format f s)
unfolding set_format IfOk
set_format-PathAfterKind f s h =
    two_tests PathAfterKind _ _ _ (record s { format = some f })
      (λ _. options-PathAfterKind s _ refl refl h)

place-PathAfterKind :
    (k : Option CommandKind) (p q : Option Text) (t : Text) (s : Options)
    → s.kind ≡ k
    → IfOk PathAfterKind (place k p q t s)
unfolding place IfOk PathAfterKind is_some
place-PathAfterKind none p (some x) t s e = tt
place-PathAfterKind none p none t s e = tt
place-PathAfterKind (some k) (some p) q t s e = tt
place-PathAfterKind (some k) none q t s e = rw e refl

set_path-PathAfterKind :
    (t : Text) (s : Options) → PathAfterKind s → IfOk PathAfterKind (set_path t s)
unfolding set_path IfOk
set_path-PathAfterKind t s h = place-PathAfterKind s.kind s.path (closest_command t) t s refl

pub PathAfterKind-Local : Local PathAfterKind
PathAfterKind-Local = record {
  of_options = λ s u k p _ h. options-PathAfterKind s u k p h;
  of_format = set_format-PathAfterKind;
  of_path = set_path-PathAfterKind;
  of_kind = set_kind-PathAfterKind;
}

-- The format is one of the two.
unfoldable pub KnownFormat : Option Text → Type 0
KnownFormat none = Unit
KnownFormat (some f) = (same_text f (codes "text") || same_text f (codes "sarif")) ≡ true

set_format-KnownFormat :
    (f : Text) (s : Options)
    → KnownFormat s.format
    → IfOk (λ u. KnownFormat u.format) (set_format f s)
unfolding set_format KnownFormat
set_format-KnownFormat f s h =
    two_tests (λ u. KnownFormat u.format) _ _ _ (record s { format = some f }) (λ e. e)

place-KnownFormat :
    (k : Option CommandKind) (p q : Option Text) (t : Text) (s : Options)
    → KnownFormat s.format
    → IfOk (λ u. KnownFormat u.format) (place k p q t s)
unfolding place IfOk
place-KnownFormat none p (some x) t s h = tt
place-KnownFormat none p none t s h = tt
place-KnownFormat (some k) (some p) q t s h = tt
place-KnownFormat (some k) none q t s h = h

set_path-KnownFormat :
    (t : Text) (s : Options)
    → KnownFormat s.format
    → IfOk (λ u. KnownFormat u.format) (set_path t s)
unfolding set_path
set_path-KnownFormat t s h = place-KnownFormat s.kind s.path (closest_command t) t s h

pub KnownFormat-Local : Local (λ u. KnownFormat u.format)
KnownFormat-Local = record {
  of_options = λ s u _ _ f h. rw (sym f) h;
  of_format = set_format-KnownFormat;
  of_path = set_path-KnownFormat;
  of_kind = λ k s h. h;
}
