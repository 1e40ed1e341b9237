-- ===== src/Command/Laws.antt =====
-- What apps/sarifc/src/command.rs `parse_command` accepts.
use sarif.Base.{
  ◌≡◌, refl, Bool, true, not, ◌&&◌, ◌||◌, Option, none, some, List, [], ◌∷◌, if◌then◌else◌, arith,
}
use mathlib.Core.Path.{subst}
use sarif.Text.{Text, Result, ok, err}
use sarif.Command.Parse.{
  Command, CommandKind, help, version, check, run, build, Options, initial, parse_args, command,
  accept, is_kind, is_some, is_empty, chosen_kind, finish, after_loop, parse_command,
}
use sarif.Command.Keeps.{
  IfOk, PathAfterKind, KnownFormat, PathAfterKind-Local, KnownFormat-Local, Local-Kept,
  parse_args_keeps,
}

-- What the code restricts by the kind of a command. Help and version have an empty path and no format,
-- and whatever other options there were. Of the other kinds runtime arguments are for run only, the
-- printing of main and the inspection for build only, and the format for check and build only. The
-- other options are not restricted.
unfoldable pub is_restricted : Command → Bool
is_restricted c =
    if is_kind c.kind help || is_kind c.kind version
    then is_empty c.path && not (is_some c.format)
    else (is_empty c.program_args || is_kind c.kind run)
      && (not c.print_main || is_kind c.kind build)
      && (not (is_some c.inspect) || is_kind c.kind build)
      && (not (is_some c.format) || is_kind c.kind check || is_kind c.kind build)

-- What holds of an accepted value holds of the value that there is.
if_ok : {A : Type 0} (P : A → Type 0) (r : Result A) (a : A) → IfOk P r → r ≡ ok a → P a
unfolding IfOk
if_ok P (err m) a p e = absurd (cc)
if_ok P (ok b) a p e = subst P (cc) p

accept_restricted :
    (kind : CommandKind) (path : Option Text) (s : Options)
    → IfOk (λ c. (is_restricted c ≡ true) × (c.kind ≡ kind)) (accept kind path s)
unfolding accept is_restricted IfOk command is_some is_empty
accept_restricted kind none s = ground arith
accept_restricted kind (some p) s = ground arith

-- The options of a command that no kind changes are those of the loop.
unfoldable pub Carries : Options → Command → Type 0
Carries s c =
    (c.profile ≡ s.profile)
    × (c.program_args ≡ s.program_args)
    × (c.print_main ≡ s.print_main)
    × (c.target ≡ s.target)
    × (c.output_path ≡ s.output_path)
    × (c.dump_ir ≡ s.dump_ir)
    × (c.inspect ≡ s.inspect)
    × (c.debug ≡ s.debug)
    × (c.import_paths ≡ s.import_paths)
    × (c.query_source ≡ s.query_source)

command-Carries :
    (kind : CommandKind) (path : Text) (format : Option Text) (s : Options)
    → Carries s (command kind path format s)
unfolding Carries command
command-Carries kind path format s = (refl, refl, refl, refl, refl, refl, refl, refl, refl, refl)

accept-Carries :
    (kind : CommandKind) (path : Option Text) (s : Options) → IfOk (Carries s) (accept kind path s)
unfolding accept IfOk
accept-Carries kind none s = ground (arith, command-Carries kind [] none s)
accept-Carries kind (some p) s =
    ground (arith, command-Carries kind [] none s, command-Carries kind p s.format s)

accept-KnownFormat :
    (kind : CommandKind) (path : Option Text) (s : Options)
    → KnownFormat s.format
    → IfOk (λ c. KnownFormat c.format) (accept kind path s)
unfolding accept KnownFormat IfOk command
accept-KnownFormat kind none s h = ground arith
accept-KnownFormat kind (some p) s h = ground arith

after_loop_ok :
    (args : List Text) (r : Result Options) (c : Command)
    → after_loop args r ≡ ok c
    → (s : Options) × (r ≡ ok s) × (finish args s ≡ ok c)
unfolding after_loop
after_loop_ok args (err m) c h = absurd (cc)
after_loop_ok args (ok s) c h = (s, refl, h)

-- The options that the loop left when a command was accepted.
left_options :
    (args : List Text) (c : Command)
    → parse_command args ≡ ok c
    → (s : Options) × (parse_args args none initial ≡ ok s)
      × (finish args s ≡ ok c)
      × PathAfterKind s
      × KnownFormat s.format
unfolding parse_command
left_options args c h =
    let (s, e, f) = after_loop_ok args (parse_args args none initial) c h in
    let path =
      parse_args_keeps PathAfterKind (Local-Kept PathAfterKind PathAfterKind-Local) args none
        initial (unfold PathAfterKind in refl) in
    let form =
      parse_args_keeps (λ u. KnownFormat u.format) (Local-Kept _ KnownFormat-Local) args none
        initial (unfold KnownFormat in tt) in
    (s, e, f, if_ok PathAfterKind _ s path e, if_ok (λ u. KnownFormat u.format) _ s form e)

-- Let a command line be accepted. If its command is help or version, the path is empty and there is no
-- format. If it is another, there are runtime arguments only for run, `--print-main` and `--inspect`
-- only for build, and a format only for check and build. A format is text or sarif. All other
-- options, and for help and version also the runtime arguments, `--print-main` and `--inspect`, are
-- under no restriction: each is the one that the loop over the arguments left.
pub parse_command-is_restricted :
    (args : List Text) (c : Command)
    → parse_command args ≡ ok c
    → (is_restricted c ≡ true)
      × KnownFormat c.format
      × ((s : Options) × (parse_args args none initial ≡ ok s) × Carries s c)
unfolding finish
parse_command-is_restricted args c h =
    let (s, e, f, _, form) = left_options args c h in
    let kind = chosen_kind args s in
    (
      (if_ok (λ d. (is_restricted d ≡ true) × (d.kind ≡ kind)) _ c (accept_restricted kind s.path s)
          f).0,
      if_ok (λ d. KnownFormat d.format) _ c (accept-KnownFormat kind s.path s form) f,
      (s, e, if_ok (Carries s) _ c (accept-Carries kind s.path s) f),
    )

chosen_check :
    (arg : Text) (args : List Text) (s : Options)
    → s.kind ≡ none
    → chosen_kind (arg ∷ args) s ≡ check
unfolding chosen_kind is_empty
chosen_check arg args s e = rw (e, chosen_kind) (ground arith)

chosen_word :
    (args : List Text) (k : CommandKind) (s : Options) → s.kind ≡ some k → chosen_kind args s ≡ k
unfolding chosen_kind
chosen_word args k s e = rw (e, chosen_kind) refl

no_file : (s : Options) (c : Command) → accept check none s ≡ ok c → ⊥
unfolding accept
no_file s c h = absurd (cc)

no_path : (s : Options) (p : Text) → s.kind ≡ none → s.path ≡ some p → PathAfterKind s → ⊥
unfolding PathAfterKind is_some
no_path s p ek ep h = ground arith

-- With an argument and no command word a path is missing, so nothing is accepted.
finish-named :
    (arg : Text) (args : List Text) (k : Option CommandKind) (p : Option Text) (s : Options)
    (c : Command)
    → s.kind ≡ k
    → s.path ≡ p
    → PathAfterKind s
    → finish (arg ∷ args) s ≡ ok c
    → s.kind ≡ some c.kind
unfolding finish
finish-named arg args none none s c ek ep path f = absurd (
    no_file s c (
      subst (λ k. accept k none s ≡ ok c) (chosen_check arg args s ek)
        (subst (λ p. accept (chosen_kind (arg ∷ args) s) p s ≡ ok c) ep f)))
finish-named arg args none (some p) s c ek ep path f = absurd (no_path s p ek ep path)
finish-named arg args (some k) p s c ek ep path f =
    let same =
      (if_ok (λ d. (is_restricted d ≡ true) × (d.kind ≡ chosen_kind (arg ∷ args) s)) _ c
        (accept_restricted (chosen_kind (arg ∷ args) s) s.path s) f).1 in
    rw (ek, same, chosen_word (arg ∷ args) k s ek) refl

-- A command that is accepted from at least one argument has the kind that the loop found among the
-- arguments: the default kind, check, is never chosen.
pub parse_command-names :
    (arg : Text) (args : List Text) (c : Command)
    → parse_command (arg ∷ args) ≡ ok c
    → (s : Options) × (parse_args (arg ∷ args) none initial ≡ ok s) × (s.kind ≡ some c.kind)
parse_command-names arg args c h =
    let (s, e, f, path, _) = left_options (arg ∷ args) c h in
    (s, e, finish-named arg args s.kind s.path s c refl refl path f)
