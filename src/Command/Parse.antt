-- ===== src/Command/Parse.antt =====
-- apps/sarifc/src/command.rs `parse_command`: the data of a command line and its reading. The
-- arguments are ASCII texts.
use sarif.Base.{
  Bool, true, false, not, ◌&&◌, ◌||◌, Option, none, some, List, [], ◌∷◌, ◌++◌, if◌then◌else◌,
}
use sarif.Text.{Text, codes, same_text, starts_with, drop, Result, ok, err}
use sarif.Command.Suggest.{closest_command}

-- crates/sarif_frontend/src/semantic/profile.rs
pub data Profile : Type 0 where
  core total rt : Profile

pub data BuildTarget : Type 0 where
  native wasm c : BuildTarget

pub data CommandKind : Type 0 where
  help version check doc format bootstrap_check bootstrap_doc bootstrap_format run build plan
        query :
      CommandKind

-- `dump_ir` and the fields after it are those of the struct.
pub record Command : Type 0 where
  pub kind : CommandKind
  pub path : Text
  pub profile : Profile
  pub program_args : List Text
  pub print_main : Bool
  pub target : BuildTarget
  pub output_path : Option Text
  pub dump_ir : Option Text
  pub inspect : Option Text
  pub debug : Bool
  pub format : Option Text
  pub import_paths : List Text
  pub query_source : Option Text

-- The variables of `parse_command_inner`: `kind` and `path` are not found yet.
pub record Options : Type 0 where
  pub kind : Option CommandKind
  pub path : Option Text
  pub profile : Profile
  pub program_args : List Text
  pub print_main : Bool
  pub target : BuildTarget
  pub output_path : Option Text
  pub dump_ir : Option Text
  pub inspect : Option Text
  pub debug : Bool
  pub format : Option Text
  pub import_paths : List Text
  pub query_source : Option Text

abbrev pub initial : Options
initial = record {
  kind = none;
  path = none;
  profile = core;
  program_args = [];
  print_main = false;
  target = native;
  output_path = none;
  dump_ir = none;
  inspect = none;
  debug = false;
  format = none;
  import_paths = [];
  query_source = none;
}

-- The options whose value is the next argument.
pub data Valued : Type 0 where
  import_path profile target output format from : Valued

-- The arms of the `match`, and the test before it.
pub data Arg : Type 0 where
  separator : Arg
  word : CommandKind → Arg
  valued : Valued → Arg
  set_profile : Profile → Arg
  set_print_main set_debug : Arg
  format_is dump_ir_is inspect_is positional unknown : Text → Arg

-- The literal arms, in the order of the `match`.
abbrev arms : List (Text × Arg)
arms =
    (codes "--", separator)
    ∷ (codes "help", word help)
    ∷ (codes "-h", word help)
    ∷ (codes "--help", word help)
    ∷ (codes "version", word version)
    ∷ (codes "-v", word version)
    ∷ (codes "--version", word version)
    ∷ (codes "check", word check)
    ∷ (codes "doc", word doc)
    ∷ (codes "format", word CommandKind.format)
    ∷ (codes "bootstrap-check", word bootstrap_check)
    ∷ (codes "bootstrap-doc", word bootstrap_doc)
    ∷ (codes "bootstrap-format", word bootstrap_format)
    ∷ (codes "run", word run)
    ∷ (codes "build", word build)
    ∷ (codes "plan", word plan)
    ∷ (codes "query", word query)
    ∷ (codes "--import-path", valued import_path)
    ∷ (codes "--profile", valued Valued.profile)
    ∷ (codes "--core", set_profile core)
    ∷ (codes "--total", set_profile total)
    ∷ (codes "--rt", set_profile rt)
    ∷ (codes "--target", valued Valued.target)
    ∷ (codes "-o", valued output)
    ∷ (codes "--print-main", set_print_main)
    ∷ (codes "--debug", set_debug)
    ∷ (codes "--format", valued Valued.format)
    ∷ (codes "--from", valued from)
    ∷ []

-- The arms with a guard, which come after them.
guarded : Text → Arg
unfolding starts_with drop
guarded t =
    if starts_with t (codes "--format=")
    then format_is (drop 9 t)
    else if starts_with t (codes "--dump-ir=")
    then dump_ir_is (drop 10 t)
    else if starts_with t (codes "--inspect=")
    then inspect_is (drop 10 t)
    else if not (starts_with t (codes "-"))
    then positional t
    else unknown t

among : List (Text × Arg) → Text → Arg
unfolding same_text guarded
among [] t = guarded t
among ((name, arg) ∷ rest) t = if same_text t name then arg else among rest t

unfoldable pub classify : Text → Arg
unfolding among
classify t = among arms t

-- `format!("{before}`{t}`")`
quoted : Text → Text → Text
quoted before t = before ++ (codes "`" ++ (t ++ codes "`"))

unfoldable pub set_format : Text → Options → Result Options
unfolding same_text quoted
set_format f s =
    if not (same_text f (codes "text")) && not (same_text f (codes "sarif"))
    then err (quoted (codes "unknown format ") f)
    else ok (record s { format = some f })

-- An option with its value, or without one at the end of the arguments.
unfoldable pub set_valued : Valued → Text → Options → Result Options
unfolding set_format same_text quoted
set_valued import_path v s = ok (record s { import_paths = s.import_paths ++ (v ∷ []) })
set_valued Valued.profile v s =
    if same_text v (codes "core")
    then ok (record s { profile = core })
    else if same_text v (codes "total")
    then ok (record s { profile = total })
    else if same_text v (codes "rt")
    then ok (record s { profile = rt })
    else err (quoted (codes "unknown profile ") v)
set_valued Valued.target v s =
    if same_text v (codes "native")
    then ok (record s { target = native })
    else if same_text v (codes "wasm")
    then ok (record s { target = wasm })
    else if same_text v (codes "c")
    then ok (record s { target = c })
    else err (quoted (codes "unknown target ") v)
set_valued output v s = ok (record s { output_path = some v })
set_valued Valued.format v s = set_format v s
set_valued from v s = ok (record s { query_source = some v })

unfoldable pub set_missing : Valued → Options → Result Options
set_missing output s = ok (record s { output_path = none })
set_missing Valued.format s = err (codes "missing argument for `--format`")
set_missing _ s = ok s

-- A positional argument, by what `kind` and `path` hold and by the suggestion for it.
unfoldable pub place :
    Option CommandKind → Option Text → Option Text → Text → Options → Result Options
unfolding quoted
place none _ (some suggestion) t s = err (
    quoted (codes "unknown command ") t
    ++ (codes " (did you mean `" ++ (suggestion ++ codes "`?)")))
place none _ none t s = err (quoted (codes "unknown command ") t)
place (some _) (some _) _ t s = err (quoted (codes "unexpected positional argument ") t)
place (some _) none _ t s = ok (record s { path = some t })

unfoldable pub set_path : Text → Options → Result Options
unfolding place
set_path t s = place s.kind s.path (closest_command t) t s

-- An argument that needs no other. The value of the other two arms is not used.
unfoldable pub set_single : Arg → Options → Result Options
unfolding set_format set_path quoted
set_single (word k) s = ok (record s { kind = some k })
set_single (set_profile p) s = ok (record s { profile = p })
set_single set_print_main s = ok (record s { print_main = true })
set_single set_debug s = ok (record s { debug = true })
set_single (format_is f) s = set_format f s
set_single (dump_ir_is f) s = ok (record s { dump_ir = some f })
set_single (inspect_is f) s = ok (record s { inspect = some f })
set_single (positional t) s = set_path t s
set_single (unknown t) s = err (quoted (codes "unknown option ") t)
set_single separator s = ok s
set_single (valued _) s = ok s

-- `return Err(..)`, or the next round
abbrev pub and_then : Result Options → (Options → Result Options) → Result Options
and_then (err message) next = err message
and_then (ok s) next = next s

-- One round, with the rounds after it as `next`: of the arguments that follow, waiting for a value.
unfoldable pub step_arg :
    Arg → List Text → Options → (Option Valued → Options → Result Options) → Result Options
step_arg separator rest s next = ok (record s { program_args = s.program_args ++ rest })
step_arg (valued o) rest s next = next (some o) s
step_arg arg rest s next = and_then (set_single arg s) (next none)

-- The loop. The argument after a valued one, `waiting` for it, is its value, whatever it is.
unfoldable pub parse_args : List Text → Option Valued → Options → Result Options
unfolding classify step_arg set_valued set_missing
parse_args [] none s = ok s
parse_args [] (some waiting) s = set_missing waiting s
parse_args (v ∷ rest) (some waiting) s =
    and_then (set_valued waiting v s) (λ u. parse_args rest none u)
parse_args (arg ∷ rest) none s = step_arg (classify arg) rest s (λ w u. parse_args rest w u)

abbrev pub is_kind : CommandKind → CommandKind → Bool
is_kind help help = true
is_kind version version = true
is_kind check check = true
is_kind run run = true
is_kind build build = true
is_kind _ _ = false

-- The `Command` of an `Ok`, whose other fields are the options'.
unfoldable pub command : CommandKind → Text → Option Text → Options → Command
command kind path shown s = record {
  kind = kind;
  path = path;
  profile = s.profile;
  program_args = s.program_args;
  print_main = s.print_main;
  target = s.target;
  output_path = s.output_path;
  dump_ir = s.dump_ir;
  inspect = s.inspect;
  debug = s.debug;
  format = shown;
  import_paths = s.import_paths;
  query_source = s.query_source;
}

unfoldable pub is_some : {A : Type 0} → Option A → Bool
is_some none = false
is_some (some _) = true

unfoldable pub is_empty : {A : Type 0} → List A → Bool
is_empty [] = true
is_empty (_ ∷ _) = false

-- `kind.unwrap_or_else(..)`
unfoldable pub chosen_kind : List Text → Options → CommandKind
unfolding is_some is_empty
chosen_kind args s = elim s.kind [
  | some k ↦ k
  | none ↦ if not (is_some s.path) && is_empty args then help else check
]

-- The tests after the loop, on the command and the path.
unfoldable pub accept : CommandKind → Option Text → Options → Result Command
unfolding is_some is_empty command
accept kind path s =
    if is_kind kind help || is_kind kind version then ok (command kind [] none s) else elim path [
      | none ↦ err (codes "missing input file")
      | some file ↦
          if not (is_empty s.program_args) && not (is_kind kind run)
          then err (codes "runtime arguments after `--` are only supported for `run`")
          else if s.print_main && not (is_kind kind build)
          then err (codes "`--print-main` is only supported for `build`")
          else if is_some s.inspect && not (is_kind kind build)
          then err (codes "`--inspect` is only supported for `build`")
          else if is_some s.format && not (is_kind kind check) && not (is_kind kind build)
          then err (codes "`--format` is only supported for `check` and `build`")
          else ok (command kind file s.format s)
    ]

unfoldable pub finish : List Text → Options → Result Command
unfolding accept chosen_kind
finish args s = accept (chosen_kind args s) s.path s

-- What follows the loop, which may have returned an error.
unfoldable pub after_loop : List Text → Result Options → Result Command
unfolding finish
after_loop args (err message) = err message
after_loop args (ok s) = finish args s

unfoldable pub parse_command : List Text → Result Command
unfolding parse_args after_loop
parse_command args = after_loop args (parse_args args none initial)
