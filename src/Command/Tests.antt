-- ===== src/Command/Tests.antt =====
-- Tests and examples of apps/sarifc/src/command.rs: the command lines of the source's own tests, and
-- some more.
use sarif.Base.{◌≤◌, ◌≡◌, refl, true, false, none, some, List, [], ◌∷◌}
use sarif.Text.{codes, Text, ok, err}
use sarif.Command.Distance.{edit_distance}
use sarif.Command.Script.{Script, done, keep, insert}
use sarif.Command.Table.{reverse_onto, backwards, edit_distance-Script}
use sarif.Command.Suggest.{closest_command, closest_command-Nearest, Nearest}
use sarif.Command.Parse.{
  Command, Options, initial, CommandKind, help, check, core, native, build, wasm, total, parse_args,
  set_single, parse_command,
}
use sarif.Command.Keeps.{KnownFormat}
use sarif.Command.Laws.{is_restricted, Carries, parse_command-is_restricted, parse_command-names}

chek_check : edit_distance (codes "chek") (codes "check") ≡ 1
unfolding edit_distance
chek_check = refl

kitten_sitting : edit_distance (codes "kitten") (codes "sitting") ≡ 3
unfolding edit_distance
kitten_sitting = refl

chek_script : Script (backwards (codes "chek")) (backwards (codes "check")) 1
unfolding backwards reverse_onto
chek_script = keep 107 (insert 99 (keep 101 (keep 104 (keep 99 done))))

edit_distance-Script_example :
    Script
      (backwards (codes "chek"))
      (backwards (codes "check"))
      (edit_distance (codes "chek") (codes "check"))
    × (edit_distance (codes "chek") (codes "check") ≤ 1)
edit_distance-Script_example = edit_distance-Script (codes "chek") (codes "check") 1 chek_script

suggested : closest_command (codes "chek") ≡ some (codes "check")
unfolding closest_command edit_distance
suggested = refl

closest_command-Nearest_example : Nearest (codes "chek") (closest_command (codes "chek"))
closest_command-Nearest_example = closest_command-Nearest (codes "chek")

abbrev build_line : List Text
build_line =
    codes "build"
    ∷ codes "main.sarif"
    ∷ codes "--print-main"
    ∷ codes "--target"
    ∷ codes "wasm"
    ∷ codes "--profile"
    ∷ codes "total"
    ∷ codes "-o"
    ∷ codes "main.wasm"
    ∷ []

abbrev build_command : Command
build_command = record {
  kind = build;
  path = codes "main.sarif";
  profile = total;
  program_args = [];
  print_main = true;
  target = wasm;
  output_path = some (codes "main.wasm");
  dump_ir = none;
  inspect = none;
  debug = false;
  format = none;
  import_paths = [];
  query_source = none;
}

build_parsed : parse_command build_line ≡ ok build_command
unfolding parse_command set_single
build_parsed = refl

-- A separator that stands where a value is awaited is that value.
separator_as_value :
    parse_command (codes "run" ∷ codes "a" ∷ codes "--from" ∷ codes "--" ∷ codes "b" ∷ [])
    ≡ err (codes "unexpected positional argument `b`")
unfolding parse_command set_single
separator_as_value = refl

-- A file without a command word is not checked but refused.
no_default : parse_command (codes "main.sarif" ∷ []) ≡ err (codes "unknown command `main.sarif`")
unfolding parse_command set_single closest_command edit_distance
no_default = refl

parse_command-is_restricted_example :
    (is_restricted build_command ≡ true)
    × KnownFormat build_command.format
    × ((s : Options) × (parse_args build_line none initial ≡ ok s) × Carries s build_command)
parse_command-is_restricted_example =
    parse_command-is_restricted build_line build_command build_parsed

-- Options that are for build and run stand at help, and are accepted.
abbrev help_line : List Text
help_line = codes "help" ∷ codes "--print-main" ∷ codes "--inspect=x" ∷ codes "--" ∷ codes "z" ∷ []

abbrev bare : CommandKind → Text → Command
bare kind path = record {
  kind = kind;
  path = path;
  profile = core;
  program_args = [];
  print_main = false;
  target = native;
  output_path = none;
  dump_ir = none;
  inspect = none;
  debug = false;
  format = none;
  import_paths = [];
  query_source = none;
}

help_unrestricted :
    parse_command help_line
    ≡ ok (record (bare help []) {
      print_main = true;
      inspect = some (codes "x");
      program_args = codes "z" ∷ [];
    })
unfolding parse_command set_single
help_unrestricted = refl

-- An output path, which is for build, and a source, which is for query, are accepted for check.
check_unrestricted :
    parse_command
      (codes "check" ∷ codes "a" ∷ codes "-o" ∷ codes "b" ∷ codes "--from" ∷ codes "c" ∷ [])
    ≡ ok (record (bare check (codes "a")) {
      output_path = some (codes "b");
      query_source = some (codes "c");
    })
unfolding parse_command set_single
check_unrestricted = refl

abbrev build_rest : List Text
build_rest =
    codes "main.sarif"
    ∷ codes "--print-main"
    ∷ codes "--target"
    ∷ codes "wasm"
    ∷ codes "--profile"
    ∷ codes "total"
    ∷ codes "-o"
    ∷ codes "main.wasm"
    ∷ []

parse_command-names_example :
    (s : Options) × (parse_args build_line none initial ≡ ok s) × (s.kind ≡ some build_command.kind)
parse_command-names_example =
    parse_command-names (codes "build") build_rest build_command build_parsed
