-- ===== src/Escape/Tests.antt =====
-- Tests and examples of the escape analysis, crates/sarif_codegen/src/escape.rs: small functions in
-- the shape of the source's own tests.
use sarif.Base.{ℕ, String, ◌≡◌, refl, Bool, true, false, none, some, List, [], ◌∷◌, arith, eq_iff}
use sarif.Mir.{Function}
use sarif.Text.{codes}
use sarif.Mir.Inst.{Inst, Insts, nil, cons, no_arms, arm}
use sarif.Escape.Env.{Env, CalleeMap, get, callee_escapes, is_escaped, arena_dest, ◌⊑◌}
use sarif.Escape.Analyze.{analyze, result_escapes}
use sarif.Escape.Order.{⊑_refl}
use sarif.Escape.Runs.{
  RunsAll, next, stop, makes, then_runs, load, store, write_value, write_slot, overwrite,
}
use sarif.Escape.Sound.{analyze-covers-runs}
use sarif.Escape.Program.{
  has_alloc, type_can_hold_arena_memory, may_escape, value_may_escape, initial_env, initial_callees,
  insert, round, settle, analyze_function, analyze_escapes, update_callee, diagnose, required,
  return_name,
}
use sarif.Escape.Callees.{HasUniqueNames}
use sarif.Base.{All}
use sarif.Escape.Settle.{IsStable, settle-IsStable, settle_least}
use sarif.Escape.Report.{
  reported, analyze_escapes-reported, analyze_function_complete, settle_same_name,
}

abbrev function : String → List String → Insts → ℕ → Function
function name effects body result = record {
  name = name;
  params = [];
  return_type = some "Text";
  effects = effects;
  mutable_locals = [];
  instructions = body;
  result = some result;
  span = record { start = 0; end = 0 };
  value_count = 3;
  slot_count = 1;
}

-- fn make() -> Text effects [alloc] { text_concat(v0, v1) }
abbrev make : Function
make = function "make" ("alloc" ∷ []) (cons (Inst.text_concat 2 0 1) nil) 2

-- fn relay() -> Text effects [alloc] { make() }
abbrev relay : Function
relay = function "relay" ("alloc" ∷ []) (cons (Inst.call 0 "make" []) nil) 0

-- fn fixed() -> Text effects [alloc] { "x" }
abbrev fixed : Function
fixed = function "fixed" ("alloc" ∷ []) (cons (Inst.const_text 1 "x") nil) 1

abbrev program : List Function
program = relay ∷ fixed ∷ make ∷ []

program-HasUniqueNames : HasUniqueNames program
program-HasUniqueNames =
    ground (arith, eq_iff "relay" "fixed", eq_iff "relay" "make", eq_iff "fixed" "make")

program_report : analyze_escapes 4 program ≡ some (required relay ∷ required make ∷ [])
unfolding analyze_escapes settle initial_callees insert round update_callee get may_escape has_alloc
    type_can_hold_arena_memory value_may_escape initial_env analyze is_escaped callee_escapes
    diagnose analyze_function
program_report = refl

-- A run of one branch: if v0 { slot0 = text_concat(v0, v0) } else {}; v2 = slot0
abbrev branches : Insts
branches =
    cons
      (Inst.if_else 1 0 (cons (Inst.text_concat 2 0 0) (cons (Inst.store_local 0 2) nil)) none nil
        none)
      (cons (Inst.load_local 2 0) nil)

abbrev bits : Bool → Bool → Bool → Bool → Env
bits a b c slot = record { escaped = a ∷ b ∷ c ∷ []; esc_locals = slot ∷ [] }

run_then :
    (m : CalleeMap) → RunsAll m branches (bits false false false false) (bits false false true true)
unfolding write_value write_slot overwrite is_escaped result_escapes arena_dest
run_then m = next (then_runs (next (makes 2 true refl) (next store stop))) (next load stop)

analyze-covers-runs_example :
    bits false false true true ⊑ analyze [] branches (bits false false false false)
analyze-covers-runs_example =
    analyze-covers-runs [] branches (bits false false false false) (bits false false false false)
      (bits false false true true) (⊑_refl (bits false false false false)) (run_then [])

settle-IsStable_example :
    (m : CalleeMap) × (settle 4 program (initial_callees program []) ≡ some m) × IsStable m program
settle-IsStable_example = settle-IsStable program program-HasUniqueNames

abbrev final : CalleeMap
final = ("relay", true) ∷ ("fixed", false) ∷ ("make", true) ∷ []

settle-final : settle 4 program (initial_callees program []) ≡ some final
unfolding settle initial_callees insert round update_callee get may_escape has_alloc
    type_can_hold_arena_memory value_may_escape initial_env analyze is_escaped callee_escapes
settle-final = refl

abbrev every : CalleeMap
every = ("relay", true) ∷ ("fixed", true) ∷ ("make", true) ∷ []

every_closed : All (λ f. may_escape every f ≡ true → callee_escapes every f.name ≡ true) program
unfolding callee_escapes get
every_closed = (λ e. refl, (λ e. refl, (λ e. refl, tt)))

settle_least_example : callee_escapes every "make" ≡ true
unfolding callee_escapes get
settle_least_example =
    settle_least program program-HasUniqueNames 4 final every settle-final every_closed "make" refl

analyze_escapes-reported_example :
    (m : CalleeMap) × IsStable m program × (analyze_escapes 4 program ≡ some (reported m program))
analyze_escapes-reported_example = analyze_escapes-reported program program-HasUniqueNames

run_make : RunsAll [] make.instructions (initial_env make) (bits false false true false)
unfolding initial_env arena_dest write_value overwrite
run_make = next (makes 2 true refl) stop

analyze_function_complete_example : analyze_function make [] ≡ required make ∷ []
unfolding has_alloc type_can_hold_arena_memory is_escaped
analyze_function_complete_example =
    analyze_function_complete [] make 2 "Text" (bits false false true false) refl refl refl refl
      run_make refl

-- The same name on a function that always escapes and on one that never does.
abbrev twin : Function
twin = function "make" ("alloc" ∷ []) (cons (Inst.const_text 1 "x") nil) 1

settle_same_name_example : settle 1000 (make ∷ twin ∷ []) (("make", false) ∷ []) ≡ none
unfolding may_escape has_alloc type_can_hold_arena_memory value_may_escape initial_env analyze
    is_escaped get
settle_same_name_example =
    settle_same_name make twin refl (λ m. refl) (λ m. refl) 1000 (("make", false) ∷ []) false refl

-- handle { perform E.fill(); v2 = slot0; v2 } with { E.fill => { slot0 = text_builder_new() } }: the
-- interpreter runs the arm inside the body, so v2 refers to arena memory, and the analysis, which
-- looks at the body before the arms, marks neither v2 nor the result v1.
handler_order :
    is_escaped
      (analyze []
        (cons
          (Inst.handle 1
            (cons (Inst.perform 0 "E" "fill" []) (cons (Inst.load_local 2 0) nil))
            (some 2)
            (arm "E" "fill" []
              (cons (Inst.text_builder_new 0) (cons (Inst.store_local 0 0) nil))
              none
              no_arms))
          nil)
        (bits false false false false))
      1
    ≡ false
unfolding analyze is_escaped
handler_order = refl

-- list_set(v0, v2, v1), where v1 refers to arena memory: the analysis marks the result v3 and not v0,
-- which names the list that the interpreter writes.
shared_list :
    is_escaped
      (analyze []
        (cons (Inst.text_concat 1 2 2) (cons (Inst.list_set 3 0 2 1) nil))
        (bits false false false false))
      0
    ≡ false
unfolding analyze is_escaped
shared_list = refl

-- A function without a return type is reported with the name `Unit`.
unit_returned : return_name none ≡ codes "Unit"
unfolding return_name
unit_returned = refl
