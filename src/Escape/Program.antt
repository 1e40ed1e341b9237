-- ===== src/Escape/Program.antt =====
-- The analysis of a whole program, crates/sarif_codegen/src/escape.rs `analyze_escapes`,
-- `analyze_function`, `value_may_escape` and `type_can_hold_arena_memory`. The map of callees is an
-- association list under the functions' names. `none` stands for the loop that does not end.
use text.Mathlib.Text.{starts_with, find?}
use sarif.Base.{
  ℕ, zero, suc, String, Bool, true, false, not, ◌&&◌, ◌||◌, Option, none, some, List, [], ◌∷◌, ◌++◌,
  any, is_some_and, replicate, if◌then◌else◌, str_eq,
}
use sarif.Mir.{Function}
use sarif.Text.{Text, codes}
use sarif.Syntax.Token.{Diagnostic, diagnostic}
use sarif.Mir.Inst.{ValueId}
use sarif.Escape.Env.{Env, CalleeMap, get, is_escaped}
use sarif.Escape.Analyze.{analyze}

-- `haystack.contains(needle)`
contains : String → String → Bool
contains haystack needle = is_some_and (λ _. true) (find? haystack needle)

unfoldable pub type_can_hold_arena_memory : String → Bool
unfolding contains
type_can_hold_arena_memory ty =
    (str_eq ty "Text"
      || str_eq ty "TextBuilder"
      || str_eq ty "TextIndex"
      || str_eq ty "List"
      || str_eq ty "Bytes")
    || starts_with ty "["
    || contains ty "Text"
    || contains ty "List"
    || contains ty "Bytes"

-- `function.effects.iter().any(|e| e == "alloc")`
unfoldable pub has_alloc : Function → Bool
has_alloc f = any (λ e. str_eq e "alloc") f.effects

-- The state before the body: no value and no slot is marked.
unfoldable pub initial_env : Function → Env
initial_env f = record {
  escaped = replicate f.value_count false;
  esc_locals = replicate f.slot_count false;
}

unfoldable pub value_may_escape : ValueId → Function → CalleeMap → Bool
value_may_escape value f callees = is_escaped (analyze callees f.instructions (initial_env f)) value

-- The closure in the loop: a result, the `alloc` effect, a type that can hold arena memory, and a
-- result that the analysis marks.
unfoldable pub may_escape : CalleeMap → Function → Bool
may_escape callees f =
    is_some_and
      (λ result.
        has_alloc f
        && is_some_and type_can_hold_arena_memory f.return_type
        && value_may_escape result f callees)
      f.result

-- `HashMap::insert`, and the write through `get_mut`.
unfoldable pub insert : String → Bool → CalleeMap → CalleeMap
insert k b [] = (k, b) ∷ []
insert k b ((j, c) ∷ m) = if str_eq j k then (j, b) ∷ m else (j, c) ∷ insert k b m

-- `collect` into the map: a later function of a name replaces an earlier one.
unfoldable pub initial_callees : List Function → CalleeMap → CalleeMap
initial_callees [] m = m
initial_callees (f ∷ fs) m = initial_callees fs (insert f.name false m)

bool_ne : Bool → Bool → Bool
bool_ne true b = not b
bool_ne false b = b

-- One function of a round, against the snapshot: the map, and whether something changed.
unfoldable pub update_callee : CalleeMap → Function → CalleeMap × Bool → CalleeMap × Bool
unfolding bool_ne
update_callee snapshot f (m, changed) =
    let escapes = may_escape snapshot f in
    if is_some_and (λ b. bool_ne b escapes) (get f.name m)
    then (insert f.name escapes m, true)
    else (m, changed)

unfoldable pub round : CalleeMap → List Function → CalleeMap × Bool → CalleeMap × Bool
round snapshot [] s = s
round snapshot (f ∷ fs) s = round snapshot fs (update_callee snapshot f s)

-- The fixed-point loop: rounds until one changes nothing.
unfoldable pub settle : ℕ → List Function → CalleeMap → Option CalleeMap
settle zero fs m = none
settle (suc n) fs m =
    let r = round m fs (m, false) in elim r.1 [ true ↦ settle n fs r.0 | false ↦ some r.0 ]

-- `as_deref().unwrap_or("Unit")`
unfoldable pub return_name : Option String → Text
return_name none = codes "Unit"
return_name (some ty) = codes ty

-- What is reported of a function.
unfoldable pub required : Function → Diagnostic
unfolding diagnostic return_name
required f =
    diagnostic (codes "escape.analysis.required")
      (codes "function `"
        ++ (codes f.name
            ++ (codes "` with `alloc` effect returns `"
                ++ (return_name f.return_type ++ codes "` that may reference arena memory"))))
      f.span
      (some (
        codes "Stage-1 requires all returned values to be escape-safe. "
        ++ codes "If the return value does not reference arena memory, remove the `alloc` effect."))

-- The guards in the source's order; each early return is an empty list.
unfoldable pub analyze_function : Function → CalleeMap → List Diagnostic
analyze_function f callees = elim f.result [
  | none ↦ []
  | some result ↦
      if not (has_alloc f)
      then []
      else if not (is_some_and type_can_hold_arena_memory f.return_type)
      then []
      else if not (value_may_escape result f callees)
      then []
      else required f ∷ []
]

unfoldable pub diagnose : CalleeMap → List Function → List Diagnostic
diagnose callees [] = []
diagnose callees (f ∷ fs) = analyze_function f callees ++ diagnose callees fs

unfoldable pub analyze_escapes : ℕ → List Function → Option (List Diagnostic)
analyze_escapes fuel fs = elim (settle fuel fs (initial_callees fs [])) [
  | none ↦ none
  | some callees ↦ some (diagnose callees fs)
]
