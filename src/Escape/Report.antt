-- ===== src/Escape/Report.antt =====
-- What crates/sarif_codegen/src/escape.rs `analyze_escapes` reports of a program.
use sarif.Base.{
  ℕ, zero, suc, String, ◌≡◌, refl, ap, ◌∙◌, Bool, true, false, none, some, List, [], ◌∷◌, ◌++◌,
  length, if◌then◌else◌, arith,
}
use sarif.Mir.{Function}
use sarif.Mir.Inst.{ValueId}
use sarif.Escape.Env.{Env, CalleeMap, get, callee_escapes, is_escaped}
use sarif.Escape.Analyze.{analyze}
use sarif.Escape.Order.{is_escaped_mono, ⊑_refl}
use sarif.Escape.Runs.{RunsAll}
use sarif.Escape.Sound.{analyze-covers-runs}
use sarif.Escape.Program.{
  required, has_alloc, type_can_hold_arena_memory, value_may_escape, may_escape, initial_env,
  update_callee, insert, round, settle, analyze_function, diagnose, analyze_escapes,
}
use sarif.Syntax.Token.{Diagnostic}
use sarif.Escape.Callees.{HasUniqueNames, get-insert_self}
use sarif.Escape.Settle.{IsStable, settle-IsStable}

-- One required for each function whose name the map calls escaping, in the program's order.
unfoldable pub reported : CalleeMap → List Function → List Diagnostic
reported m [] = []
reported m (f ∷ fs) = (if callee_escapes m f.name then required f ∷ [] else []) ++ reported m fs

-- The early returns of the report and the closure of the fixed-point loop test the same.
analyze_function_lem :
    (f : Function) (m : CalleeMap)
    → analyze_function f m ≡ (if may_escape m f then required f ∷ [] else [])
unfolding analyze_function may_escape
analyze_function_lem f m = ground arith

diagnose-reported :
    (m : CalleeMap) (fs : List Function) → IsStable m fs → diagnose m fs ≡ reported m fs
unfolding diagnose reported
diagnose-reported m [] st = refl
diagnose-reported m (f ∷ fs) st = rw (analyze_function_lem f m, st.0, diagnose-reported m fs st.1)

-- Where no two functions share a name the analysis ends within the given rounds, and reports
-- exactly the functions that its final map calls escaping, a map that agrees with the analysis of
-- each function under it.
pub analyze_escapes-reported :
    (fs : List Function)
    → HasUniqueNames fs
    → (m : CalleeMap) × IsStable m fs
      × (analyze_escapes (suc (length fs)) fs ≡ some (reported m fs))
unfolding analyze_escapes
analyze_escapes-reported fs u =
    let (m, e, st) = settle-IsStable fs u in
    (m, st, rw (e, analyze_escapes) (ap some (diagnose-reported m fs st)))

may_escape_intro :
    (m : CalleeMap) (f : Function) (value : ValueId) (ty : String)
    → f.result ≡ some value
    → f.return_type ≡ some ty
    → has_alloc f ≡ true
    → type_can_hold_arena_memory ty ≡ true
    → value_may_escape value f m ≡ true
    → may_escape m f ≡ true
unfolding may_escape
may_escape_intro m f value ty result returns alloc holds marked = ground arith

-- A function with a result, the `alloc` effect and a return type that can hold arena memory is
-- reported under a map of callees, if there is a run of its body after which the result refers to
-- arena memory, among the runs that `RunsAll` has for that map: the result of a call refers to arena
-- memory only if the map says so of the callee or an argument does, a `handle` does no more than
-- write a plain value, and a list, builder or index that is changed in place changes the bit of no
-- other value.
pub analyze_function_complete :
    (m : CalleeMap) (f : Function) (value : ValueId) (ty : String) (s : Env)
    → f.result ≡ some value
    → f.return_type ≡ some ty
    → has_alloc f ≡ true
    → type_can_hold_arena_memory ty ≡ true
    → RunsAll m f.instructions (initial_env f) s
    → is_escaped s value ≡ true
    → analyze_function f m ≡ required f ∷ []
unfolding value_may_escape
analyze_function_complete m f value ty s result returns alloc holds run escapes =
    let start = initial_env f in
    let covers = analyze-covers-runs m f.instructions start start s (⊑_refl start) run in
    let marked : value_may_escape value f m ≡ true =
      is_escaped_mono s (analyze m f.instructions start) value covers escapes in
    analyze_function_lem f m
    ∙ ap (λ t. if t then required f ∷ [] else [])
        (may_escape_intro m f value ty result returns alloc holds marked)

-- One round over two functions of one name turns its bit up and down again.
round_same_name :
    (f g : Function) (m : CalleeMap) (b : Bool)
    → f.name ≡ g.name
    → may_escape m f ≡ true
    → may_escape m g ≡ false
    → get f.name m ≡ some b
    → ((round m (f ∷ g ∷ []) (m, false)).1 ≡ true)
      × (get f.name (round m (f ∷ g ∷ []) (m, false)).0 ≡ some false)
unfolding round update_callee
round_same_name f g m b same yes_f no_g h = ground (
  arith,
  get-insert_self f.name true m,
  get-insert_self g.name false m,
  get-insert_self g.name false (insert f.name true m),
)

-- Two functions of one name, of which the analysis always finds one escaping and never the other,
-- keep the fixed-point loop running for ever: no number of rounds ends it.
pub settle_same_name :
    (f g : Function)
    → f.name ≡ g.name
    → ((m : CalleeMap) → may_escape m f ≡ true)
    → ((m : CalleeMap) → may_escape m g ≡ false)
    → (n : ℕ) (m : CalleeMap) (b : Bool) → get f.name m ≡ some b
    → settle n (f ∷ g ∷ []) m ≡ none
unfolding settle
settle_same_name f g same yes_f no_g zero m b h = refl
settle_same_name f g same yes_f no_g (suc n) m b h =
    let r = round_same_name f g m b same (yes_f m) (no_g m) h in
    rw (r.0, settle)
      (settle_same_name f g same yes_f no_g n (round m (f ∷ g ∷ []) (m, false)).0 false r.1)
