-- ===== src/Escape/Runs.antt =====
-- What the analysis is compared with: runs of a function body, seen through one bit for each value
-- and slot, whether it refers to arena memory. They follow `execute_insts` of the interpreter,
-- crates/sarif_codegen/src/lib.rs, in part: a run takes one branch of an `if`, any number of rounds of
-- a loop, overwrites what it stores, and may break off anywhere. They are not all the interpreter's
-- runs. A `handle` has no rule of its own: neither its body nor its arms run, and it does nothing or
-- gives a plain value. The result of a call refers to arena memory only if the map of callees says so
-- of the callee, or an argument does. And a value is its own bit only: the interpreter's `ListSet`
-- writes the list that other values may name too, and here it changes the bit of its own result.
use sarif.Base.{ℕ, zero, suc, String, ◌≡◌, Bool, false, Option, none, some, List, [], ◌∷◌, any}
use sarif.Base.{◌||◌}
use sarif.Mir.Inst.{Inst, Insts, ValueId, LocalSlotId, nil, cons}
use sarif.Escape.Flags.{is_set}
use sarif.Escape.Env.{Env, CalleeMap, callee_escapes, is_escaped, arena_dest}
use sarif.Escape.Analyze.{result_escapes}
use sarif.Escape.Order.{Entails}

-- `values[i] = b`, in range
unfoldable pub overwrite : List Bool → ℕ → Bool → List Bool
overwrite [] i b = []
overwrite (v ∷ vs) zero b = b ∷ vs
overwrite (v ∷ vs) (suc i) b = v ∷ overwrite vs i b

unfoldable pub write_value : ValueId → Bool → Env → Env
unfolding overwrite
write_value d b s = record s { escaped = overwrite s.escaped d b }

unfoldable pub write_slot : LocalSlotId → Bool → Env → Env
unfolding overwrite
write_slot slot b s = record s { esc_locals = overwrite s.esc_locals slot b }

-- The loop counter is a plain number.
unfoldable pub write_index : Option LocalSlotId → Env → Env
unfolding write_slot
write_index none s = s
write_index (some slot) s = write_slot slot false s

mutual
  pub data Runs (m : CalleeMap) : Inst → Env → Env → Type 0 where
    -- no result, or one that refers to no arena memory
    skip : {i : Inst} {s : Env} → Runs m i s s
    plain : {i : Inst} {s : Env} (d : ValueId) → Runs m i s (write_value d false s)
    makes :
        {i : Inst} {s : Env} (d : ValueId) (b : Bool)
        → arena_dest i ≡ some d
        → Runs m i s (write_value d b s)
    slice_bytes :
        {d v x y : ValueId} {s : Env}
        → Runs m (Inst.bytes_slice d v x y) s (write_value d (is_escaped s v) s)
    get_element :
        {d v x : ValueId} {s : Env}
        → Runs m (Inst.list_get d v x) s (write_value d (is_escaped s v) s)
    load :
        {d slot : ℕ} {s : Env}
        → Runs m (Inst.load_local d slot) s (write_value d (is_set s.esc_locals slot) s)
    store :
        {slot v : ℕ} {s : Env}
        → Runs m (Inst.store_local slot v) s (write_slot slot (is_escaped s v) s)
    build_record :
        {d : ValueId} {n : String} {fs : List (String × ValueId)} {s : Env}
        → Runs m (Inst.make_record d n fs) s (write_value d (any (λ f. is_escaped s f.1) fs) s)
    build_enum :
        {d : ValueId} {n v : String} {p : Option ValueId} {s : Env}
        → Runs m (Inst.make_enum d n v p) s (write_value d (result_escapes s p) s)
    read_field :
        {d v : ValueId} {n : String} {s : Env}
        → Runs m (Inst.field d v n) s (write_value d (is_escaped s v) s)
    read_payload :
        {d v : ValueId} {n : String} {s : Env}
        → Runs m (Inst.enum_payload d v n) s (write_value d (is_escaped s v) s)
    -- the result refers to memory of the callee or of an argument, if to any
    calls :
        {d : ValueId} {f : String} {args : List ValueId} {s : Env} (b : Bool)
        → Entails b (callee_escapes m f || any (is_escaped s) args)
        → Runs m (Inst.call d f args) s (write_value d b s)
    then_runs :
        {d c : ValueId} {ts es : Insts} {t e : Option ValueId} {s s' : Env}
        → RunsAll m ts s s'
        → Runs m (Inst.if_else d c ts t es e) s (write_value d (result_escapes s' t) s')
    else_runs :
        {d c : ValueId} {ts es : Insts} {t e : Option ValueId} {s s' : Env}
        → RunsAll m es s s'
        → Runs m (Inst.if_else d c ts t es e) s (write_value d (result_escapes s' e) s')
    while_runs :
        {d c : ValueId} {cs bs : Insts} {s s' : Env} (b : Bool)
        → Rounds m cs bs none s s'
        → Runs m (Inst.while d cs c bs) s (write_value d b s')
    repeat_runs :
        {d c : ValueId} {index : Option LocalSlotId} {bs : Insts} {s s' : Env} (b : Bool)
        → Rounds m nil bs index s s'
        → Runs m (Inst.repeat d c index bs) s (write_value d b s')

  -- A run of a sequence, or of a part of it from the start.
  pub data RunsAll (m : CalleeMap) : Insts → Env → Env → Type 0 where
    stop : {is : Insts} {s : Env} → RunsAll m is s s
    next :
        {i : Inst} {is : Insts} {s t u : Env}
        → Runs m i s t
        → RunsAll m is t u
        → RunsAll m (cons i is) s u

  -- Any number of rounds: the counter, the condition, the body.
  pub data Rounds (m : CalleeMap) : Insts → Insts → Option LocalSlotId → Env → Env → Type 0 where
    leave :
        {cs bs : Insts} {index : Option LocalSlotId} {s t : Env}
        → RunsAll m cs s t
        → Rounds m cs bs index s t
    round :
        {cs bs : Insts} {index : Option LocalSlotId} {s t u v : Env}
        → RunsAll m cs (write_index index s) t
        → RunsAll m bs t u
        → Rounds m cs bs index u v
        → Rounds m cs bs index s v
