-- ===== src/Escape/Analyze.antt =====
-- The transfer function of each instruction, crates/sarif_codegen/src/escape.rs `analyze` and
-- `analyze_inst`. The loops of the arms `While` and `Repeat` are `iterate`.
use sarif.Base.{ℕ, String, if◌then◌else◌, Bool, ◌||◌, Option, any, is_some_and, List}
use sarif.Mir.Inst.{Inst, Insts, Arms, ValueId, nil, cons, no_arms, arm}
use sarif.Escape.Flags.{is_set, merge}
use sarif.Escape.Env.{
  Env, CalleeMap, callee_escapes, mark_local, is_escaped, mark_if, mark_dest, mark, iterate,
  round_bound, arena_dest,
}

unfoldable pub result_escapes : Env → Option ValueId → Bool
unfolding is_escaped
result_escapes env result = is_some_and (is_escaped env) result

-- The arm `LoadLocal`.
unfoldable pub load_local : ValueId → ℕ → Env → Env
unfolding is_set mark_if
load_local dest slot env = mark_if (is_set env.esc_locals slot) dest env

-- The arm `StoreLocal`.
unfoldable pub store_local : ℕ → ValueId → Env → Env
unfolding is_escaped mark_local
store_local slot src env = if is_escaped env src then mark_local slot env else env

-- The arm `Call`: the callee's own memory first, then the arguments.
unfoldable pub call : CalleeMap → ValueId → String → List ValueId → Env → Env
unfolding callee_escapes mark_if is_escaped
call callees dest callee args env =
    let env' = mark_if (callee_escapes callees callee) dest env in
    mark_if (any (is_escaped env') args) dest env'

-- The arm `If` behind its `then` branch: the `else` branch starts from the slots before, and the
-- two branches' slots are merged.
unfoldable pub join_branches :
    ValueId → Option ValueId → Option ValueId → Env → (Env → Env) → (Env → Env) → Env
unfolding merge mark_if result_escapes
join_branches dest then_result else_result env then_branch else_branch =
    let after_then = then_branch env in
    let after_else = else_branch (record after_then { esc_locals = env.esc_locals }) in
    let merged = record after_else {
      esc_locals = merge after_else.esc_locals after_then.esc_locals;
    } in
    mark_if (result_escapes merged then_result || result_escapes merged else_result) dest merged

unfoldable mutual
  unfolding arena_dest mark_dest mark_if mark is_escaped result_escapes load_local store_local call
      join_branches iterate round_bound

  pub analyze_inst : CalleeMap → Inst → Env → Env
  analyze_inst callees (Inst.bytes_slice dest bytes _ _) env =
      mark_if (is_escaped env bytes) dest env
  analyze_inst callees (Inst.list_get dest list _) env = mark_if (is_escaped env list) dest env
  analyze_inst callees (Inst.load_local dest slot) env = load_local dest slot env
  analyze_inst callees (Inst.store_local slot src) env = store_local slot src env
  analyze_inst callees (Inst.make_record dest _ fields) env =
      mark_if (any (λ f. is_escaped env f.1) fields) dest env
  analyze_inst callees (Inst.make_enum dest _ _ payload) env =
      mark_if (result_escapes env payload) dest env
  analyze_inst callees (Inst.field dest base _) env = mark_if (is_escaped env base) dest env
  analyze_inst callees (Inst.enum_payload dest value _) env =
      mark_if (is_escaped env value) dest env
  analyze_inst callees (Inst.call dest callee args) env = call callees dest callee args env
  analyze_inst callees (Inst.if_else dest _ then_insts then_result else_insts else_result) env =
      join_branches dest then_result else_result env (analyze callees then_insts)
        (analyze callees else_insts)
  analyze_inst callees (Inst.while dest condition_insts _ body_insts) env = mark dest (
      iterate (round_bound env)
        (λ s. analyze callees body_insts (analyze callees condition_insts s)) env)
  analyze_inst callees (Inst.repeat dest _ _ body_insts) env =
      mark dest (iterate (round_bound env) (analyze callees body_insts) env)
  analyze_inst callees (Inst.handle dest body_insts body_result arms) env =
      let after_body = analyze callees body_insts env in
      analyze_arms callees dest arms
        (mark_if (result_escapes after_body body_result) dest after_body)
  analyze_inst callees inst env = mark_dest (arena_dest inst) env

  pub analyze : CalleeMap → Insts → Env → Env
  analyze callees nil env = env
  analyze callees (cons inst insts) env = analyze callees insts (analyze_inst callees inst env)

  pub analyze_arms : CalleeMap → ValueId → Arms → Env → Env
  analyze_arms callees dest no_arms env = env
  analyze_arms callees dest (arm _ _ _ body_insts body_result arms) env =
      let after_body = analyze callees body_insts env in
      analyze_arms callees dest arms
        (mark_if (result_escapes after_body body_result) dest after_body)
