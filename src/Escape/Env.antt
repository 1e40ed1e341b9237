-- ===== src/Escape/Env.antt =====
-- The abstract state of the analysis and the instructions that make arena memory,
-- crates/sarif_codegen/src/escape.rs `Env`, `mark`, `is_escaped` and the first arm of
-- `analyze_inst`.
use sarif.Base.{
  ℕ, zero, suc, ◌+◌, String, Bool, true, false, ◌&&◌, Option, none, some, List, [], ◌∷◌,
  is_some_and, if◌then◌else◌, str_eq,
}
use sarif.Mir.Inst.{Inst, ValueId, LocalSlotId}
use sarif.Escape.Flags.{is_set, set_flag, unset, flags_eq, ◌≼◌}

pub record Env : Type 0 where
  pub escaped : List Bool
  pub esc_locals : List Bool

-- `HashMap<String, CalleeInfo>`: the field `return_escapes` by the function's name.
abbrev pub CalleeMap : Type 0
CalleeMap = List (String × Bool)

-- `HashMap::get`
unfoldable pub get : String → CalleeMap → Option Bool
get k [] = none
get k ((j, b) ∷ m) = if str_eq j k then some b else get k m

-- `callee_map.get(callee).is_some_and(|info| info.return_escapes)`
unfoldable pub callee_escapes : CalleeMap → String → Bool
callee_escapes m name = is_some_and (λ b. b) (get name m)

unfoldable pub mark : ValueId → Env → Env
unfolding set_flag
mark value env = record env { escaped = set_flag env.escaped value }

unfoldable pub mark_local : LocalSlotId → Env → Env
unfolding set_flag
mark_local slot env = record env { esc_locals = set_flag env.esc_locals slot }

unfoldable pub is_escaped : Env → ValueId → Bool
unfolding is_set
is_escaped env value = is_set env.escaped value

unfoldable pub mark_if : Bool → ValueId → Env → Env
unfolding mark
mark_if b value env = if b then mark value env else env

unfoldable pub mark_dest : Option ValueId → Env → Env
unfolding mark
mark_dest none env = env
mark_dest (some value) env = mark value env

-- `*self.escaped == old_esc && *self.esc_locals == old_loc`
unfoldable pub env_eq : Env → Env → Bool
unfolding flags_eq
env_eq a b = flags_eq a.escaped b.escaped && flags_eq a.esc_locals b.esc_locals

-- A `loop` that runs its body until the state is the one that the round began with.
unfoldable pub iterate : ℕ → (Env → Env) → Env → Env
unfolding env_eq
iterate zero f env = env
iterate (suc n) f env = elim (env_eq (f env) env) [ true ↦ f env | false ↦ iterate n f (f env) ]

-- The rounds that the loop can take at most: one for each flag that is down, and the last.
unfoldable pub round_bound : Env → ℕ
unfolding unset
round_bound env = suc (unset env.escaped + unset env.esc_locals)

-- No flag of the left state is down in the right one.
infix 50 ◌⊑◌
abbrev pub ◌⊑◌ : Env → Env → Type 0
a ⊑ b = (a.escaped ≼ b.escaped) × (a.esc_locals ≼ b.esc_locals)

-- The destination of an instruction whose result always counts as arena memory.
unfoldable pub arena_dest : Inst → Option ValueId
arena_dest (Inst.text_builder_new d) = some d
arena_dest (Inst.text_index_new d) = some d
arena_dest (Inst.list_new d _ _) = some d
arena_dest (Inst.list_from d _ _) = some d
arena_dest (Inst.list_push d _ _ _) = some d
arena_dest (Inst.text_concat d _ _) = some d
arena_dest (Inst.text_intern d _) = some d
arena_dest (Inst.text_slice d _ _ _) = some d
arena_dest (Inst.text_from_f64_fixed d _ _) = some d
arena_dest (Inst.arg_text d _) = some d
arena_dest (Inst.stdin_text d) = some d
arena_dest (Inst.stdin_bytes d) = some d
arena_dest (Inst.text_builder_append d _ _) = some d
arena_dest (Inst.text_builder_append_codepoint d _ _) = some d
arena_dest (Inst.text_builder_append_ascii d _ _) = some d
arena_dest (Inst.text_builder_append_slice d _ _ _ _) = some d
arena_dest (Inst.text_builder_append_i32 d _ _) = some d
arena_dest (Inst.text_builder_append_i64 d _ _) = some d
arena_dest (Inst.stdout_write_builder d _) = some d
arena_dest (Inst.text_index_get d _ _) = some d
arena_dest (Inst.text_index_contains d _ _) = some d
arena_dest (Inst.text_index_get_or_insert d _ _ _) = some d
arena_dest (Inst.text_index_set d _ _ _) = some d
arena_dest (Inst.text_index_keys d _) = some d
arena_dest (Inst.list_sort_text d _ _) = some d
arena_dest (Inst.list_sort_record_text_field d _ _ _) = some d
arena_dest (Inst.list_sort_record_field d _ _ _) = some d
arena_dest (Inst.list_set d _ _ _) = some d
arena_dest (Inst.text_builder_finish d _) = some d
arena_dest (Inst.perform d _ _ _) = some d
arena_dest (Inst.file_open d _ _) = some d
arena_dest (Inst.bytes_to_text d _) = some d
arena_dest (Inst.text_to_bytes d _) = some d
arena_dest (Inst.bytes_materialize d _) = some d
arena_dest (Inst.file_is_valid d _) = some d
arena_dest (Inst.file_read d _ _) = some d
arena_dest (Inst.file_read_to_end d _) = some d
arena_dest (Inst.file_mmap d _) = some d
arena_dest (Inst.file_write d _ _) = some d
arena_dest (Inst.file_seek d _ _ _) = some d
arena_dest (Inst.file_size d _) = some d
arena_dest (Inst.file_exists d _) = some d
arena_dest (Inst.file_remove d _) = some d
arena_dest (Inst.tcp_listen d _) = some d
arena_dest (Inst.tcp_accept d _) = some d
arena_dest (Inst.tcp_recv d _ _) = some d
arena_dest (Inst.tcp_send d _ _) = some d
arena_dest (Inst.env_get d _) = some d
arena_dest (Inst.env_set d _ _) = some d
arena_dest (Inst.env_remove d _) = some d
arena_dest (Inst.env_keys d) = some d
arena_dest (Inst.dir_create d _) = some d
arena_dest (Inst.dir_remove d _) = some d
arena_dest (Inst.dir_list d _) = some d
arena_dest (Inst.dir_exists d _) = some d
arena_dest (Inst.dir_current d) = some d
arena_dest (Inst.dir_change d _) = some d
arena_dest (Inst.process_id d) = some d
arena_dest (Inst.clock_now d) = some d
arena_dest _ = none
