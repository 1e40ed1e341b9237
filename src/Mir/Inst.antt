-- ===== src/Mir/Inst.antt =====
-- Instructions, crates/sarif_codegen/src/lib.rs `enum Inst`: the source's constructors with their
-- fields in the source's order. A `u32`, `u64` or `usize` is a native number, and an `f64` constant
-- is the number of its bits, as in the source.
use sarif.Base.{ℕ, String, Bool, Option, List}
use sarif.Base.Int.{ℤ}

abbrev pub ValueId : Type 0
ValueId = ℕ

abbrev pub LocalSlotId : Type 0
LocalSlotId = ℕ

pub data ContractKind : Type 0 where
  requires ensures bounds : ContractKind

mutual
  pub data Inst : Type 0 where
    text_builder_new : ValueId → Inst
    text_index_new : ValueId → Inst
    text_builder_append : ValueId → ValueId → ValueId → Inst
    text_builder_append_codepoint : ValueId → ValueId → ValueId → Inst
    text_builder_append_ascii : ValueId → ValueId → ValueId → Inst
    text_builder_append_slice : ValueId → ValueId → ValueId → ValueId → ValueId → Inst
    text_builder_append_i32 : ValueId → ValueId → ValueId → Inst
    text_builder_append_i64 : ValueId → ValueId → ValueId → Inst
    text_builder_finish : ValueId → ValueId → Inst
    text_intern : ValueId → ValueId → Inst
    stdout_write_builder : ValueId → ValueId → Inst
    text_index_get : ValueId → ValueId → ValueId → Inst
    text_index_contains : ValueId → ValueId → ValueId → Inst
    text_index_get_or_insert : ValueId → ValueId → ValueId → ValueId → Inst
    text_index_set : ValueId → ValueId → ValueId → ValueId → Inst
    text_index_keys : ValueId → ValueId → Inst
    list_new : ValueId → ValueId → ValueId → Inst
    list_from : ValueId → ValueId → ℕ → Inst
    list_len : ValueId → ValueId → Inst
    list_get : ValueId → ValueId → ValueId → Inst
    list_set : ValueId → ValueId → ValueId → ValueId → Inst
    list_push : ValueId → ValueId → ValueId → ValueId → Inst
    list_sort_text : ValueId → ValueId → ValueId → Inst
    list_sort_record_text_field : ValueId → ValueId → ValueId → String → Inst
    list_sort_record_field : ValueId → ValueId → ValueId → String → Inst
    f64_from_i32 : ValueId → ValueId → Inst
    i64_from_i32 : ValueId → ValueId → Inst
    f64_from_i64 : ValueId → ValueId → Inst
    text_len : ValueId → ValueId → Inst
    bytes_len : ValueId → ValueId → Inst
    bytes_to_text : ValueId → ValueId → Inst
    text_to_bytes : ValueId → ValueId → Inst
    bytes_materialize : ValueId → ValueId → Inst
    text_concat : ValueId → ValueId → ValueId → Inst
    text_slice : ValueId → ValueId → ValueId → ValueId → Inst
    bytes_slice : ValueId → ValueId → ValueId → ValueId → Inst
    text_byte : ValueId → ValueId → ValueId → Inst
    bytes_byte : ValueId → ValueId → ValueId → Inst
    text_cmp : ValueId → ValueId → ValueId → Inst
    text_eq_range : ValueId → ValueId → ValueId → ValueId → ValueId → Inst
    text_find_byte_range : ValueId → ValueId → ValueId → ValueId → ValueId → Inst
    bytes_find_byte_range : ValueId → ValueId → ValueId → ValueId → ValueId → Inst
    bytes_field_end : ValueId → ValueId → ValueId → ValueId → ValueId → Inst
    bytes_next_field : ValueId → ValueId → ValueId → ValueId → ValueId → Inst
    text_line_end : ValueId → ValueId → ValueId → Inst
    text_next_line : ValueId → ValueId → ValueId → Inst
    text_field_end : ValueId → ValueId → ValueId → ValueId → ValueId → Inst
    text_next_field : ValueId → ValueId → ValueId → ValueId → ValueId → Inst
    text_from_f64_fixed : ValueId → ValueId → ValueId → Inst
    file_open : ValueId → ValueId → ValueId → Inst
    file_is_valid : ValueId → ValueId → Inst
    file_read : ValueId → ValueId → ValueId → Inst
    file_read_to_end : ValueId → ValueId → Inst
    file_mmap : ValueId → ValueId → Inst
    file_write : ValueId → ValueId → ValueId → Inst
    file_close : ValueId → Inst
    file_sync : ValueId → Inst
    file_seek : ValueId → ValueId → ValueId → ValueId → Inst
    file_size : ValueId → ValueId → Inst
    file_exists : ValueId → ValueId → Inst
    file_remove : ValueId → ValueId → Inst
    tcp_listen : ValueId → ValueId → Inst
    tcp_accept : ValueId → ValueId → Inst
    tcp_recv : ValueId → ValueId → ValueId → Inst
    tcp_send : ValueId → ValueId → ValueId → Inst
    tcp_close : ValueId → Inst
    env_get : ValueId → ValueId → Inst
    env_set : ValueId → ValueId → ValueId → Inst
    env_remove : ValueId → ValueId → Inst
    env_keys : ValueId → Inst
    dir_create : ValueId → ValueId → Inst
    dir_remove : ValueId → ValueId → Inst
    dir_list : ValueId → ValueId → Inst
    dir_exists : ValueId → ValueId → Inst
    dir_current : ValueId → Inst
    dir_change : ValueId → ValueId → Inst
    process_exit : ValueId → Inst
    process_id : ValueId → Inst
    clock_now : ValueId → Inst
    clock_sleep : ValueId → Inst
    arg_count : ValueId → Inst
    alloc_push : Inst
    alloc_pop : Inst
    arg_text : ValueId → ValueId → Inst
    stdin_text : ValueId → Inst
    stdin_bytes : ValueId → Inst
    stdout_write : ValueId → Inst
    parse_i32 : ValueId → ValueId → Inst
    parse_i32_range : ValueId → ValueId → ValueId → ValueId → Inst
    parse_f64 : ValueId → ValueId → Inst
    load_param : ValueId → ℕ → Inst
    load_local : ValueId → LocalSlotId → Inst
    store_local : LocalSlotId → ValueId → Inst
    const_int : ValueId → ℤ → Inst
    const_f64 : ValueId → ℕ → Inst
    const_bool : ValueId → Bool → Inst
    const_text : ValueId → String → Inst
    make_enum : ValueId → String → String → Option ValueId → Inst
    make_record : ValueId → String → List (String × ValueId) → Inst
    field : ValueId → ValueId → String → Inst
    enum_tag_eq : ValueId → ValueId → ℤ → Inst
    enum_payload : ValueId → ValueId → String → Inst
    enum_to_i32 : ValueId → ValueId → List ℕ → Inst
    enum_to_text : ValueId → ValueId → List String → Inst
    if_else : ValueId → ValueId → Insts → Option ValueId → Insts → Option ValueId → Inst
    while : ValueId → Insts → ValueId → Insts → Inst
    repeat : ValueId → ValueId → Option LocalSlotId → Insts → Inst
    add : ValueId → ValueId → ValueId → Inst
    sub : ValueId → ValueId → ValueId → Inst
    mul : ValueId → ValueId → ValueId → Inst
    div : ValueId → ValueId → ValueId → Inst
    rem : ValueId → ValueId → ValueId → Inst
    bit_and : ValueId → ValueId → ValueId → Inst
    bit_or : ValueId → ValueId → ValueId → Inst
    bit_xor : ValueId → ValueId → ValueId → Inst
    shl : ValueId → ValueId → ValueId → Inst
    shr : ValueId → ValueId → ValueId → Inst
    sqrt : ValueId → ValueId → Inst
    and : ValueId → ValueId → ValueId → Inst
    or : ValueId → ValueId → ValueId → Inst
    eq : ValueId → ValueId → ValueId → Inst
    ne : ValueId → ValueId → ValueId → Inst
    lt : ValueId → ValueId → ValueId → Inst
    le : ValueId → ValueId → ValueId → Inst
    gt : ValueId → ValueId → ValueId → Inst
    ge : ValueId → ValueId → ValueId → Inst
    call : ValueId → String → List ValueId → Inst
    assert : ValueId → ContractKind → Inst
    perform : ValueId → String → String → List ValueId → Inst
    handle : ValueId → Insts → Option ValueId → Arms → Inst

  -- `Vec<Inst>`
  pub data Insts : Type 0 where
    nil : Insts
    cons : Inst → Insts → Insts

  -- `Vec<HandleArm>`: effect, operation, params, body_insts and body_result of the first, the rest
  pub data Arms : Type 0 where
    no_arms : Arms
    arm : String → String → List String → Insts → Option ValueId → Arms → Arms
