-- ===== src/Syntax/Tree.antt =====
-- Syntax trees, crates/sarif_syntax/src/lib.rs. A `Vec<Element>` is the type `Elements`.
use sarif.Base.{ℕ, Bool, true, false}
use sarif.Mir.{Span}
use sarif.Syntax.Token.{Token, span, empty_at}

pub data NodeKind : Type 0 where
  source_file const_item fn_item enum_item struct_item param_list param return_type effects_clause
        requires_clause ensures_clause effect_list field_list variant_list generic_param_list
        generic_param field variant effect_item extern_block import_item type_path type_array body
        let_stmt assign_stmt expr_stmt with_arena_stmt arg_list field_init_list field_init
        field_update_list field_update expr_binary expr_bool expr_call expr_array
        expr_contract_result expr_field expr_index expr_if expr_match expr_repeat expr_for
        expr_while expr_group expr_integer expr_float expr_name expr_record expr_record_update
        expr_unary expr_string expr_comptime expr_perform expr_handle handle_arm match_pattern
        match_arm error :
      NodeKind

-- `NodeKind::is_expr`
unfoldable pub is_expr : NodeKind → Bool
is_expr expr_binary = true
is_expr expr_bool = true
is_expr expr_call = true
is_expr expr_array = true
is_expr expr_contract_result = true
is_expr expr_field = true
is_expr expr_index = true
is_expr expr_if = true
is_expr expr_match = true
is_expr expr_repeat = true
is_expr expr_for = true
is_expr expr_while = true
is_expr expr_group = true
is_expr expr_integer = true
is_expr expr_float = true
is_expr expr_name = true
is_expr expr_record = true
is_expr expr_record_update = true
is_expr expr_unary = true
is_expr expr_string = true
is_expr expr_comptime = true
is_expr expr_perform = true
is_expr expr_handle = true
is_expr _ = false

mutual
  pub data Element : Type 0 where
    a_node : Node → Element
    a_token : Token → Element

  -- kind, span, children
  pub data Node : Type 0 where
    node : NodeKind → Span → Elements → Node

  pub data Elements : Type 0 where
    none_left : Elements
    element : Element → Elements → Elements

unfoldable pub node_span : Node → Span
node_span (node _ s _) = s

-- `Element::span`
unfoldable pub element_span : Element → Span
unfolding node_span
element_span (a_node n) = node_span n
element_span (a_token t) = t.span

-- `elements.last()`, where `first` is before them.
unfoldable pub last_element : Element → Elements → Element
last_element first none_left = first
last_element first (element e es) = last_element e es

-- `span_from_elements`
unfoldable pub span_from_elements : Elements → Span
unfolding element_span last_element
span_from_elements none_left = span 0 0
span_from_elements (element e es) =
    span (element_span e).start (element_span (last_element e es)).end

-- `Node::new`
unfoldable pub new_node : NodeKind → Elements → Node
unfolding span_from_elements
new_node kind children = node kind (span_from_elements children) children

-- `Node::empty`
unfoldable pub empty_node : NodeKind → ℕ → Node
unfolding empty_at
empty_node kind offset = node kind (empty_at offset) none_left
