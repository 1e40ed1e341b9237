-- ===== src/Types/Compatible.antt =====
-- crates/sarif_frontend/src/semantic/typecheck.rs and support.rs: which types exist and which go together.
use sarif.Base.{◌==◌, Bool, true, false, ◌&&◌, Option, none, some, List, any}
use sarif.Text.{Text, same_text}
use sarif.Types.Data.{
  ConstExpr, literal, param, add, sub, mul, lookup, Ty, i32, i64, f64, bool, text, bytes,
  text_index, text_builder, unit, named, type_param, array, list, pair, error,
}

-- `set.contains(name)`
unfoldable pub contains_name : List Text → Text → Bool
unfolding same_text
contains_name names name = any (λ n. same_text n name) names

unfoldable pub array_len_compatible : ConstExpr → ConstExpr → Bool
array_len_compatible (literal expected) (literal actual) = expected == actual
array_len_compatible _ _ = true

unfoldable pub types_compatible : Ty → Ty → Bool
unfolding same_text array_len_compatible
types_compatible error _ = true
types_compatible _ error = true
types_compatible i32 i32 = true
types_compatible i64 i64 = true
types_compatible f64 f64 = true
types_compatible bool bool = true
types_compatible text text = true
types_compatible bytes bytes = true
types_compatible text_index text_index = true
types_compatible text_builder text_builder = true
types_compatible unit unit = true
types_compatible (named expected) (named actual) = same_text expected actual
types_compatible (type_param expected) (type_param actual) = same_text expected actual
types_compatible (list expected) (list actual) = types_compatible expected actual
types_compatible (pair expected_left expected_right) (pair actual_left actual_right) =
    types_compatible expected_left actual_left && types_compatible expected_right actual_right
types_compatible (array expected_element expected_len) (array actual_element actual_len) =
    types_compatible expected_element actual_element && array_len_compatible expected_len actual_len
types_compatible _ _ = false

-- A parameter that stands in an operation itself; the operands are not looked into.
unfoldable operand_exists : List Text → ConstExpr → Bool
unfolding contains_name
operand_exists generic_params (param name) = contains_name generic_params name
operand_exists generic_params _ = true

-- The length of an array, in `type_exists`.
unfoldable length_exists : List Text → ConstExpr → Bool
unfolding operand_exists
length_exists generic_params (literal _) = true
length_exists generic_params (param name) = contains_name generic_params name
length_exists generic_params (add left right) =
    operand_exists generic_params left && operand_exists generic_params right
length_exists generic_params (sub left right) =
    operand_exists generic_params left && operand_exists generic_params right
length_exists generic_params (mul left right) =
    operand_exists generic_params left && operand_exists generic_params right

unfoldable pub type_exists : List Text → List Text → Ty → Bool
unfolding contains_name length_exists
type_exists known_types generic_params (array element len) =
    type_exists known_types generic_params element && length_exists generic_params len
type_exists known_types generic_params (named name) = contains_name known_types name
type_exists known_types generic_params (pair left right) =
    type_exists known_types generic_params left && type_exists known_types generic_params right
type_exists known_types generic_params (type_param name) = contains_name generic_params name
type_exists known_types generic_params _ = true

unfoldable pub matching_numeric_type : Ty → Ty → Option Ty
matching_numeric_type i32 i32 = some i32
matching_numeric_type i64 i64 = some i64
matching_numeric_type i32 i64 = some i64
matching_numeric_type i64 i32 = some i64
matching_numeric_type f64 f64 = some f64
matching_numeric_type _ _ = none

unfoldable pub mutable_local_allows_affine_values : Ty → Bool
mutable_local_allows_affine_values text = true
mutable_local_allows_affine_values bytes = true
mutable_local_allows_affine_values text_index = true
mutable_local_allows_affine_values text_builder = true
mutable_local_allows_affine_values (list _) = true
mutable_local_allows_affine_values _ = false

-- `fields.iter().find_map(..)` and `struct_layouts.get(name)`
unfoldable pub field_type : Ty → Text → List (Text × List (Text × Ty)) → Option Ty
unfolding lookup
field_type (named name) field struct_layouts = elim (lookup name struct_layouts) [
  | none ↦ none
  | some fields ↦ lookup field fields
]
field_type _ field struct_layouts = none
