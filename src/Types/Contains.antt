-- ===== src/Types/Contains.antt =====
-- crates/sarif_frontend/src/semantic/profile.rs `type_is_rt_safe` and support.rs
-- `type_contains_affine_values`, which go through the fields of the named types. The set of the names
-- that are being visited grows and shrinks with the calls, so it is passed down.
use sarif.Base.{
  ℕ, zero, suc, Bool, true, false, Option, none, some, List, [], ◌∷◌, map, if◌then◌else◌,
}
use sarif.Text.{Text}
use sarif.Types.Data.{
  lookup, Ty, text, bytes, text_index, text_builder, file, named, type_param, array, list, pair,
}
use sarif.Types.Compatible.{contains_name}

-- `iter().all(f)`, where a call may run out of depth; `none` then.
unfoldable pub all_of : (Ty → Option Bool) → List Ty → Option Bool
all_of f [] = some true
all_of f (t ∷ ts) = elim (f t) [ none ↦ none | some b ↦ if b then all_of f ts else some false ]

-- `iter().any(f)`
unfoldable pub any_of : (Ty → Option Bool) → List Ty → Option Bool
any_of f [] = some false
any_of f (t ∷ ts) = elim (f t) [ none ↦ none | some b ↦ if b then some true else any_of f ts ]

-- `type_is_rt_safe_inner`, with the function on names.
unfoldable pub rt_safe : (Text → Option Bool) → Ty → Option Bool
rt_safe by_name text = some false
rt_safe by_name bytes = some false
rt_safe by_name (named name) = by_name name
rt_safe by_name (array element _) = rt_safe by_name element
rt_safe by_name (pair left right) = elim (rt_safe by_name left) [
  | none ↦ none
  | some b ↦ if b then rt_safe by_name right else some false
]
rt_safe by_name (type_param _) = some false
rt_safe by_name text_index = some false
rt_safe by_name text_builder = some false
rt_safe by_name (list _) = some false
rt_safe by_name file = some false
rt_safe by_name _ = some true

-- The arm of a name, at a depth of names.
unfoldable pub rt_safe_name : List (Text × List Ty) → ℕ → List Text → Text → Option Bool
unfolding lookup contains_name all_of rt_safe
rt_safe_name struct_fields zero visiting name = none
rt_safe_name struct_fields (suc depth) visiting name = elim (lookup name struct_fields) [
  | none ↦ some true
  | some fields ↦
      if contains_name visiting name
      then some true
      else all_of (rt_safe (λ n. rt_safe_name struct_fields depth (name ∷ visiting) n)) fields
]

-- `type_is_rt_safe`
unfoldable pub type_is_rt_safe : List (Text × List Ty) → ℕ → Ty → Option Bool
unfolding rt_safe rt_safe_name
type_is_rt_safe struct_fields depth ty = rt_safe (λ n. rt_safe_name struct_fields depth [] n) ty

-- `type_contains_affine_values_inner`, with the function on names.
unfoldable pub affine : (Text → Option Bool) → Ty → Option Bool
affine by_name text = some true
affine by_name bytes = some true
affine by_name (array element _) = affine by_name element
affine by_name (pair left right) = elim (affine by_name left) [
  | none ↦ none
  | some b ↦ if b then some true else affine by_name right
]
affine by_name (named name) = by_name name
affine by_name text_index = some true
affine by_name text_builder = some true
affine by_name (list _) = some true
affine by_name file = some true
affine by_name _ = some false

-- The types of the fields of a struct.
unfoldable pub field_types : List (Text × Ty) → List Ty
field_types fields = map (λ f. f.1) fields

-- `EnumVariantInfo`, without the discriminant.
pub record EnumVariantInfo : Type 0 where
  pub name : Text
  pub payload : Option Ty

unfoldable pub payloads : List EnumVariantInfo → List Ty
payloads [] = []
payloads (v ∷ vs) = elim v.payload [ none ↦ payloads vs | some t ↦ t ∷ payloads vs ]

abbrev pub Layouts : Type 0
Layouts = List (Text × List (Text × Ty))

abbrev pub Variants : Type 0
Variants = List (Text × List EnumVariantInfo)

-- What a name leads to: the fields of a struct, else the payloads of an enum, else nothing is known.
unfoldable pub parts_of : Layouts → Variants → Text → Option (List Ty)
unfolding lookup field_types payloads
parts_of struct_layouts enum_variants name = elim (lookup name struct_layouts) [
  | some fields ↦ some (field_types fields)
  | none ↦ elim (lookup name enum_variants) [
    | some variants ↦ some (payloads variants)
    | none ↦ none
  ]
]

-- The arm of a name, at a depth of names.
unfoldable pub affine_name : Layouts → Variants → ℕ → List Text → Text → Option Bool
unfolding parts_of contains_name any_of affine
affine_name struct_layouts enum_variants zero visiting name = none
affine_name struct_layouts enum_variants (suc depth) visiting name =
    if contains_name visiting name
    then some false
    else elim (parts_of struct_layouts enum_variants name) [
      | none ↦ some true
      | some parts ↦
          any_of (affine (λ n. affine_name struct_layouts enum_variants depth (name ∷ visiting) n))
            parts
    ]

-- `type_contains_affine_values`
unfoldable pub type_contains_affine_values : Layouts → Variants → ℕ → Ty → Option Bool
unfolding affine affine_name
type_contains_affine_values struct_layouts enum_variants depth ty =
    affine (λ n. affine_name struct_layouts enum_variants depth [] n) ty
