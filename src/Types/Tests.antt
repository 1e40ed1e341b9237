-- ===== src/Types/Tests.antt =====
-- Tests and examples of the types of the semantic analysis.
use sarif.Base.{ℕ, ◌^◌, ◌<◌, ◌≡◌, refl, ◌↔◌, true, false, none, some, List, [], ◌∷◌, arith}
use sarif.Text.{Text, codes, same_text}
use sarif.Types.Data.{
  ConstExpr, literal, param, add, sub, lookup, eval, render, render_const, Ty, i32, i64, text, file,
  named, array, list, pair,
}
use sarif.Types.Compatible.{types_compatible, type_exists}
use sarif.Types.Contains.{type_is_rt_safe, type_contains_affine_values, Layouts, Variants}
use sarif.Types.Reach.{Reaches}
use sarif.Types.Searches.{Decides, unsafe_aim, affine_aim}
use sarif.Types.Found.{type_is_rt_safe-Decides, type_contains_affine_values-Decides}
use sarif.Types.Laws.{types_compatible_sym, is_definite, types_compatible_iff}
use sarif.Types.Consts.{Value, IsSized, eval-Value}

abbrev three : Ty
three = array i32 (literal 3)

abbrev some_length : Ty
some_length = array i32 (param (codes "N"))

types_compatible_sym_example :
    types_compatible three some_length ≡ types_compatible some_length three
types_compatible_sym_example = types_compatible_sym three some_length

types_compatible_iff_example :
    (types_compatible (pair three text) (pair three text) ≡ true)
    ↔ (pair three text ≡ pair three text)
unfolding is_definite
types_compatible_iff_example = types_compatible_iff (pair three text) (pair three text) refl refl

-- A file is not compatible with a file.
file_alone : types_compatible file file ≡ false
unfolding types_compatible
file_alone = refl

-- A list of a type that is not declared exists, though the type itself does not.
list_of_nothing : type_exists [] [] (list (named (codes "Nope"))) ≡ true
unfolding type_exists
list_of_nothing = refl

nothing : type_exists [] [] (named (codes "Nope")) ≡ false
unfolding type_exists
nothing = refl

-- Two structs that hold each other, and a text in the second.
abbrev circle : List (Text × List Ty)
circle = (codes "A", i32 ∷ named (codes "B") ∷ []) ∷ (codes "B", named (codes "A") ∷ text ∷ []) ∷ []

type_is_rt_safe-Decides_example :
    Decides false
      (type_is_rt_safe circle 3 (named (codes "A")))
      (Reaches (unsafe_aim circle) (named (codes "A")))
type_is_rt_safe-Decides_example = type_is_rt_safe-Decides circle 3 (named (codes "A")) (omega arith)

circle_unsafe : type_is_rt_safe circle 3 (named (codes "A")) ≡ some false
unfolding type_is_rt_safe lookup same_text
circle_unsafe = refl

-- A list in cells.
abbrev cell : Layouts
cell = (codes "Cell", (codes "head", i32) ∷ (codes "tail", named (codes "Tail")) ∷ []) ∷ []

abbrev tail : Variants
tail =
    (
      codes "Tail",
      record { name = codes "nil"; payload = none }
          ∷ record { name = codes "more"; payload = some (named (codes "Cell")) }
          ∷ [],
    )
    ∷ []

type_contains_affine_values-Decides_example :
    Decides true
      (type_contains_affine_values cell tail 3 (named (codes "Cell")))
      (Reaches (affine_aim cell tail) (named (codes "Cell")))
type_contains_affine_values-Decides_example =
    type_contains_affine_values-Decides cell tail 3 (named (codes "Cell")) (omega arith)

cells_plain : type_contains_affine_values cell tail 3 (named (codes "Cell")) ≡ some false
unfolding type_contains_affine_values lookup same_text
cells_plain = refl

abbrev four : List (Text × ℕ)
four = (codes "N", 4) ∷ []

abbrev six : ConstExpr
six = add (param (codes "N")) (literal 2)

six_is : eval four six ≡ some 6
unfolding eval
six_is = refl

six-IsSized : IsSized six
unfolding IsSized
six-IsSized = (tt, omega arith)

eval-Value_example : Value four six 6 × (6 < 2 ^ 32)
eval-Value_example = eval-Value four six 6 (omega arith, tt) six-IsSized six_is

-- A difference below zero and a sum above the last `u32` have no value.
no_value : eval four (sub (literal 1) (param (codes "N"))) ≡ none
unfolding eval
no_value = refl

too_large : eval four (add (literal 4294967295) (literal 1)) ≡ none
unfolding eval
too_large = refl

shown :
    render (array (list i64) (add (param (codes "N")) (literal 1))) ≡ codes "[List[I64]; (N + 1)]"
unfolding render render_const
shown = refl
