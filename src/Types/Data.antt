-- ===== src/Types/Data.antt =====
-- crates/sarif_frontend/src/semantic.rs `Type` and hir.rs `ConstExpr`.
use sarif.Base.{
  ℕ, ◌+◌, ◌-◌, ◌*◌, ◌^◌, Option, none, some, List, [], ◌∷◌, ◌++◌, if◌then◌else◌, leb, ltb,
}
use sarif.Text.{Text, codes, same_text, show_ℕ}

-- Literals and parameters are `u32`.
pub data ConstExpr : Type 0 where
  literal : ℕ → ConstExpr
  param : Text → ConstExpr
  add sub mul : ConstExpr → ConstExpr → ConstExpr

-- `params.get(name)`
unfoldable pub lookup {ℓ} : {A : Type ℓ} → Text → List (Text × A) → Option A
unfolding same_text
lookup name [] = none
lookup name ((key, value) ∷ rest) = if same_text key name then some value else lookup name rest

unfoldable pub render_const : ConstExpr → Text
unfolding show_ℕ
render_const (literal value) = show_ℕ value
render_const (param name) = name
render_const (add left right) =
    codes "(" ++ (render_const left ++ (codes " + " ++ (render_const right ++ codes ")")))
render_const (sub left right) =
    codes "(" ++ (render_const left ++ (codes " - " ++ (render_const right ++ codes ")")))
render_const (mul left right) =
    codes "(" ++ (render_const left ++ (codes " * " ++ (render_const right ++ codes ")")))

-- `u32::checked_add`, `checked_sub` and `checked_mul`
unfoldable pub checked_add : ℕ → ℕ → Option ℕ
checked_add a b = if ltb (a + b) (2 ^ 32) then some (a + b) else none

unfoldable pub checked_sub : ℕ → ℕ → Option ℕ
checked_sub a b = if leb b a then some (a - b) else none

unfoldable pub checked_mul : ℕ → ℕ → Option ℕ
checked_mul a b = if ltb (a * b) (2 ^ 32) then some (a * b) else none

-- Two results with `?`, and an operation on them.
unfoldable pub both : Option ℕ → Option ℕ → (ℕ → ℕ → Option ℕ) → Option ℕ
both none b f = none
both (some x) none f = none
both (some x) (some y) f = f x y

unfoldable pub eval : List (Text × ℕ) → ConstExpr → Option ℕ
unfolding lookup both checked_add checked_sub checked_mul
eval params (literal value) = some value
eval params (param name) = lookup name params
eval params (add left right) = both (eval params left) (eval params right) checked_add
eval params (sub left right) = both (eval params left) (eval params right) checked_sub
eval params (mul left right) = both (eval params left) (eval params right) checked_mul

-- `Type`
pub data Ty : Type 0 where
  i32 i64 f64 bool text bytes text_index text_builder file unit : Ty
  named type_param : Text → Ty
  array : Ty → ConstExpr → Ty
  list : Ty → Ty
  pair : Ty → Ty → Ty
  error : Ty

unfoldable pub render : Ty → Text
unfolding render_const
render i32 = codes "I32"
render i64 = codes "I64"
render f64 = codes "F64"
render bool = codes "Bool"
render text = codes "Text"
render bytes = codes "Bytes"
render text_index = codes "TextIndex"
render text_builder = codes "TextBuilder"
render file = codes "File"
render unit = codes "Unit"
render (named name) = name
render (type_param name) = name
render (array element size) =
    codes "[" ++ (render element ++ (codes "; " ++ (render_const size ++ codes "]")))
render (list element) = codes "List[" ++ (render element ++ codes "]")
render (pair left right) =
    codes "Pair[" ++ (render left ++ (codes ", " ++ (render right ++ codes "]")))
render error = codes "?"
