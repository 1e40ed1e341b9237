-- ===== src/Types/Consts.antt =====
-- What constant expressions come to, crates/sarif_frontend/src/hir.rs `ConstExpr::eval`.
use sarif.Base.{
  ℕ, ◌+◌, ◌*◌, ◌^◌, ◌<◌, ◌≡◌, refl, Option, none, some, List, [], ◌∷◌, All, arith, Bool-cases, inl,
  inr, if◌then◌else◌,
}
use mathlib.Core.Path.{subst}
use sarif.Text.{Text, same_text}
use sarif.Types.Data.{
  ConstExpr, literal, param, add, sub, mul, lookup, checked_add, checked_sub, checked_mul, both,
  eval,
}

-- What a constant expression comes to in numbers without bound.
pub data Value (params : List (Text × ℕ)) : ConstExpr → ℕ → Type 0 where
  of_literal : {v : ℕ} → Value params (literal v) v
  of_param : {name : Text} {v : ℕ} → lookup name params ≡ some v → Value params (param name) v
  of_add :
      {l r : ConstExpr} {a b : ℕ}
      → Value params l a
      → Value params r b
      → Value params (add l r) (a + b)
  of_sub :
      {l r : ConstExpr} {a b c : ℕ}
      → Value params l a
      → Value params r b
      → c + b ≡ a
      → Value params (sub l r) c
  of_mul :
      {l r : ConstExpr} {a b : ℕ}
      → Value params l a
      → Value params r b
      → Value params (mul l r) (a * b)

-- The literals are `u32`.
unfoldable pub IsSized : ConstExpr → Type 0
IsSized (literal v) = v < 2 ^ 32
IsSized (param _) = Unit
IsSized (add l r) = IsSized l × IsSized r
IsSized (sub l r) = IsSized l × IsSized r
IsSized (mul l r) = IsSized l × IsSized r

lookup_sized :
    (params : List (Text × ℕ)) (name : Text) (v : ℕ)
    → All (λ p. p.1 < 2 ^ 32) params
    → lookup name params ≡ some v
    → v < 2 ^ 32
unfolding lookup
lookup_sized [] name v h e = absurd (cc)
lookup_sized ((key, w) ∷ rest) name v h e = elim (Bool-cases (same_text key name)) [
  | inl s ↦
      let found : some w ≡ some v =
        subst (λ b. (if b then some w else lookup name rest) ≡ some v) s e in
      let same : w ≡ v = cc found in subst (λ x. x < 2 ^ 32) same h.0
  | inr s ↦
      lookup_sized rest name v h.1
        (subst (λ b. (if b then some w else lookup name rest) ≡ some v) s e)
]

-- Both operands of an operation that gives a number.
pair_of :
    (params : List (Text × ℕ)) (l r : ConstExpr) (f : ℕ → ℕ → Option ℕ) (v : ℕ) (x y : Option ℕ)
    → both x y f ≡ some v
    → (a : ℕ) × (b : ℕ) × (x ≡ some a) × (y ≡ some b) × (f a b ≡ some v)
unfolding both
pair_of params l r f v none y e = absurd (cc)
pair_of params l r f v (some a) none e = absurd (cc)
pair_of params l r f v (some a) (some b) e = (a, b, refl, refl, e)

add_exact : (a b v : ℕ) → checked_add a b ≡ some v → (a + b ≡ v) × (v < 2 ^ 32)
unfolding checked_add
add_exact a b v e = (ground arith, ground arith)

sub_exact : (a b v : ℕ) → checked_sub a b ≡ some v → (v + b ≡ a)
unfolding checked_sub
sub_exact a b v e = ground arith

mul_exact : (a b v : ℕ) → checked_mul a b ≡ some v → (a * b ≡ v) × (v < 2 ^ 32)
unfolding checked_mul
mul_exact a b v e = (ground arith, ground arith)

-- The evaluation of constant expressions never wraps around: with literals and parameters that are
-- `u32`, a number that it gives is the value of the expression in numbers without bound, in which no
-- difference goes below zero, and is a `u32`.
pub eval-Value :
    (params : List (Text × ℕ)) (e : ConstExpr) (v : ℕ)
    → All (λ p. p.1 < 2 ^ 32) params
    → IsSized e
    → eval params e ≡ some v
    → Value params e v × (v < 2 ^ 32)
unfolding eval IsSized
eval-Value params (literal w) v h s e =
    let same : w ≡ v = cc e in
    (subst (λ x. Value params (literal w) x) same of_literal, subst (λ x. x < 2 ^ 32) same s)
eval-Value params (param name) v h s e = (of_param e, lookup_sized params name v h e)
eval-Value params (add l r) v h s e =
    let (a, b, x, y, z) = pair_of params l r checked_add v (eval params l) (eval params r) e in
    let (same, fits) = add_exact a b v z in
    (
      subst (λ w. Value params (add l r) w) same
          (of_add (eval-Value params l a h s.0 x).0 (eval-Value params r b h s.1 y).0),
      fits,
    )
eval-Value params (sub l r) v h s e =
    let (a, b, x, y, z) = pair_of params l r checked_sub v (eval params l) (eval params r) e in
    let same = sub_exact a b v z in
    let left = eval-Value params l a h s.0 x in
    (of_sub left.0 (eval-Value params r b h s.1 y).0 same, omega (arith, left.1, same))
eval-Value params (mul l r) v h s e =
    let (a, b, x, y, z) = pair_of params l r checked_mul v (eval params l) (eval params r) e in
    let (same, fits) = mul_exact a b v z in
    (
      subst (λ w. Value params (mul l r) w) same
          (of_mul (eval-Value params l a h s.0 x).0 (eval-Value params r b h s.1 y).0),
      fits,
    )
