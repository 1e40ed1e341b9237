-- ===== src/Command/Script.antt =====
-- What an edit distance is: the least number of edits of a script. Independent of any table.
use sarif.Base.{
  ℕ, suc, ◌+◌, ◌≤◌, ◌≡◌, ◌⊎◌, ==_iff, refl, [], ◌∷◌, length, ◌==◌, arith, leb, Bool-cases, inl, inr,
}
use mathlib.Core.Path.{subst}
use sarif.Text.{Text}
use sarif.Command.Distance.{min, cost}

-- The texts that `n` edits, each of one character, turn into one another.
pub data Script : Text → Text → ℕ → Type 0 where
  done : Script [] [] 0
  keep : {a b : Text} {n : ℕ} → (x : ℕ) → Script a b n → Script (x ∷ a) (x ∷ b) n
  insert : {a b : Text} {n : ℕ} → (y : ℕ) → Script a b n → Script a (y ∷ b) (suc n)
  delete : {a b : Text} {n : ℕ} → (x : ℕ) → Script a b n → Script (x ∷ a) b (suc n)
  replace : {a b : Text} {n : ℕ} → (x y : ℕ) → Script a b n → Script (x ∷ a) (y ∷ b) (suc n)

-- The least number of edits, by recursion on both texts.
unfoldable pub least : Text → Text → ℕ
unfolding min cost
least [] b = length b
least (x ∷ a) [] = suc (length a)
least (x ∷ a) (y ∷ b) = min (min (least a (y ∷ b) + 1) (least (x ∷ a) b + 1)) (least a b + cost x y)

delete_all : (a : Text) → Script a [] (length a)
delete_all [] = done
delete_all (x ∷ a) = delete x (delete_all a)

insert_all : (b : Text) → Script [] b (length b)
insert_all [] = done
insert_all (y ∷ b) = insert y (insert_all b)

min-cases : (a b : ℕ) → (min a b ≡ a) ⊎ (min a b ≡ b)
unfolding min
min-cases a b = elim (Bool-cases (leb a b)) [ inl e ↦ inl (rw e refl) | inr e ↦ inr (rw e refl) ]

script_of : {a b : Text} {n m : ℕ} → n ≡ m → Script a b n → Script a b m
script_of {a} {b} e s = subst (λ k. Script a b k) e s

pub cost_same : (x : ℕ) → cost x x ≡ 0
unfolding cost
cost_same x = ground arith

-- A character kept or replaced.
match_or_replace :
    {a b : Text} {n : ℕ} → (x y : ℕ) → Script a b n → Script (x ∷ a) (y ∷ b) (n + cost x y)
unfolding cost
match_or_replace {a} {b} {n} x y s = elim (Bool-cases (x == y)) [
  | inl e ↦
      let same : x ≡ y = (==_iff x y).0 e in
      let none : n ≡ n + 0 = omega arith in
      let kept = script_of (rw (e, cost) none) (keep x s) in
      subst (λ z. Script (x ∷ a) (z ∷ b) (n + cost x y)) same kept
  | inr e ↦ let one : suc n ≡ n + 1 = omega arith in script_of (rw (e, cost) one) (replace x y s)
]

-- The number is that of a script.
pub least-Script : (a b : Text) → Script a b (least a b)
unfolding least
least-Script [] b = insert_all b
least-Script (x ∷ a) [] = delete_all (x ∷ a)
least-Script (x ∷ a) (y ∷ b) =
    let i = least a (y ∷ b) + 1 in
    let j = least (x ∷ a) b + 1 in
    let k = least a b + cost x y in
    elim (min-cases (min i j) k) [
      | inl e ↦ elim (min-cases i j) [
        | inl f ↦ script_of (rw (e, f) (omega arith)) (delete x (least-Script a (y ∷ b)))
        | inr f ↦ script_of (rw (e, f) (omega arith)) (insert y (least-Script (x ∷ a) b))
      ]
      | inr e ↦ script_of (rw e refl) (match_or_replace x y (least-Script a b))
    ]

pub least_nil : (a : Text) → least a [] ≡ length a
unfolding least
least_nil [] = refl
least_nil (x ∷ a) = refl

least_delete : (x : ℕ) (a b : Text) → least (x ∷ a) b ≤ suc (least a b)
unfolding least min
least_delete x a [] = omega (arith, least_nil a)
least_delete x a (y ∷ b) = ground arith

least_insert : (y : ℕ) (a b : Text) → least a (y ∷ b) ≤ suc (least a b)
unfolding least min
least_insert y [] b = omega arith
least_insert y (x ∷ a) b = ground arith

least_both : (x y : ℕ) (a b : Text) → least (x ∷ a) (y ∷ b) ≤ least a b + cost x y
unfolding least min
least_both x y a b = ground arith

cost_le : (x y : ℕ) → cost x y ≤ 1
unfolding cost
cost_le x y = ground arith

-- Every script has at least that number of edits.
pub Script-least : {a b : Text} {n : ℕ} → Script a b n → least a b ≤ n
unfolding least
Script-least done = omega arith
Script-least {a = _ ∷ a} {b = _ ∷ b} (keep x s) =
    omega (arith, least_both x x a b, cost_same x, Script-least s)
Script-least {a} {b = _ ∷ b} (insert y s) = omega (arith, least_insert y a b, Script-least s)
Script-least {a = _ ∷ a} {b} (delete x s) = omega (arith, least_delete x a b, Script-least s)
Script-least {a = _ ∷ a} {b = _ ∷ b} (replace x y s) =
    omega (arith, least_both x y a b, cost_le x y, Script-least s)
