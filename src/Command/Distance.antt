-- ===== src/Command/Distance.antt =====
-- apps/sarifc/src/command.rs `edit_distance`: the table of distances, one row for each byte of `b`.
use sarif.Base.{ℕ, suc, ◌+◌, List, [], ◌∷◌, ◌==◌, if◌then◌else◌, leb}
use sarif.Text.{Text}

-- `usize::min`
unfoldable pub min : ℕ → ℕ → ℕ
min a b = if leb a b then a else b

unfoldable pub cost : ℕ → ℕ → ℕ
cost x y = if x == y then 0 else 1

-- The loop over `j`: what follows `left` in the row of `y`, from the row before it.
unfoldable pub fill : ℕ → ℕ → Text → List ℕ → List ℕ
unfolding min cost
fill y left (x ∷ a) (p ∷ q ∷ prev) =
    let value = min (min (left + 1) (q + 1)) (p + cost x y) in value ∷ fill y value a (q ∷ prev)
fill y left _ _ = []

-- The loop over `i`, from the row `prev` before the row `i`.
unfoldable pub rows : Text → Text → ℕ → List ℕ → List ℕ
unfolding fill
rows a [] i prev = prev
rows a (y ∷ b) i prev = rows a b (suc i) (i ∷ fill y i a prev)

-- `(0..=la).collect()`, from `n`
unfoldable pub first_row : Text → ℕ → List ℕ
first_row [] n = n ∷ []
first_row (x ∷ a) n = n ∷ first_row a (suc n)

-- `prev[la]`
unfoldable pub last : List ℕ → ℕ
last [] = 0
last (n ∷ []) = n
last (n ∷ m ∷ ns) = last (m ∷ ns)

unfoldable pub edit_distance : Text → Text → ℕ
unfolding rows first_row last
edit_distance a b = last (rows a b 1 (first_row a 0))
