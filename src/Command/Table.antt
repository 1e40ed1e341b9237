-- ===== src/Command/Table.antt =====
-- The table of apps/sarifc/src/command.rs `edit_distance` holds least numbers of edits.
use sarif.Base.{ℕ, suc, ◌≤◌, ◌≡◌, refl, sym, ap, ◌∙◌, List, [], ◌∷◌, length}
use mathlib.Core.Path.{subst}
use sarif.Text.{Text}
use sarif.Command.Distance.{fill, rows, first_row, last, edit_distance}
use sarif.Command.Script.{Script, least, least-Script, Script-least, least_nil}

-- A text with another one read backwards in front of it.
unfoldable pub reverse_onto : Text → Text → Text
reverse_onto [] back = back
reverse_onto (x ∷ a) back = reverse_onto a (x ∷ back)

-- A text from its end.
unfoldable pub backwards : Text → Text
backwards a = reverse_onto a []

-- The row of `b` from the column of `a` on: each column adds a character of `rest`.
unfoldable row : Text → Text → Text → List ℕ
row b a [] = least a b ∷ []
row b a (x ∷ rest) = least a b ∷ row b (x ∷ a) rest

fill-row :
    (y : ℕ) (b a rest : Text)
    → least a (y ∷ b) ∷ fill y (least a (y ∷ b)) rest (row b a rest) ≡ row (y ∷ b) a rest
unfolding fill row least
fill-row y b a [] = refl
fill-row y b a (x ∷ []) = refl
fill-row y b a (x ∷ z ∷ rest) = ap (λ r. least a (y ∷ b) ∷ r) (fill-row y b (x ∷ a) (z ∷ rest))

first_row-row : (a rest : Text) → first_row rest (length a) ≡ row [] a rest
unfolding first_row row
first_row-row a [] = rw (least_nil a) refl
first_row-row a (x ∷ rest) = rw (least_nil a, first_row-row (x ∷ a) rest) refl

last-row : (b a rest : Text) → last (row b a rest) ≡ least (reverse_onto rest a) b
unfolding last row reverse_onto
last-row b a [] = refl
last-row b a (x ∷ []) = refl
last-row b a (x ∷ z ∷ rest) = last-row b (x ∷ a) (z ∷ rest)

rows_row :
    (a b back : Text)
    → rows a b (suc (length back)) (row back [] a) ≡ row (reverse_onto b back) [] a
unfolding rows reverse_onto least
rows_row a [] back = refl
rows_row a (y ∷ b) back =
    ap (rows a b (suc (suc (length back)))) (fill-row y back [] a) ∙ rows_row a b (y ∷ back)

-- The last number of the table is the least number of edits.
pub edit_distance-least : (a b : Text) → edit_distance a b ≡ least (backwards a) (backwards b)
unfolding edit_distance backwards
edit_distance-least a b =
    ap (λ r. last (rows a b 1 r)) (first_row-row [] a)
    ∙ (ap last (rows_row a b []) ∙ last-row (reverse_onto b []) [] a)

-- The distance of two texts is the number of a script that turns one into the other, read from their
-- ends, and no script between them has fewer edits.
pub edit_distance-Script :
    (a b : Text) (n : ℕ)
    → Script (backwards a) (backwards b) n
    → Script (backwards a) (backwards b) (edit_distance a b) × (edit_distance a b ≤ n)
edit_distance-Script a b n s =
    let e = edit_distance-least a b in
    (
      subst (λ k. Script (backwards a) (backwards b) k) (sym e)
          (least-Script (backwards a) (backwards b)),
      rw e (Script-least s),
    )
