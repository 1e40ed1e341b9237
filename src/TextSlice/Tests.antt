-- ===== src/TextSlice/Tests.antt =====
-- Tests and examples of the slicing of texts.
use sarif.Base.{ℕ, ◌≤◌, ◌≡◌, refl, false, some, [], ◌∷◌, length, if◌then◌else◌, leb}
use sarif.Base.Int.{pos, negsuc}
use sarif.Text.{Text}
use sarif.Syntax.Lexer.{slice}
use sarif.TextSlice.{slice_text, clamp, inside_character, IsBoundary, slice_text-IsBoundary}

-- "aéb"
abbrev accented : Text
accented = 97 ∷ 195 ∷ 169 ∷ 98 ∷ []

-- A slice that ends inside the accented letter leaves it out.
cut_before : slice_text accented (negsuc 4) (pos 2) ≡ some (97 ∷ [])
unfolding slice_text
cut_before = refl

whole : inside_character accented 0 ≡ false
unfolding inside_character
whole = refl

slice_text-IsBoundary_example :
    (first last : ℕ) × (slice_text accented (pos 0) (pos 2)
      ≡ some (if leb last first then [] else slice first last accented))
    × IsBoundary accented first
    × IsBoundary accented last
    × (clamp (length accented) (pos 0) ≤ first)
    × (last ≤ clamp (length accented) (pos 2))
slice_text-IsBoundary_example = slice_text-IsBoundary accented (pos 0) (pos 2) whole
