-- ===== src/TextSlice.antt =====
-- The slicing of a text by byte positions, crates/sarif_codegen/src/lib.rs `slice_text` and the two
-- functions that move its bounds to the boundaries of characters. A text is its UTF-8 bytes. `from_utf8` of the
-- bytes between two boundaries of a text is taken to be those bytes.
mod Tests
use sarif.Base.{
  ℕ, zero, suc, ◌+◌, ◌/◌, ◌%◌, ◌≤◌, ◌<◌, ◌≡◌, ◌⊎◌, inl, inr, refl, Bool, true, false, ◌&&◌, Option,
  none, some, List, [], ◌∷◌, length, get_elem?, if◌then◌else◌, ◌==◌, leb, ltb, arith, Bool-cases,
}
use sarif.Base.Int.{ℤ, pos, negsuc}
use sarif.Text.{Text}
use sarif.Syntax.Lexer.{slice}

-- `byte & 0b1100_0000 == 0b1000_0000`
unfoldable pub is_utf8_continuation : ℕ → Bool
is_utf8_continuation byte = byte / 64 % 4 == 2

-- `index < len && is_utf8_continuation(bytes[index])`
unfoldable pub inside_character : Text → ℕ → Bool
unfolding is_utf8_continuation
inside_character bytes index = elim (get_elem? bytes index) [
  | none ↦ false
  | some byte ↦ is_utf8_continuation byte
]

-- `usize::try_from(index.max(0)).unwrap_or(usize::MAX).min(len)`
unfoldable pub clamp : ℕ → ℤ → ℕ
clamp len (pos n) = if leb n len then n else len
clamp len (negsuc n) = 0

-- The loop of `clamp_text_slice_start`; `none` is a want of fuel.
unfoldable pub move_up : ℕ → Text → ℕ → Option ℕ
unfolding inside_character
move_up zero bytes index = none
move_up (suc fuel) bytes index =
    let rest = move_up fuel bytes (index + 1) in
    if inside_character bytes index then rest else some index

-- One round for each byte, and one more.
unfoldable pub clamp_text_slice_start : Text → ℤ → Option ℕ
unfolding move_up clamp
clamp_text_slice_start bytes index = move_up (suc (length bytes)) bytes (clamp (length bytes) index)

-- The loop of `clamp_text_slice_end`; `none` is `index -= 1` at 0.
unfoldable pub move_down : Text → ℕ → Option ℕ
unfolding inside_character
move_down bytes zero = if inside_character bytes zero then none else some 0
move_down bytes (suc index) =
    let rest = move_down bytes index in
    if inside_character bytes (suc index) then rest else some (suc index)

unfoldable pub clamp_text_slice_end : Text → ℤ → Option ℕ
unfolding move_down clamp
clamp_text_slice_end bytes index = move_down bytes (clamp (length bytes) index)

cut : Text → Option ℕ → Option ℕ → Option Text
unfolding slice
cut bytes none last = none
cut bytes (some first) none = none
cut bytes (some first) (some last) = some (if leb last first then [] else slice first last bytes)

unfoldable pub slice_text : Text → ℤ → ℤ → Option Text
unfolding clamp_text_slice_start clamp_text_slice_end cut
slice_text bytes first last =
    cut bytes (clamp_text_slice_start bytes first) (clamp_text_slice_end bytes last)

-- A position where no character is cut in two.
unfoldable pub IsBoundary : Text → ℕ → Type 0
IsBoundary bytes index = (inside_character bytes index ≡ false) × (index ≤ length bytes)

inside-length :
    (bytes : Text) (index : ℕ) → inside_character bytes index ≡ true → index < length bytes
unfolding inside_character
inside-length [] index h = absurd (cc)
inside-length (b ∷ bytes) zero h = omega arith
inside-length (b ∷ bytes) (suc index) h = omega (arith, inside-length bytes index h)

clamp_le : (len : ℕ) (i : ℤ) → clamp len i ≤ len
unfolding clamp
clamp_le len (pos n) = ground arith
clamp_le len (negsuc n) = omega arith

move_up-IsBoundary :
    (fuel : ℕ) (bytes : Text) (index : ℕ)
    → index ≤ length bytes
    → length bytes < fuel + index
    → (r : ℕ) × (move_up fuel bytes index ≡ some r) × IsBoundary bytes r × (index ≤ r)
unfolding move_up IsBoundary
move_up-IsBoundary zero bytes index le enough = absurd (omega arith)
move_up-IsBoundary (suc fuel) bytes index le enough =
    elim (Bool-cases (inside_character bytes index)) [
      | inl b ↦
          let lt = inside-length bytes index b in
          let (r, ran, at, up) =
            move_up-IsBoundary fuel bytes (index + 1) (omega arith) (omega arith) in
          (r, rw (b, move_up) ran, at, omega arith)
      | inr b ↦ (index, rw (b, move_up) refl, (b, le), omega arith)
    ]

move_down-IsBoundary :
    (bytes : Text) (index : ℕ)
    → inside_character bytes 0 ≡ false
    → index ≤ length bytes
    → (r : ℕ) × (move_down bytes index ≡ some r) × IsBoundary bytes r × (r ≤ index)
unfolding move_down IsBoundary
move_down-IsBoundary bytes zero whole le = (0, rw (whole, move_down) refl, (whole, le), omega arith)
move_down-IsBoundary bytes (suc index) whole le =
    elim (Bool-cases (inside_character bytes (suc index))) [
      | inl b ↦
          let (r, ran, at, down) = move_down-IsBoundary bytes index whole (omega arith) in
          (r, rw (b, move_down) ran, at, omega arith)
      | inr b ↦ (suc index, rw (b, move_down) refl, (b, le), omega arith)
    ]

cut-some :
    (bytes : Text) (x y : Option ℕ) (first last : ℕ)
    → x ≡ some first
    → y ≡ some last
    → cut bytes x y ≡ some (if leb last first then [] else slice first last bytes)
unfolding cut
cut-some bytes x y first last e f = rw (e, f) refl

-- On a text that begins with the beginning of a character a slice always succeeds, whatever the two
-- indices: it cuts at boundaries of characters, not before the first index and not after the last,
-- brought into the text, and it is empty where the bounds cross.
pub slice_text-IsBoundary :
    (bytes : Text) (from to : ℤ)
    → inside_character bytes 0 ≡ false
    → (first last : ℕ) × (slice_text bytes from to
        ≡ some (if leb last first then [] else slice first last bytes))
      × IsBoundary bytes first
      × IsBoundary bytes last
      × (clamp (length bytes) from ≤ first)
      × (last ≤ clamp (length bytes) to)
unfolding slice_text clamp_text_slice_start clamp_text_slice_end
slice_text-IsBoundary bytes from to whole =
    let (a, ran_a, at_a, up) =
      move_up-IsBoundary (suc (length bytes)) bytes (clamp (length bytes) from)
        (clamp_le (length bytes) from) (omega arith) in
    let (b, ran_b, at_b, down) =
      move_down-IsBoundary bytes (clamp (length bytes) to) whole (clamp_le (length bytes) to) in
    (a, b, cut-some bytes _ _ a b ran_a ran_b, at_a, at_b, up, down)
