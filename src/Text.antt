-- ===== src/Text.antt =====
-- Rust's `str` as the query planner uses it (crates/sarif_query_planner/src): a text is the list of
-- its characters, all of them ASCII, so that a byte position is a position in the list.
pub mod Laws
pub mod Numbers
pub mod Search
pub mod Balance
use Prim.Native.Char.{code}
use sarif.Base.{
  ℕ, zero, suc, ◌+◌, ◌-◌, ◌*◌, ◌/◌, ◌%◌, ◌^◌, String, Bool, true, false, not, ◌&&◌, ◌||◌, Option,
  none, some, List, [], ◌∷◌, ◌++◌, length, any, if◌then◌else◌, ◌==◌, leb, ltb,
}
use sarif.Base.Int.{ℤ, pos, negsuc}

abbrev pub Text : Type 0
Text = List ℕ

-- The characters of a literal. `String` has its own `[]` and `∷`.
abbrev pub codes : String → Text
codes String.[] = []
codes (String.◌∷◌ c s) = code c ∷ codes s

-- `Result<T, String>`
pub data Result {ℓ} (A : Type ℓ) : Type ℓ where
  ok : A → Result A
  err : Text → Result A

-- `str::starts_with`
unfoldable pub starts_with : Text → Text → Bool
starts_with t [] = true
starts_with [] (p ∷ ps) = false
starts_with (c ∷ cs) (p ∷ ps) = c == p && starts_with cs ps

-- `==` on texts
unfoldable pub same_text : Text → Text → Bool
same_text [] [] = true
same_text [] (_ ∷ _) = false
same_text (_ ∷ _) [] = false
same_text (c ∷ cs) (d ∷ ds) = c == d && same_text cs ds

-- `str::find` of a text that is not empty
unfoldable pub find : Text → Text → Option ℕ
unfolding starts_with
find [] p = none
find (c ∷ cs) p =
    if starts_with (c ∷ cs) p
    then some 0
    else elim (find cs p) [ none ↦ none | some i ↦ some (suc i) ]

-- `str::contains`
unfoldable pub contains : Text → Text → Bool
unfolding starts_with
contains [] p = false
contains (c ∷ cs) p = starts_with (c ∷ cs) p || contains cs p

-- `str::find` of one of some characters, and the text before it, or the whole text.
unfoldable pub before_any : List ℕ → Text → Text
before_any stops [] = []
before_any stops (c ∷ cs) = if any (λ s. s == c) stops then [] else c ∷ before_any stops cs

-- `&s[i..]`
unfoldable pub drop : ℕ → Text → Text
drop zero t = t
drop (suc n) [] = []
drop (suc n) (c ∷ cs) = drop n cs

-- `char::is_whitespace`
unfoldable pub is_space : ℕ → Bool
is_space c = c == 32 || leb 9 c && leb c 13

unfoldable pub trim_start : Text → Text
unfolding is_space
trim_start [] = []
trim_start (c ∷ cs) = if is_space c then trim_start cs else c ∷ cs

keep : ℕ → Text → Text
unfolding is_space
keep c [] = if is_space c then [] else c ∷ []
keep c (d ∷ ds) = c ∷ d ∷ ds

unfoldable pub trim_end : Text → Text
unfolding keep
trim_end [] = []
trim_end (c ∷ cs) = keep c (trim_end cs)

-- `str::trim`
unfoldable pub trim : Text → Text
unfolding trim_start trim_end
trim t = trim_end (trim_start t)

-- `str::to_uppercase`
unfoldable pub to_uppercase : Text → Text
to_uppercase [] = []
to_uppercase (c ∷ cs) = (if leb 97 c && leb c 122 then c - 32 else c) ∷ to_uppercase cs

-- `str::split`: `skip` characters of a separator are still to pass, `part` is the part begun.
unfoldable pub split_from : Text → ℕ → Text → Text → List Text
unfolding starts_with
split_from sep skip part [] = part ∷ []
split_from sep (suc k) part (c ∷ cs) = split_from sep k part cs
split_from sep zero part (c ∷ cs) =
    let there = split_from sep (length sep - 1) [] cs in
    let on = split_from sep 0 (part ++ (c ∷ [])) cs in
    if starts_with (c ∷ cs) sep then part ∷ there else on

unfoldable pub split : Text → Text → List Text
unfolding split_from
split t sep = split_from sep 0 [] t

-- `[String]::join`
unfoldable pub join : Text → List Text → Text
join sep [] = []
join sep (t ∷ []) = t
join sep (t ∷ u ∷ ts) = t ++ (sep ++ join sep (u ∷ ts))

-- `trim_matches('"')`
unfoldable pub trim_quotes_start : Text → Text
trim_quotes_start [] = []
trim_quotes_start (c ∷ cs) = if c == 34 then trim_quotes_start cs else c ∷ cs

keep_unquoted : ℕ → Text → Text
keep_unquoted c [] = if c == 34 then [] else c ∷ []
keep_unquoted c (d ∷ ds) = c ∷ d ∷ ds

unfoldable pub trim_quotes_end : Text → Text
unfolding keep_unquoted
trim_quotes_end [] = []
trim_quotes_end (c ∷ cs) = keep_unquoted c (trim_quotes_end cs)

unfoldable pub ends_with_char : ℕ → Text → Bool
ends_with_char q [] = false
ends_with_char q (c ∷ []) = c == q
ends_with_char q (c ∷ d ∷ ds) = ends_with_char q (d ∷ ds)

-- The value of a text of digits, `none` if it is empty or holds another character.
digits_from : ℕ → Text → Option ℕ
digits_from n [] = some n
digits_from n (c ∷ cs) =
    let rest = digits_from (10 * n + (c - 48)) cs in if leb 48 c && leb c 57 then rest else none

unfoldable pub digits : Text → Option ℕ
unfolding digits_from
digits [] = none
digits (c ∷ cs) = digits_from 0 (c ∷ cs)

unfoldable pub unsigned : ℕ → Text → Option ℕ
unfolding digits
unsigned limit t = elim (digits t) [ none ↦ none | some n ↦ if ltb n limit then some n else none ]

-- `parse::<usize>`: an optional `+`, digits, 64 bits.
unfoldable pub parse_usize : Text → Option ℕ
unfolding unsigned
parse_usize [] = none
parse_usize (c ∷ cs) = if c == 43 then unsigned (2 ^ 64) cs else unsigned (2 ^ 64) (c ∷ cs)

unfoldable pub negate : ℕ → ℤ
negate zero = pos 0
negate (suc n) = negsuc n

-- `parse::<i64>`
unfoldable pub parse_i64 : Text → Option ℤ
unfolding unsigned negate
parse_i64 [] = none
parse_i64 (c ∷ cs) =
    if c == 45
    then elim (unsigned (2 ^ 63 + 1) cs) [ none ↦ none | some n ↦ some (negate n) ]
    else if c == 43
    then elim (unsigned (2 ^ 63) cs) [ none ↦ none | some n ↦ some (pos n) ]
    else elim (unsigned (2 ^ 63) (c ∷ cs)) [ none ↦ none | some n ↦ some (pos n) ]

-- `to_string` of a number: its digits, at most `fuel` of them, in front of a text.
show_from : ℕ → ℕ → Text → Text
show_from zero n t = t
show_from (suc fuel) n t =
    let d = (48 + n % 10) ∷ t in elim (ltb n 10) [ true ↦ d | false ↦ show_from fuel (n / 10) d ]

-- A number has no more digits than its value and one.
unfoldable pub show_ℕ : ℕ → Text
unfolding show_from
show_ℕ n = show_from (suc n) n []

unfoldable pub show_ℤ : ℤ → Text
unfolding show_ℕ
show_ℤ (pos n) = show_ℕ n
show_ℤ (negsuc n) = 45 ∷ show_ℕ (suc n)
