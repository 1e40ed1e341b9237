-- ===== src/Text/Laws.antt =====
-- Lengths under the text functions of sarif.Text, and the equality of texts.
use sarif.Base.{
  ℕ, zero, suc, ◌+◌, ◌≤◌, ◌<◌, ◌≡◌, true, List, [], ◌∷◌, ◌++◌, length, length-append, arith,
  Bool-cases, inl, inr,
}
use native.Mathlib.Nat.{zero-add}
use sarif.Base.{◌-◌, refl, ap, false, ◌&&◌, ◌==◌, ==_iff}
use mathlib.Core.Path.{subst}
use sarif.Text.{
  Text, starts_with, contains, split, split_from, trim, trim_start, trim_end, keep, same_text,
}

length-trim_start-le : (t : Text) → length (trim_start t) ≤ length t
unfolding trim_start
length-trim_start-le [] = omega arith
length-trim_start-le (c ∷ cs) = ground (arith, length-trim_start-le cs)

length-keep-le : (c : ℕ) (t : Text) → length (keep c t) ≤ suc (length t)
unfolding keep
length-keep-le c [] = ground arith
length-keep-le c (d ∷ ds) = omega arith

length-trim_end-le : (t : Text) → length (trim_end t) ≤ length t
unfolding trim_end
length-trim_end-le [] = omega arith
length-trim_end-le (c ∷ cs) = omega (arith, length-keep-le c (trim_end cs), length-trim_end-le cs)

pub length-trim-le : (t : Text) → length (trim t) ≤ length t
unfolding trim
length-trim-le t = omega (arith, length-trim_end-le (trim_start t), length-trim_start-le t)

-- The characters in all parts together.
abbrev total : List Text → ℕ
total [] = 0
total (t ∷ ts) = length t + total ts

total-split_from-le :
    (sep : Text) (skip : ℕ) (part t : Text)
    → total (split_from sep skip part t) ≤ length part + length t
unfolding split_from
total-split_from-le sep zero part [] = omega arith
total-split_from-le sep (suc k) part [] = omega arith
total-split_from-le sep (suc k) part (c ∷ cs) = omega (arith, total-split_from-le sep k part cs)
total-split_from-le sep zero part (c ∷ cs) = ground (
  arith,
  total-split_from-le sep (length sep - 1) [] cs,
  total-split_from-le sep 0 (part ++ (c ∷ [])) cs,
  length-append part (c ∷ []),
)

-- The first two parts and the others.
pub record Parts (ts : List Text) (size : ℕ) : Type 0 where
  pub first : Text
  pub second : Text
  pub others : List Text
  pub parts : ts ≡ first ∷ second ∷ others
  pub shorter : length first + length second < size

split_from-cons :
    (sep : Text) (skip : ℕ) (part t : Text)
    → (p : Text) × (ps : List Text) × (split_from sep skip part t ≡ p ∷ ps)
unfolding split_from
split_from-cons sep zero part [] = (part, [], refl)
split_from-cons sep (suc k) part [] = (part, [], refl)
split_from-cons sep (suc k) part (c ∷ cs) = split_from-cons sep k part cs
split_from-cons sep zero part (c ∷ cs) = elim (Bool-cases (starts_with (c ∷ cs) sep)) [
  | inl e ↦ (part, split_from sep (length sep - 1) [] cs, rw (e, split_from) refl)
  | inr e ↦ rw (e, split_from) (split_from-cons sep 0 (part ++ (c ∷ [])) cs)
]

-- A text that has the separator falls into two parts at least, which leave characters over.
pub split_from-Parts :
    (sep part t : Text)
    → contains t sep ≡ true
    → Parts (split_from sep 0 part t) (length part + length t)
unfolding contains split_from
split_from-Parts sep part [] h = absurd (cc)
split_from-Parts sep part (c ∷ cs) h = elim (Bool-cases (starts_with (c ∷ cs) sep)) [
  | inl e ↦
      let (p, ps, q) = split_from-cons sep (length sep - 1) [] cs in
      let le = total-split_from-le sep (length sep - 1) [] cs in
      record {
        first = part;
        second = p;
        others = ps;
        parts = rw (e, split_from) (ap (λ r. part ∷ r) q);
        shorter = omega (arith, le, ap total q);
      }
  | inr e ↦
      let r = split_from-Parts sep (part ++ (c ∷ [])) cs (ground arith) in
      record {
        first = r.first;
        second = r.second;
        others = r.others;
        parts = rw (e, split_from) r.parts;
        shorter = omega (arith, r.shorter, length-append part (c ∷ []));
      }
]

pub split-Parts : (t sep : Text) → contains t sep ≡ true → Parts (split t sep) (length t)
unfolding split
split-Parts t sep h = rw zero-add at (split_from-Parts sep [] t h)

pub same_text_eq : (s t : Text) → same_text s t ≡ true → s ≡ t
unfolding same_text
same_text_eq [] [] h = refl
same_text_eq [] (d ∷ ds) h = absurd (cc)
same_text_eq (c ∷ cs) [] h = absurd (cc)
same_text_eq (c ∷ cs) (d ∷ ds) h = elim (Bool-cases (c == d)) [
  | inl e ↦
      let rest = same_text_eq cs ds (subst (λ b. (b && same_text cs ds) ≡ true) e h) in
      let same : c ≡ d = (==_iff c d).0 e in rw (same, rest) refl
  | inr e ↦ let no : false ≡ true = subst (λ b. (b && same_text cs ds) ≡ true) e h in absurd (cc)
]

pub same_text_refl : (s : Text) → same_text s s ≡ true
unfolding same_text
same_text_refl [] = refl
same_text_refl (c ∷ cs) =
    let own : (c == c) ≡ true = (==_iff c c).1 refl in rw (own, same_text_refl cs) refl

same_sym : (c d : ℕ) → (c == d) ≡ (d == c)
same_sym c d = ground arith

pub same_text_sym : (s t : Text) → same_text s t ≡ same_text t s
unfolding same_text
same_text_sym [] [] = refl
same_text_sym [] (d ∷ ds) = refl
same_text_sym (c ∷ cs) [] = refl
same_text_sym (c ∷ cs) (d ∷ ds) = rw (same_sym c d, same_text_sym cs ds) refl
