-- ===== src/Text/Search.antt =====
-- Searching a text that is written in pieces: sarif.Text.find, before_any, drop, trim and
-- to_uppercase after `++`.
use sarif.Base.{
  ℕ, suc, ◌+◌, ◌≡◌, refl, ap, ◌∙◌, Bool, true, false, ◌&&◌, ◌==◌, leb, Option, none, some, [], ◌∷◌,
  ◌++◌, length, any, All, if◌then◌else◌, arith, Bool-cases, inl, inr,
}
use sarif.Text.{
  Text, starts_with, find, contains, before_any, drop, is_space, keep, trim_end, to_uppercase,
}

-- A position moved on by some characters.
abbrev pub shift : ℕ → Option ℕ → Option ℕ
shift n none = none
shift n (some i) = some (n + i)

-- What follows the space after a text decides nothing about a word and a space in front.
starts_past :
    (w : Text)
    → All (λ c. (32 == c) ≡ false) w
    → (xs rest : Text)
    → starts_with (xs ++ (32 ∷ rest)) (w ++ (32 ∷ []))
      ≡ starts_with (xs ++ (32 ∷ [])) (w ++ (32 ∷ []))
unfolding starts_with
starts_past [] h [] rest = refl
starts_past [] h (c ∷ cs) rest = refl
starts_past (d ∷ ds) h [] rest = rw h.0 refl
starts_past (d ∷ ds) h (c ∷ cs) rest = ap (λ b. (c == d) && b) (starts_past ds h.1 cs rest)

unshifted : (r : Option ℕ) → r ≡ shift 0 r
unshifted none = refl
unshifted (some i) = ap some (omega arith)

shift_more :
    (b : Bool) (n : ℕ) (r s : Option ℕ)
    → b ≡ false
    → r ≡ shift n s
    → (if b then some 0 else elim r [ none ↦ none | some i ↦ some (suc i) ]) ≡ shift (suc n) s
shift_more b n r none e q = rw (e, q) refl
shift_more b n r (some i) e q = rw (e, q) (ap some (omega arith))

-- A word and a space that are not in a text and a space are searched for in what follows.
pub find_past :
    (w : Text)
    → All (λ c. (32 == c) ≡ false) w
    → (xs rest : Text) → contains (xs ++ (32 ∷ [])) (w ++ (32 ∷ [])) ≡ false
    → find (xs ++ (32 ∷ rest)) (w ++ (32 ∷ []))
      ≡ shift (length xs) (find (32 ∷ rest) (w ++ (32 ∷ [])))
unfolding find contains
find_past w h [] rest e = unshifted (find (32 ∷ rest) (w ++ (32 ∷ [])))
find_past w h (c ∷ cs) rest e =
    let p = w ++ (32 ∷ []) in
    elim (Bool-cases (starts_with (c ∷ (cs ++ (32 ∷ []))) p)) [
      | inl b ↦ let wrong : true ≡ false = rw b at e in absurd (cc)
      | inr b ↦
          shift_more (starts_with (c ∷ (cs ++ (32 ∷ rest))) p) (length cs)
            (find (cs ++ (32 ∷ rest)) p) (find (32 ∷ rest) p) (starts_past w h (c ∷ cs) rest ∙ b)
            (find_past w h cs rest (rw b at e))
    ]

-- A text that is not contained is not found.
pub find-none : (t p : Text) → contains t p ≡ false → find t p ≡ none
unfolding find contains
find-none [] p e = refl
find-none (c ∷ cs) p e = elim (Bool-cases (starts_with (c ∷ cs) p)) [
  | inl b ↦ let wrong : true ≡ false = rw b at e in absurd (cc)
  | inr b ↦ let rest : contains cs p ≡ false = rw b at e in rw (b, find-none cs p rest) refl
]

pub before_any_past :
    (stops xs : Text) (d : ℕ) (rest : Text)
    → All (λ c. any (λ s. s == c) stops ≡ false) xs
    → any (λ s. s == d) stops ≡ true
    → before_any stops (xs ++ (d ∷ rest)) ≡ xs
unfolding before_any
before_any_past stops [] d rest h e = rw e refl
before_any_past stops (c ∷ cs) d rest h e =
    rw h.0 (ap (λ t. c ∷ t) (before_any_past stops cs d rest h.1 e))

pub before_any-All :
    (stops xs : Text) → All (λ c. any (λ s. s == c) stops ≡ false) xs → before_any stops xs ≡ xs
unfolding before_any
before_any-All stops [] h = refl
before_any-All stops (c ∷ cs) h = rw h.0 (ap (λ t. c ∷ t) (before_any-All stops cs h.1))

pub drop_past : (xs : Text) (k : ℕ) (ys : Text) → drop (length xs + k) (xs ++ ys) ≡ drop k ys
unfolding drop
drop_past [] k ys = let n : 0 + k ≡ k = omega arith in rw n refl
drop_past (c ∷ cs) k ys =
    let n : suc (length cs) + k ≡ suc (length cs + k) = omega arith in rw n (drop_past cs k ys)

pub to_uppercase-append :
    (xs ys : Text) → to_uppercase (xs ++ ys) ≡ to_uppercase xs ++ to_uppercase ys
unfolding to_uppercase
to_uppercase-append [] ys = refl
to_uppercase-append (c ∷ cs) ys = rw (to_uppercase-append cs ys) refl

pub length-to_uppercase : (xs : Text) → length (to_uppercase xs) ≡ length xs
unfolding to_uppercase
length-to_uppercase [] = refl
length-to_uppercase (c ∷ cs) = ap suc (length-to_uppercase cs)

pub to_uppercase_fixed : (xs : Text) → All (λ c. leb 97 c ≡ false) xs → to_uppercase xs ≡ xs
unfolding to_uppercase
to_uppercase_fixed [] h = refl
to_uppercase_fixed (c ∷ cs) h = rw h.0 (ap (λ t. c ∷ t) (to_uppercase_fixed cs h.1))

pub trim_end-All : (xs : Text) → All (λ c. is_space c ≡ false) xs → trim_end xs ≡ xs
unfolding trim_end keep
trim_end-All [] h = refl
trim_end-All (c ∷ []) h = rw h.0 refl
trim_end-All (c ∷ d ∷ ds) h = ap (keep c) (trim_end-All (d ∷ ds) h.1)

-- A text that is not empty and does not end with a space.
abbrev pub IsTrimmed : Text → Type 0
IsTrimmed t = (¬ (t ≡ [])) × (trim_end t ≡ t)

IsTrimmed-cons : (c : ℕ) (t : Text) → IsTrimmed t → IsTrimmed (c ∷ t)
unfolding trim_end keep
IsTrimmed-cons c [] h = absurd (h.0 refl)
IsTrimmed-cons c (d ∷ ds) h = (λ e. absurd (cc e), ap (keep c) h.1)

-- Such a text stays one behind another.
pub IsTrimmed-append : (xs ys : Text) → IsTrimmed ys → IsTrimmed (xs ++ ys)
IsTrimmed-append [] ys h = h
IsTrimmed-append (x ∷ xs) ys h = IsTrimmed-cons x (xs ++ ys) (IsTrimmed-append xs ys h)

-- A text without a character has no word that begins with it.
pub not-contains :
    (c : ℕ) (p xs : Text) → All (λ x. (x == c) ≡ false) xs → contains xs (c ∷ p) ≡ false
unfolding contains starts_with
not-contains c p [] h = refl
not-contains c p (x ∷ xs) h = rw h.0 (not-contains c p xs h.1)
