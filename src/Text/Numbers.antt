-- ===== src/Text/Numbers.antt =====
-- Reading a number from its digits: sarif.Text.parse_i64 after sarif.Text.show_ℕ.
use sarif.Base.{ℕ, zero, suc, ◌+◌, ◌≤◌, ◌<◌, ◌≡◌, true, [], ◌∷◌, arith, Bool-cases, inl, inr}
use sarif.Base.{
  ◌-◌, ◌/◌, ◌%◌, ◌*◌, ltb, leb, none, some, Option, Bool, if◌then◌else◌, sym, ◌∙◌, refl, ap, false,
  ◌==◌,
}
use sarif.Base.Int.{pos}
use sarif.Base.{◌^◌, All}
use sarif.Text.{
  Text, digits, digits_from, show_from, show_ℕ, unsigned, negate, parse_i64, parse_usize,
}

-- A digit is one, and its value is read.
digit_read :
    (k n : ℕ) (t : Text) → n < 10 → digits_from k ((48 + n) ∷ t) ≡ digits_from (10 * k + n) t
unfolding digits_from
digit_read k n t lt =
    let value : 10 * k + (48 + n - 48) ≡ 10 * k + n = omega arith in
    let low : leb 48 (48 + n) ≡ true = ground arith in
    let high : leb (48 + n) 57 ≡ true = ground arith in rw (low, high, value) refl

-- The digits of a number, in front of a text, are read as the number.
digits_from-show_from :
    (fuel n : ℕ) (t : Text) → n < fuel → digits_from 0 (show_from fuel n t) ≡ digits_from n t
unfolding show_from
digits_from-show_from zero n t lt = let wrong : ⊥ = omega (arith, lt) in elim wrong [ ]
digits_from-show_from (suc fuel) n t lt =
    let small : n % 10 < 10 = omega arith in
    elim (Bool-cases (ltb n 10)) [
      | inl e ↦
          let one : n < 10 = ground arith in
          let value : 10 * 0 + n % 10 ≡ n = omega (arith, one) in
          rw (e, show_from) (digit_read 0 (n % 10) t small ∙ ap (λ k. digits_from k t) value)
      | inr e ↦
          let more : 10 ≤ n = ground arith in
          let less : n / 10 < fuel = omega (arith, lt, more) in
          let value : 10 * (n / 10) + n % 10 ≡ n = omega arith in
          rw (e, show_from)
            (digits_from-show_from fuel (n / 10) ((48 + n % 10) ∷ t) less
              ∙ (digit_read (n / 10) (n % 10) t small ∙ ap (λ k. digits_from k t) value))
    ]

-- The digits in front of a text begin with one.
first_digit :
    (fuel n c : ℕ) (t : Text)
    → 48 ≤ c
    → (d : ℕ) × (ds : Text) × (show_from fuel n (c ∷ t) ≡ d ∷ ds) × (48 ≤ d)
unfolding show_from
first_digit zero n c t le = (c, t, refl, le)
first_digit (suc fuel) n c t le =
    let digit : 48 ≤ 48 + n % 10 = omega arith in
    elim (Bool-cases (ltb n 10)) [
      | inl e ↦ (48 + n % 10, c ∷ t, rw (e, show_from) refl, digit)
      | inr e ↦ rw (e, show_from) (first_digit fuel (n / 10) (48 + n % 10) (c ∷ t) digit)
    ]

pub show_begins : (n : ℕ) → (d : ℕ) × (ds : Text) × (show_ℕ n ≡ d ∷ ds) × (48 ≤ d)
unfolding show_ℕ show_from
show_begins n =
    let digit : 48 ≤ 48 + n % 10 = omega arith in
    elim (Bool-cases (ltb n 10)) [
      | inl e ↦ (48 + n % 10, [], rw (e, show_from) refl, digit)
      | inr e ↦ rw (e, show_from) (first_digit n (n / 10) (48 + n % 10) [] digit)
    ]

digits-show_ℕ : (n : ℕ) → digits (show_ℕ n) ≡ some n
unfolding digits digits_from show_ℕ
digits-show_ℕ n =
    let (d, ds, e, le) = show_begins n in
    let all : digits_from 0 (show_ℕ n) ≡ some n =
      digits_from-show_from (suc n) n [] (omega arith) in
    ap digits e ∙ (ap (λ t. digits_from 0 t) (sym e) ∙ all)

unsigned-show_ℕ : (limit n : ℕ) → unsigned limit (show_ℕ n) ≡ (if ltb n limit then some n else none)
unfolding unsigned
unsigned-show_ℕ limit n = rw (digits-show_ℕ n, unsigned) refl

as_pos :
    (b : Bool) (n : ℕ) (r : Option ℕ)
    → r ≡ (if b then some n else none)
    → elim r [ none ↦ none | some k ↦ some (pos k) ] ≡ (if b then some (pos n) else none)
as_pos true n r e = rw e refl
as_pos false n r e = rw e refl

as_negative :
    (b : Bool) (n : ℕ) (r : Option ℕ)
    → r ≡ (if b then some n else none)
    → elim r [ none ↦ none | some k ↦ some (negate k) ] ≡ (if b then some (negate n) else none)
as_negative true n r e = rw e refl
as_negative false n r e = rw e refl

-- The digits of a number are read as it, where it fits.
pub parse_i64-show_ℕ :
    (n : ℕ) → parse_i64 (show_ℕ n) ≡ (if ltb n (2 ^ 63) then some (pos n) else none)
unfolding parse_i64
parse_i64-show_ℕ n =
    let (d, ds, e, le) = show_begins n in
    let no_minus : (d == 45) ≡ false = ground arith in
    let no_plus : (d == 43) ≡ false = ground arith in
    ap parse_i64 e
    ∙ rw (no_minus, no_plus)
        (as_pos (ltb n (2 ^ 63)) n (unsigned (2 ^ 63) (d ∷ ds))
          (ap (unsigned (2 ^ 63)) (sym e) ∙ unsigned-show_ℕ (2 ^ 63) n))

-- And after a minus as the negative number, where that fits.
pub parse_i64-minus :
    (n : ℕ) → parse_i64 (45 ∷ show_ℕ n) ≡ (if ltb n (2 ^ 63 + 1) then some (negate n) else none)
unfolding parse_i64
parse_i64-minus n =
    as_negative (ltb n (2 ^ 63 + 1)) n (unsigned (2 ^ 63 + 1) (show_ℕ n))
      (unsigned-show_ℕ (2 ^ 63 + 1) n)

-- Every digit of a number is one.
show_from-All :
    (fuel n : ℕ) (t : Text)
    → All (λ c. (48 ≤ c) × (c ≤ 57)) t
    → All (λ c. (48 ≤ c) × (c ≤ 57)) (show_from fuel n t)
unfolding show_from
show_from-All zero n t h = h
show_from-All (suc fuel) n t h =
    let digit : (48 ≤ 48 + n % 10) × (48 + n % 10 ≤ 57) = (omega arith, omega arith) in
    elim (Bool-cases (ltb n 10)) [
      | inl e ↦ rw (e, show_from) (digit, h)
      | inr e ↦ rw (e, show_from) (show_from-All fuel (n / 10) ((48 + n % 10) ∷ t) (digit, h))
    ]

pub show_ℕ-All : (n : ℕ) → All (λ c. (48 ≤ c) × (c ≤ 57)) (show_ℕ n)
unfolding show_ℕ
show_ℕ-All n = show_from-All (suc n) n [] tt

-- The digits of a number are read as it, where it fits.
pub parse_usize-show_ℕ :
    (n : ℕ) → parse_usize (show_ℕ n) ≡ (if ltb n (2 ^ 64) then some n else none)
unfolding parse_usize
parse_usize-show_ℕ n =
    let (d, ds, e, le) = show_begins n in
    let no_plus : (d == 43) ≡ false = ground arith in
    ap parse_usize e ∙ rw no_plus (ap (unsigned (2 ^ 64)) (sym e) ∙ unsigned-show_ℕ (2 ^ 64) n)
