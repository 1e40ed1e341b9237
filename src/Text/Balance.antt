-- ===== src/Text/Balance.antt =====
-- Texts whose brackets match: a scan that counts the open ones, and the texts that leave every count
-- as it was. It is used on what crates/sarif_query_planner/src/plan.rs and codegen.rs print.
use sarif.Base.{
  ℕ, zero, suc, ◌+◌, ◌/◌, ◌%◌, ◌<◌, ◌≡◌, refl, ◌∙◌, Option, none, some, List, [], ◌∷◌, ◌++◌,
  if◌then◌else◌, ◌==◌, ltb, arith, Bool-cases, inl, inr, All, Option-cases,
}
use sarif.Base.Int.{ℤ, pos, negsuc}
use sarif.Text.{Text, join, show_ℕ, show_ℤ, show_from}

close_one : ℕ → Option ℕ
close_one zero = none
close_one (suc d) = some d

module _ (open_char close_char : ℕ) where
  unfoldable pub count_bracket : ℕ → ℕ → Option ℕ
  unfolding close_one
  count_bracket d c =
      if c == open_char then some (suc d) else if c == close_char then close_one d else some d

  -- The brackets open after a text, from `d` before it; `none` if one closes that is not open.
  unfoldable pub scan : ℕ → Text → Option ℕ
  unfolding count_bracket
  scan d [] = some d
  scan d (c ∷ cs) = elim (count_bracket d c) [ none ↦ none | some e ↦ scan e cs ]

  -- The brackets of a text match, wherever it stands.
  abbrev pub IsBalanced : Text → Type 0
  IsBalanced t = (d : ℕ) → scan d t ≡ some d

  pub scan-append : (d e : ℕ) (t u : Text) → scan d t ≡ some e → scan d (t ++ u) ≡ scan e u
  unfolding scan
  scan-append d e [] u h = ground arith
  scan-append d e (c ∷ cs) u h = elim (Option-cases (count_bracket d c)) [
    | inl p ↦ absurd (cc (rw (p, scan) at h))
    | inr (f, p) ↦ rw (p, scan) (scan-append f e cs u (rw (p, scan) at h))
  ]

  pub IsBalanced-append : (t u : Text) → IsBalanced t → IsBalanced u → IsBalanced (t ++ u)
  IsBalanced-append t u ht hu d = scan-append d d t u (ht d) ∙ hu d

  pub IsBalanced-nil : IsBalanced []
  unfolding scan
  IsBalanced-nil d = refl

  -- A character that is no bracket changes no count.
  abbrev pub IsPlain : ℕ → Type 0
  IsPlain c = (d : ℕ) → count_bracket d c ≡ some d

  pub IsBalanced-cons : (c : ℕ) (t : Text) → IsPlain c → IsBalanced t → IsBalanced (c ∷ t)
  unfolding scan
  IsBalanced-cons c t p h d = rw (p d, scan) (h d)

  pub IsBalanced-join :
      (sep : Text) (ts : List Text) → IsBalanced sep → All IsBalanced ts → IsBalanced (join sep ts)
  unfolding join
  IsBalanced-join sep [] hs h = IsBalanced-nil
  IsBalanced-join sep (t ∷ []) hs h = h.0
  IsBalanced-join sep (t ∷ u ∷ ts) hs h =
      IsBalanced-append t (sep ++ join sep (u ∷ ts)) h.0
        (IsBalanced-append sep (join sep (u ∷ ts)) hs (IsBalanced-join sep (u ∷ ts) hs h.1))

  -- A text between an opening and a closing part that match.
  pub IsBalanced-between :
      (before t after : Text)
      → ((d : ℕ) → scan d before ≡ some (suc d))
      → IsBalanced t
      → ((d : ℕ) → scan (suc d) after ≡ some d)
      → IsBalanced (before ++ (t ++ after))
  IsBalanced-between before t after hb ht ha d =
      scan-append d (suc d) before (t ++ after) (hb d)
      ∙ (scan-append (suc d) (suc d) t after (ht (suc d)) ∙ ha d)

  module _ (digits : (n : ℕ) → n < 10 → IsPlain (48 + n)) where
    IsBalanced-show_from : (fuel n : ℕ) (t : Text) → IsBalanced t → IsBalanced (show_from fuel n t)
    unfolding show_from
    IsBalanced-show_from zero n t h = h
    IsBalanced-show_from (suc fuel) n t h =
        let here = IsBalanced-cons (48 + n % 10) t (digits (n % 10) (omega arith)) h in
        elim (Bool-cases (ltb n 10)) [
          | inl e ↦ rw (e, show_from) here
          | inr e ↦ rw (e, show_from) (IsBalanced-show_from fuel (n / 10) _ here)
        ]

    pub IsBalanced-show_ℕ : (n : ℕ) → IsBalanced (show_ℕ n)
    unfolding show_ℕ
    IsBalanced-show_ℕ n = IsBalanced-show_from (suc n) n [] IsBalanced-nil

-- Digits are no brackets.
pub parentheses_digits : (n : ℕ) → n < 10 → IsPlain 40 41 (48 + n)
unfolding count_bracket
parentheses_digits n h d = ground arith

pub braces_digits : (n : ℕ) → n < 10 → IsPlain 123 125 (48 + n)
unfolding count_bracket
braces_digits n h d = ground arith

pub IsBalanced-show_ℤ : (v : ℤ) → IsBalanced 40 41 (show_ℤ v)
unfolding show_ℤ
IsBalanced-show_ℤ (pos n) = IsBalanced-show_ℕ 40 41 parentheses_digits n
IsBalanced-show_ℤ (negsuc n) =
    IsBalanced-cons 40 41 45 _ (unfold count_bracket in λ d. refl)
      (IsBalanced-show_ℕ 40 41 parentheses_digits (suc n))

-- The scan goes through a text that is balanced.
pub scan-through :
    (o c : ℕ) (t u : Text) (d e : ℕ)
    → IsBalanced o c t
    → scan o c d u ≡ some e
    → scan o c d (t ++ u) ≡ some e
scan-through o c t u d e h k = scan-append o c d d t u (h d) ∙ k
