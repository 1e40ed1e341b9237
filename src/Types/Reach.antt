-- ===== src/Types/Reach.antt =====
-- What a type leads to through its elements and the fields of the named types, for
-- crates/sarif_frontend/src/semantic/profile.rs and support.rs, and searches for it that note the names
-- on their way.
use sarif.Base.{
  ℕ, zero, suc, ◌≤◌, ◌<◌, ◌≡◌, refl, sym, ap, ◌∙◌, ◌⊎◌, ◌↔◌, inl, inr, Bool, true, false, ◌||◌,
  Option, some, List, [], ◌∷◌, any, arith, Bool-cases, if◌then◌else◌,
}
use mathlib.Core.Path.{subst}
use sarif.Text.{Text, same_text}
use sarif.Text.Laws.{same_text_eq, same_text_refl}
use sarif.Types.Data.{
  ConstExpr, Ty, i32, i64, f64, bool, text, bytes, text_index, text_builder, file, unit, named,
  type_param, array, list, pair, error,
}
use sarif.Types.Compatible.{contains_name}

-- A member of a list.
pub data In : Ty → List Ty → Type 0 where
  first : {t : Ty} {ts : List Ty} → In t (t ∷ ts)
  later : {t u : Ty} {ts : List Ty} → In t ts → In t (u ∷ ts)

-- What is looked for: types, and names; and what a name is made of.
pub record Aim : Type 0 where
  pub leaf : Ty → Bool
  pub open_name : Text → Bool
  pub parts : Text → Option (List Ty)

-- Neither a name, an array nor a pair.
unfoldable pub is_plain_type : Ty → Bool
is_plain_type (named _) = false
is_plain_type (array _ _) = false
is_plain_type (pair _ _) = false
is_plain_type _ = true

-- A type that is looked for is reached through elements of arrays, sides of pairs and parts of names.
pub data Reaches (aim : Aim) : Ty → Type 0 where
  there : {t : Ty} → is_plain_type t ≡ true → aim.leaf t ≡ true → Reaches aim t
  at_name : {n : Text} → aim.open_name n ≡ true → Reaches aim (named n)
  element : {t : Ty} {len : ConstExpr} → Reaches aim t → Reaches aim (array t len)
  left : {t u : Ty} → Reaches aim t → Reaches aim (pair t u)
  right : {t u : Ty} → Reaches aim u → Reaches aim (pair t u)
  part :
      {n : Text} {t : Ty} {ts : List Ty}
      → aim.parts n ≡ some ts
      → In t ts
      → Reaches aim t
      → Reaches aim (named n)

-- The same with a predicate on names.
unfoldable pub InType : Aim → (Text → Type 0) → Ty → Type 0
InType aim by_name (named n) = by_name n
InType aim by_name (array t _) = InType aim by_name t
InType aim by_name (pair t u) = InType aim by_name t ⊎ InType aim by_name u
InType aim by_name t = aim.leaf t ≡ true

-- A part of a name.
pub record Inside (aim : Aim) (by_name : Text → Type 0) (n : Text) : Type 0 where
  pub ts : List Ty
  pub t : Ty
  pub are : aim.parts n ≡ some ts
  pub among : In t ts
  pub has : InType aim by_name t

-- Within a number of names.
unfoldable pub ReachesName : Aim → ℕ → Text → Type 0
ReachesName aim zero n = ⊥
ReachesName aim (suc k) n = (aim.open_name n ≡ true) ⊎ Inside aim (λ m. ReachesName aim k m) n

-- And through none of some names, nor one twice.
unfoldable pub FindsName : Aim → ℕ → List Text → Text → Type 0
unfolding contains_name
FindsName aim zero visiting n = ⊥
FindsName aim (suc k) visiting n =
    (contains_name visiting n ≡ false)
    × ((aim.open_name n ≡ true) ⊎ Inside aim (λ m. FindsName aim k (n ∷ visiting) m) n)

-- The names that are not yet on the way.
unfoldable pub free : List Text → List Text → ℕ
unfolding contains_name
free [] visiting = 0
free (k ∷ ks) visiting =
    let rest = free ks visiting in if contains_name visiting k then rest else suc rest

free_le :
    (ks : List Text) (n : Text) (visiting : List Text) → free ks (n ∷ visiting) ≤ free ks visiting
unfolding free contains_name
free_le [] n visiting = omega arith
free_le (k ∷ ks) n visiting = elim (Bool-cases (contains_name visiting k)) [
  | inl e ↦ elim (Bool-cases (same_text n k)) [
    | inl f ↦ rw (e, f) (free_le ks n visiting)
    | inr f ↦ rw (e, f) (free_le ks n visiting)
  ]
  | inr e ↦ elim (Bool-cases (same_text n k)) [
    | inl f ↦ rw (e, f) (omega (arith, free_le ks n visiting))
    | inr f ↦ rw (e, f) (omega (arith, free_le ks n visiting))
  ]
]

pub free_lt :
    (ks : List Text) (n : Text) (visiting : List Text)
    → contains_name ks n ≡ true
    → contains_name visiting n ≡ false
    → free ks (n ∷ visiting) < free ks visiting
unfolding free contains_name
free_lt [] n visiting e f = absurd (cc)
free_lt (k ∷ ks) n visiting e f = elim (Bool-cases (same_text k n)) [
  | inl s ↦
      let same : k ≡ n = same_text_eq k n s in
      let out : contains_name visiting k ≡ false =
        ap (λ x. any (λ v. same_text v x) visiting) same ∙ f in
      let own : same_text n k ≡ true = ap (λ x. same_text n x) same ∙ same_text_refl n in
      rw (out, own) (omega (arith, free_le ks n visiting))
  | inr s ↦
      let among : contains_name ks n ≡ true =
        subst (λ b. (b || any (λ v. same_text v n) ks) ≡ true) s e in
      let less = free_lt ks n visiting among f in
      elim (Bool-cases (contains_name visiting k)) [
        | inl v ↦ elim (Bool-cases (same_text n k)) [
          | inl w ↦ rw (v, w) less
          | inr w ↦ rw (v, w) less
        ]
        | inr v ↦ elim (Bool-cases (same_text n k)) [
          | inl w ↦ rw (v, w) (omega (arith, less))
          | inr w ↦ rw (v, w) (omega (arith, less))
        ]
      ]
]

-- From one predicate on names to another, or to what a name has instead.
in_type :
    (aim : Aim) (N M : Text → Type 0) (R : Type 0)
    → ((n : Text) → N n → M n ⊎ R)
    → (t : Ty) → InType aim N t
    → InType aim M t ⊎ R
unfolding InType
in_type aim N M R f (named n) h = f n h
in_type aim N M R f (array t _) h = in_type aim N M R f t h
in_type aim N M R f (pair t u) (inl h) = elim (in_type aim N M R f t h) [
  | inl g ↦ inl (inl g)
  | inr r ↦ inr r
]
in_type aim N M R f (pair t u) (inr h) = elim (in_type aim N M R f u h) [
  | inl g ↦ inl (inr g)
  | inr r ↦ inr r
]
in_type aim N M R f i32 h = inl h
in_type aim N M R f i64 h = inl h
in_type aim N M R f f64 h = inl h
in_type aim N M R f bool h = inl h
in_type aim N M R f text h = inl h
in_type aim N M R f bytes h = inl h
in_type aim N M R f text_index h = inl h
in_type aim N M R f text_builder h = inl h
in_type aim N M R f file h = inl h
in_type aim N M R f unit h = inl h
in_type aim N M R f (type_param _) h = inl h
in_type aim N M R f (list _) h = inl h
in_type aim N M R f error h = inl h

-- A name on the way, from which what is looked for is reached in no more names.
pub record Again (aim : Aim) (k : ℕ) (visiting : List Text) : Type 0 where
  pub m : Text
  pub j : ℕ
  pub seen : contains_name visiting m ≡ true
  pub short : j ≤ k
  pub reach : ReachesName aim j m

shorter :
    {aim : Aim} (k j : ℕ) (visiting : List Text) (F : Type 0)
    → j ≤ k
    → F ⊎ Again aim j visiting
    → F ⊎ Again aim (suc k) visiting
shorter k j visiting F le (inl f) = inl f
shorter k j visiting F le (inr a) = inr (record {
  m = a.m;
  j = a.j;
  seen = a.seen;
  short = omega (arith, le, a.short);
  reach = a.reach;
})

seen_before :
    {aim : Aim} (k : ℕ) (visiting : List Text) (n : Text) (a : Again aim k (n ∷ visiting))
    → same_text n a.m ≡ false
    → Again aim (suc k) visiting
unfolding contains_name
seen_before k visiting n a s = record {
  m = a.m;
  j = a.j;
  seen = subst (λ b. (b || any (λ v. same_text v a.m) visiting) ≡ true) s a.seen;
  short = omega (arith, a.short);
  reach = a.reach;
}

module _ (aim : Aim) (keys : List Text)
    (known : (n : Text) (ts : List Ty) → aim.parts n ≡ some ts → contains_name keys n ≡ true) where
  -- A way through names that goes round is cut short.
  ReachesName-Finds :
      (most k d : ℕ) (visiting : List Text) (n : Text)
      → k ≤ most
      → free keys visiting < d
      → ReachesName aim k n
      → FindsName aim d visiting n ⊎ Again aim k visiting
  unfolding ReachesName FindsName
  ReachesName-Finds most zero d visiting n le lt h = elim h [ ]
  ReachesName-Finds zero (suc k) d visiting n le lt h =
      let wrong : ⊥ = omega (arith, le) in elim wrong [ ]
  ReachesName-Finds (suc most) (suc k) zero visiting n le lt h =
      let wrong : ⊥ = omega (arith, lt) in elim wrong [ ]
  ReachesName-Finds (suc most) (suc k) (suc d) visiting n le lt h =
      elim (Bool-cases (contains_name visiting n)) [
        | inl e ↦ inr (record { m = n; j = suc k; seen = e; short = omega arith; reach = h })
        | inr e ↦ elim h [
          | inl o ↦ inl (e, inl o)
          | inr i ↦
              let deeper : free keys (n ∷ visiting) < d =
                omega (arith, lt, free_lt keys n visiting (known n i.ts i.are) e) in
              elim (in_type aim (λ m. ReachesName aim k m) (λ m. FindsName aim d (n ∷ visiting) m)
                (Again aim k (n ∷ visiting))
                (λ m r. ReachesName-Finds most k d (n ∷ visiting) m (omega (arith, le)) deeper r)
                i.t i.has) [
                  | inl g ↦ inl (
                    e,
                    inr (record { ts = i.ts; t = i.t; are = i.are; among = i.among; has = g }),
                  )
                  | inr a ↦ elim (Bool-cases (same_text n a.m)) [
                    | inl s ↦
                        let own : ReachesName aim a.j n =
                          subst (λ m. ReachesName aim a.j m) (sym (same_text_eq n a.m s)) a.reach in
                        shorter k a.j visiting (FindsName aim (suc d) visiting n) a.short (
                          ReachesName-Finds most a.j (suc d) visiting n (omega (arith, le, a.short))
                            lt own)
                    | inr s ↦ inr (seen_before k visiting n a s)
                  ]
                ]
        ]
      ]

  -- Without names on the way yet, what is reached is found, at a depth above the number of names.
  reached_found :
      (k d : ℕ) (n : Text) → free keys [] < d → ReachesName aim k n → FindsName aim d [] n
  unfolding contains_name
  reached_found k d n lt h = elim (ReachesName-Finds k k d [] n (omega arith) lt h) [
    | inl f ↦ f
    | inr a ↦ let seen : false ≡ true = a.seen in absurd (cc)
  ]

  found_in :
      (d : ℕ) (t : Ty)
      → free keys [] < d
      → (k : ℕ) → InType aim (λ n. ReachesName aim k n) t
      → InType aim (λ n. FindsName aim d [] n) t
  found_in d t lt k h =
      elim (in_type aim (λ n. ReachesName aim k n) (λ n. FindsName aim d [] n) ⊥
        (λ n r. inl (reached_found k d n lt r)) t h) [ inl g ↦ g | inr wrong ↦ elim wrong [ ] ]

-- Reaching within some number of names.
abbrev Within : Aim → Ty → Type 0
Within aim t = (k : ℕ) × InType aim (λ n. ReachesName aim k n) t

leaf_in :
    (aim : Aim) (N : Text → Type 0) (t : Ty)
    → is_plain_type t ≡ true
    → aim.leaf t ≡ true
    → InType aim N t
unfolding InType is_plain_type
leaf_in aim N (named _) p e = absurd (cc)
leaf_in aim N (array _ _) p e = absurd (cc)
leaf_in aim N (pair _ _) p e = absurd (cc)
leaf_in aim N _ p e = e

Reaches-Within : (aim : Aim) (t : Ty) → Reaches aim t → Within aim t
unfolding InType ReachesName
Reaches-Within aim t (there p e) = (0, leaf_in aim _ t p e)
Reaches-Within aim _ (at_name e) = (1, inl e)
Reaches-Within aim _ (element r) = Reaches-Within aim _ r
Reaches-Within aim _ (left r) = let w = Reaches-Within aim _ r in (w.0, inl w.1)
Reaches-Within aim _ (right r) = let w = Reaches-Within aim _ r in (w.0, inr w.1)
Reaches-Within aim _ (part {n} {t} {ts} are among r) =
    let w = Reaches-Within aim _ r in
    (suc w.0, inr (record { ts = ts; t = t; are = are; among = among; has = w.1 }))

in-Reaches :
    (aim : Aim) (N : Text → Type 0)
    → ((n : Text) → N n → Reaches aim (named n))
    → (t : Ty) → InType aim N t
    → Reaches aim t
unfolding InType is_plain_type
in-Reaches aim N f (named n) h = f n h
in-Reaches aim N f (array t _) h = element (in-Reaches aim N f t h)
in-Reaches aim N f (pair t u) (inl h) = left (in-Reaches aim N f t h)
in-Reaches aim N f (pair t u) (inr h) = right (in-Reaches aim N f u h)
in-Reaches aim N f i32 h = there refl h
in-Reaches aim N f i64 h = there refl h
in-Reaches aim N f f64 h = there refl h
in-Reaches aim N f bool h = there refl h
in-Reaches aim N f text h = there refl h
in-Reaches aim N f bytes h = there refl h
in-Reaches aim N f text_index h = there refl h
in-Reaches aim N f text_builder h = there refl h
in-Reaches aim N f file h = there refl h
in-Reaches aim N f unit h = there refl h
in-Reaches aim N f (type_param _) h = there refl h
in-Reaches aim N f (list _) h = there refl h
in-Reaches aim N f error h = there refl h

FindsName-Reaches :
    (aim : Aim) (d : ℕ) (visiting : List Text) (n : Text)
    → FindsName aim d visiting n
    → Reaches aim (named n)
unfolding FindsName
FindsName-Reaches aim zero visiting n h = elim h [ ]
FindsName-Reaches aim (suc d) visiting n (e, inl o) = at_name o
FindsName-Reaches aim (suc d) visiting n (e, inr i) = part i.are i.among (
    in-Reaches aim (λ m. FindsName aim d (n ∷ visiting) m)
      (λ m h. FindsName-Reaches aim d (n ∷ visiting) m h) i.t i.has)

-- A search that notes the names on its way finds what is reached, at a depth above the number of names.
pub found_iff :
    (aim : Aim) (keys : List Text)
    → ((n : Text) (ts : List Ty) → aim.parts n ≡ some ts → contains_name keys n ≡ true)
    → (d : ℕ) (t : Ty) → free keys [] < d
    → InType aim (λ n. FindsName aim d [] n) t ↔ Reaches aim t
found_iff aim keys known d t lt = (
  λ h. in-Reaches aim (λ n. FindsName aim d [] n) (λ n g. FindsName-Reaches aim d [] n g) t h,
  λ r. let w = Reaches-Within aim t r in found_in aim keys known d t lt w.0 w.1,
)
