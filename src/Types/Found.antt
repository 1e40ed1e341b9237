-- ===== src/Types/Found.antt =====
-- What `type_is_rt_safe` and `type_contains_affine_values` say of a type, crates/sarif_frontend/src/semantic.
use sarif.Base.{
  ℕ, zero, suc, ◌+◌, ◌<◌, ◌≡◌, refl, sym, ap, ◌∙◌, ◌↔◌, inl, inr, Bool, true, false, ◌||◌, Option,
  none, some, List, [], ◌∷◌, ◌++◌, map, length, length-append, any, arith, Bool-cases, Option-cases,
  if◌then◌else◌,
}
use mathlib.Core.Path.{subst}
use sarif.Text.{Text, same_text}
use sarif.Types.Data.{lookup, Ty}
use sarif.Types.Compatible.{contains_name}
use sarif.Types.Contains.{
  rt_safe, rt_safe_name, type_is_rt_safe, affine, affine_name, type_contains_affine_values,
  parts_of, Layouts, Variants,
}
use sarif.Types.Reach.{In, Aim, Reaches, InType, Inside, FindsName, free, free_lt, found_iff}
use sarif.Types.Searches.{
  Decides, Some, any_of-Decides, all_of-Decides, unsafe_aim, affine_aim, unknown_name,
  rt_safe-Decides, affine-Decides,
}

abbrev names {ℓ} : {A : Type ℓ} → List (Text × A) → List Text
names entries = map (λ e. e.0) entries

lookup-names {ℓ} :
    {A : Type ℓ} (n : Text) (entries : List (Text × A)) (v : A)
    → lookup n entries ≡ some v
    → contains_name (names entries) n ≡ true
unfolding lookup contains_name
lookup-names n [] v e = absurd (cc)
lookup-names n ((key, w) ∷ rest) v e = elim (Bool-cases (same_text key n)) [
  | inl s ↦ rw s refl
  | inr s ↦
      let further : lookup n rest ≡ some v =
        subst (λ b. (if b then some w else lookup n rest) ≡ some v) s e in
      rw s (lookup-names n rest v further)
]

length-names {ℓ} :
    {A : Type ℓ} (entries : List (Text × A)) → length (names entries) ≡ length entries
length-names [] = refl
length-names (e ∷ rest) = ap suc (length-names rest)

free_none : (ks : List Text) → free ks [] ≡ length ks
unfolding free contains_name
free_none [] = refl
free_none (k ∷ ks) = ap suc (free_none ks)

contains_left :
    (xs ys : List Text) (n : Text) → contains_name xs n ≡ true → contains_name (xs ++ ys) n ≡ true
unfolding contains_name
contains_left [] ys n e = absurd (cc)
contains_left (x ∷ xs) ys n e = elim (Bool-cases (same_text x n)) [
  | inl s ↦ rw s refl
  | inr s ↦
      rw s (contains_left xs ys n (subst (λ b. (b || any (λ v. same_text v n) xs) ≡ true) s e))
]

contains_right :
    (xs ys : List Text) (n : Text) → contains_name ys n ≡ true → contains_name (xs ++ ys) n ≡ true
unfolding contains_name
contains_right [] ys n e = e
contains_right (x ∷ xs) ys n e = elim (Bool-cases (same_text x n)) [
  | inl s ↦ rw s refl
  | inr s ↦ rw s (contains_right xs ys n e)
]

-- What is decided of a claim is decided of one that is the same.
Decides-iff : (p : Bool) (r : Option Bool) (F G : Type 0) → F ↔ G → Decides p r F → Decides p r G
unfolding Decides
Decides-iff p r F G same (inl (e, f)) = inl (e, same.0 f)
Decides-iff p r F G same (inr (e, lacks)) = inr (e, λ g. lacks (same.1 g))

-- A part of a name among its parts.
Inside-some :
    (aim : Aim) (N : Text → Type 0) (n : Text) (ts : List Ty)
    → aim.parts n ≡ some ts
    → Inside aim N n
    → Some (InType aim N) ts
Inside-some aim N n ts e i =
    let same : i.ts ≡ ts = cc (e, i.are) in (i.t, subst (λ us. In i.t us) same i.among, i.has)

some-Inside :
    (aim : Aim) (N : Text → Type 0) (n : Text) (ts : List Ty)
    → aim.parts n ≡ some ts
    → Some (InType aim N) ts
    → Inside aim N n
some-Inside aim N n ts e (t, i, h) = record { ts = ts; t = t; are = e; among = i; has = h }

no-Inside : (aim : Aim) (N : Text → Type 0) (n : Text) → aim.parts n ≡ none → Inside aim N n → ⊥
no-Inside aim N n e i = cc (e, i.are)

true-false : (b : Bool) → b ≡ true → b ≡ false → ⊥
true-false b e f = cc (e, f)

module _ (struct_fields : List (Text × List Ty)) where
  abbrev aim_of : Aim
  aim_of = unsafe_aim struct_fields

  -- Of a name with fields that is not yet on the way.
  fields_decide :
      (d : ℕ) (visiting : List Text) (n : Text) (fields : List Ty) (r : Option Bool)
      → lookup n struct_fields ≡ some fields
      → contains_name visiting n ≡ false
      → Decides false r (Some (InType aim_of (λ m. FindsName aim_of d (n ∷ visiting) m)) fields)
      → Decides false r (FindsName aim_of (suc d) visiting n)
  unfolding FindsName
  fields_decide d visiting n fields r e v s =
      Decides-iff false r _ _
        (
          λ x. (v, inr (some-Inside aim_of _ n fields e x)),
          λ (x, o). elim o [
            | inl wrong ↦ let none_left : ⊥ = cc wrong in elim none_left [ ]
            | inr i ↦ Inside-some aim_of _ n fields e i
          ],
        )
        s

  rt_safe_name-Decides :
      (d : ℕ) (visiting : List Text) (n : Text)
      → free (names struct_fields) visiting < d
      → Decides false (rt_safe_name struct_fields d visiting n) (FindsName aim_of d visiting n)
  unfolding rt_safe_name Decides FindsName
  rt_safe_name-Decides zero visiting n lt = let wrong : ⊥ = omega (arith, lt) in elim wrong [ ]
  rt_safe_name-Decides (suc d) visiting n lt = elim (Option-cases (lookup n struct_fields)) [
    | inl e ↦ inr (
      rw (e, rt_safe_name) refl,
      λ (x, o). elim o [
        | inl wrong ↦ let none_left : ⊥ = cc wrong in elim none_left [ ]
        | inr i ↦ no-Inside aim_of _ n e i
      ],
    )
    | inr (fields, e) ↦ elim (Bool-cases (contains_name visiting n)) [
      | inl v ↦
          inr (rw (e, rt_safe_name, v) refl, λ (x, o). true-false (contains_name visiting n) v x)
      | inr v ↦
          let deeper : free (names struct_fields) (n ∷ visiting) < d = omega (
            arith,
            lt,
            free_lt (names struct_fields) n visiting (lookup-names n struct_fields fields e) v,
          ) in
          fields_decide d visiting n fields _ e v (
            rw (e, rt_safe_name, v)
              (all_of-Decides (rt_safe (λ m. rt_safe_name struct_fields d (n ∷ visiting) m))
                (InType aim_of (λ m. FindsName aim_of d (n ∷ visiting) m))
                (λ u.
                  rt_safe-Decides struct_fields (λ m. rt_safe_name struct_fields d (n ∷ visiting) m)
                    (λ m. FindsName aim_of d (n ∷ visiting) m)
                    (λ m. rt_safe_name-Decides d (n ∷ visiting) m deeper) u)
                fields))
    ]
  ]

-- With a depth above the number of structs `type_is_rt_safe` ends, and a type is safe at run time exactly
-- when no text, bytes, list, file, builder, index or type parameter is reached from it through the
-- elements of arrays, the sides of pairs and the fields of structs, however these refer to each other.
pub type_is_rt_safe-Decides :
    (struct_fields : List (Text × List Ty)) (depth : ℕ) (ty : Ty)
    → length struct_fields < depth
    → Decides false (type_is_rt_safe struct_fields depth ty) (Reaches (unsafe_aim struct_fields) ty)
unfolding type_is_rt_safe
type_is_rt_safe-Decides struct_fields depth ty lt =
    let enough : free (names struct_fields) [] < depth =
      omega (arith, lt, free_none (names struct_fields), length-names struct_fields) in
    Decides-iff false _ _ _
      (found_iff (unsafe_aim struct_fields) (names struct_fields)
        (λ n ts e. lookup-names n struct_fields ts e) depth ty enough)
      (rt_safe-Decides struct_fields (λ n. rt_safe_name struct_fields depth [] n)
        (λ n. FindsName (unsafe_aim struct_fields) depth [] n)
        (λ n. rt_safe_name-Decides struct_fields depth [] n enough) ty)

parts_known :
    (struct_layouts : Layouts) (enum_variants : Variants) (n : Text) (ts : List Ty)
    → parts_of struct_layouts enum_variants n ≡ some ts
    → contains_name (names struct_layouts ++ names enum_variants) n ≡ true
unfolding parts_of
parts_known struct_layouts enum_variants n ts e = elim (Option-cases (lookup n struct_layouts)) [
  | inr (fields, f) ↦
      contains_left (names struct_layouts) (names enum_variants) n
        (lookup-names n struct_layouts fields f)
  | inl f ↦ elim (Option-cases (lookup n enum_variants)) [
    | inr (variants, g) ↦
        contains_right (names struct_layouts) (names enum_variants) n
          (lookup-names n enum_variants variants g)
    | inl g ↦
        let gone : parts_of struct_layouts enum_variants n ≡ none = rw (f, parts_of, g) refl in
        let nothing : none ≡ some ts = sym gone ∙ e in absurd (cc)
  ]
]

module _ (struct_layouts : Layouts) (enum_variants : Variants) where
  abbrev aim_for : Aim
  aim_for = affine_aim struct_layouts enum_variants

  abbrev all_names : List Text
  all_names = names struct_layouts ++ names enum_variants

  affine_name-Decides :
      (d : ℕ) (visiting : List Text) (n : Text)
      → free all_names visiting < d
      → Decides true
          (affine_name struct_layouts enum_variants d visiting n)
          (FindsName aim_for d visiting n)
  unfolding affine_name Decides FindsName unknown_name
  affine_name-Decides zero visiting n lt = let wrong : ⊥ = omega (arith, lt) in elim wrong [ ]
  affine_name-Decides (suc d) visiting n lt = elim (Bool-cases (contains_name visiting n)) [
    | inl v ↦ inr (rw (v, affine_name) refl, λ (x, o). true-false (contains_name visiting n) v x)
    | inr v ↦ elim (Option-cases (parts_of struct_layouts enum_variants n)) [
      | inl e ↦ inl (rw (v, affine_name, e) refl, (v, inl (rw e refl)))
      | inr (parts, e) ↦
          let deeper : free all_names (n ∷ visiting) < d = omega (
            arith,
            lt,
            free_lt all_names n visiting (parts_known struct_layouts enum_variants n parts e) v,
          ) in
          let shut : unknown_name (parts_of struct_layouts enum_variants n) ≡ false = rw e refl in
          Decides-iff true _ _ _
            (
              λ x. (v, inr (some-Inside aim_for _ n parts e x)),
              λ (x, o). elim o [
                | inl wrong ↦ let none_left : ⊥ = cc (wrong, shut) in elim none_left [ ]
                | inr i ↦ Inside-some aim_for _ n parts e i
              ],
            )
            (rw (v, affine_name, e)
              (any_of-Decides
                (affine (λ m. affine_name struct_layouts enum_variants d (n ∷ visiting) m))
                (InType aim_for (λ m. FindsName aim_for d (n ∷ visiting) m))
                (λ u.
                  affine-Decides struct_layouts enum_variants
                    (λ m. affine_name struct_layouts enum_variants d (n ∷ visiting) m)
                    (λ m. FindsName aim_for d (n ∷ visiting) m)
                    (λ m. affine_name-Decides d (n ∷ visiting) m deeper) u)
                parts))
    ]
  ]

-- With a depth above the number of structs and enums `type_contains_affine_values` ends, and it finds a
-- type to hold affine values exactly when a text, bytes, a list, a file, a builder, an index or a name
-- of which nothing is known is reached from it through the elements of arrays, the sides of pairs, the
-- fields of structs and the payloads of enums, however these refer to each other.
pub type_contains_affine_values-Decides :
    (struct_layouts : Layouts) (enum_variants : Variants) (depth : ℕ) (ty : Ty)
    → length struct_layouts + length enum_variants < depth
    → Decides true
        (type_contains_affine_values struct_layouts enum_variants depth ty)
        (Reaches (affine_aim struct_layouts enum_variants) ty)
unfolding type_contains_affine_values
type_contains_affine_values-Decides struct_layouts enum_variants depth ty lt =
    let keys = names struct_layouts ++ names enum_variants in
    let enough : free keys [] < depth = omega (
      arith,
      lt,
      free_none keys,
      length-append (names struct_layouts) (names enum_variants),
      length-names struct_layouts,
      length-names enum_variants,
    ) in
    Decides-iff true _ _ _
      (found_iff (affine_aim struct_layouts enum_variants) keys
        (parts_known struct_layouts enum_variants) depth ty enough)
      (affine-Decides struct_layouts enum_variants
        (λ n. affine_name struct_layouts enum_variants depth [] n)
        (λ n. FindsName (affine_aim struct_layouts enum_variants) depth [] n)
        (λ n. affine_name-Decides struct_layouts enum_variants depth [] n enough) ty)
