-- ===== src/Types/Searches.antt =====
-- The pieces of the searches of crates/sarif_frontend/src/semantic/profile.rs and support.rs as decisions.
use sarif.Base.{◌≡◌, refl, ◌⊎◌, inl, inr, Bool, true, false, not, Option, none, some, List, [], ◌∷◌}
use sarif.Text.{Text}
use sarif.Types.Data.{
  lookup, Ty, i32, i64, f64, bool, text, bytes, text_index, text_builder, file, unit, named,
  type_param, array, list, pair, error,
}
use sarif.Types.Contains.{all_of, any_of, rt_safe, affine, parts_of, Layouts, Variants}
use sarif.Types.Reach.{In, first, later, Aim, InType}

-- A test that gives `p` where something holds, and else the other.
unfoldable pub Decides : Bool → Option Bool → Type 0 → Type 0
Decides p r F = ((r ≡ some p) × F) ⊎ ((r ≡ some (not p)) × (F → ⊥))

-- Something in a list.
abbrev pub Some : (Ty → Type 0) → List Ty → Type 0
Some F ts = (t : Ty) × In t ts × F t

no_member : (F : Ty → Type 0) → Some F [] → ⊥
no_member F (t, i, f) = elim i [ ]

uncons : (F : Ty → Type 0) (t : Ty) (ts : List Ty) → Some F (t ∷ ts) → F t ⊎ Some F ts
uncons F t ts (_, first, f) = inl f
uncons F t ts (u, later i, f) = inr (u, i, f)

pub any_of-Decides :
    (f : Ty → Option Bool) (F : Ty → Type 0)
    → ((t : Ty) → Decides true (f t) (F t))
    → (ts : List Ty) → Decides true (any_of f ts) (Some F ts)
unfolding any_of Decides
any_of-Decides f F d [] = inr (refl, no_member F)
any_of-Decides f F d (t ∷ ts) = elim (d t) [
  | inl (e, h) ↦ inl (rw (e, any_of) refl, (t, first, h))
  | inr (e, lacks) ↦ elim (any_of-Decides f F d ts) [
    | inl (g, (u, i, h)) ↦ inl (rw (e, any_of, g) refl, (u, later i, h))
    | inr (g, none_later) ↦ inr (
      rw (e, any_of, g) refl,
      λ s. elim (uncons F t ts s) [ inl h ↦ lacks h | inr r ↦ none_later r ],
    )
  ]
]

pub all_of-Decides :
    (f : Ty → Option Bool) (F : Ty → Type 0)
    → ((t : Ty) → Decides false (f t) (F t))
    → (ts : List Ty) → Decides false (all_of f ts) (Some F ts)
unfolding all_of Decides
all_of-Decides f F d [] = inr (refl, no_member F)
all_of-Decides f F d (t ∷ ts) = elim (d t) [
  | inl (e, h) ↦ inl (rw (e, all_of) refl, (t, first, h))
  | inr (e, lacks) ↦ elim (all_of-Decides f F d ts) [
    | inl (g, (u, i, h)) ↦ inl (rw (e, all_of, g) refl, (u, later i, h))
    | inr (g, none_later) ↦ inr (
      rw (e, all_of, g) refl,
      λ s. elim (uncons F t ts s) [ inl h ↦ lacks h | inr r ↦ none_later r ],
    )
  ]
]

either : {A B : Type 0} → (A → ⊥) → (B → ⊥) → A ⊎ B → ⊥
either f g (inl a) = f a
either f g (inr b) = g b

-- The types that are not safe at run time, besides the names.
unfoldable pub unsafe_leaf : Ty → Bool
unsafe_leaf text = true
unsafe_leaf bytes = true
unsafe_leaf (type_param _) = true
unsafe_leaf text_index = true
unsafe_leaf text_builder = true
unsafe_leaf (list _) = true
unsafe_leaf file = true
unsafe_leaf _ = false

-- A name leads to its fields, and one without fields is safe.
abbrev pub unsafe_aim : List (Text × List Ty) → Aim
unsafe_aim struct_fields = record {
  leaf = unsafe_leaf;
  open_name = λ n. false;
  parts = λ n. lookup n struct_fields;
}

-- The types that hold affine values, besides the names.
unfoldable pub affine_leaf : Ty → Bool
affine_leaf text = true
affine_leaf bytes = true
affine_leaf text_index = true
affine_leaf text_builder = true
affine_leaf (list _) = true
affine_leaf file = true
affine_leaf _ = false

unfoldable pub unknown_name : Option (List Ty) → Bool
unknown_name none = true
unknown_name (some _) = false

-- A name leads to its fields or payloads, and one of which nothing is known is affine.
abbrev pub affine_aim : Layouts → Variants → Aim
affine_aim struct_layouts enum_variants = record {
  leaf = affine_leaf;
  open_name = λ n. unknown_name (parts_of struct_layouts enum_variants n);
  parts = parts_of struct_layouts enum_variants;
}

module _ (struct_fields : List (Text × List Ty)) where
  pub rt_safe-Decides :
      (g : Text → Option Bool) (N : Text → Type 0)
      → ((n : Text) → Decides false (g n) (N n))
      → (t : Ty) → Decides false (rt_safe g t) (InType (unsafe_aim struct_fields) N t)
  unfolding rt_safe Decides InType unsafe_leaf
  rt_safe-Decides g N h (named n) = h n
  rt_safe-Decides g N h (array t _) = rt_safe-Decides g N h t
  rt_safe-Decides g N h (pair t u) = elim (rt_safe-Decides g N h t) [
    | inl (e, f) ↦ inl (rw (e, rt_safe) refl, inl f)
    | inr (e, lacks) ↦ elim (rt_safe-Decides g N h u) [
      | inl (k, f) ↦ inl (rw (e, rt_safe, k) refl, inr f)
      | inr (k, none_right) ↦ inr (rw (e, rt_safe, k) refl, either lacks none_right)
    ]
  ]
  rt_safe-Decides g N h i32 = inr (refl, λ e. absurd (cc))
  rt_safe-Decides g N h i64 = inr (refl, λ e. absurd (cc))
  rt_safe-Decides g N h f64 = inr (refl, λ e. absurd (cc))
  rt_safe-Decides g N h bool = inr (refl, λ e. absurd (cc))
  rt_safe-Decides g N h text = inl (refl, refl)
  rt_safe-Decides g N h bytes = inl (refl, refl)
  rt_safe-Decides g N h text_index = inl (refl, refl)
  rt_safe-Decides g N h text_builder = inl (refl, refl)
  rt_safe-Decides g N h file = inl (refl, refl)
  rt_safe-Decides g N h unit = inr (refl, λ e. absurd (cc))
  rt_safe-Decides g N h (type_param _) = inl (refl, refl)
  rt_safe-Decides g N h (list _) = inl (refl, refl)
  rt_safe-Decides g N h error = inr (refl, λ e. absurd (cc))

module _ (struct_layouts : Layouts) (enum_variants : Variants) where
  pub affine-Decides :
      (g : Text → Option Bool) (N : Text → Type 0)
      → ((n : Text) → Decides true (g n) (N n))
      → (t : Ty) → Decides true (affine g t) (InType (affine_aim struct_layouts enum_variants) N t)
  unfolding affine Decides InType affine_leaf
  affine-Decides g N h (named n) = h n
  affine-Decides g N h (array t _) = affine-Decides g N h t
  affine-Decides g N h (pair t u) = elim (affine-Decides g N h t) [
    | inl (e, f) ↦ inl (rw (e, affine) refl, inl f)
    | inr (e, lacks) ↦ elim (affine-Decides g N h u) [
      | inl (k, f) ↦ inl (rw (e, affine, k) refl, inr f)
      | inr (k, none_right) ↦ inr (rw (e, affine, k) refl, either lacks none_right)
    ]
  ]
  affine-Decides g N h i32 = inr (refl, λ e. absurd (cc))
  affine-Decides g N h i64 = inr (refl, λ e. absurd (cc))
  affine-Decides g N h f64 = inr (refl, λ e. absurd (cc))
  affine-Decides g N h bool = inr (refl, λ e. absurd (cc))
  affine-Decides g N h text = inl (refl, refl)
  affine-Decides g N h bytes = inl (refl, refl)
  affine-Decides g N h text_index = inl (refl, refl)
  affine-Decides g N h text_builder = inl (refl, refl)
  affine-Decides g N h file = inl (refl, refl)
  affine-Decides g N h unit = inr (refl, λ e. absurd (cc))
  affine-Decides g N h (type_param _) = inr (refl, λ e. absurd (cc))
  affine-Decides g N h (list _) = inl (refl, refl)
  affine-Decides g N h error = inr (refl, λ e. absurd (cc))
