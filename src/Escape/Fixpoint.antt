-- ===== src/Escape/Fixpoint.antt =====
-- The loops of crates/sarif_codegen/src/escape.rs (`While`, `Repeat`): within the bound on rounds
-- they end by their own test, at the least state above the first one that the body leaves alone.
use sarif.Base.{ℕ, zero, suc, ◌+◌, ◌<◌, ◌≡◌, ap, inl, inr, true, false, arith, Bool-cases}
use sarif.Escape.Flags.{unset, flags_eq, flags_eq-eq, unset-le, unset-lt}
use sarif.Escape.Env.{Env, env_eq, iterate, round_bound, ◌⊑◌}
use sarif.Escape.Order.{⊑_refl, ⊑_trans, Climbs, Below}

abbrev down : Env → ℕ
down a = unset a.escaped + unset a.esc_locals

pub env_eq-eq : (a b : Env) → env_eq a b ≡ true → a ≡ b
unfolding env_eq
env_eq-eq a b h =
    ground (arith, flags_eq-eq a.escaped b.escaped, flags_eq-eq a.esc_locals b.esc_locals)

-- A round that changes the state raises a flag.
pub down-lt : (a b : Env) → a ⊑ b → env_eq b a ≡ false → down b < down a
unfolding env_eq
down-lt a b h e = elim (Bool-cases (flags_eq b.escaped a.escaped)) [
  | inl p ↦ omega (
    arith,
    unset-le a.escaped b.escaped h.0,
    unset-lt a.esc_locals b.esc_locals h.1 (ground arith),
  )
  | inr p ↦
      omega (arith, unset-lt a.escaped b.escaped h.0 p, unset-le a.esc_locals b.esc_locals h.1)
]

module _ (f : Env → Env) where
  pub iterate-Climbs : Climbs f → (n : ℕ) (a : Env) → a ⊑ iterate n f a
  unfolding iterate
  iterate-Climbs c zero a = ⊑_refl a
  iterate-Climbs c (suc n) a = elim (Bool-cases (env_eq (f a) a)) [
    | inl e ↦ rw (e, iterate) (c a)
    | inr e ↦ rw (e, iterate) (⊑_trans a (f a) _ (c a) (iterate-Climbs c n (f a)))
  ]

  -- Enough rounds reach a state that the body does not change.
  pub iterate_fixed : Climbs f → (n : ℕ) (a : Env) → down a < n → f (iterate n f a) ≡ iterate n f a
  unfolding iterate
  iterate_fixed c zero a h = elim h [ ]
  iterate_fixed c (suc n) a h = elim (Bool-cases (env_eq (f a) a)) [
    | inl e ↦ rw (e, iterate) (ap f (env_eq-eq (f a) a e))
    | inr e ↦ rw (e, iterate) (iterate_fixed c n (f a) (omega (arith, down-lt a (f a) (c a) e)))
  ]

  -- The state reached stays below every state that the body does not leave upwards.
  pub iterate_bounded :
      (n : ℕ) (a b : Env) → ((s : Env) → s ⊑ b → f s ⊑ b) → a ⊑ b → iterate n f a ⊑ b
  unfolding iterate
  iterate_bounded zero a b stays h = h
  iterate_bounded (suc n) a b stays h = elim (Bool-cases (env_eq (f a) a)) [
    | inl e ↦ rw (e, iterate) (stays a h)
    | inr e ↦ rw (e, iterate) (iterate_bounded n (f a) b stays (stays a h))
  ]

-- The bound on rounds of the model, written out.
pub round_bound_enough : (a : Env) → down a < round_bound a
unfolding round_bound
round_bound_enough a = omega arith

-- Loops keep the order of states and of bodies.
pub iterate-Below :
    (f g : Env → Env)
    → Climbs g
    → Below f g
    → (n k : ℕ) (a b : Env) → down b < k
    → a ⊑ b
    → iterate n f a ⊑ iterate k g b
iterate-Below f g c m n k a b h le =
    iterate_bounded f n a (iterate k g b)
      (λ s q. rw (iterate_fixed g c k b h) at (m s (iterate k g b) q))
      (⊑_trans a b (iterate k g b) le (iterate-Climbs g c k b))
