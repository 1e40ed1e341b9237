-- ===== src/Escape/Callees.antt =====
-- The map of callees of crates/sarif_codegen/src/escape.rs `analyze_escapes` through its reads, and
-- what one round of the fixed-point loop does to it.
use sarif.Base.{All, All-map}
use sarif.Base.{
  ℕ, suc, ◌≤◌, ◌<◌, String, ◌≡◌, refl, sym, ap, ◌∙◌, ◌≢◌, inl, inr, Bool, true, false, Option, none,
  some, List, [], ◌∷◌, is_some_and, if◌then◌else◌, str_eq, eq_iff, arith, Bool-cases,
}
use sarif.Mir.{Function}
use sarif.Escape.Env.{CalleeMap, get, callee_escapes}
use mathlib.Core.Path.{subst}
use sarif.Base.{◌⊎◌, ◌&&◌}
use sarif.Escape.Order.{Entails, CalleesBelow, is_escaped_mono, ⊑_refl}
use sarif.Escape.Monotone.{analyze-Below}
use sarif.Escape.Program.{may_escape, value_may_escape, initial_env, insert, update_callee, round}

-- No two functions of a program share a name.
abbrev pub HasUniqueNames : List Function → Type 0
HasUniqueNames [] = Unit
HasUniqueNames (f ∷ fs) = All (λ g. f.name ≢ g.name) fs × HasUniqueNames fs

pub get-insert :
    (k j : String) (b : Bool) (m : CalleeMap)
    → get k (insert j b m) ≡ (if str_eq j k then some b else get k m)
unfolding get insert
get-insert k j b [] = refl
get-insert k j b ((i, c) ∷ m) =
    ground (arith, eq_iff i j, eq_iff j k, eq_iff i k, get-insert k j b m)

pub get-insert_self : (k : String) (b : Bool) (m : CalleeMap) → get k (insert k b m) ≡ some b
get-insert_self k b m = ground (arith, get-insert k k b m, eq_iff k k)

pub get-insert_ne :
    (k j : String) (b : Bool) (m : CalleeMap) → j ≢ k → get k (insert j b m) ≡ get k m
get-insert_ne k j b m h = ground (arith, get-insert k j b m, eq_iff j k)

-- The map holds the bit `old f` for each function.
abbrev pub Holds : (Function → Bool) → CalleeMap → List Function → Type 0
Holds old m fs = All (λ f. get f.name m ≡ some (old f)) fs

pub Holds-insert :
    (old : Function → Bool) (k : String) (b : Bool) (m : CalleeMap) (fs : List Function)
    → All (λ g. k ≢ g.name) fs
    → Holds old m fs
    → Holds old (insert k b m) fs
Holds-insert old k b m [] other h = tt
Holds-insert old k b m (g ∷ fs) other h =
    (get-insert_ne g.name k b m other.0 ∙ h.0, Holds-insert old k b m fs other.1 h.1)

module _ (old : Function → Bool) (snap : CalleeMap) (f : Function) where
  -- A function whose bit is right leaves the state alone; else its bit is turned.
  pub update_changes :
      (m : CalleeMap) (changed : Bool)
      → get f.name m ≡ some (old f)
      → (update_callee snap f (m, changed) ≡ (m, changed)) × (old f ≡ may_escape snap f)
        ⊎ (update_callee snap f (m, changed) ≡ (insert f.name (may_escape snap f) m, true))
          × (old f ≢ may_escape snap f)
  unfolding update_callee
  update_changes m changed h = elim (Bool-cases (old f)) [
    | inl p ↦ elim (Bool-cases (may_escape snap f)) [
      | inl q ↦ inl (rw (h, p, q) refl, p ∙ sym q)
      | inr q ↦ inr (rw (h, p, q) refl, λ e. cc)
    ]
    | inr p ↦ elim (Bool-cases (may_escape snap f)) [
      | inl q ↦ inr (rw (h, p, q) refl, λ e. cc)
      | inr q ↦ inl (rw (h, p, q) refl, p ∙ sym q)
    ]
  ]

  pub update_get :
      (m : CalleeMap) (changed : Bool)
      → get f.name m ≡ some (old f)
      → get f.name (update_callee snap f (m, changed)).0 ≡ some (may_escape snap f)
  update_get m changed h = elim (update_changes m changed h) [
    | inl (e, q) ↦ rw e (rw q at h)
    | inr (e, q) ↦ rw e (get-insert_self f.name (may_escape snap f) m)
  ]

  pub update_other :
      (m : CalleeMap) (changed : Bool) (k : String)
      → get f.name m ≡ some (old f)
      → f.name ≢ k
      → get k (update_callee snap f (m, changed)).0 ≡ get k m
  update_other m changed k h ne = elim (update_changes m changed h) [
    | inl (e, q) ↦ rw e refl
    | inr (e, q) ↦ rw e (get-insert_ne k f.name (may_escape snap f) m ne)
  ]

  pub update-Holds :
      (m : CalleeMap) (changed : Bool) (fs : List Function)
      → get f.name m ≡ some (old f)
      → All (λ g. f.name ≢ g.name) fs
      → Holds old m fs
      → Holds old (update_callee snap f (m, changed)).0 fs
  update-Holds m changed fs h other k = elim (update_changes m changed h) [
    | inl (e, q) ↦ rw e k
    | inr (e, q) ↦ rw e (Holds-insert old f.name (may_escape snap f) m fs other k)
  ]

module _ (old : Function → Bool) (snap : CalleeMap) where
  -- A round leaves the bits of other names alone.
  pub round_other :
      (fs : List Function) (m : CalleeMap) (changed : Bool) (k : String)
      → HasUniqueNames fs
      → Holds old m fs
      → All (λ g. g.name ≢ k) fs
      → get k (round snap fs (m, changed)).0 ≡ get k m
  unfolding round
  round_other [] m changed k u h other = refl
  round_other (f ∷ fs) m changed k u h other =
      let s = update_callee snap f (m, changed) in
      round_other fs s.0 s.1 k u.1 (update-Holds old snap f m changed fs h.0 u.0 h.1) other.1
      ∙ update_other old snap f m changed k h.0 other.0

  -- After a round the map holds for each function what the snapshot says of it.
  pub round-Holds :
      (fs : List Function) (m : CalleeMap) (changed : Bool)
      → HasUniqueNames fs
      → Holds old m fs
      → Holds (may_escape snap) (round snap fs (m, changed)).0 fs
  unfolding round
  round-Holds [] m changed u h = tt
  round-Holds (f ∷ fs) m changed u h =
      let s = update_callee snap f (m, changed) in
      let k = update-Holds old snap f m changed fs h.0 u.0 h.1 in
      (
        round_other fs s.0 s.1 f.name u.1 k (All-map (λ g ne e. ne (sym e)) fs u.0)
            ∙ update_get old snap f m changed h.0,
        round-Holds fs s.0 s.1 u.1 k,
      )

  update_changed : (f : Function) (m : CalleeMap) → (update_callee snap f (m, true)).1 ≡ true
  unfolding update_callee
  update_changed f m = ground arith

  -- A change in a round is remembered to its end.
  round_changed :
      (fs : List Function) (s : CalleeMap × Bool) → s.1 ≡ true → (round snap fs s).1 ≡ true
  unfolding round
  round_changed [] s h = h
  round_changed (f ∷ fs) (m, changed) h = round_changed fs _ (rw h (update_changed f m))

  -- A round that reports no change left the map alone, and every bit was right.
  pub round_quiet :
      (fs : List Function) (m : CalleeMap)
      → Holds old m fs
      → (round snap fs (m, false)).1 ≡ false
      → ((round snap fs (m, false)).0 ≡ m) × All (λ f. old f ≡ may_escape snap f) fs
  unfolding round
  round_quiet [] m h quiet = (refl, tt)
  round_quiet (f ∷ fs) m h quiet = elim (update_changes old snap f m false h.0) [
    | inl (e, q) ↦
        let r = round_quiet fs m h.1 (subst (λ p. (round snap fs p).1 ≡ false) e quiet) in
        (ap (λ p. (round snap fs p).0) e ∙ r.0, (q, r.1))
    | inr (e, q) ↦ absurd (cc (round_changed fs (update_callee snap f (m, false)) (rw e refl)))
  ]

-- How many functions the bits leave out.
unfoldable pub misses : (Function → Bool) → List Function → ℕ
misses p [] = 0
misses p (f ∷ fs) = if p f then misses p fs else suc (misses p fs)

pub misses-le :
    (p q : Function → Bool) (fs : List Function)
    → All (λ f. Entails (p f) (q f)) fs
    → misses q fs ≤ misses p fs
unfolding misses
misses-le p q [] h = omega arith
misses-le p q (f ∷ fs) h = ground (arith, h.0, misses-le p q fs h.1)

-- A round that changes something turns a bit that was down.
pub round_progress :
    (old : Function → Bool) (snap : CalleeMap) (fs : List Function) (m : CalleeMap)
    → Holds old m fs
    → All (λ f. Entails (old f) (may_escape snap f)) fs
    → (round snap fs (m, false)).1 ≡ true
    → misses (may_escape snap) fs < misses old fs
unfolding round misses
round_progress old snap [] m h rise c = cc
round_progress old snap (f ∷ fs) m h rise c = elim (update_changes old snap f m false h.0) [
  | inl (e, q) ↦ ground (
    arith,
    q,
    round_progress old snap fs m h.1 rise.1 (subst (λ p. (round snap fs p).1 ≡ true) e c),
  )
  | inr (e, q) ↦ ground (arith, q, rise.0, misses-le old (may_escape snap) fs rise.1)
]

pub callee_escapes-insert :
    (k j : String) (b : Bool) (m : CalleeMap)
    → callee_escapes (insert j b m) k ≡ (if str_eq j k then b else callee_escapes m k)
unfolding callee_escapes
callee_escapes-insert k j b m = ground (arith, get-insert k j b m)

pub callee_escapes-get :
    (k : String) (b : Bool) (m : CalleeMap) → get k m ≡ some b → callee_escapes m k ≡ b
unfolding callee_escapes
callee_escapes-get k b m h = rw h

-- A round raises bits only, if what the snapshot says holds of what the map says.
pub round_rises :
    (old : Function → Bool) (snap : CalleeMap) (fs : List Function) (m : CalleeMap) (changed : Bool)
    → HasUniqueNames fs
    → Holds old m fs
    → All (λ f. Entails (old f) (may_escape snap f)) fs
    → CalleesBelow m (round snap fs (m, changed)).0
unfolding round
round_rises old snap [] m changed u h rise k e = e
round_rises old snap (f ∷ fs) m changed u h rise k e =
    let s = update_callee snap f (m, changed) in
    round_rises old snap fs s.0 s.1 u.1 (update-Holds old snap f m changed fs h.0 u.0 h.1) rise.1 k
      (elim (update_changes old snap f m changed h.0) [
        | inl (q, _) ↦ rw q e
        | inr (q, _) ↦ rw q (
            ground (
              arith,
              callee_escapes-insert k f.name (may_escape snap f) m,
              eq_iff f.name k,
              callee_escapes-get f.name (old f) m h.0,
              rise.0,
            ))
      ])

-- A round stays below a map that is above the old one and above what the snapshot says.
pub round_bounded :
    (old : Function → Bool) (snap top : CalleeMap) (fs : List Function) (m : CalleeMap)
    (changed : Bool)
    → HasUniqueNames fs
    → Holds old m fs
    → All (λ f. Entails (may_escape snap f) (callee_escapes top f.name)) fs
    → CalleesBelow m top
    → CalleesBelow (round snap fs (m, changed)).0 top
unfolding round
round_bounded old snap top [] m changed u h up le = le
round_bounded old snap top (f ∷ fs) m changed u h up le =
    let s = update_callee snap f (m, changed) in
    round_bounded old snap top fs s.0 s.1 u.1 (update-Holds old snap f m changed fs h.0 u.0 h.1)
      up.1
      (elim (update_changes old snap f m changed h.0) [
        | inl (q, _) ↦ rw q le
        | inr (q, _) ↦ rw q (λ k. ground (
          arith,
          callee_escapes-insert k f.name (may_escape snap f) m,
          eq_iff f.name k,
          le k,
          up.0,
        ))
      ])

and_mono : (p q q' : Bool) → Entails q q' → Entails (p && q) (p && q')
and_mono p q q' h e = ground (arith, h)

is_some_and_mono {ℓ} :
    {A : Type ℓ} (p q : A → Bool) (o : Option A)
    → ((x : A) → Entails (p x) (q x))
    → Entails (is_some_and p o) (is_some_and q o)
is_some_and_mono p q none h e = e
is_some_and_mono p q (some x) h e = h x e

value_may_escape_mono :
    (m m' : CalleeMap) (f : Function) (value : ℕ)
    → CalleesBelow m m'
    → Entails (value_may_escape value f m) (value_may_escape value f m')
unfolding value_may_escape
value_may_escape_mono m m' f value c =
    let start = initial_env f in
    is_escaped_mono _ _ value (analyze-Below m m' c f.instructions start start (⊑_refl start))

-- What is known of the callees only adds to what may escape.
pub may_escape_mono :
    (m m' : CalleeMap) (f : Function)
    → CalleesBelow m m'
    → Entails (may_escape m f) (may_escape m' f)
unfolding may_escape
may_escape_mono m m' f c =
    is_some_and_mono _ _ f.result (λ value. and_mono _ _ _ (value_may_escape_mono m m' f value c))
