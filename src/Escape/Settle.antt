-- ===== src/Escape/Settle.antt =====
-- The fixed-point loop of crates/sarif_codegen/src/escape.rs `analyze_escapes`: where no two
-- functions share a name it ends, at the least solution, within one round for each function and one
-- more.
use mathlib.Core.Path.{subst}
use sarif.Base.{
  ℕ, zero, suc, ◌≤◌, ◌<◌, String, ◌≡◌, refl, sym, ap, ◌∙◌, inl, inr, Bool, true, false, some, List,
  [], ◌∷◌, length, arith, Bool-cases,
}
use sarif.Mir.{Function}
use sarif.Escape.Env.{CalleeMap, get, callee_escapes}
use sarif.Escape.Order.{Entails, CalleesBelow}
use sarif.Escape.Program.{may_escape, insert, initial_callees, round, settle}
use sarif.Escape.Callees.{
  HasUniqueNames, Holds, round-Holds, round_quiet, round_progress, round_rises, round_bounded,
  misses, misses-le, callee_escapes-insert, may_escape_mono, callee_escapes-get, get-insert,
  get-insert_self,
}
use sarif.Base.{All, All-map}

-- The map agrees with what the analysis says of each function under the map itself.
abbrev pub IsStable : CalleeMap → List Function → Type 0
IsStable m fs = All (λ f. callee_escapes m f.name ≡ may_escape m f) fs

abbrev pub bits : CalleeMap → Function → Bool
bits m f = callee_escapes m f.name

module _ (fs : List Function) (u : HasUniqueNames fs) (m : CalleeMap)
    (h : Holds (bits m) m fs) where
  next : CalleeMap
  next = (round m fs (m, false)).0

  -- The bit of each function after a round.
  next_bits : All (λ f. callee_escapes next f.name ≡ may_escape m f) fs
  unfolding next
  next_bits =
      All-map (λ f g. callee_escapes-get f.name (may_escape m f) next g) fs
        (round-Holds (bits m) m fs m false u h)

  next-Holds : Holds (bits next) next fs
  unfolding next
  next-Holds =
      All-map (λ f g. g ∙ ap some (sym (callee_escapes-get f.name (may_escape m f) next g))) fs
        (round-Holds (bits m) m fs m false u h)

  module _ (rise : All (λ f. Entails (bits m f) (may_escape m f)) fs) where
    next_rises : All (λ f. Entails (bits next f) (may_escape next f)) fs
    unfolding next
    next_rises =
        All-map
          (λ f e b.
            may_escape_mono m next f (round_rises (bits m) m fs m false u h rise) (sym e ∙ b))
          fs next_bits

    next-misses : (round m fs (m, false)).1 ≡ true → misses (bits next) fs < misses (bits m) fs
    next-misses c = omega (
      arith,
      round_progress (bits m) m fs m h rise c,
      misses-le (may_escape m) (bits next) fs (All-map (λ f e b. e ∙ b) fs next_bits),
    )

module _ (fs : List Function) (u : HasUniqueNames fs) where
  -- Before each round the map has a bit for each function, and the round only raises bits.
  settle_within :
      (n : ℕ) (m : CalleeMap)
      → Holds (bits m) m fs
      → All (λ f. Entails (bits m f) (may_escape m f)) fs
      → misses (bits m) fs < n
      → (m' : CalleeMap) × (settle n fs m ≡ some m') × IsStable m' fs
  unfolding settle next
  settle_within zero m h rise lt = elim lt [ ]
  settle_within (suc n) m h rise lt = elim (Bool-cases (round m fs (m, false)).1) [
    | inl c ↦
        rw (c, settle)
          (settle_within n (next fs u m h) (next-Holds fs u m h) (next_rises fs u m h rise)
            (omega (arith, next-misses fs u m h rise c)))
    | inr c ↦ let q = round_quiet (bits m) m fs m h c in (m, rw (c, settle) (ap some q.0), q.1)
  ]

  -- Every solution that lies above the map at the start lies above the one that the loop finds.
  settle_below :
      (top : CalleeMap)
      → All (λ f. Entails (may_escape top f) (callee_escapes top f.name)) fs
      → (n : ℕ) (m m' : CalleeMap) → Holds (bits m) m fs
      → CalleesBelow m top
      → settle n fs m ≡ some m'
      → CalleesBelow m' top
  unfolding settle next
  settle_below top closed zero m m' h le e = cc
  settle_below top closed (suc n) m m' h le e = elim (Bool-cases (round m fs (m, false)).1) [
    | inl c ↦
        settle_below top closed n (next fs u m h) m' (next-Holds fs u m h) up (rw (c, settle) at e)
    | inr c ↦
        let p : some (round m fs (m, false)).0 ≡ some m' = rw (c, settle) at e in
        let q : (round m fs (m, false)).0 ≡ m' = cc in subst (λ t. CalleesBelow t top) q up
  ]
    where
      up : CalleesBelow (round m fs (m, false)).0 top
      up =
          round_bounded (bits m) m top fs m false u h
            (All-map (λ f p q. p (may_escape_mono m top f le q)) fs closed) le

-- The map at the start has a bit for each function, and every bit is down.
initial_get :
    (fs : List Function) (m : CalleeMap) (k : String)
    → get k m ≡ some false
    → get k (initial_callees fs m) ≡ some false
unfolding initial_callees
initial_get [] m k h = h
initial_get (f ∷ fs) m k h =
    initial_get fs (insert f.name false m) k (ground (arith, get-insert k f.name false m))

initial-Holds : (fs : List Function) (m : CalleeMap) → Holds (λ _. false) (initial_callees fs m) fs
unfolding initial_callees
initial-Holds [] m = tt
initial-Holds (f ∷ fs) m =
    let m' = insert f.name false m in
    (initial_get fs m' f.name (get-insert_self f.name false m), initial-Holds fs m')

pub initial_down :
    (fs : List Function) (m : CalleeMap) (k : String)
    → callee_escapes m k ≡ false
    → callee_escapes (initial_callees fs m) k ≡ false
unfolding initial_callees
initial_down [] m k h = h
initial_down (f ∷ fs) m k h =
    initial_down fs (insert f.name false m) k
      (ground (arith, callee_escapes-insert k f.name false m))

initial_bits : (fs : List Function) (k : String) → callee_escapes (initial_callees fs []) k ≡ false
unfolding callee_escapes get
initial_bits fs k = initial_down fs [] k refl

misses-le-length : (p : Function → Bool) (fs : List Function) → misses p fs ≤ length fs
unfolding misses
misses-le-length p [] = omega arith
misses-le-length p (f ∷ fs) = ground (arith, misses-le-length p fs)

initial_state :
    (fs : List Function) → Holds (bits (initial_callees fs [])) (initial_callees fs []) fs
initial_state fs =
    All-map (λ f g. g ∙ ap some (sym (initial_bits fs f.name))) fs (initial-Holds fs [])

All-true {ℓ} : {P : Function → Type ℓ} → ((f : Function) → P f) → (fs : List Function) → All P fs
All-true h [] = tt
All-true h (f ∷ fs) = (h f, All-true h fs)

-- Where no two functions share a name, one round for each function and one more are enough: the
-- loop ends, and the map it ends with agrees with what the analysis says of each function under it.
pub settle-IsStable :
    (fs : List Function)
    → HasUniqueNames fs
    → (m : CalleeMap) × (settle (suc (length fs)) fs (initial_callees fs []) ≡ some m)
      × IsStable m fs
settle-IsStable fs u =
    let start = initial_callees fs [] in
    settle_within fs u (suc (length fs)) start (initial_state fs)
      (All-true (λ f e. absurd (cc (initial_bits fs f.name))) fs)
      (omega (arith, misses-le-length (bits start) fs))

-- Where no two functions share a name, and the loop ends with a map within the given rounds, that map
-- calls a name escaping only if every map does that is closed under the analysis of each function.
pub settle_least :
    (fs : List Function)
    → HasUniqueNames fs
    → (fuel : ℕ) (m top : CalleeMap) → settle fuel fs (initial_callees fs []) ≡ some m
    → All (λ f. Entails (may_escape top f) (callee_escapes top f.name)) fs
    → (name : String) → callee_escapes m name ≡ true
    → callee_escapes top name ≡ true
settle_least fs u fuel m top e closed name b =
    settle_below fs u top closed fuel (initial_callees fs []) m (initial_state fs)
      (λ k down. absurd (cc (initial_bits fs k))) e name b
