-- ===== src/Escape/Flags.antt =====
-- The bit vectors of the analysis (`Vec<bool>`): bounded reads and writes, the merge of two
-- vectors, and the order in which the analysis climbs.
use sarif.Base.{ℕ, zero, suc, ◌≤◌, ◌<◌, ◌≡◌, refl, Bool, true, false, ◌||◌, ◌&&◌}
use sarif.Base.{List, [], ◌∷◌, arith}

-- `idx < v.len() && v[idx]`
unfoldable pub is_set : List Bool → ℕ → Bool
is_set [] i = false
is_set (b ∷ bs) zero = b
is_set (b ∷ bs) (suc i) = is_set bs i

-- `if idx < v.len() { v[idx] = true; }`
unfoldable pub set_flag : List Bool → ℕ → List Bool
set_flag [] i = []
set_flag (b ∷ bs) zero = true ∷ bs
set_flag (b ∷ bs) (suc i) = b ∷ set_flag bs i

-- `for i in 0..v.len() { if i < w.len() && w[i] { v[i] = true; } }`
unfoldable pub merge : List Bool → List Bool → List Bool
merge [] ws = []
merge (v ∷ vs) [] = v ∷ vs
merge (v ∷ vs) (w ∷ ws) = (v || w) ∷ merge vs ws

bool_eq : Bool → Bool → Bool
bool_eq true b = b
bool_eq false true = false
bool_eq false false = true

-- `*v == w`
unfoldable pub flags_eq : List Bool → List Bool → Bool
unfolding bool_eq
flags_eq [] [] = true
flags_eq [] (w ∷ ws) = false
flags_eq (v ∷ vs) [] = false
flags_eq (v ∷ vs) (w ∷ ws) = bool_eq v w && flags_eq vs ws

pub flags_eq-eq : (vs ws : List Bool) → flags_eq vs ws ≡ true → vs ≡ ws
unfolding flags_eq
flags_eq-eq [] [] h = refl
flags_eq-eq [] (w ∷ ws) h = cc
flags_eq-eq (v ∷ vs) [] h = cc
flags_eq-eq (v ∷ vs) (w ∷ ws) h = ground (arith, flags_eq-eq vs ws)

-- How many flags are still down.
unfoldable pub unset : List Bool → ℕ
unset [] = 0
unset (true ∷ bs) = unset bs
unset (false ∷ bs) = suc (unset bs)

abbrev pub Implies : Bool → Bool → Type 0
Implies true b = b ≡ true
Implies false b = Unit

-- The same length, and every flag that is up on the left is up on the right.
infix 50 ◌≼◌
abbrev pub ◌≼◌ : List Bool → List Bool → Type 0
[] ≼ [] = Unit
[] ≼ (w ∷ ws) = ⊥
(v ∷ vs) ≼ [] = ⊥
(v ∷ vs) ≼ (w ∷ ws) = Implies v w × (vs ≼ ws)

pub Implies-refl : (b : Bool) → Implies b b
Implies-refl true = refl
Implies-refl false = tt

pub ≼_refl : (vs : List Bool) → vs ≼ vs
≼_refl [] = tt
≼_refl (v ∷ vs) = (Implies-refl v, ≼_refl vs)

Implies-trans : (a b c : Bool) → Implies a b → Implies b c → Implies a c
Implies-trans false b c h k = tt
Implies-trans true true c h k = k
Implies-trans true false c h k = cc

pub ≼_trans : (us vs ws : List Bool) → us ≼ vs → vs ≼ ws → us ≼ ws
≼_trans [] [] [] h k = tt
≼_trans [] [] (w ∷ ws) h k = k
≼_trans [] (v ∷ vs) ws h k = absurd h
≼_trans (u ∷ us) [] ws h k = absurd h
≼_trans (u ∷ us) (v ∷ vs) [] h k = absurd k
≼_trans (u ∷ us) (v ∷ vs) (w ∷ ws) h k = (Implies-trans u v w h.0 k.0, ≼_trans us vs ws h.1 k.1)

pub is_set_mono : (vs ws : List Bool) (i : ℕ) → vs ≼ ws → is_set vs i ≡ true → is_set ws i ≡ true
unfolding is_set
is_set_mono [] ws i h e = cc
is_set_mono (v ∷ vs) [] i h e = absurd h
is_set_mono (v ∷ vs) (w ∷ ws) zero h e = ground arith
is_set_mono (v ∷ vs) (w ∷ ws) (suc i) h e = is_set_mono vs ws i h.1 e

pub set_flag-le : (vs : List Bool) (i : ℕ) → vs ≼ set_flag vs i
unfolding set_flag
set_flag-le [] i = tt
set_flag-le (true ∷ vs) zero = (refl, ≼_refl vs)
set_flag-le (false ∷ vs) zero = (tt, ≼_refl vs)
set_flag-le (v ∷ vs) (suc i) = (Implies-refl v, set_flag-le vs i)

Implies-true : (b : Bool) → Implies b true
Implies-true true = refl
Implies-true false = tt

pub set_flag-mono : (vs ws : List Bool) (i : ℕ) → vs ≼ ws → set_flag vs i ≼ set_flag ws i
unfolding set_flag
set_flag-mono [] [] i h = tt
set_flag-mono [] (w ∷ ws) i h = absurd h
set_flag-mono (v ∷ vs) [] i h = absurd h
set_flag-mono (v ∷ vs) (w ∷ ws) zero h = (refl, h.1)
set_flag-mono (v ∷ vs) (w ∷ ws) (suc i) h = (h.0, set_flag-mono vs ws i h.1)

-- A flag that is up already is not changed by raising it, so a raised vector stays below.
pub set_flag-below : (vs ws : List Bool) (i : ℕ) → vs ≼ ws → is_set ws i ≡ true → set_flag vs i ≼ ws
unfolding set_flag is_set
set_flag-below [] [] i h e = tt
set_flag-below [] (w ∷ ws) i h e = absurd h
set_flag-below (v ∷ vs) [] i h e = absurd h
set_flag-below (v ∷ vs) (w ∷ ws) zero h e = (e, h.1)
set_flag-below (v ∷ vs) (w ∷ ws) (suc i) h e = (h.0, set_flag-below vs ws i h.1 e)

Implies-or : (v w : Bool) → Implies v (v || w)
Implies-or true w = refl
Implies-or false w = tt

Implies-or_right : (v w : Bool) → Implies w (v || w)
Implies-or_right true true = refl
Implies-or_right false true = refl
Implies-or_right true false = tt
Implies-or_right false false = tt

Implies-or_mono : (v w x y : Bool) → Implies v x → Implies w y → Implies (v || w) (x || y)
Implies-or_mono true w true y h k = refl
Implies-or_mono true w false y h k = cc
Implies-or_mono false true true y h k = refl
Implies-or_mono false true false y h k = k
Implies-or_mono false false x y h k = tt

pub merge-le_left : (vs ws : List Bool) → vs ≼ merge vs ws
unfolding merge
merge-le_left [] ws = tt
merge-le_left (v ∷ vs) [] = ≼_refl (v ∷ vs)
merge-le_left (v ∷ vs) (w ∷ ws) = (Implies-or v w, merge-le_left vs ws)

pub merge-le_right : (us vs ws : List Bool) → us ≼ vs → us ≼ ws → ws ≼ merge vs ws
unfolding merge
merge-le_right [] [] [] h k = tt
merge-le_right [] vs (w ∷ ws) h k = absurd k
merge-le_right [] (v ∷ vs) [] h k = absurd h
merge-le_right (u ∷ us) [] ws h k = absurd h
merge-le_right (u ∷ us) (v ∷ vs) [] h k = absurd k
merge-le_right (u ∷ us) (v ∷ vs) (w ∷ ws) h k =
    (Implies-or_right v w, merge-le_right us vs ws h.1 k.1)

pub merge-mono : (vs vs' ws ws' : List Bool) → vs ≼ vs' → ws ≼ ws' → merge vs ws ≼ merge vs' ws'
unfolding merge
merge-mono [] [] ws ws' h k = tt
merge-mono [] (v' ∷ vs') ws ws' h k = absurd h
merge-mono (v ∷ vs) [] ws ws' h k = absurd h
merge-mono (v ∷ vs) (v' ∷ vs') [] [] h k = h
merge-mono (v ∷ vs) (v' ∷ vs') [] (w' ∷ ws') h k = absurd k
merge-mono (v ∷ vs) (v' ∷ vs') (w ∷ ws) [] h k = absurd k
merge-mono (v ∷ vs) (v' ∷ vs') (w ∷ ws) (w' ∷ ws') h k =
    (Implies-or_mono v w v' w' h.0 k.0, merge-mono vs vs' ws ws' h.1 k.1)

pub unset-le : (vs ws : List Bool) → vs ≼ ws → unset ws ≤ unset vs
unfolding unset
unset-le [] [] h = omega arith
unset-le [] (w ∷ ws) h = absurd h
unset-le (v ∷ vs) [] h = absurd h
unset-le (true ∷ vs) (true ∷ ws) h = unset-le vs ws h.1
unset-le (true ∷ vs) (false ∷ ws) h = cc (h.0)
unset-le (false ∷ vs) (true ∷ ws) h = omega (arith, unset-le vs ws h.1)
unset-le (false ∷ vs) (false ∷ ws) h = omega (arith, unset-le vs ws h.1)

-- A vector that grew and is not the old one has fewer flags down.
pub unset-lt : (vs ws : List Bool) → vs ≼ ws → flags_eq ws vs ≡ false → unset ws < unset vs
unfolding unset flags_eq
unset-lt [] [] h e = cc
unset-lt [] (w ∷ ws) h e = absurd h
unset-lt (v ∷ vs) [] h e = absurd h
unset-lt (true ∷ vs) (true ∷ ws) h e = unset-lt vs ws h.1 e
unset-lt (true ∷ vs) (false ∷ ws) h e = cc (h.0)
unset-lt (false ∷ vs) (true ∷ ws) h e = omega (arith, unset-le vs ws h.1)
unset-lt (false ∷ vs) (false ∷ ws) h e = omega (arith, unset-lt vs ws h.1 e)
