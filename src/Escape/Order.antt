-- ===== src/Escape/Order.antt =====
-- Each step of the analysis climbs, and keeps the order of states: the lemmas on the operations of
-- crates/sarif_codegen/src/escape.rs `Env` that the proofs on whole instructions use.
use sarif.Base.{
  ℕ, String, ◌≡◌, refl, inl, inr, Bool, true, false, ◌||◌, Option, none, some, List, [], ◌∷◌, any,
  if◌then◌else◌, arith, Bool-cases,
}
use sarif.Mir.Inst.{ValueId}
use sarif.Escape.Flags.{
  is_set, ≼_refl, ≼_trans, set_flag-le, set_flag-mono, is_set_mono, merge, merge-le_left,
  merge-mono,
}
use sarif.Escape.Env.{
  Env, CalleeMap, callee_escapes, mark, mark_local, is_escaped, mark_if, mark_dest, ◌⊑◌,
}
use sarif.Escape.Analyze.{result_escapes, load_local, store_local, call, join_branches}

pub ⊑_refl : (a : Env) → a ⊑ a
⊑_refl a = (≼_refl a.escaped, ≼_refl a.esc_locals)

pub ⊑_trans : (a b c : Env) → a ⊑ b → b ⊑ c → a ⊑ c
⊑_trans a b c h k = (
  ≼_trans a.escaped b.escaped c.escaped h.0 k.0,
  ≼_trans a.esc_locals b.esc_locals c.esc_locals h.1 k.1,
)

-- Operations that only raise flags, and operations that keep the order.
abbrev pub Climbs : (Env → Env) → Type 0
Climbs f = (a : Env) → a ⊑ f a

-- `f` below `g`, at states in the same order.
abbrev pub Below : (Env → Env) → (Env → Env) → Type 0
Below f g = (a b : Env) → a ⊑ b → f a ⊑ g b

-- What the smaller test allows the larger allows too.
abbrev pub Entails : Bool → Bool → Type 0
Entails p q = p ≡ true → q ≡ true

pub mark-Climbs : (value : ValueId) (a : Env) → a ⊑ mark value a
unfolding mark
mark-Climbs value a = (set_flag-le a.escaped value, ≼_refl a.esc_locals)

pub mark-Below : (value : ValueId) (a b : Env) → a ⊑ b → mark value a ⊑ mark value b
unfolding mark
mark-Below value a b h = (set_flag-mono a.escaped b.escaped value h.0, h.1)

pub mark_if-Climbs : (t : Bool) (value : ValueId) (a : Env) → a ⊑ mark_if t value a
unfolding mark_if
mark_if-Climbs true value a = mark-Climbs value a
mark_if-Climbs false value a = ⊑_refl a

pub mark_if-Below :
    (p q : Bool) (value : ValueId) (a b : Env)
    → Entails p q
    → a ⊑ b
    → mark_if p value a ⊑ mark_if q value b
unfolding mark_if
mark_if-Below true true value a b t h = mark-Below value a b h
mark_if-Below true false value a b t h = cc (t refl)
mark_if-Below false true value a b t h = ⊑_trans a b (mark value b) h (mark-Climbs value b)
mark_if-Below false false value a b t h = h

pub mark_dest-Climbs : (dest : Option ValueId) (a : Env) → a ⊑ mark_dest dest a
unfolding mark_dest
mark_dest-Climbs none a = ⊑_refl a
mark_dest-Climbs (some value) a = mark-Climbs value a

pub mark_dest-Below :
    (dest : Option ValueId) (a b : Env) → a ⊑ b → mark_dest dest a ⊑ mark_dest dest b
unfolding mark_dest
mark_dest-Below none a b h = h
mark_dest-Below (some value) a b h = mark-Below value a b h

pub is_escaped_mono :
    (a b : Env) (value : ValueId) → a ⊑ b → Entails (is_escaped a value) (is_escaped b value)
unfolding is_escaped
is_escaped_mono a b value h = is_set_mono a.escaped b.escaped value h.0

pub any_mono {ℓ} :
    {A : Type ℓ} (p q : A → Bool) (xs : List A)
    → ((x : A) → Entails (p x) (q x))
    → Entails (any p xs) (any q xs)
any_mono p q [] h e = cc
any_mono p q (x ∷ xs) h e = ground (arith, h x, any_mono p q xs h)

pub result_escapes_mono :
    (a b : Env) (result : Option ValueId)
    → a ⊑ b
    → Entails (result_escapes a result) (result_escapes b result)
unfolding result_escapes
result_escapes_mono a b none h e = cc
result_escapes_mono a b (some value) h e = is_escaped_mono a b value h e

pub load_local-Climbs : (dest slot : ℕ) (a : Env) → a ⊑ load_local dest slot a
unfolding load_local
load_local-Climbs dest slot a = mark_if-Climbs (is_set a.esc_locals slot) dest a

pub load_local-Below :
    (dest slot : ℕ) (a b : Env) → a ⊑ b → load_local dest slot a ⊑ load_local dest slot b
unfolding load_local
load_local-Below dest slot a b h =
    mark_if-Below _ _ dest a b (is_set_mono a.esc_locals b.esc_locals slot h.1) h

mark_local-Climbs : (slot : ℕ) (a : Env) → a ⊑ mark_local slot a
unfolding mark_local
mark_local-Climbs slot a = (≼_refl a.escaped, set_flag-le a.esc_locals slot)

pub store_local-Climbs : (slot src : ℕ) (a : Env) → a ⊑ store_local slot src a
unfolding store_local
store_local-Climbs slot src a = elim (Bool-cases (is_escaped a src)) [
  | inl e ↦ rw e (mark_local-Climbs slot a)
  | inr e ↦ rw e (⊑_refl a)
]

store_if-Below :
    (p q : Bool) (slot : ℕ) (a b : Env)
    → Entails p q
    → a ⊑ b
    → (if p then mark_local slot a else a) ⊑ (if q then mark_local slot b else b)
unfolding mark_local
store_if-Below true true slot a b t h = (h.0, set_flag-mono a.esc_locals b.esc_locals slot h.1)
store_if-Below true false slot a b t h = cc (t refl)
store_if-Below false true slot a b t h =
    ⊑_trans a b (mark_local slot b) h (mark_local-Climbs slot b)
store_if-Below false false slot a b t h = h

pub store_local-Below :
    (slot src : ℕ) (a b : Env) → a ⊑ b → store_local slot src a ⊑ store_local slot src b
unfolding store_local
store_local-Below slot src a b h =
    store_if-Below (is_escaped a src) (is_escaped b src) slot a b (is_escaped_mono a b src h) h

-- Every callee that the left map calls escaping is escaping in the right one.
abbrev pub CalleesBelow : CalleeMap → CalleeMap → Type 0
CalleesBelow m m' = (name : String) → Entails (callee_escapes m name) (callee_escapes m' name)

pub call-Climbs :
    (m : CalleeMap) (dest : ValueId) (callee : String) (args : List ValueId) (a : Env)
    → a ⊑ call m dest callee args a
unfolding call
call-Climbs m dest callee args a =
    let a' = mark_if (callee_escapes m callee) dest a in
    ⊑_trans a a' _ (mark_if-Climbs (callee_escapes m callee) dest a) (mark_if-Climbs _ dest a')

pub call-Below :
    (m m' : CalleeMap) (dest : ValueId) (callee : String) (args : List ValueId) (a b : Env)
    → CalleesBelow m m'
    → a ⊑ b
    → call m dest callee args a ⊑ call m' dest callee args b
unfolding call
call-Below m m' dest callee args a b c h =
    let a' = mark_if (callee_escapes m callee) dest a in
    let b' = mark_if (callee_escapes m' callee) dest b in
    let k = mark_if-Below _ _ dest a b (c callee) h in
    mark_if-Below _ _ dest a' b'
      (any_mono (is_escaped a') (is_escaped b') args (λ x. is_escaped_mono a' b' x k)) k

pub or_mono : (p q p' q' : Bool) → Entails p p' → Entails q q' → Entails (p || q) (p' || q')
or_mono true q p' q' h k e = ground (arith, h refl)
or_mono false q p' q' h k e = ground (arith, k)

-- The state behind an `If`, before its destination is marked.
abbrev merged : Env → Env → Env
merged after_then after_else = record after_else {
  esc_locals = merge after_else.esc_locals after_then.esc_locals;
}

pub join_branches-Climbs :
    (d : ValueId) (t e : Option ValueId) (f g : Env → Env)
    → Climbs f
    → Climbs g
    → (a : Env) → a ⊑ join_branches d t e a f g
unfolding join_branches
join_branches-Climbs d t e f g cf cg a =
    let after_then = f a in
    let start : Env = record after_then { esc_locals = a.esc_locals } in
    let m = merged after_then (g start) in
    let h : a ⊑ m = (
      ≼_trans a.escaped after_then.escaped (g start).escaped (cf a).0 (cg start).0,
      ≼_trans a.esc_locals (g start).esc_locals _ (cg start).1
          (merge-le_left (g start).esc_locals after_then.esc_locals),
    ) in
    ⊑_trans a m _ h (mark_if-Climbs _ d m)

pub join_branches-Below :
    (d : ValueId) (t e : Option ValueId) (f g f' g' : Env → Env)
    → Below f f'
    → Below g g'
    → (a b : Env) → a ⊑ b
    → join_branches d t e a f g ⊑ join_branches d t e b f' g'
unfolding join_branches
join_branches-Below d t e f g f' g' bf bg a b h =
    let kt = bf a b h in
    let sa : Env = record (f a) { esc_locals = a.esc_locals } in
    let sb : Env = record (f' b) { esc_locals = b.esc_locals } in
    let ke = bg sa sb (kt.0, h.1) in
    let ma = merged (f a) (g sa) in
    let mb = merged (f' b) (g' sb) in
    let k : ma ⊑ mb = (
      ke.0,
      merge-mono (g sa).esc_locals (g' sb).esc_locals (f a).esc_locals (f' b).esc_locals ke.1 kt.1,
    ) in
    mark_if-Below _ _ d ma mb
      (or_mono _ _ _ _ (result_escapes_mono ma mb t k) (result_escapes_mono ma mb e k)) k
