-- ===== src/Escape/Sound.antt =====
-- The analysis of crates/sarif_codegen/src/escape.rs beside the runs of Escape.Runs, instruction by
-- instruction.
use sarif.Base.{ℕ, zero, suc, ◌≡◌, refl, Bool, true, false, ◌||◌, Option, none, some, List, [], ◌∷◌}
use sarif.Base.{◌⊎◌, any, arith, inl, inr, String, if◌then◌else◌}
use sarif.Mir.Inst.{Inst, Insts, ValueId, LocalSlotId}
use sarif.Escape.Flags.{◌≼◌, ≼_trans, is_set_mono, set_flag, ≼_refl}
use sarif.Escape.Flags.{merge, merge-le_left, merge-le_right}
use sarif.Escape.Env.{
  Env, CalleeMap, callee_escapes, is_escaped, arena_dest, mark, mark_local, mark_if, mark_dest,
  iterate, round_bound, ◌⊑◌,
}
use sarif.Escape.Analyze.{
  analyze, analyze_inst, result_escapes, load_local, store_local, call, join_branches,
}
use sarif.Escape.Order.{
  ⊑_refl, ⊑_trans, Entails, Climbs, is_escaped_mono, result_escapes_mono, any_mono, mark_if-Climbs,
}
use sarif.Escape.Monotone.{analyze-Climbs, analyze_inst-Climbs}
use sarif.Escape.Fixpoint.{iterate-Climbs, iterate_fixed, round_bound_enough}
use sarif.Escape.Runs.{
  Runs, RunsAll, Rounds, skip, plain, makes, slice_bytes, get_element, load, store, build_record,
  build_enum, read_field, read_payload, calls, then_runs, else_runs, while_runs, repeat_runs, stop,
  next, leave, round, overwrite, write_value, write_slot, write_index,
}

-- Overwriting by a smaller bit than the flag that is raised stays below.
overwrite-set_flag :
    (vs ws : List Bool) (i : ℕ) (b : Bool) → vs ≼ ws → overwrite vs i b ≼ set_flag ws i
unfolding overwrite set_flag
overwrite-set_flag [] [] i b h = tt
overwrite-set_flag [] (w ∷ ws) i b h = absurd h
overwrite-set_flag (v ∷ vs) [] i b h = absurd h
overwrite-set_flag (v ∷ vs) (w ∷ ws) zero true h = (refl, h.1)
overwrite-set_flag (v ∷ vs) (w ∷ ws) zero false h = (tt, h.1)
overwrite-set_flag (v ∷ vs) (w ∷ ws) (suc i) b h = (h.0, overwrite-set_flag vs ws i b h.1)

overwrite_down : (vs ws : List Bool) (i : ℕ) → vs ≼ ws → overwrite vs i false ≼ ws
unfolding overwrite
overwrite_down [] [] i h = tt
overwrite_down [] (w ∷ ws) i h = absurd h
overwrite_down (v ∷ vs) [] i h = absurd h
overwrite_down (v ∷ vs) (w ∷ ws) zero h = (tt, h.1)
overwrite_down (v ∷ vs) (w ∷ ws) (suc i) h = (h.0, overwrite_down vs ws i h.1)

plain_below : (d : ValueId) (s a : Env) → s ⊑ a → write_value d false s ⊑ a
unfolding write_value
plain_below d s a h = (overwrite_down s.escaped a.escaped d h.0, h.1)

write_value-mark : (d : ValueId) (b : Bool) (s a : Env) → s ⊑ a → write_value d b s ⊑ mark d a
unfolding write_value mark
write_value-mark d b s a h = (overwrite-set_flag s.escaped a.escaped d b h.0, h.1)

-- What a run writes is covered where the analysis marks on a test that is at least as wide.
write_value-mark_if :
    (d : ValueId) (b t : Bool) (s a : Env) → Entails b t → s ⊑ a → write_value d b s ⊑ mark_if t d a
unfolding mark_if
write_value-mark_if d true true s a e h = write_value-mark d true s a h
write_value-mark_if d true false s a e h = cc (e refl)
write_value-mark_if d false true s a e h = write_value-mark d false s a h
write_value-mark_if d false false s a e h = plain_below d s a h

write_slot-mark_local :
    (slot : LocalSlotId) (b t : Bool) (s a : Env)
    → Entails b t
    → s ⊑ a
    → write_slot slot b s ⊑ (if t then mark_local slot a else a)
unfolding write_slot mark_local
write_slot-mark_local slot b true s a e h =
    (h.0, overwrite-set_flag s.esc_locals a.esc_locals slot b h.1)
write_slot-mark_local slot true false s a e h = cc (e refl)
write_slot-mark_local slot false false s a e h =
    (h.0, overwrite_down s.esc_locals a.esc_locals slot h.1)

write_index_below : (index : Option LocalSlotId) (s a : Env) → s ⊑ a → write_index index s ⊑ a
unfolding write_index
write_index_below none s a h = h
write_index_below (some slot) s a h = (h.0, overwrite_down s.esc_locals a.esc_locals slot h.1)

-- The second mark of a call stands on the state that the first one left.
call_covers_by :
    (t : Bool) (d : ValueId) (args : List ValueId) (b : Bool) (s a : Env)
    → Entails b (t || any (is_escaped s) args)
    → s ⊑ a
    → write_value d b s ⊑ mark_if (any (is_escaped (mark_if t d a)) args) d (mark_if t d a)
unfolding mark_if
call_covers_by true d args b s a e h =
    ⊑_trans _ (mark d a) _ (write_value-mark d b s a h) (mark_if-Climbs _ d (mark d a))
call_covers_by false d args b s a e h =
    write_value-mark_if d b _ s a
      (λ p. any_mono (is_escaped s) (is_escaped a) args (λ x. is_escaped_mono s a x h) (e p)) h

call_covers :
    (m : CalleeMap) (d : ValueId) (f : String) (args : List ValueId) (b : Bool) (s a : Env)
    → Entails b (callee_escapes m f || any (is_escaped s) args)
    → s ⊑ a
    → write_value d b s ⊑ call m d f args a
unfolding call
call_covers m d f args b s a e h = call_covers_by (callee_escapes m f) d args b s a e h

or_left : (p q : Bool) → Entails p (p || q)
or_left p q e = ground arith

or_right : (p q : Bool) → Entails q (p || q)
or_right p q e = ground arith

module _ (d : ValueId) (t e : Option ValueId) (f g : Env → Env) (cf : Climbs f)
    (cg : Climbs g) where
  then_covers :
      (a s : Env) → s ⊑ f a → write_value d (result_escapes s t) s ⊑ join_branches d t e a f g
  unfolding join_branches
  then_covers a s h =
      let start : Env = record (f a) { esc_locals = a.esc_locals } in
      let other = g start in
      let m : Env = record other { esc_locals = merge other.esc_locals (f a).esc_locals } in
      let k : f a ⊑ m = (
        (cg start).0,
        merge-le_right a.esc_locals other.esc_locals (f a).esc_locals (cg start).1 (cf a).1,
      ) in
      let l = ⊑_trans s (f a) m h k in
      write_value-mark_if d _ _ s m
        (λ p. or_left (result_escapes m t) (result_escapes m e) (result_escapes_mono s m t l p)) l

  else_covers :
      (a s s' : Env)
      → s ⊑ a
      → ((b : Env) → s ⊑ b → s' ⊑ g b)
      → write_value d (result_escapes s' e) s' ⊑ join_branches d t e a f g
  unfolding join_branches
  else_covers a s s' h run =
      let start : Env = record (f a) { esc_locals = a.esc_locals } in
      let other = g start in
      let m : Env = record other { esc_locals = merge other.esc_locals (f a).esc_locals } in
      let k : other ⊑ m = (≼_refl other.escaped, merge-le_left other.esc_locals (f a).esc_locals) in
      let l =
        ⊑_trans s' other m (run start (≼_trans s.escaped a.escaped (f a).escaped h.0 (cf a).0, h.1))
          k in
      write_value-mark_if d _ _ s' m
        (λ p. or_right (result_escapes m t) (result_escapes m e) (result_escapes_mono s' m e l p)) l

-- An instruction that makes arena memory is analysed by the mark alone.
arena_dest_marks :
    (m : CalleeMap) (i : Inst) (a : Env)
    → (arena_dest i ≡ none) ⊎ (analyze_inst m i a ≡ mark_dest (arena_dest i) a)
unfolding analyze_inst
arena_dest_marks m (Inst.bytes_slice _ _ _ _) a = inl refl
arena_dest_marks m (Inst.list_get _ _ _) a = inl refl
arena_dest_marks m (Inst.load_local _ _) a = inl refl
arena_dest_marks m (Inst.store_local _ _) a = inl refl
arena_dest_marks m (Inst.make_record _ _ _) a = inl refl
arena_dest_marks m (Inst.make_enum _ _ _ _) a = inl refl
arena_dest_marks m (Inst.field _ _ _) a = inl refl
arena_dest_marks m (Inst.enum_payload _ _ _) a = inl refl
arena_dest_marks m (Inst.call _ _ _) a = inl refl
arena_dest_marks m (Inst.if_else _ _ _ _ _ _) a = inl refl
arena_dest_marks m (Inst.while _ _ _ _) a = inl refl
arena_dest_marks m (Inst.repeat _ _ _ _) a = inl refl
arena_dest_marks m (Inst.handle _ _ _ _) a = inl refl
arena_dest_marks m _ a = inr refl

makes_covers :
    (m : CalleeMap) (i : Inst) (d : ValueId) (b : Bool) (s a : Env)
    → arena_dest i ≡ some d
    → s ⊑ a
    → write_value d b s ⊑ analyze_inst m i a
makes_covers m i d b s a e h = elim (arena_dest_marks m i a) [
  | inl none_made ↦ cc
  | inr marks ↦ rw (marks, e) (unfold mark_dest in write_value-mark d b s a h)
]

module _ (m : CalleeMap) where
  mutual
    unfolding analyze_inst load_local store_local write_index

    run_covers :
        {i : Inst} {s s' : Env} → Runs m i s s' → (a : Env) → s ⊑ a → s' ⊑ analyze_inst m i a
    run_covers (skip {i} {s}) a h = ⊑_trans s a _ h (analyze_inst-Climbs m i a)
    run_covers (plain {i} {s} d) a h =
        ⊑_trans _ a _ (plain_below d s a h) (analyze_inst-Climbs m i a)
    run_covers (makes {i} {s} d b e) a h = makes_covers m i d b s a e h
    run_covers (slice_bytes {d} {v} {s = s}) a h =
        write_value-mark_if d _ _ s a (is_escaped_mono s a v h) h
    run_covers (get_element {d} {v} {s = s}) a h =
        write_value-mark_if d _ _ s a (is_escaped_mono s a v h) h
    run_covers (load {d} {slot} {s}) a h =
        write_value-mark_if d _ _ s a (is_set_mono s.esc_locals a.esc_locals slot h.1) h
    run_covers (store {slot} {v} {s}) a h =
        write_slot-mark_local slot _ (is_escaped a v) s a (is_escaped_mono s a v h) h
    run_covers (build_record {d} {fs = fs} {s = s}) a h =
        write_value-mark_if d _ _ s a
          (any_mono (λ f. is_escaped s f.1) (λ f. is_escaped a f.1) fs
            (λ f. is_escaped_mono s a f.1 h))
          h
    run_covers (build_enum {d} {p = p} {s = s}) a h =
        write_value-mark_if d _ _ s a (result_escapes_mono s a p h) h
    run_covers (read_field {d} {v} {s = s}) a h =
        write_value-mark_if d _ _ s a (is_escaped_mono s a v h) h
    run_covers (read_payload {d} {v} {s = s}) a h =
        write_value-mark_if d _ _ s a (is_escaped_mono s a v h) h
    run_covers (calls {d} {f} {args} {s} b e) a h = call_covers m d f args b s a e h
    run_covers (then_runs {d} {ts = ts} {es} {t} {e} {s} {s'} r) a h =
        then_covers d t e (analyze m ts) (analyze m es) (analyze-Climbs m ts) (analyze-Climbs m es)
          a s' (runs_cover r a h)
    run_covers (else_runs {d} {ts = ts} {es} {t} {e} {s} {s'} r) a h =
        else_covers d t e (analyze m ts) (analyze m es) (analyze-Climbs m ts) (analyze-Climbs m es)
          a s s' h (runs_cover r)
    run_covers (while_runs {d} {cs = cs} {bs} {s} {s'} b r) a h =
        let f : Env → Env = λ q. analyze m bs (analyze m cs q) in
        let c : Climbs f = λ q.
          ⊑_trans q (analyze m cs q) _ (analyze-Climbs m cs q)
            (analyze-Climbs m bs (analyze m cs q)) in
        let last = iterate (round_bound a) f a in
        write_value-mark d b s' last (
          rounds_cover r last
            (rw (iterate_fixed f c (round_bound a) a (round_bound_enough a)) (⊑_refl last))
            (⊑_trans s a last h (iterate-Climbs f c (round_bound a) a)))
    run_covers (repeat_runs {d} {bs = bs} {s} {s'} b r) a h =
        let f = analyze m bs in
        let c = analyze-Climbs m bs in
        let last = iterate (round_bound a) f a in
        write_value-mark d b s' last (
          rounds_cover r last
            (rw (iterate_fixed f c (round_bound a) a (round_bound_enough a)) (⊑_refl last))
            (⊑_trans s a last h (iterate-Climbs f c (round_bound a) a)))

    runs_cover :
        {is : Insts} {s s' : Env} → RunsAll m is s s' → (a : Env) → s ⊑ a → s' ⊑ analyze m is a
    runs_cover (stop {is} {s}) a h = ⊑_trans s a _ h (analyze-Climbs m is a)
    runs_cover (next {i} {is} r rs) a h = runs_cover rs (analyze_inst m i a) (run_covers r a h)

    rounds_cover :
        {cs bs : Insts} {index : Option LocalSlotId} {s s' : Env}
        → Rounds m cs bs index s s'
        → (a : Env) → analyze m bs (analyze m cs a) ⊑ a
        → s ⊑ a
        → s' ⊑ a
    rounds_cover (leave {cs} {bs} {s = s} {t} r) a closed h =
        ⊑_trans t (analyze m cs a) a (runs_cover r a h)
          (⊑_trans (analyze m cs a) _ a (analyze-Climbs m bs (analyze m cs a)) closed)
    rounds_cover (round {cs} {bs} {index} {s} {t} {u} r q rest) a closed h =
        rounds_cover rest a closed (
          ⊑_trans u _ a
            (runs_cover q (analyze m cs a) (runs_cover r a (write_index_below index s a h))) closed)

  -- Whatever a run among those that `RunsAll` has for the map reaches from a state below `a`, broken
  -- off or not, lies below the state that the analysis under the same map reaches from `a`. In these
  -- runs a `handle` does no more than write a plain value, the result of a call refers to arena
  -- memory only if the map says so of the callee or an argument does, and a list, builder or index
  -- that is changed in place changes the bit of no other value.
  pub analyze-covers-runs :
      (insts : Insts) (a s s' : Env) → s ⊑ a → RunsAll m insts s s' → s' ⊑ analyze m insts a
  analyze-covers-runs insts a s s' h r = runs_cover r a h
