-- ===== src/Escape/Monotone.antt =====
-- The transfer functions of crates/sarif_codegen/src/escape.rs `analyze` and `analyze_inst` only
-- raise flags, keep the order of states, and follow what is known of the callees.
use sarif.Base.{any}
use sarif.Mir.Inst.{Inst, Insts, Arms, ValueId, nil, cons, no_arms, arm}
use sarif.Escape.Env.{Env, CalleeMap, is_escaped, mark_if, iterate, round_bound, arena_dest}
use sarif.Escape.Analyze.{analyze, analyze_inst, analyze_arms, result_escapes}
use sarif.Escape.Order.{
  ⊑_refl, ⊑_trans, Climbs, Below, CalleesBelow, mark-Climbs, mark-Below, mark_if-Climbs,
  mark_if-Below, mark_dest-Climbs, mark_dest-Below, is_escaped_mono, any_mono, result_escapes_mono,
  load_local-Climbs, load_local-Below, store_local-Climbs, store_local-Below, call-Climbs,
  call-Below, join_branches-Climbs, join_branches-Below,
}
use sarif.Escape.Fixpoint.{iterate-Climbs, iterate-Below, round_bound_enough}

module _ (m : CalleeMap) where
  mutual
    unfolding analyze_inst

    inst-Climbs : (inst : Inst) → Climbs (analyze_inst m inst)
    inst-Climbs (Inst.bytes_slice d b _ _) a = mark_if-Climbs (is_escaped a b) d a
    inst-Climbs (Inst.list_get d l _) a = mark_if-Climbs (is_escaped a l) d a
    inst-Climbs (Inst.load_local d s) a = load_local-Climbs d s a
    inst-Climbs (Inst.store_local s v) a = store_local-Climbs s v a
    inst-Climbs (Inst.make_record d _ fs) a = mark_if-Climbs (any (λ f. is_escaped a f.1) fs) d a
    inst-Climbs (Inst.make_enum d _ _ p) a = mark_if-Climbs (result_escapes a p) d a
    inst-Climbs (Inst.field d b _) a = mark_if-Climbs (is_escaped a b) d a
    inst-Climbs (Inst.enum_payload d v _) a = mark_if-Climbs (is_escaped a v) d a
    inst-Climbs (Inst.call d c args) a = call-Climbs m d c args a
    inst-Climbs (Inst.if_else d _ ts t es e) a =
        join_branches-Climbs d t e (analyze m ts) (analyze m es) (insts-Climbs ts) (insts-Climbs es)
          a
    inst-Climbs (Inst.while d cs _ bs) a =
        let round : Env → Env = λ s. analyze m bs (analyze m cs s) in
        let c : Climbs round = λ s.
          ⊑_trans s (analyze m cs s) _ (insts-Climbs cs s) (insts-Climbs bs (analyze m cs s)) in
        let r = iterate (round_bound a) round a in
        ⊑_trans a r _ (iterate-Climbs round c (round_bound a) a) (mark-Climbs d r)
    inst-Climbs (Inst.repeat d _ _ bs) a =
        let r = iterate (round_bound a) (analyze m bs) a in
        ⊑_trans a r _ (iterate-Climbs (analyze m bs) (insts-Climbs bs) (round_bound a) a)
          (mark-Climbs d r)
    inst-Climbs (Inst.handle d bs br arms) a =
        let b = analyze m bs a in
        let b' = mark_if (result_escapes b br) d b in
        ⊑_trans a b _ (insts-Climbs bs a)
          (⊑_trans b b' _ (mark_if-Climbs (result_escapes b br) d b) (arms-Climbs d arms b'))
    inst-Climbs inst a = mark_dest-Climbs (arena_dest inst) a

    insts-Climbs : (insts : Insts) → Climbs (analyze m insts)
    insts-Climbs nil a = ⊑_refl a
    insts-Climbs (cons i is) a =
        let b = analyze_inst m i a in ⊑_trans a b _ (inst-Climbs i a) (insts-Climbs is b)

    arms-Climbs : (d : ValueId) (arms : Arms) → Climbs (analyze_arms m d arms)
    arms-Climbs d no_arms a = ⊑_refl a
    arms-Climbs d (arm _ _ _ bs br arms) a =
        let b = analyze m bs a in
        let b' = mark_if (result_escapes b br) d b in
        ⊑_trans a b _ (insts-Climbs bs a)
          (⊑_trans b b' _ (mark_if-Climbs (result_escapes b br) d b) (arms-Climbs d arms b'))

  pub analyze-Climbs : (insts : Insts) → Climbs (analyze m insts)
  analyze-Climbs insts = insts-Climbs insts

  pub analyze_inst-Climbs : (inst : Inst) → Climbs (analyze_inst m inst)
  analyze_inst-Climbs inst = inst-Climbs inst

  pub analyze_arms-Climbs : (d : ValueId) (arms : Arms) → Climbs (analyze_arms m d arms)
  analyze_arms-Climbs d arms = arms-Climbs d arms

module _ (m m' : CalleeMap) (c : CalleesBelow m m') where
  mutual
    unfolding analyze_inst

    inst-Below : (inst : Inst) → Below (analyze_inst m inst) (analyze_inst m' inst)
    inst-Below (Inst.bytes_slice d v _ _) a b h =
        mark_if-Below _ _ d a b (is_escaped_mono a b v h) h
    inst-Below (Inst.list_get d v _) a b h = mark_if-Below _ _ d a b (is_escaped_mono a b v h) h
    inst-Below (Inst.load_local d s) a b h = load_local-Below d s a b h
    inst-Below (Inst.store_local s v) a b h = store_local-Below s v a b h
    inst-Below (Inst.make_record d _ fs) a b h =
        mark_if-Below _ _ d a b
          (any_mono (λ f. is_escaped a f.1) (λ f. is_escaped b f.1) fs
            (λ f. is_escaped_mono a b f.1 h))
          h
    inst-Below (Inst.make_enum d _ _ p) a b h =
        mark_if-Below _ _ d a b (result_escapes_mono a b p h) h
    inst-Below (Inst.field d v _) a b h = mark_if-Below _ _ d a b (is_escaped_mono a b v h) h
    inst-Below (Inst.enum_payload d v _) a b h = mark_if-Below _ _ d a b (is_escaped_mono a b v h) h
    inst-Below (Inst.call d f args) a b h = call-Below m m' d f args a b c h
    inst-Below (Inst.if_else d _ ts t es e) a b h =
        join_branches-Below d t e (analyze m ts) (analyze m es) (analyze m' ts) (analyze m' es)
          (insts-Below ts) (insts-Below es) a b h
    inst-Below (Inst.while d cs _ bs) a b h =
        let f : Env → Env = λ s. analyze m bs (analyze m cs s) in
        let g : Env → Env = λ s. analyze m' bs (analyze m' cs s) in
        let up : Climbs g = λ s.
          ⊑_trans s (analyze m' cs s) _ (analyze-Climbs m' cs s)
            (analyze-Climbs m' bs (analyze m' cs s)) in
        let le : Below f g =
          λ s t q. insts-Below bs (analyze m cs s) (analyze m' cs t) (insts-Below cs s t q) in
        mark-Below d (iterate (round_bound a) f a) (iterate (round_bound b) g b)
          (iterate-Below f g up le (round_bound a) (round_bound b) a b (round_bound_enough b) h)
    inst-Below (Inst.repeat d _ _ bs) a b h =
        mark-Below d (iterate (round_bound a) (analyze m bs) a)
          (iterate (round_bound b) (analyze m' bs) b)
          (iterate-Below (analyze m bs) (analyze m' bs) (analyze-Climbs m' bs) (insts-Below bs)
            (round_bound a) (round_bound b) a b (round_bound_enough b) h)
    inst-Below (Inst.handle d bs br arms) a b h =
        let k = insts-Below bs a b h in
        arms-Below d arms _ _ (mark_if-Below _ _ d _ _ (result_escapes_mono _ _ br k) k)
    inst-Below inst a b h = mark_dest-Below (arena_dest inst) a b h

    insts-Below : (insts : Insts) → Below (analyze m insts) (analyze m' insts)
    insts-Below nil a b h = h
    insts-Below (cons i is) a b h = insts-Below is _ _ (inst-Below i a b h)

    arms-Below :
        (d : ValueId) (arms : Arms) → Below (analyze_arms m d arms) (analyze_arms m' d arms)
    arms-Below d no_arms a b h = h
    arms-Below d (arm _ _ _ bs br arms) a b h =
        let k = insts-Below bs a b h in
        arms-Below d arms _ _ (mark_if-Below _ _ d _ _ (result_escapes_mono _ _ br k) k)

  pub analyze-Below : (insts : Insts) → Below (analyze m insts) (analyze m' insts)
  analyze-Below insts = insts-Below insts
