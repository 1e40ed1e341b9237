-- ===== src/Parser/Nodes.antt =====
-- How the pieces that make nodes, and the loops, run, crates/sarif_syntax/src/parser.rs.
use sarif.Base.{
  ℕ, suc, ◌+◌, ◌<◌, ◌≡◌, sym, ap, ◌∙◌, Bool, true, false, none, some, List, ◌++◌, arith, Bool-cases,
  inl, inr, if◌then◌else◌,
}
use mathlib.Core.List.{append_assoc, append-nil}
use sarif.Syntax.Token.{Token}
use sarif.Syntax.Tree.{a_node, Elements, none_left, element, Node, NodeKind, new_node}
use sarif.Parser.State.{Parser, push, push_all}
use sarif.Parser.Build.{Build, branch, node_of, list_of, list_node, wrap, within}
use sarif.Parser.Leaves.{
  element_leaves, node_leaves, elements_leaves, elements_leaves-push, elements_leaves-push_all,
  node_leaves-new_node, node_leaves-list_node,
}
use sarif.Parser.Runs.{IsWell, size, unread, Fact, Outcome, Runs}
use sarif.Parser.Build.{collecting_on, finish_node}

-- The text of a node is that of its children, before what is still to come.
of_node :
    (cs es : Elements) (n : Node) (x y : List Token)
    → node_leaves n ≡ elements_leaves es
    → elements_leaves es ++ x ≡ y
    → elements_leaves (push cs (a_node n)) ++ x ≡ elements_leaves cs ++ y
unfolding element_leaves
of_node cs es n x y e f =
    ap (λ u. u ++ x) (elements_leaves-push cs (a_node n) ∙ ap (λ u. elements_leaves cs ++ u) e)
    ∙ (append_assoc (elements_leaves cs) (elements_leaves es) x
        ∙ ap (λ u. elements_leaves cs ++ u) f)

pub node_of_runs :
    {d : ℕ} {P Q : Fact} {m : ℕ} {b : Build}
    → (k : NodeKind) → Runs d P m b Q
    → Runs d P m (node_of k b) Q
unfolding node_of elements_leaves
node_of_runs k r = record {
  run = λ cs s w lt p.
      let o = r.run none_left s w lt p in
      record {
        children = push cs (a_node (new_node k o.children));
        after = o.after;
        ran =
            ap
              (λ x. elim x [
                | none ↦ none
                | some (c, a) ↦ some (push cs (a_node (new_node k c)), a)
              ])
              o.ran;
        well = o.well;
        fact = o.fact;
        forward = o.forward;
        kept = of_node cs o.children _ _ _ (node_leaves-new_node k o.children) o.kept;
      };
}

pub list_of_runs :
    {d : ℕ} {P Q : Fact} {m : ℕ} {b : Build}
    → (k : NodeKind) → Runs d P m b Q
    → Runs d P m (list_of k b) Q
unfolding list_of elements_leaves
list_of_runs k r = record {
  run = λ cs s w lt p.
      let o = r.run none_left s w lt p in
      record {
        children = push cs (a_node (list_node k s.current.span.start o.children));
        after = o.after;
        ran =
            ap
              (λ x. elim x [
                | none ↦ none
                | some (c, a) ↦ some (push cs (a_node (list_node k s.current.span.start c)), a)
              ])
              o.ran;
        well = o.well;
        fact = o.fact;
        forward = o.forward;
        kept =
            of_node cs o.children _ _ _ (node_leaves-list_node k s.current.span.start o.children)
              o.kept;
      };
}

pub within_runs :
    {d : ℕ} {P Q : Fact} {m : ℕ} {b : Build} → Runs d P m b Q → Runs d P m (within b) Q
unfolding within elements_leaves
within_runs r = record {
  run = λ cs s w lt p.
      let o = r.run none_left s w lt p in
      record {
        children = push_all cs o.children;
        after = o.after;
        ran = ap (λ x. elim x [ none ↦ none | some (c, a) ↦ some (push_all cs c, a) ]) o.ran;
        well = o.well;
        fact = o.fact;
        forward = o.forward;
        kept =
            ap (λ u. u ++ unread o.after) (elements_leaves-push_all cs o.children)
            ∙ (append_assoc (elements_leaves cs) (elements_leaves o.children) (unread o.after)
                ∙ ap (λ u. elements_leaves cs ++ u) o.kept);
      };
}

alone :
    (k : NodeKind) (es : Elements)
    → elements_leaves (element (a_node (new_node k es)) none_left) ≡ elements_leaves es
unfolding elements_leaves element_leaves node_leaves new_node
alone k es = append-nil (elements_leaves es)

pub wrap_runs :
    {d : ℕ} {P Q : Fact} {m : ℕ} {b : Build}
    → (k : NodeKind) → Runs d P m b Q
    → Runs d P m (wrap k b) Q
unfolding wrap
wrap_runs k r = record {
  run = λ cs s w lt p.
      let o = r.run cs s w lt p in
      record {
        children = element (a_node (new_node k o.children)) none_left;
        after = o.after;
        ran =
            ap
              (λ x. elim x [
                | none ↦ none
                | some (c, a) ↦ some (element (a_node (new_node k c)) none_left, a)
              ])
              o.ran;
        well = o.well;
        fact = o.fact;
        forward = o.forward;
        kept = ap (λ u. u ++ unread o.after) (alone k o.children) ∙ o.kept;
      };
}

-- On with the children of the first, which the rest puts into a node.
pub record Goes (d : ℕ) (P : Fact) (m : ℕ) (f : Elements → Build) (Q : Fact) : Type 0 where
  pub go :
      (children cs : Elements) (s : Parser)
      → IsWell s
      → size s < m
      → P s
      → Outcome d Q (f children cs s) (push_all cs children) s

pub finish_runs :
    {d : ℕ} {P Q : Fact} {m : ℕ} {b : Build}
    → (k : NodeKind) → Runs d P m b Q
    → Goes d P m (λ children. finish_node k b children) Q
unfolding finish_node
finish_runs k r = record {
  go = λ children cs s w lt p.
      let o = r.run children s w lt p in
      record {
        children = push cs (a_node (new_node k o.children));
        after = o.after;
        ran =
            ap
              (λ x. elim x [
                | none ↦ none
                | some (c, a) ↦ some (push cs (a_node (new_node k c)), a)
              ])
              o.ran;
        well = o.well;
        fact = o.fact;
        forward = o.forward;
        kept =
            of_node cs o.children _ _ _ (node_leaves-new_node k o.children) o.kept
            ∙ (sym (append_assoc (elements_leaves cs) (elements_leaves children) (unread s))
                ∙ ap (λ u. u ++ unread s) (sym (elements_leaves-push_all cs children)));
      };
}

-- Vectors of the same text in front of what is to come, onto another.
pub on_all :
    (cs es fs : Elements) (x y : List Token)
    → elements_leaves es ++ x ≡ elements_leaves fs ++ y
    → elements_leaves (push_all cs es) ++ x ≡ elements_leaves (push_all cs fs) ++ y
on_all cs es fs x y e =
    ap (λ u. u ++ x) (elements_leaves-push_all cs es)
    ∙ (append_assoc (elements_leaves cs) (elements_leaves es) x
        ∙ (ap (λ u. elements_leaves cs ++ u) e
            ∙ (sym (append_assoc (elements_leaves cs) (elements_leaves fs) y)
                ∙ ap (λ u. u ++ y) (sym (elements_leaves-push_all cs fs)))))

pub collecting_runs :
    {d e : ℕ} {P Q R : Fact} {m : ℕ} {b : Build} {f : Elements → Build}
    → Runs d P m b Q
    → Goes e Q m f R
    → Runs (d + e) P m (collecting_on none_left b f) R
unfolding collecting_on push_all elements_leaves
collecting_runs {f} r t = record {
  run = λ cs s w lt p.
      let o = r.run none_left s w lt p in
      let u = t.go o.children cs o.after o.well (omega (arith, o.forward)) o.fact in
      record {
        children = u.children;
        after = u.after;
        ran = ap (λ x. elim x [ none ↦ none | some (c, a) ↦ f c cs a ]) o.ran ∙ u.ran;
        well = u.well;
        fact = u.fact;
        forward = omega (arith, o.forward, u.forward);
        kept =
            u.kept
            ∙ (ap (λ u. u ++ unread o.after) (elements_leaves-push_all cs o.children)
                ∙ (append_assoc (elements_leaves cs) (elements_leaves o.children) (unread o.after)
                    ∙ ap (λ u. elements_leaves cs ++ u) o.kept));
      };
}

-- On from children to more of them.
pub Goes-on :
    {P Q R : Fact} {m : ℕ} {b : Build} {f : Elements → Build}
    → Runs 1 P (suc m) b Q
    → Goes 0 Q m f R
    → Goes 1 P (suc m) (λ children. collecting_on children b f) R
unfolding collecting_on
Goes-on {f} r t = record {
  go = λ children cs s w lt p.
      let o = r.run children s w lt p in
      let u = t.go o.children cs o.after o.well (omega (arith, o.forward)) o.fact in
      record {
        children = u.children;
        after = u.after;
        ran = ap (λ x. elim x [ none ↦ none | some (c, a) ↦ f c cs a ]) o.ran ∙ u.ran;
        well = u.well;
        fact = u.fact;
        forward = omega (arith, o.forward, u.forward);
        kept = u.kept ∙ on_all cs o.children children _ _ o.kept;
      };
}

pub Goes-if :
    {d : ℕ} {P Q : Fact} {m : ℕ} {f g : Elements → Build}
    → (b : Bool) → Goes d P m f Q
    → Goes d P m g Q
    → Goes d P m (λ children. if b then f children else g children) Q
Goes-if true r t = r
Goes-if false r t = t

pub Goes-branch :
    {d : ℕ} {P Q : Fact} {m : ℕ} {f g : Elements → Build}
    → (test : Parser → Bool) → Goes d P m f Q
    → Goes d P m g Q
    → Goes d P m (λ children. branch test (f children) (g children)) Q
unfolding branch
Goes-branch test r t = record {
  go = λ children cs s w lt p. elim (Bool-cases (test s)) [
    | inl e ↦ rw e (r.go children cs s w lt p)
    | inr e ↦ rw e (t.go children cs s w lt p)
  ];
}
