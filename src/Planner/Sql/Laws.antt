-- ===== src/Planner/Sql/Laws.antt =====
-- The reader of conditions of crates/sarif_query_planner/src/lib.rs, `parse_expr`, on every text.
use sarif.Base.{
  ℕ, zero, suc, ◌<◌, ◌≡◌, refl, Option, some, List, [], ◌∷◌, length, arith, Bool-cases, inl, inr,
}
use sarif.Text.{Text, codes, contains, trim}
use sarif.Text.Laws.{Parts, split-Parts, length-trim-le}
use sarif.Planner.Plan.{Expr, identifier, binary, BinaryOp}
use sarif.Planner.Sql.{first_two, exactly_two, parse_atom, parse_expr}

-- The reader gives an expression for every text shorter than `size`.
abbrev Reads : (Text → Option Expr) → ℕ → Type 0
Reads read size = (s : Text) → length s < size → (e : Expr) × (read s ≡ some e)

module _ (read : Text → Option Expr) (op : BinaryOp) where
  first_two_total :
      (ts : List Text) (size : ℕ)
      → Parts ts size
      → Reads read size
      → (e : Expr) × (first_two read op ts ≡ some e)
  unfolding first_two
  first_two_total ts size p reads =
      let (l, el) = reads p.first (omega (arith, p.shorter)) in
      let (r, er) = reads p.second (omega (arith, p.shorter)) in
      (binary l op r, rw (p.parts, el, er) refl)

  exactly_two_total :
      (t : Text) (ts : List Text) (size : ℕ)
      → Parts ts size
      → Reads read size
      → (e : Expr) × (exactly_two read op t ts ≡ some e)
  unfolding exactly_two
  exactly_two_total t ts size p reads = rw p.parts (go p.others)
    where
      go :
          (others : List Text)
          → (e : Expr) × (exactly_two read op t (p.first ∷ p.second ∷ others) ≡ some e)
      go [] =
          let (l, el) = reads p.first (omega (arith, p.shorter)) in
          let (r, er) = reads p.second (omega (arith, p.shorter)) in
          (binary l op r, rw (el, er) refl)
      go (o ∷ os) = (identifier t, refl)

-- One level of the reader, whichever operator the text has.
parse_expr_step :
    (n : ℕ) (s : Text)
    → Reads (parse_expr n) (length (trim s))
    → (e : Expr) × (parse_expr (suc n) s ≡ some e)
unfolding parse_expr
parse_expr_step n s reads =
    let t = trim s in
    let read = parse_expr n in
    elim (Bool-cases (contains t (codes " AND "))) [
      | inl a ↦
          rw a (exactly_two_total read BinaryOp.and t _ _ (split-Parts t (codes " AND ") a) reads)
      | inr a ↦ elim (Bool-cases (contains t (codes " OR "))) [
        | inl b ↦
            rw (a, b)
              (exactly_two_total read BinaryOp.or t _ _ (split-Parts t (codes " OR ") b) reads)
        | inr b ↦ elim (Bool-cases (contains t (codes "=="))) [
          | inl c ↦
              rw (a, b, c)
                (first_two_total read BinaryOp.eq _ _ (split-Parts t (codes "==") c) reads)
          | inr c ↦ elim (Bool-cases (contains t (codes ">"))) [
            | inl d ↦
                rw (a, b, c, d)
                  (first_two_total read BinaryOp.gt _ _ (split-Parts t (codes ">") d) reads)
            | inr d ↦ (parse_atom t, rw (a, b, c, d) refl)
          ]
        ]
      ]
    ]

-- With more fuel than the text has characters the reader of conditions gives an expression: it ends,
-- and takes no part that is not there.
pub parse_expr_total :
    (fuel : ℕ) (s : Text) → length s < fuel → (e : Expr) × (parse_expr fuel s ≡ some e)
parse_expr_total zero s h = elim h [ ]
parse_expr_total (suc n) s h =
    parse_expr_step n s (λ u lt. parse_expr_total n u (omega (arith, length-trim-le s)))
