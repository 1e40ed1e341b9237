-- ===== src/Parser/ItemsRun.antt =====
-- How the functions on items and the loop over the items run, crates/sarif_syntax/src/parser.rs.
use sarif.Base.{ℕ, suc, ◌≡◌, refl, false, Option, none, some, arith}
use sarif.Syntax.Token.{Token, TokenKind, is_trivia}
use sarif.Syntax.Tree.{NodeKind, Elements}
use sarif.Parser.Kinds.{same_kind}
use sarif.Parser.State.{Parser}
use sarif.Parser.Build.{Build, ◌▸◌, trivia, collecting_on}
use sarif.Parser.Types.{Call}
use sarif.Parser.Runs.{Any, Clean, Here, Outcome, Runs}
use sarif.Parser.Rules.{weaken, down, stop_runs, ◌⨟◌, ◌⟫◌, if_at_runs}
use sarif.Parser.Trivia.{trivia_runs}
use sarif.Parser.Steps.{bump_runs, bump_takes, expect_runs, expect_takes}
use sarif.Parser.Nodes.{node_of_runs, list_of_runs, collecting_runs}
use sarif.Parser.Loops.{loop_runs, separated_runs, stop-Any, here_clean}
use sarif.Parser.Works.{Works}
use sarif.Base.{◌<◌, ◌++◌, ap, ◌∙◌, List}
use mathlib.Core.List.{append_assoc}
use sarif.Syntax.Tree.{none_left}
use sarif.Parser.State.{push_all}
use sarif.Parser.Leaves.{elements_leaves, elements_leaves-adopt}
use sarif.Parser.Runs.{IsWell, size}
use sarif.Parser.Nodes.{on_all}
use sarif.Parser.Items.{
  parse_const_item, parse_contract_clause, parse_fn_item, parse_import_item, parse_variant,
  parse_variant_list, braced_item, parse_enum_item, parse_struct_item, signatures,
  parse_effect_item, parse_extern_block, item, adopt, modifiers, item_or_break, item_round, items,
}
use sarif.Parser.TypesRun.{
  parse_type-Runs, parse_param_list-Runs, parse_field_list-Runs, parse_generic_params-Runs,
  parse_effects_clause-Runs, return_type-Runs, parse_signature-Runs,
}
use sarif.Parser.OperatorsRun.{Works-lower, below, parse_expr_bp-Runs}
use sarif.Parser.BodiesRun.{before, parse_expr_body-Runs, parse_inline_expr_body-Runs}

module _ (rec : Call → Build) (m : ℕ) (w : Works rec m) where
  parse_const_item-Runs : Runs 1 (Here TokenKind.kw_const) (suc m) (parse_const_item rec) Any
  unfolding parse_const_item same_kind is_trivia
  parse_const_item-Runs = node_of_runs NodeKind.const_item (
      expect_takes TokenKind.kw_const refl refl
      ⟫ trivia_runs
      ⨟ expect_runs TokenKind.ident
      ⨟ trivia_runs
      ⨟ expect_runs TokenKind.colon
      ⨟ trivia_runs
      ⨟ down (parse_type-Runs rec m w)
      ⨟ trivia_runs
      ⨟ expect_runs TokenKind.eq
      ⨟ trivia_runs
      ⨟ down (parse_expr_bp-Runs rec m w 0)
      ⨟ trivia_runs
      ⨟ if_at_runs TokenKind.semicolon bump_runs stop-Any)

  parse_contract_clause-Runs :
      (keyword : TokenKind) (kind : NodeKind)
      → Runs 0 Clean (suc m) (parse_contract_clause rec keyword kind) Any
  unfolding parse_contract_clause
  parse_contract_clause-Runs keyword kind =
      node_of_runs kind (expect_runs keyword ⨟ trivia_runs ⨟ parse_expr_bp-Runs rec m w 0)

  parse_fn_item-Runs : Runs 1 (Here TokenKind.kw_fn) (suc m) (parse_fn_item rec) Any
  unfolding parse_fn_item same_kind is_trivia
  parse_fn_item-Runs = node_of_runs NodeKind.fn_item (
      expect_takes TokenKind.kw_fn refl refl
      ⟫ trivia_runs
      ⨟ expect_runs TokenKind.ident
      ⨟ trivia_runs
      ⨟ if_at_runs TokenKind.l_bracket
          (here_clean TokenKind.l_bracket refl (down (parse_generic_params-Runs rec m w))
            ⨟ trivia_runs)
          stop_runs
      ⨟ expect_runs TokenKind.l_paren
      ⨟ down (parse_param_list-Runs rec m w)
      ⨟ expect_runs TokenKind.r_paren
      ⨟ trivia_runs
      ⨟ down (return_type-Runs rec m w)
      ⨟ trivia_runs
      ⨟ if_at_runs TokenKind.kw_effects
          (here_clean TokenKind.kw_effects refl (down (parse_effects_clause-Runs rec m w))) stop-Any
      ⨟ trivia_runs
      ⨟ if_at_runs TokenKind.kw_requires
          (here_clean TokenKind.kw_requires refl
            (down (parse_contract_clause-Runs TokenKind.kw_requires NodeKind.requires_clause)))
          stop-Any
      ⨟ trivia_runs
      ⨟ if_at_runs TokenKind.kw_ensures
          (here_clean TokenKind.kw_ensures refl
            (down (parse_contract_clause-Runs TokenKind.kw_ensures NodeKind.ensures_clause)))
          stop-Any
      ⨟ trivia_runs
      ⨟ if_at_runs TokenKind.eq
          (here_clean TokenKind.eq refl (down (parse_inline_expr_body-Runs rec m w)))
          (down (parse_expr_body-Runs rec m w)))

  parse_import_item-Runs : Runs 1 (Here TokenKind.kw_from) (suc m) (parse_import_item rec) Any
  unfolding parse_import_item same_kind is_trivia
  parse_import_item-Runs = node_of_runs NodeKind.import_item (
      expect_takes TokenKind.kw_from refl refl
      ⟫ trivia_runs
      ⨟ expect_runs TokenKind.ident
      ⨟ trivia_runs
      ⨟ expect_runs TokenKind.kw_import
      ⨟ trivia_runs
      ⨟ expect_runs TokenKind.ident
      ⨟ trivia_runs
      ⨟ loop_runs (λ next k le t.
        if_at_runs TokenKind.comma
          (weaken (
            bump_takes TokenKind.comma refl
            ⟫ trivia_runs
            ⨟ expect_runs TokenKind.ident
            ⨟ trivia_runs
            ⨟ t))
          stop_runs)
      ⨟ if_at_runs TokenKind.semicolon bump_runs stop-Any)

  parse_variant-Runs : Runs 0 Clean (suc m) (parse_variant rec) Any
  unfolding parse_variant
  parse_variant-Runs = node_of_runs NodeKind.variant (
      expect_runs TokenKind.ident
      ⨟ trivia_runs
      ⨟ if_at_runs TokenKind.l_paren
          (bump_runs
            ⨟ trivia_runs
            ⨟ parse_type-Runs rec m w
            ⨟ trivia_runs
            ⨟ expect_runs TokenKind.r_paren)
          stop-Any
      ⨟ trivia_runs
      ⨟ if_at_runs TokenKind.eq (bump_runs ⨟ trivia_runs ⨟ parse_expr_bp-Runs rec m w 0) stop-Any)

  parse_variant_list-Runs : Runs 0 Any (suc m) (parse_variant_list rec) Clean
  unfolding parse_variant_list is_trivia
  parse_variant_list-Runs =
      list_of_runs NodeKind.variant_list (separated_runs TokenKind.r_brace refl parse_variant-Runs)

  braced_item-Runs :
      (kind : NodeKind) (keyword : TokenKind) {entries : Build}
      → same_kind keyword TokenKind.eof ≡ false
      → is_trivia keyword ≡ false
      → Runs 0 Any (suc m) entries Clean
      → Runs 1 (Here keyword) (suc m) (braced_item rec kind keyword entries) Any
  unfolding braced_item
  braced_item-Runs kind keyword d e r = node_of_runs kind (
      expect_takes keyword d e
      ⟫ trivia_runs
      ⨟ expect_runs TokenKind.ident
      ⨟ trivia_runs
      ⨟ expect_runs TokenKind.l_brace
      ⨟ down r
      ⨟ expect_runs TokenKind.r_brace)

  signatures-Runs : Runs 0 Clean m (signatures rec) Clean
  unfolding signatures is_trivia
  signatures-Runs = loop_runs (λ next k le t.
      if_at_runs TokenKind.kw_fn
        (weaken (down (parse_signature-Runs rec k (Works-lower (before le) w)) ⟫ trivia_runs ⨟ t))
        stop_runs)

  parse_effect_item-Runs : Runs 1 (Here TokenKind.kw_effect) (suc m) (parse_effect_item rec) Any
  unfolding parse_effect_item same_kind is_trivia
  parse_effect_item-Runs = node_of_runs NodeKind.effect_item (
      expect_takes TokenKind.kw_effect refl refl
      ⟫ trivia_runs
      ⨟ expect_runs TokenKind.ident
      ⨟ trivia_runs
      ⨟ expect_runs TokenKind.l_brace
      ⨟ trivia_runs
      ⨟ signatures-Runs
      ⨟ expect_runs TokenKind.r_brace)

  parse_extern_block-Runs : Runs 1 (Here TokenKind.kw_extern) (suc m) (parse_extern_block rec) Any
  unfolding parse_extern_block same_kind is_trivia
  parse_extern_block-Runs = node_of_runs NodeKind.extern_block (
      expect_takes TokenKind.kw_extern refl refl
      ⟫ trivia_runs
      ⨟ expect_runs TokenKind.l_brace
      ⨟ trivia_runs
      ⨟ signatures-Runs
      ⨟ expect_runs TokenKind.r_brace)

unfoldable pub ItemRuns : ℕ → TokenKind → Option Build → Type 0
ItemRuns m k none = Unit
ItemRuns m k (some parse) = Runs 1 (Here k) m parse Any

module _ (rec : Call → Build) (m : ℕ) (w : Works rec m) where
  pub item-Runs : (k : TokenKind) → ItemRuns (suc m) k (item rec k)
  unfolding item ItemRuns parse_enum_item parse_struct_item same_kind is_trivia
  item-Runs TokenKind.kw_enum =
      braced_item-Runs rec m w NodeKind.enum_item TokenKind.kw_enum refl refl
        (parse_variant_list-Runs rec m w)
  item-Runs TokenKind.kw_struct =
      braced_item-Runs rec m w NodeKind.struct_item TokenKind.kw_struct refl refl
        (parse_field_list-Runs rec m w)
  item-Runs TokenKind.kw_effect = parse_effect_item-Runs rec m w
  item-Runs TokenKind.kw_extern = parse_extern_block-Runs rec m w
  item-Runs TokenKind.kw_const = parse_const_item-Runs rec m w
  item-Runs TokenKind.kw_fn = parse_fn_item-Runs rec m w
  item-Runs TokenKind.kw_from = parse_import_item-Runs rec m w
  item-Runs _ = tt

modifiers-Runs : {m : ℕ} → Runs 0 Clean m modifiers Clean
unfolding modifiers
modifiers-Runs =
    if_at_runs TokenKind.attr_repr (bump_runs ⨟ trivia_runs) stop_runs
    ⨟ if_at_runs TokenKind.kw_pub (bump_runs ⨟ trivia_runs) stop_runs

-- The modifiers stay in front of their item.
adopted :
    (mods parsed : Elements) (x y : List Token)
    → elements_leaves parsed ++ x ≡ y
    → elements_leaves (adopt mods parsed) ++ x ≡ elements_leaves mods ++ y
adopted mods parsed x y e =
    ap (λ u. u ++ x) (elements_leaves-adopt mods parsed)
    ∙ (append_assoc (elements_leaves mods) (elements_leaves parsed) x
        ∙ ap (λ u. elements_leaves mods ++ u) e)

item-Outcome :
    (m : ℕ) (o : Option Build) (next : Build) (mods cs : Elements) (s : Parser)
    → ItemRuns (suc m) s.current.kind o
    → Runs 0 Clean m next Clean
    → IsWell s
    → size s < suc m
    → Clean s
    → Outcome 0 Clean (item_or_break o next mods cs s) (push_all cs mods) s
unfolding item_or_break ItemRuns Here elements_leaves
item-Outcome m none next mods cs s i t w lt c = record {
  children = push_all cs mods;
  after = s;
  ran = refl;
  well = w;
  fact = c;
  forward = omega arith;
  kept = refl;
}
item-Outcome m (some parse) next mods cs s i t w lt c =
    let o = i.run none_left s w lt refl in
    let rest : Runs 0 Any m (trivia ▸ next) Clean = trivia_runs ⨟ t in
    let u =
      rest.run (push_all cs (adopt mods o.children)) o.after o.well (omega (arith, lt, o.forward))
        o.fact in
    record {
      children = u.children;
      after = u.after;
      ran =
          ap
            (λ r. elim r [
              | none ↦ none
              | some (c, a) ↦ (trivia ▸ next) (push_all cs (adopt mods c)) a
            ])
            o.ran
          ∙ u.ran;
      well = u.well;
      fact = u.fact;
      forward = omega (arith, o.forward, u.forward);
      kept =
          u.kept ∙ on_all cs (adopt mods o.children) mods _ _ (adopted mods o.children _ _ o.kept);
    }

module _ (rec : Call → Build) (m : ℕ) (w : Works rec m) where
  item_round-Runs :
      (next : Build) → Runs 0 Clean m next Clean → Runs 0 Clean (suc m) (item_round rec next) Clean
  unfolding item_round collecting_on
  item_round-Runs next t =
      collecting_runs {b = modifiers}
        {f = λ mods cs s. item_or_break (item rec s.current.kind) next mods cs s} modifiers-Runs
        (record {
          go = λ mods cs s well lt c.
              item-Outcome m (item rec s.current.kind) next mods cs s
                (item-Runs rec m w s.current.kind) t well lt c;
        })

pub items-Runs : (rec : Call → Build) (m : ℕ) → Works rec m → Runs 0 Clean (suc m) (items rec) Clean
unfolding items
items-Runs rec m w =
    loop_runs (λ next k le t. item_round-Runs rec k (Works-lower (below le) w) next t)
