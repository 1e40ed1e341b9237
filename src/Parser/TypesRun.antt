-- ===== src/Parser/TypesRun.antt =====
-- How the functions on types, parameters and patterns run, crates/sarif_syntax/src/parser.rs.
use sarif.Base.{ℕ, suc, refl, Option, some}
use sarif.Syntax.Token.{TokenKind, is_trivia}
use sarif.Syntax.Tree.{NodeKind}
use sarif.Parser.Kinds.{same_kind}
use sarif.Parser.Build.{Build}
use sarif.Parser.Types.{Call}
use sarif.Parser.Runs.{Fact, Any, Clean, Here, Runs}
use sarif.Parser.Rules.{weaken, lower, down, stop_runs, ◌⨟◌, ◌⟫◌, ◌⨾◌, if_at_runs, peek_runs}
use sarif.Parser.Trivia.{trivia_runs, trivia_peek}
use sarif.Parser.Steps.{bump_runs, bump_takes, expect_runs, expect_takes}
use sarif.Parser.Nodes.{node_of_runs, list_of_runs}
use sarif.Parser.Loops.{loop_runs, separated_runs, by_kind_any, stop-Any, here_clean}
use sarif.Parser.Works.{Works, Works-type}
use sarif.Parser.Types.{
  parse_type_path, array_length, parse_array_type, parse_type, parse_param, parse_param_list,
  parse_field, parse_field_list, generic_param, parse_generic_params, parse_effects_clause,
  return_type, parse_signature, pattern_atom, parse_match_pattern_atom, parse_match_pattern,
}

pub array_length-Runs :
    (rec : Call → Build) (m : ℕ) (o : Option TokenKind) → Runs 0 Clean m (array_length rec o) Any
unfolding array_length
array_length-Runs rec m (some TokenKind.integer) = expect_runs TokenKind.integer
array_length-Runs rec m (some TokenKind.ident) = expect_runs TokenKind.ident
array_length-Runs rec m _ = expect_runs TokenKind.integer

module _ (rec : Call → Build) (m : ℕ) (w : Works rec m) where
  pub parse_type_path-Runs : Runs 0 Clean (suc m) (parse_type_path rec) Any
  unfolding parse_type_path same_kind is_trivia
  parse_type_path-Runs = node_of_runs NodeKind.type_path (
      expect_runs TokenKind.ident
      ⨟ loop_runs (λ next k le t.
        peek_runs TokenKind.dot
          (weaken (
            trivia_peek TokenKind.dot
            ⨾ expect_takes TokenKind.dot refl refl
            ⟫ trivia_runs
            ⨟ expect_runs TokenKind.ident
            ⨟ t))
          stop-Any)
      ⨟ peek_runs TokenKind.l_bracket
          (weaken (
            trivia_peek TokenKind.l_bracket
            ⨾ expect_takes TokenKind.l_bracket refl refl
            ⟫ trivia_runs
            ⨟ Works-type w
            ⨟ trivia_runs
            ⨟ expect_runs TokenKind.r_bracket))
          stop-Any)

  pub parse_array_type-Runs : Runs 1 (Here TokenKind.l_bracket) (suc m) (parse_array_type rec) Any
  unfolding parse_array_type same_kind is_trivia
  parse_array_type-Runs = node_of_runs NodeKind.type_array (
      expect_takes TokenKind.l_bracket refl refl
      ⟫ trivia_runs
      ⨟ Works-type w
      ⨟ trivia_runs
      ⨟ expect_runs TokenKind.semicolon
      ⨟ trivia_runs
      ⨟ by_kind_any (array_length rec) (λ o. array_length-Runs rec m o)
      ⨟ trivia_runs
      ⨟ expect_runs TokenKind.r_bracket)

  pub parse_type-Runs : Runs 0 Clean (suc m) (parse_type rec) Any
  unfolding parse_type
  parse_type-Runs =
      if_at_runs TokenKind.l_bracket (weaken parse_array_type-Runs) parse_type_path-Runs

  pub parse_param-Runs : Runs 0 Clean (suc m) (parse_param rec) Any
  unfolding parse_param
  parse_param-Runs = node_of_runs NodeKind.param (
      expect_runs TokenKind.ident
      ⨟ trivia_runs
      ⨟ expect_runs TokenKind.colon
      ⨟ trivia_runs
      ⨟ parse_type-Runs)

  pub parse_param_list-Runs : Runs 0 Any (suc m) (parse_param_list rec) Clean
  unfolding parse_param_list is_trivia
  parse_param_list-Runs =
      list_of_runs NodeKind.param_list (separated_runs TokenKind.r_paren refl parse_param-Runs)

  pub parse_field-Runs : Runs 0 Clean (suc m) (parse_field rec) Any
  unfolding parse_field
  parse_field-Runs = node_of_runs NodeKind.field (
      expect_runs TokenKind.ident
      ⨟ trivia_runs
      ⨟ expect_runs TokenKind.colon
      ⨟ trivia_runs
      ⨟ parse_type-Runs)

  pub parse_field_list-Runs : Runs 0 Any (suc m) (parse_field_list rec) Clean
  unfolding parse_field_list is_trivia
  parse_field_list-Runs =
      list_of_runs NodeKind.field_list (separated_runs TokenKind.r_brace refl parse_field-Runs)

  generic_param-Runs : Runs 0 Clean (suc m) (generic_param rec) Clean
  unfolding generic_param
  generic_param-Runs = node_of_runs NodeKind.generic_param (
      expect_runs TokenKind.ident
      ⨟ trivia_runs
      ⨟ if_at_runs TokenKind.colon
          (bump_runs ⨟ trivia_runs ⨟ expect_runs TokenKind.ident ⨟ trivia_runs) stop_runs)

  pub parse_generic_params-Runs : Runs 0 Clean (suc m) (parse_generic_params rec) Any
  unfolding parse_generic_params same_kind is_trivia
  parse_generic_params-Runs = node_of_runs NodeKind.generic_param_list (
      expect_runs TokenKind.l_bracket
      ⨟ trivia_runs
      ⨟ if_at_runs TokenKind.r_bracket (here_clean TokenKind.r_bracket refl stop_runs) (
          loop_runs (λ next k le t.
            lower le generic_param-Runs
            ⨟ if_at_runs TokenKind.comma
                (weaken (bump_takes TokenKind.comma refl ⟫ trivia_runs ⨟ t)) stop_runs))
      ⨟ expect_runs TokenKind.r_bracket)

  pub parse_effects_clause-Runs : Runs 0 Clean (suc m) (parse_effects_clause rec) Any
  unfolding parse_effects_clause is_trivia
  parse_effects_clause-Runs = node_of_runs NodeKind.effects_clause (
      expect_runs TokenKind.kw_effects
      ⨟ trivia_runs
      ⨟ expect_runs TokenKind.l_bracket
      ⨟ list_of_runs NodeKind.effect_list
          (separated_runs TokenKind.r_bracket refl (expect_runs TokenKind.ident))
      ⨟ expect_runs TokenKind.r_bracket)

  pub return_type-Runs : Runs 0 Clean (suc m) (return_type rec) Any
  unfolding return_type
  return_type-Runs =
      if_at_runs TokenKind.arrow
        (node_of_runs NodeKind.return_type (bump_runs ⨟ trivia_runs ⨟ parse_type-Runs)) stop-Any

  pub parse_signature-Runs : Runs 1 (Here TokenKind.kw_fn) (suc (suc m)) (parse_signature rec) Any
  unfolding parse_signature same_kind
  parse_signature-Runs = node_of_runs NodeKind.fn_item (
      bump_takes TokenKind.kw_fn refl
      ⟫ trivia_runs
      ⨟ expect_runs TokenKind.ident
      ⨟ trivia_runs
      ⨟ expect_runs TokenKind.l_paren
      ⨟ parse_param_list-Runs
      ⨟ expect_runs TokenKind.r_paren
      ⨟ trivia_runs
      ⨟ return_type-Runs
      ⨟ trivia_runs
      ⨟ expect_runs TokenKind.semicolon)

  pub pattern_atom-Runs : (o : Option TokenKind) → Runs 0 Clean (suc m) (pattern_atom rec o) Any
  unfolding pattern_atom is_trivia
  pattern_atom-Runs (some TokenKind.ident) =
      parse_type_path-Runs
      ⨟ trivia_runs
      ⨟ if_at_runs TokenKind.l_paren
          (bump_runs
            ⨟ trivia_runs
            ⨟ expect_runs TokenKind.ident
            ⨟ trivia_runs
            ⨟ expect_runs TokenKind.r_paren)
          (if_at_runs TokenKind.l_brace (bump_runs ⨟ trivia_runs ⨟ expect_runs TokenKind.r_brace)
            stop-Any)
  pattern_atom-Runs (some TokenKind.integer) =
      expect_runs TokenKind.integer
      ⨟ trivia_runs
      ⨟ if_at_runs TokenKind.dot_dot
          (here_clean TokenKind.dot_dot refl (expect_runs TokenKind.dot_dot)
            ⨟ trivia_runs
            ⨟ expect_runs TokenKind.integer)
          stop-Any
  pattern_atom-Runs (some TokenKind.string) = expect_runs TokenKind.string
  pattern_atom-Runs (some TokenKind.kw_true) = expect_runs TokenKind.kw_true
  pattern_atom-Runs (some TokenKind.kw_false) = expect_runs TokenKind.kw_false
  pattern_atom-Runs (some TokenKind.underscore) = expect_runs TokenKind.underscore
  pattern_atom-Runs _ = bump_runs

  pub parse_match_pattern_atom-Runs :
      {P : Fact} → Runs 0 P (suc m) (parse_match_pattern_atom rec) Any
  unfolding parse_match_pattern_atom
  parse_match_pattern_atom-Runs =
      node_of_runs NodeKind.match_pattern
        (trivia_runs ⨟ by_kind_any (pattern_atom rec) pattern_atom-Runs)

  pub parse_match_pattern-Runs : {P : Fact} → Runs 0 P (suc m) (parse_match_pattern rec) Clean
  unfolding parse_match_pattern same_kind is_trivia
  parse_match_pattern-Runs = node_of_runs NodeKind.match_pattern (
      trivia_runs
      ⨟ parse_match_pattern_atom-Runs
      ⨟ trivia_runs
      ⨟ loop_runs (λ next k le t.
        if_at_runs TokenKind.pipe
          (weaken (
            bump_takes TokenKind.pipe refl
            ⟫ trivia_runs
            ⨟ down (lower le parse_match_pattern_atom-Runs)
            ⨟ trivia_runs
            ⨟ t))
          stop_runs))
