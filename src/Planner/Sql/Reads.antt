-- ===== src/Planner/Sql/Reads.antt =====
-- The SQL reader of crates/sarif_query_planner/src/lib.rs on queries that are written out: what
-- `parse_sql` reads is what was written.
use sarif.Text.{
  Text, codes, ok, starts_with, find, contains, drop, is_space, trim, trim_start, to_uppercase,
  show_ℕ,
}
use sarif.Text.Search.{
  shift, find_past, find-none, before_any_past, before_any-All, drop_past, to_uppercase-append,
  length-to_uppercase, to_uppercase_fixed, trim_end-All, IsTrimmed, IsTrimmed-append, not-contains,
}
use sarif.Text.Numbers.{show_ℕ-All, parse_usize-show_ℕ, show_begins}
use sarif.Base.{
  ℕ, suc, ◌+◌, ◌^◌, ◌≡◌, refl, sym, ap, ◌∙◌, true, false, ◌==◌, ltb, Option, none, some, [], ◌∷◌,
  ◌++◌, length, any, All, All-map, if◌then◌else◌, arith, length-append,
}
use sarif.Planner.Plan.{
  Expr, MaybeExpr, no_expr, an_expr, no_columns, column, no_joins, no_order_by, no_subquery, select,
  select_statement, QueryPlan,
}
use sarif.Planner.Sql.{
  parse_expr, extract_where, extract_limit, extract_table, is_select, parse_sql, unwrap_or,
}
use sarif.Planner.Sql.Laws.{parse_expr_total}

abbrev pub select_from : Text
select_from = codes "SELECT * FROM "

-- `SELECT * FROM table LIMIT n`
unfoldable pub limited : Text → ℕ → Text
limited table n = select_from ++ (table ++ (codes " LIMIT " ++ show_ℕ n))

-- `SELECT * FROM table WHERE condition`
unfoldable pub filtered : Text → Text → Text
filtered table condition = select_from ++ (table ++ (codes " WHERE " ++ condition))

-- A plan that reads a table, with a condition and a limit and nothing else.
unfoldable pub table_plan : Text → MaybeExpr → Option ℕ → QueryPlan
table_plan table condition rows = record {
  statements =
      select_statement (
        select table (column (codes "*") no_expr none no_columns) condition no_joins [] no_order_by
          rows no_subquery)
      ∷ [];
}

-- A name of a table as it is read: no space and no line feed, and in capitals followed by a space
-- neither of the words of the clauses at its end.
pub record IsTable (table : Text) : Type 0 where
  pub unbroken : All (λ c. any (λ s. s == c) (codes " \n") ≡ false) (to_uppercase table)
  pub no_where : contains (to_uppercase table ++ (32 ∷ [])) (codes "WHERE ") ≡ false
  pub no_limit : contains (to_uppercase table ++ (32 ∷ [])) (codes "LIMIT ") ≡ false

-- What `parse_sql` makes of the three parts of a trimmed query.
parse_parts :
    (text table : Text) (condition : MaybeExpr) (rows : Option ℕ)
    → trim text ≡ text
    → is_select text ≡ true
    → extract_table (to_uppercase text) ≡ some table
    → extract_where text ≡ some condition
    → extract_limit (to_uppercase text) ≡ rows
    → parse_sql text ≡ some (ok (table_plan table condition rows))
unfolding parse_sql table_plan unwrap_or
parse_parts text table condition rows t s a b c = rw (s, t, b, a, c, parse_sql) refl

show_ℕ-IsTrimmed : (n : ℕ) → IsTrimmed (show_ℕ n)
unfolding is_space
show_ℕ-IsTrimmed n =
    let (d, ds, e, _) = show_begins n in
    (
      λ z. absurd (cc (sym e ∙ z)),
      trim_end-All (show_ℕ n) (All-map (λ c h. ground (arith, h)) (show_ℕ n) (show_ℕ-All n)),
    )

digits_unbroken : (n : ℕ) → All (λ c. any (λ s. s == c) (codes " \n") ≡ false) (show_ℕ n)
digits_unbroken n = All-map (λ c h. ground (arith, h)) (show_ℕ n) (show_ℕ-All n)

digits_upper : (n : ℕ) → to_uppercase (show_ℕ n) ≡ show_ℕ n
digits_upper n =
    to_uppercase_fixed (show_ℕ n) (All-map (λ c h. ground (arith, h)) (show_ℕ n) (show_ℕ-All n))

digits_no_where : (n : ℕ) → contains (show_ℕ n) (codes "WHERE ") ≡ false
digits_no_where n =
    not-contains 87 (codes "HERE ") (show_ℕ n)
      (All-map (λ c h. ground (arith, h)) (show_ℕ n) (show_ℕ-All n))

-- A written query is trimmed as it is, and begins with SELECT.
trim_written :
    (table clause : Text)
    → IsTrimmed clause
    → trim (select_from ++ (table ++ clause)) ≡ select_from ++ (table ++ clause)
unfolding trim trim_start is_space
trim_written table clause h =
    (IsTrimmed-append select_from (table ++ clause) (IsTrimmed-append table clause h)).1

select_written :
    (table clause : Text) → IsTrimmed clause → is_select (select_from ++ (table ++ clause)) ≡ true
unfolding is_select starts_with to_uppercase
select_written table clause h = rw (trim_written table clause h) refl

upper_written :
    (table clause : Text)
    → to_uppercase (select_from ++ (table ++ clause))
      ≡ select_from ++ (to_uppercase table ++ to_uppercase clause)
unfolding to_uppercase
upper_written table clause = rw (to_uppercase-append table clause) refl

where_first : (t : Text) → find (32 ∷ (codes "WHERE " ++ t)) (codes "WHERE ") ≡ some 1
unfolding find starts_with
where_first t = refl

module _ (table : Text) (w : IsTable table) where
  front : Text
  front = select_from ++ to_uppercase table

  -- The table in front of a clause, in a text in capitals.
  table_read : (rest : Text) → extract_table (front ++ (32 ∷ rest)) ≡ some (to_uppercase table)
  unfolding front extract_table find starts_with drop
  table_read rest =
      ap some (before_any_past (codes " \n") (to_uppercase table) 32 rest w.unbroken refl)

  -- Where a clause begins behind the table.
  where_found :
      (rest : Text)
      → find (front ++ (32 ∷ rest)) (codes "WHERE ")
        ≡ shift (length front) (find (32 ∷ rest) (codes "WHERE "))
  unfolding front contains starts_with
  where_found rest =
      find_past (codes "WHERE") (refl, (refl, (refl, (refl, (refl, tt))))) front rest w.no_where

  limit_found :
      (rest : Text)
      → find (front ++ (32 ∷ rest)) (codes "LIMIT ")
        ≡ shift (length front) (find (32 ∷ rest) (codes "LIMIT "))
  unfolding front contains starts_with
  limit_found rest =
      find_past (codes "LIMIT") (refl, (refl, (refl, (refl, (refl, tt))))) front rest w.no_limit

  limit_read :
      (n : ℕ)
      → extract_limit (front ++ (codes " LIMIT " ++ show_ℕ n))
        ≡ (if ltb n (2 ^ 64) then some n else none)
  unfolding extract_limit find starts_with drop
  limit_read n =
      let rest = codes "LIMIT " ++ show_ℕ n in
      let here : find (front ++ (32 ∷ rest)) (codes "LIMIT ") ≡ some (length front + 1) =
        limit_found rest in
      let past : length front + 1 + 6 ≡ length front + 7 = omega arith in
      rw (here, extract_limit)
        (rw
          (
            past,
            drop_past front 7 (32 ∷ rest),
            before_any-All (codes " \n") (show_ℕ n) (digits_unbroken n),
          )
          (parse_usize-show_ℕ n))

  upper_limited : (n : ℕ) → to_uppercase (limited table n) ≡ front ++ (codes " LIMIT " ++ show_ℕ n)
  unfolding limited front to_uppercase
  upper_limited n =
      upper_written table (codes " LIMIT " ++ show_ℕ n)
      ∙ ap (λ t. select_from ++ (to_uppercase table ++ (codes " LIMIT " ++ t))) (digits_upper n)

  -- The clause of the limit has no condition.
  no_where_clause : (n : ℕ) → find (32 ∷ (codes "LIMIT " ++ show_ℕ n)) (codes "WHERE ") ≡ none
  unfolding contains starts_with
  no_where_clause n =
      find-none (32 ∷ (codes "LIMIT " ++ show_ℕ n)) (codes "WHERE ") (digits_no_where n)

  no_condition : (n : ℕ) → extract_where (limited table n) ≡ some no_expr
  unfolding extract_where
  no_condition n =
      let nowhere : find (to_uppercase (limited table n)) (codes "WHERE ") ≡ none =
        rw (upper_limited n, where_found (codes "LIMIT " ++ show_ℕ n), no_where_clause n) refl in
      rw (nowhere, extract_where) refl

  -- The query `SELECT * FROM table LIMIT n` is read as the plan that scans the table, its name in
  -- capitals, without a condition, and with the limit n if n fits 64 bits and none otherwise. In
  -- capitals the name has no space and no line feed, and does not end with WHERE or LIMIT.
  pub parse_sql-limited :
      (n : ℕ)
      → parse_sql (limited table n)
        ≡ some
            (ok (table_plan (to_uppercase table) no_expr (if ltb n (2 ^ 64) then some n else none)))
  unfolding limited
  parse_sql-limited n =
      let clause = codes " LIMIT " ++ show_ℕ n in
      let solid = IsTrimmed-append (codes " LIMIT ") (show_ℕ n) (show_ℕ-IsTrimmed n) in
      parse_parts (limited table n) (to_uppercase table) no_expr _ (trim_written table clause solid)
        (select_written table clause solid)
        (ap extract_table (upper_limited n) ∙ table_read (codes "LIMIT " ++ show_ℕ n))
        (no_condition n) (ap extract_limit (upper_limited n) ∙ limit_read n)

  module _ (condition : Text) (solid : IsTrimmed condition)
      (free : contains (to_uppercase condition) (codes "LIMIT ") ≡ false) where
    upper_filtered :
        to_uppercase (filtered table condition)
        ≡ front ++ (codes " WHERE " ++ to_uppercase condition)
    unfolding filtered front to_uppercase
    upper_filtered = upper_written table (codes " WHERE " ++ condition)

    -- The condition begins behind the clause's word, in the text as it is written.
    behind_where : drop (length front + 1 + 6) (filtered table condition) ≡ condition
    unfolding filtered front drop
    behind_where =
        let past : length front + 1 + 6 ≡ length (select_from ++ table) + 7 = omega (
          arith,
          length-append select_from (to_uppercase table),
          length-append select_from table,
          length-to_uppercase table,
        ) in
        rw past (drop_past (select_from ++ table) 7 (codes " WHERE " ++ condition))

    no_limit_clause : find (32 ∷ (codes "WHERE " ++ to_uppercase condition)) (codes "LIMIT ") ≡ none
    unfolding contains starts_with
    no_limit_clause =
        find-none (32 ∷ (codes "WHERE " ++ to_uppercase condition)) (codes "LIMIT ") free

    condition_read :
        (e : Expr)
        → parse_expr (suc (length condition)) condition ≡ some e
        → extract_where (filtered table condition) ≡ some (an_expr e)
    unfolding extract_where
    condition_read e p =
        let here : find (to_uppercase (filtered table condition)) (codes "WHERE ")
            ≡ some (length front + 1) =
          rw (upper_filtered) (
            where_found (codes "WHERE " ++ to_uppercase condition)
            ∙ ap (shift (length front)) (where_first (to_uppercase condition))) in
        rw (here, extract_where) (rw (behind_where, p) refl)

    no_rows : extract_limit (to_uppercase (filtered table condition)) ≡ none
    unfolding extract_limit
    no_rows =
        let nowhere : find (to_uppercase (filtered table condition)) (codes "LIMIT ") ≡ none =
          rw
            (
              upper_filtered,
              limit_found (codes "WHERE " ++ to_uppercase condition),
              no_limit_clause,
            )
            refl in
        rw (nowhere, extract_limit) refl

    -- The query `SELECT * FROM table WHERE condition` is read as the plan that scans the table, its
    -- name in capitals, with the expression that the reader of conditions makes of the condition as
    -- it is written, and without a limit. In capitals the name has no space and no line feed, and
    -- does not end with WHERE or LIMIT; the condition is not empty, does not end with white space,
    -- and in capitals does not have the word LIMIT with a space behind it.
    pub parse_sql-filtered :
        (e : Expr) × (parse_expr (suc (length condition)) condition ≡ some e)
        × (parse_sql (filtered table condition)
            ≡ some (ok (table_plan (to_uppercase table) (an_expr e) none)))
    unfolding filtered
    parse_sql-filtered =
        let clause = codes " WHERE " ++ condition in
        let whole = IsTrimmed-append (codes " WHERE ") condition solid in
        let (e, p) = parse_expr_total (suc (length condition)) condition (omega arith) in
        (
          e,
          p,
          parse_parts (filtered table condition) (to_uppercase table) (an_expr e) none
              (trim_written table clause whole) (select_written table clause whole)
              (ap extract_table upper_filtered
                ∙ table_read (codes "WHERE " ++ to_uppercase condition))
              (condition_read e p) no_rows,
        )
