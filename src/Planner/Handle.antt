-- ===== src/Planner/Handle.antt =====
-- The handles for a browser, crates/sarif_query_planner/src/wasm_api/mod.rs, over the planner and the
-- cursor. The thread's cells CURRENT_DB and CURRENT_RESULT are a state that each operation is given
-- and returns.
use sarif.Text.{Result, ok, err}
use sarif.Base.{ℕ, suc, Bool, Option, none, some, List, [], ◌∷◌, if◌then◌else◌}
use sarif.Text.{Text, codes, same_text}
use sarif.Planner.Optimizer.{pretty_optimized_plan}
use sarif.Planner.Sql.{SarifQuery, SarifPlan, open_database, prepare_query}
use sarif.Planner.Cursor.{SarifResult, default, step, column_text}

pub record Cells : Type 0 where
  pub current_db : Option SarifQuery
  pub current_result : Option SarifResult

pub record SarifQueryHandle : Type 0 where
  pub db : SarifQuery

pub record SarifPlanHandle : Type 0 where
  pub plan : SarifPlan

pub record SarifResultSetHandle : Type 0 where
  pub result : SarifResult

-- `SarifQueryHandle::open`
unfoldable pub open_query : (Text → Bool) → Text → Cells → Cells × Result SarifQueryHandle
open_query file_exists path cells = elim (open_database file_exists path) [
  | err message ↦ (cells, err message)
  | ok db ↦ (record cells { current_db = some db }, ok (record { db = db }))
]

-- `SarifQueryHandle::prepare`; the outer `none` is that of `prepare_query`.
unfoldable pub prepare : SarifQueryHandle → Text → Option (Result SarifPlanHandle)
prepare handle sql = elim (prepare_query handle.db sql) [
  | none ↦ none
  | some (err message) ↦ some (err message)
  | some (ok plan) ↦ some (ok (record { plan = plan }))
]

-- `SarifPlanHandle::execute`
unfoldable pub execute : Cells → Cells × SarifResultSetHandle
execute cells = (record cells { current_result = some default }, record { result = default })

-- `SarifResultSetHandle::next`
unfoldable pub next : SarifResultSetHandle → SarifResultSetHandle × Bool
next handle = (record { result = (step handle.result).0 }, (step handle.result).1)

-- `iter().position(|c| c == name)`
unfoldable pub position : Text → List Text → Option ℕ
unfolding same_text
position name [] = none
position name (c ∷ cs) =
    if same_text c name
    then some 0
    else elim (position name cs) [ none ↦ none | some i ↦ some (suc i) ]

-- `SarifResultSetHandle::get_column`
unfoldable pub get_column : SarifResultSetHandle → Text → Option Text
unfolding position
get_column handle name = elim (position name handle.result.columns) [
  | none ↦ none
  | some idx ↦ column_text handle.result idx
]

-- `SarifResultSetHandle::get_column_by_index`
unfoldable pub get_column_by_index : SarifResultSetHandle → ℕ → Option Text
get_column_by_index handle idx = column_text handle.result idx

unfoldable pub get_plan_pretty : SarifPlan → Text
unfolding pretty_optimized_plan
get_plan_pretty plan = elim plan.optimized [
  | none ↦ codes "no optimized plan"
  | some p ↦ pretty_optimized_plan p
]

unfoldable pub execute_plan : SarifPlan → SarifResult
execute_plan plan = default
