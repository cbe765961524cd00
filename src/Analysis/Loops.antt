-- ===== src/Analysis/Loops.antt =====
-- src/semantics-analyze.cxx: the for statement.
pub mod Rejecting
pub mod Search
pub mod Variables
pub mod Nested
pub mod Threatened
use waspas.Base.{ℕ, true, false, List, [], ◌∷◌, Option, none, some}
use waspas.Reporting.{
  type_mismatch, undefined_identifier, non_ordinal_type, threatened_control_variable,
}
use waspas.Parsing.Nodes.{Identifier, RangeDirection}
use waspas.Parsing.Nodes.Expressions.{Expression}
use waspas.Semantics.Types.{PascalType, is_ordinal}
use waspas.Semantics.Types.Relations.{is_compatible_with}
use waspas.Semantics.Scopes.{Scope}
use waspas.Semantics.Blocks.{VariableEntry, find_name}
use waspas.Semantics.Expressions.{SemExpression, access_variable_id}
use waspas.Semantics.Statements.{SemStatement, statement_empty, statement_for}
use waspas.Analysis.{Analysis, pure, ◌>>=◌, ◌>>◌, gets, report, report_note}
use waspas.Analysis.Values.{value_type}
use waspas.Analysis.Access.{Resolver, type_of_value, expression_view}
use waspas.Analysis.Builder.{StatementBuilder, threaten_variable}
use waspas.Analysis.Steps.{Body, control_variable_block}

-- `withNewUsedControlVariable`.
unfoldable pub with_control_variable : Identifier → StatementBuilder → StatementBuilder
with_control_variable id builder = record builder {
  used_control_variables =
      record { name = id.spelling; location = id.view.start } ∷ builder.used_control_variables;
}

-- A variable that an inner block may change is no control variable.
unfoldable pub check_no_threat : ℕ → Option ℕ → Analysis (Unit {0})
unfolding report report_note
check_no_threat location none = pure tt
check_no_threat location (some threat) = do
  report location threatened_control_variable []
  report_note threat []

module _ (resolver : StatementBuilder → Resolver) where
  -- The initial or the final value, if its type is compatible with that of the variable.
  unfoldable pub resolve_limit :
      StatementBuilder → List Scope → PascalType → Expression → Analysis (Option SemExpression)
  unfolding value_type is_compatible_with report expression_view
  resolve_limit builder scopes control_type node = do
    e ← resolver builder scopes node
    t ← type_of_value scopes e
    elim (is_compatible_with t control_type) [
      | true ↦ pure (some e)
      | false ↦ do report (expression_view node).start type_mismatch []; pure none
    ]

  unfoldable pub resolve_limits_and_body :
      StatementBuilder
      → List Scope
      → Identifier
      → PascalType
      → Expression
      → RangeDirection
      → Expression
      → Body
      → Analysis SemStatement
  unfolding resolve_limit with_control_variable
  resolve_limits_and_body builder scopes id t initial direction final body = do
    first ← resolve_limit builder scopes t initial
    elim first [
      | none ↦ pure statement_empty
      | some initial_value ↦ do
        last ← resolve_limit builder scopes t final
        elim last [
          | none ↦ pure statement_empty
          | some final_value ↦ do
            inner ← body (with_control_variable id builder) scopes
            pure (statement_for id.spelling initial_value direction final_value inner)
        ]
    ]

  unfoldable pub resolve_for_variable :
      StatementBuilder
      → List Scope
      → Identifier
      → ℕ
      → VariableEntry
      → Expression
      → RangeDirection
      → Expression
      → Body
      → Analysis SemStatement
  unfolding is_ordinal check_no_threat threaten_variable resolve_limits_and_body report
  resolve_for_variable builder scopes id index v initial direction final body =
      elim (is_ordinal v.type) [
        | false ↦ do report id.view.start non_ordinal_type []; pure statement_empty
        | true ↦ do
          check_no_threat id.view.start v.subroutine_threat_location
          threaten_variable builder scopes (access_variable_id id.spelling index) id.view.start
          resolve_limits_and_body builder scopes id v.type initial direction final body
      ]

  unfoldable pub resolve_for :
      StatementBuilder
      → List Scope
      → Identifier
      → Expression
      → RangeDirection
      → Expression
      → Body
      → Analysis SemStatement
  unfolding control_variable_block resolve_for_variable find_name report
  resolve_for builder scopes id initial direction final body = do
    found ← control_variable_block id 0 scopes
    elim found [
      | none ↦ pure statement_empty
      | some (b, index) ↦ do
        variables ← gets λ s. (s.blocks b).variables
        elim (find_name id.spelling variables) [
          | none ↦ do report id.view.start undefined_identifier []; pure statement_empty
          | some v ↦ resolve_for_variable builder scopes id index v initial direction final body
        ]
    ]
