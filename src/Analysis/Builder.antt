-- ===== src/Analysis/Builder.antt =====
-- src/semantics-analyze.cxx: the members of `StatementBuilder`, and the control variables of for
-- statements, which other statements must not change.
pub mod Threats
use waspas.Base.{ℕ, true, false, List, [], ◌∷◌, Option, none, some, ◌==◌}
use waspas.Utilities.{Text, cisref_eq}
use waspas.Reporting.{text, threatened_control_variable}
use waspas.Semantics.Scopes.{Scope, parent, closest_containing_block}
use waspas.Semantics.Blocks.{VariableEntry, find_name, change_name}
use waspas.Semantics.Expressions.{SemAccess, access_variable_id}
use waspas.Analysis.{Analysis, pure, ◌>>=◌, ◌>>◌, gets, asserted, report, report_note, change_block}
use waspas.Analysis.Values.{first_region, block_of, and_then}

pub record ControlVariable : Type 0 where
  pub name : Text
  pub location : ℕ

-- The linked lists, the innermost node first; a set of labels is a list.
pub record StatementBuilder : Type 0 where
  pub allowed_goto_targets : List (List ℕ)
  pub used_control_variables : List ControlVariable

unfoldable pub find_control_variable : Text → List ControlVariable → Option ControlVariable
find_control_variable id [] = none
find_control_variable id (v ∷ more) =
    let rest = find_control_variable id more in
    elim (cisref_eq id v.name) [ true ↦ some v | false ↦ rest ]

-- The number of the block that `scope.parent(index)` is the scope of.
unfoldable pub block_number : List Scope → ℕ → Option ℕ
unfolding parent block_of
block_number scopes index = and_then (parent index scopes) λ l. and_then (first_region l) block_of

unfoldable pub set_threat : ℕ → VariableEntry → VariableEntry
set_threat location v = elim v.subroutine_threat_location [
  | none ↦ record v { subroutine_threat_location = some location }
  | some _ ↦ v
]

-- The two cases of `threatenVariable`: in the block of the variable, and in one inside it.
unfoldable pub threaten_here : StatementBuilder → Text → ℕ → Analysis (Unit {0})
unfolding find_control_variable report report_note
threaten_here builder id location = elim (find_control_variable id builder.used_control_variables) [
  | none ↦ pure tt
  | some v ↦ do
    report location threatened_control_variable []
    report_note v.location (text v.name ∷ [])
]

unfoldable pub threaten_outer : ℕ → Text → ℕ → Analysis (Unit {0})
unfolding find_name change_name set_threat change_block
threaten_outer b id location = do
  variables ← gets λ s. (s.blocks b).variables
  entry ← asserted (find_name id variables)
  change_block b
      λ block. record block { variables = change_name id (set_threat location) block.variables }

unfoldable pub threaten_variable :
    StatementBuilder → List Scope → SemAccess → ℕ → Analysis (Unit {0})
unfolding threaten_here threaten_outer block_number closest_containing_block
threaten_variable builder scopes (access_variable_id id index) location = do
  closest ← asserted (closest_containing_block scopes)
  own ← asserted (block_number scopes index)
  elim (own == closest) [
    | true ↦ threaten_here builder id location
    | false ↦ threaten_outer own id location
  ]
threaten_variable builder scopes _ location = pure tt
