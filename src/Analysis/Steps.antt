-- ===== src/Analysis/Steps.antt =====
-- src/semantics-analyze.cxx: the kinds of statements, each with what resolves its bodies.
pub mod Fields
use waspas.Base.{ℕ, suc, ◌+◌, true, false, List, [], ◌∷◌, ◌++◌, Option, none, some, ◌==◌, length}
use waspas.Reporting.{text, type_mismatch, non_boolean_type, non_record_type, wrong_identifier_kind}
use waspas.Parsing.Nodes.{Identifier}
use waspas.Parsing.Nodes.Expressions.{Expression, VariableAccess, variable_access, ActualParameters}
use waspas.Semantics.Types.{PascalType, FieldDescriptions, no_fields, more_fields, type_record}
use waspas.Semantics.Types.Relations.{is_assignment_compatible_with}
use waspas.Semantics.Signatures.{parameters, count_sections}
use waspas.Semantics.Scopes.{Scope, block_region, with_region, not_type, add, contains_shallow}
use waspas.Semantics.Blocks.{Subroutine, find_name, change_name}
use waspas.Semantics.Expressions.{
  SemExpression, SemAccess, ActualSections, no_sections, value_section, variable_section,
  subroutine_section, access_activation_result,
}
use waspas.Semantics.Statements.{
  SemStatement, statement_assignment, statement_empty, statement_procedure, statement_with,
}
use waspas.Analysis.{Analysis, pure, ◌>>=◌, ◌>>◌, gets, asserted, report, change_block}
use waspas.Analysis.Values.{value_type, variable_type}
use waspas.Analysis.Access.{
  Resolver, type_of_value, type_of_variable, expression_view, resolve_variable_access,
  resolve_assigned_access,
}
use waspas.Analysis.Operators.{is_boolean, constant_false}
use waspas.Analysis.Builder.{StatementBuilder, block_number, threaten_variable}
use waspas.Analysis.Subroutines.{
  SubroutineLookup, not_found, builtin_subroutine, defined_subroutine, lookup_subroutine_reference,
}
use waspas.Analysis.Sections.{resolve_actual_parameters}
use waspas.Analysis.Factors.{Builtins, parameters_end}

-- A statement inside another: what resolves it in a scope, for a builder.
abbrev pub Body : Type 0
Body = StatementBuilder → List Scope → Analysis SemStatement

unfoldable pub count_actuals : ActualSections → ℕ
count_actuals no_sections = 0
count_actuals (value_section _ rest) = suc (count_actuals rest)
count_actuals (variable_section _ rest) = suc (count_actuals rest)
count_actuals (subroutine_section _ rest) = suc (count_actuals rest)

abbrev pub access_location : VariableAccess → ℕ
access_location (variable_access view _ _) = view.start

-- `contains_result_assignment_` of the function whose result is assigned.
unfoldable pub set_result_assignment : Subroutine → Subroutine
set_result_assignment f = record f { contains_result_assignment = true }

unfoldable pub note_result_assignment : List Scope → SemAccess → Analysis (Unit {0})
unfolding block_number find_name change_name set_result_assignment change_block
note_result_assignment scopes (access_activation_result id index) = do
  b ← asserted (block_number scopes index)
  subroutines ← gets λ s. (s.blocks b).subroutines
  entry ← asserted (find_name id subroutines)
  change_block b
      λ block. record block { subroutines = change_name id set_result_assignment block.subroutines }
note_result_assignment scopes _ = pure tt

-- The fields of a record, as the names of the scope of a with statement.
unfoldable pub add_fields : FieldDescriptions → ℕ → Scope → Scope
unfolding add
add_fields no_fields location s = s
add_fields (more_fields name _ _ rest) location s =
    add_fields rest location (add name (some location) not_type s)

unfoldable pub with_scope : ℕ → FieldDescriptions → ℕ → Scope
unfolding add_fields
with_scope n fields location =
    add_fields fields location (record { region = with_region n; dos = [] })

-- The loop of a for statement that leaves the with statements: the block and its index.
unfoldable pub control_variable_block : Identifier → ℕ → List Scope → Analysis (Option (ℕ × ℕ))
unfolding contains_shallow report
control_variable_block id index [] = asserted none
control_variable_block id index (scope ∷ scopes) = elim scope.region [
  | block_region b ↦ pure (some (b, index))
  | _ ↦ elim (contains_shallow id.spelling scope) [
    | true ↦ do report id.view.start wrong_identifier_kind (text id.spelling ∷ []); pure none
    | false ↦ control_variable_block id (index + 1) scopes
  ]
]

module _ (builtins : Builtins) (resolver : StatementBuilder → Resolver) where
  unfoldable pub resolve_condition :
      StatementBuilder → List Scope → Expression → Analysis SemExpression
  unfolding value_type is_boolean report expression_view
  resolve_condition builder scopes node = do
    e ← resolver builder scopes node
    t ← type_of_value scopes e
    elim (is_boolean t) [
      | true ↦ pure e
      | false ↦ do report (expression_view node).start non_boolean_type []; pure constant_false
    ]

  -- The right-hand side of an assignment to an access that is resolved.
  unfoldable pub assign :
      StatementBuilder → List Scope → SemAccess → Expression → Analysis SemStatement
  unfolding variable_type value_type is_assignment_compatible_with note_result_assignment report
      expression_view
  assign builder scopes access node = do
    e ← resolver builder scopes node
    t ← type_of_value scopes e
    target ← type_of_variable scopes access
    elim (is_assignment_compatible_with t target) [
      | false ↦ do report (expression_view node).start type_mismatch []; pure statement_empty
      | true ↦ do note_result_assignment scopes access; pure (statement_assignment access e)
    ]

  unfoldable pub resolve_assignment :
      StatementBuilder → List Scope → VariableAccess → Expression → Analysis SemStatement
  unfolding resolve_assigned_access threaten_variable assign
  resolve_assignment builder scopes left right = do
    found ← resolve_assigned_access (resolver builder) scopes left
    elim found [
      | none ↦ pure statement_empty
      | some access ↦ do
        threaten_variable builder scopes access (access_location left)
        assign builder scopes access right
    ]

  unfoldable pub resolve_procedure_call :
      StatementBuilder
      → List Scope
      → ActualParameters
      → ℕ
      → SubroutineLookup
      → Analysis SemStatement
  unfolding resolve_actual_parameters count_actuals count_sections parameters
  resolve_procedure_call builder scopes nodes end_location not_found = pure statement_empty
  resolve_procedure_call builder scopes nodes end_location (builtin_subroutine procedure) =
      builtins.procedure builder (resolver builder) procedure scopes nodes end_location
  resolve_procedure_call builder scopes nodes end_location (defined_subroutine r formal) = do
    actuals ← resolve_actual_parameters builder (resolver builder) scopes formal nodes end_location
    elim (count_actuals actuals == count_sections (parameters formal)) [
      | true ↦ pure (statement_procedure r actuals)
      | false ↦ pure statement_empty
    ]

  unfoldable pub resolve_procedure :
      StatementBuilder → List Scope → Identifier → ActualParameters → Analysis SemStatement
  unfolding lookup_subroutine_reference resolve_procedure_call parameters_end
  resolve_procedure builder scopes id nodes = do
    found ← lookup_subroutine_reference false scopes id
    resolve_procedure_call builder scopes nodes (parameters_end nodes id.view.finish) found

  -- A with statement is made before its body is resolved: its number is the next one.
  unfoldable pub enter_with :
      SemAccess → List Scope → ℕ → PascalType → Analysis (Option (ℕ × Scope))
  unfolding with_scope report
  enter_with access scopes location (type_record a fields variants packed) s = some (
    some (length s.withs, with_scope (length s.withs) fields location),
    record s { withs = s.withs ++ type_record a fields variants packed ∷ [] },
  )
  enter_with access scopes location t s = (do report location non_record_type []; pure none) s

  unfoldable pub resolve_with :
      StatementBuilder → List Scope → List VariableAccess → Body → Analysis SemStatement
  unfolding resolve_variable_access variable_type enter_with
  resolve_with builder scopes [] body = body builder scopes
  resolve_with builder scopes (node ∷ nodes) body = do
    found ← resolve_variable_access (resolver builder) scopes node
    elim found [
      | none ↦ pure statement_empty
      | some access ↦ do
        t ← type_of_variable scopes access
        entered ← enter_with access scopes (access_location node) t
        elim entered [
          | none ↦ pure statement_empty
          | some (n, scope) ↦ do
            inner ← resolve_with builder (scope ∷ scopes) nodes body
            pure (statement_with n access inner)
        ]
    ]
