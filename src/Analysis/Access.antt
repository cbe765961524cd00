-- ===== src/Analysis/Access.antt =====
-- src/semantics-analyze.cxx: variable accesses, whose modifiers select components.
use waspas.Base.{true, false, List, [], ◌∷◌, Option, none, some, codes}
use mathlib.Core.Option
use waspas.Utilities.{Text}
use waspas.Reporting.{
  text, type_mismatch, non_record_type, non_array_type, undefined_identifier, wrong_identifier_kind,
  invalid_component_access,
}
use waspas.Parsing.Combinators.{View}
use waspas.Parsing.Nodes.{Identifier}
use waspas.Parsing.Nodes.Expressions.{
  Expression, expression, Expressions, no_expressions, more_expressions, VariableAccess,
  variable_access, VariableModifier, indexing_modifier, field_access_modifier,
  dereferencing_modifier, VariableModifiers, no_variable_modifiers, more_variable_modifiers,
}
use waspas.Semantics.Types.{PascalType, type_pointer, type_file, type_text, type_record}
use waspas.Semantics.Types.Relations.{is_assignment_compatible_with, if_array}
use waspas.Semantics.Scopes.{Scope, LookupResult, lookup}
use waspas.Semantics.Expressions.{
  SemExpression, SemAccess, access_activation_result, access_buffer, access_dereference,
  access_field, access_indexed, expression_access,
}
use waspas.Analysis.{Analysis, pure, ◌>>=◌, ◌>>◌, asserted, report}
use waspas.Analysis.Values.{variable_type, value_type, find_field}
use waspas.Analysis.Identifiers.{
  resolve_variable_or_fd_identifier, resolve_variable_fd_or_current_function_identifier,
}

-- `resolveExpression`, which the parts of an access call.
abbrev pub Resolver : Type 0
Resolver = List Scope → Expression → Analysis SemExpression

abbrev pub type_of_value : List Scope → SemExpression → Analysis PascalType
type_of_value scopes e s = asserted (value_type s scopes e) s

abbrev pub type_of_variable : List Scope → SemAccess → Analysis PascalType
type_of_variable scopes access s = asserted (variable_type s scopes access) s

unfoldable pub expression_view : Expression → View
expression_view (expression view _ _) = view

unfoldable pub modifier_view : VariableModifier → View
modifier_view (indexing_modifier view _) = view
modifier_view (field_access_modifier view _) = view
modifier_view (dereferencing_modifier view) = view

-- The template is used at `Expression` and at `VariableAccess`: here, at the former, of which the
-- latter is a part.
abbrev pub of_access :
    (List Scope → LookupResult → Identifier → Analysis (Option SemAccess))
    → List Scope
    → LookupResult
    → Identifier
    → Analysis (Option SemExpression)
of_access f scopes r id = do access ← f scopes r id; pure (Option.map expression_access access)

abbrev pub only_access : Option SemExpression → Analysis (Option SemAccess)
only_access none = pure none
only_access (some (expression_access a)) = pure (some a)
only_access (some _) = asserted none

module _ (resolve_expression : Resolver) where
  -- The loop over the indices of a modifier, which an error leaves.
  unfoldable pub apply_indices :
      List Scope → SemAccess → PascalType → Expressions → Analysis SemAccess
  unfolding variable_type value_type is_assignment_compatible_with report expression_view
  apply_indices scopes access t no_expressions = pure access
  apply_indices scopes access t (more_expressions e rest) =
      if_array t
        (λ index_type component packed. do
          index ← resolve_expression scopes e
          value ← type_of_value scopes index
          elim (is_assignment_compatible_with value index_type) [
            | false ↦ do report (expression_view e).start type_mismatch []; pure access
            | true ↦ do
              next ← type_of_variable scopes (access_indexed access index)
              apply_indices scopes (access_indexed access index) next rest
          ])
        (do report (expression_view e).start non_array_type []; pure access)

  unfoldable pub apply_modifier :
      List Scope → SemAccess → PascalType → VariableModifier → Analysis SemAccess
  unfolding apply_indices report find_field
  apply_modifier scopes access (type_pointer _ _ _) (dereferencing_modifier view) =
      pure (access_dereference access)
  apply_modifier scopes access (type_file _ _ _) (dereferencing_modifier view) =
      pure (access_buffer access)
  apply_modifier scopes access type_text (dereferencing_modifier view) = pure (access_buffer access)
  apply_modifier scopes access t (dereferencing_modifier view) = do
    report view.start type_mismatch []
    pure access
  apply_modifier scopes access (type_record _ fields _ _) (field_access_modifier view field) =
      elim (find_field field.spelling fields) [
        | none ↦ do
          report field.view.start undefined_identifier (text field.spelling ∷ [])
          pure access
        | some _ ↦ pure (access_field access field.spelling)
      ]
  apply_modifier scopes access t (field_access_modifier view field) = do
    report view.start non_record_type []
    pure access
  apply_modifier scopes access t (indexing_modifier view indices) =
      apply_indices scopes access t indices

  unfoldable pub apply_component_access :
      List Scope → SemAccess → VariableModifiers → Analysis SemAccess
  unfolding apply_modifier variable_type
  apply_component_access scopes access no_variable_modifiers = pure access
  apply_component_access scopes access (more_variable_modifiers m rest) = do
    t ← type_of_variable scopes access
    next ← apply_modifier scopes access t m
    apply_component_access scopes next rest

  -- The end of `resolveVariableAccessLike`: an access that is no activation result has components.
  unfoldable pub access_components :
      List Scope → SemExpression → VariableModifiers → Analysis (Option SemExpression)
  unfolding apply_component_access report modifier_view
  access_components scopes value no_variable_modifiers = pure (some value)
  access_components scopes value (more_variable_modifiers m rest) = elim value [
    | expression_access access ↦ elim access [
      | access_activation_result _ _ ↦ do
        report (modifier_view m).start invalid_component_access []
        pure none
      | component ↦ do
        a ← apply_component_access scopes component (more_variable_modifiers m rest)
        pure (some (expression_access a))
    ]
    | _ ↦ do report (modifier_view m).start invalid_component_access []; pure none
  ]

  unfoldable pub resolve_variable_access_like :
      List Scope
      → VariableAccess
      → (List Scope → LookupResult → Identifier → Analysis (Option SemExpression))
      → Text
      → Analysis (Option SemExpression)
  unfolding lookup access_components report
  resolve_variable_access_like scopes (variable_access view id modifiers) resolve_identifier kind =
      elim (lookup id.spelling scopes) [
        | none ↦ do report id.view.start undefined_identifier (text id.spelling ∷ []); pure none
        | some r ↦ do
          value ← resolve_identifier scopes r id
          elim value [
            | none ↦ do
              report id.view.start wrong_identifier_kind (text id.spelling ∷ text kind ∷ [])
              pure none
            | some v ↦ access_components scopes v modifiers
          ]
      ]

  -- `resolveVariableAccess`: every identifier that it accepts leads to a variable access.
  unfoldable pub resolve_variable_access : List Scope → VariableAccess → Analysis (Option SemAccess)
  unfolding resolve_variable_access_like resolve_variable_or_fd_identifier
  resolve_variable_access scopes node = do
    value ←
        resolve_variable_access_like scopes node (of_access resolve_variable_or_fd_identifier)
          (codes "variable or field designator")
    only_access value

  -- The same with the identifiers that the left-hand side of an assignment may have.
  unfoldable pub resolve_assigned_access : List Scope → VariableAccess → Analysis (Option SemAccess)
  unfolding resolve_variable_access_like resolve_variable_fd_or_current_function_identifier
  resolve_assigned_access scopes node = do
    value ←
        resolve_variable_access_like scopes node
          (of_access resolve_variable_fd_or_current_function_identifier)
          (codes "variable, field designator or current function")
    only_access value
