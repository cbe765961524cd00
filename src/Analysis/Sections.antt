-- ===== src/Analysis/Sections.antt =====
-- src/semantics-analyze.cxx: the sections of a signature, and the actual parameters of each.
pub mod Resolved
pub mod Complete
use waspas.Base.{
  ℕ, zero, suc, Bool, true, false, List, [], ◌∷◌, Option, none, some, length, codes, ltb, get_elem?,
  ◌==◌, if◌then◌else◌,
}
use waspas.Utilities.{Text}
use waspas.Reporting.{type_mismatch}
use waspas.Parsing.Nodes.Expressions.{
  Expression, actual_parameter, ActualParameters, no_actual_parameters, more_actual_parameters,
}
use waspas.Semantics.Types.{PascalType}
use waspas.Semantics.Signatures.{
  Signature, ParameterSections, no_sections, regular_section, subroutine_section, parameters,
  result_type, same_result, is_congruous_with,
}
use waspas.Semantics.Scopes.{Scope}
use waspas.Semantics.Expressions.{
  SemExpression, SemAccess, ActualSections, SubroutineReference, value_section, variable_section,
}
use waspas.Analysis.{Analysis, pure, ◌>>=◌, ◌>>◌, asserted, report}
use waspas.Analysis.Values.{variable_type, value_type}
use waspas.Analysis.Access.{
  Resolver, type_of_value, type_of_variable, expression_view, resolve_variable_access,
}
use waspas.Analysis.Builder.{StatementBuilder, threaten_variable}
use waspas.Analysis.Subroutines.{
  check_expression_is_variable_access, resolve_expression_as_subroutine_reference, is_function,
}
use waspas.Analysis.Parameters.{
  FirstGood, keep_first, check_no_formatting_specification, check_no_extraneous_parameter,
  count_nodes, drop_nodes, check_variable_type, check_value_type, check_component, report_missing,
  accesses, values,
}

module _ (builder : StatementBuilder) (resolve_expression : Resolver) where
  unfoldable pub resolve_expression_as_variable_access :
      List Scope → Expression → Text → Analysis (Option SemAccess)
  unfolding check_expression_is_variable_access resolve_variable_access
  resolve_expression_as_variable_access scopes node construct = do
    access ← check_expression_is_variable_access node construct
    elim access [ none ↦ pure none | some a ↦ resolve_variable_access resolve_expression scopes a ]

  -- One round of the loop over the variable parameters: whether the access is one more parameter.
  unfoldable pub check_variable_parameter :
      List Scope → PascalType → FirstGood → SemAccess → PascalType → ℕ → Analysis Bool
  unfolding check_variable_type check_component threaten_variable
  check_variable_parameter scopes formal first access t location = do
    fits ← check_variable_type formal first t location
    elim fits [
      | false ↦ pure false
      | true ↦ do
        good ← check_component scopes access location
        elim good [
          | false ↦ pure false
          | true ↦ do threaten_variable builder scopes access location; pure true
        ]
    ]

  unfoldable pub variable_parameters :
      List Scope → PascalType → FirstGood → ℕ → ActualParameters → Analysis (List SemAccess)
  unfolding check_no_formatting_specification resolve_expression_as_variable_access
      check_variable_parameter variable_type expression_view
  variable_parameters scopes formal first zero nodes = pure []
  variable_parameters scopes formal first (suc n) no_actual_parameters = pure []
  variable_parameters scopes formal first (suc n)
        (more_actual_parameters (actual_parameter view node formatting) nodes) =
      do
        check_no_formatting_specification formatting
        found ← resolve_expression_as_variable_access scopes node (codes "variable access")
        elim found [
          | none ↦ variable_parameters scopes formal first n nodes
          | some access ↦ do
            t ← type_of_variable scopes access
            good ←
                check_variable_parameter scopes formal first access t (expression_view node).start
            elim good [
              | false ↦ variable_parameters scopes formal first n nodes
              | true ↦ do
                rest ← variable_parameters scopes formal (keep_first first t view.start) n nodes
                pure (access ∷ rest)
            ]
        ]

  unfoldable pub value_parameters :
      List Scope → PascalType → FirstGood → ℕ → ActualParameters → Analysis (List SemExpression)
  unfolding check_no_formatting_specification check_value_type value_type expression_view
  value_parameters scopes formal first zero nodes = pure []
  value_parameters scopes formal first (suc n) no_actual_parameters = pure []
  value_parameters scopes formal first (suc n)
        (more_actual_parameters (actual_parameter view node formatting) nodes) =
      do
        check_no_formatting_specification formatting
        e ← resolve_expression scopes node
        t ← type_of_value scopes e
        good ← check_value_type formal first t (expression_view node).start
        elim good [
          | false ↦ value_parameters scopes formal first n nodes
          | true ↦ do
            rest ← value_parameters scopes formal (keep_first first t view.start) n nodes
            pure (e ∷ rest)
        ]

  -- A section that is resolved is what it puts before the sections after it.
  abbrev pub Section : Type 0
  Section = Option (ActualSections → ActualSections)

  unfoldable pub regular_parameters :
      List Scope → Bool → ℕ → PascalType → ActualParameters → Analysis Section
  unfolding variable_parameters value_parameters
  regular_parameters scopes true names formal nodes = do
    found ← variable_parameters scopes formal none names nodes
    pure (if length found == names then some (variable_section (accesses found)) else none)
  regular_parameters scopes false names formal nodes = do
    found ← value_parameters scopes formal none names nodes
    pure (if length found == names then some (value_section (values found)) else none)

  -- `resolveActualParameterSection`, with the parameters that are left.
  unfoldable pub resolve_regular_section :
      List Scope
      → Bool
      → List Text
      → PascalType
      → ActualParameters
      → ℕ
      → Analysis (Section × ActualParameters)
  unfolding regular_parameters report_missing count_nodes drop_nodes
  resolve_regular_section scopes is_variable names formal nodes end_location =
      elim (ltb (count_nodes nodes) (length names)) [
        | true ↦ do
          name ← asserted (get_elem? names (count_nodes nodes))
          report_missing end_location name
          pure (none, nodes)
        | false ↦ do
          section ← regular_parameters scopes is_variable (length names) formal nodes
          pure (section, drop_nodes (length names) nodes)
      ]

  unfoldable pub check_reference :
      Signature → ℕ → Option (SubroutineReference × Signature) → Analysis Section
  unfolding is_congruous_with same_result result_type report
  check_reference formal location none = pure none
  check_reference formal location (some (r, s)) = elim (is_congruous_with s formal) [
    | false ↦ do report location type_mismatch []; pure none
    | true ↦ elim (same_result (result_type s) (result_type formal)) [
      | false ↦ do report location type_mismatch []; pure none
      | true ↦ pure (some (ActualSections.subroutine_section r))
    ]
  ]

  unfoldable pub resolve_subroutine_section :
      List Scope → Text → Signature → ActualParameters → ℕ → Analysis (Section × ActualParameters)
  unfolding check_no_formatting_specification resolve_expression_as_subroutine_reference
      check_reference report_missing expression_view
  resolve_subroutine_section scopes name formal no_actual_parameters end_location = do
    report_missing end_location name
    pure (none, no_actual_parameters)
  resolve_subroutine_section scopes name formal
        (more_actual_parameters (actual_parameter view node formatting) nodes) end_location =
      do
        check_no_formatting_specification formatting
        found ← resolve_expression_as_subroutine_reference (is_function formal) scopes node
        section ← check_reference formal (expression_view node).start found
        pure (section, nodes)

  abbrev pub put : Section → ActualSections → ActualSections
  put none rest = rest
  put (some section) rest = section rest

  -- The loop over the sections, which stops at one that took no parameter.
  unfoldable pub resolve_sections :
      List Scope → ParameterSections → ActualParameters → ℕ → Analysis ActualSections
  unfolding resolve_regular_section resolve_subroutine_section check_no_extraneous_parameter
      count_nodes
  resolve_sections scopes no_sections nodes end_location = do
    check_no_extraneous_parameter nodes
    pure ActualSections.no_sections
  resolve_sections scopes (regular_section is_variable names type rest) nodes end_location = do
    found ← resolve_regular_section scopes is_variable names type nodes end_location
    elim (count_nodes found.1 == count_nodes nodes) [
      | true ↦ pure ActualSections.no_sections
      | false ↦ do
        others ← resolve_sections scopes rest found.1 end_location
        pure (put found.0 others)
    ]
  resolve_sections scopes (subroutine_section name formal rest) nodes end_location = do
    found ← resolve_subroutine_section scopes name formal nodes end_location
    elim (count_nodes found.1 == count_nodes nodes) [
      | true ↦ pure ActualSections.no_sections
      | false ↦ do
        others ← resolve_sections scopes rest found.1 end_location
        pure (put found.0 others)
    ]

  unfoldable pub resolve_actual_parameters :
      List Scope → Signature → ActualParameters → ℕ → Analysis ActualSections
  unfolding resolve_sections parameters
  resolve_actual_parameters scopes formal nodes end_location =
      resolve_sections scopes (parameters formal) nodes end_location
