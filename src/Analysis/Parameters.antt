-- ===== src/Analysis/Parameters.antt =====
-- src/semantics-analyze.cxx: actual parameters, resolved against the signature of what is called.
use waspas.Base.{ℕ, zero, suc, Bool, true, false, not, List, [], ◌∷◌, Option, none, some}
use waspas.Utilities.{Text}
use waspas.Reporting.{text, type_mismatch, disallowed_parameter_form, parameter_count_mismatch}
use waspas.Parsing.Nodes.Expressions.{
  formatting_specification, OptionalFormatting, no_formatting, a_formatting, actual_parameter,
  ActualParameters, no_actual_parameters, more_actual_parameters,
}
use waspas.Semantics.Types.{PascalType, type_record, same_type, is_ordinal}
use waspas.Semantics.Types.Relations.{
  is_assignment_compatible_with, is_conformable_with, if_array, if_subrange_dynamic,
}
use waspas.Semantics.Scopes.{Scope}
use waspas.Semantics.Expressions.{
  SemExpression, SemAccess, SemExpressions, SemAccesses, no_expressions, more_expressions,
  no_accesses, more_accesses, access_field, access_indexed,
}
use waspas.Analysis.{Analysis, pure, ◌>>=◌, ◌>>◌, asserted, report, report_note}
use waspas.Analysis.Values.{variable_type, find_field}
use waspas.Analysis.Access.{type_of_variable}

unfoldable pub check_no_formatting_specification : OptionalFormatting → Analysis (Unit {0})
unfolding report
check_no_formatting_specification no_formatting = pure tt
check_no_formatting_specification (a_formatting (formatting_specification view _ _)) =
    report view.start disallowed_parameter_form []

unfoldable pub check_no_extraneous_parameter : ActualParameters → Analysis (Unit {0})
unfolding report
check_no_extraneous_parameter no_actual_parameters = pure tt
check_no_extraneous_parameter (more_actual_parameters (actual_parameter view _ _) _) =
    report view.start parameter_count_mismatch []

unfoldable pub count_nodes : ActualParameters → ℕ
count_nodes no_actual_parameters = 0
count_nodes (more_actual_parameters _ rest) = suc (count_nodes rest)

unfoldable pub drop_nodes : ℕ → ActualParameters → ActualParameters
drop_nodes zero nodes = nodes
drop_nodes (suc n) no_actual_parameters = no_actual_parameters
drop_nodes (suc n) (more_actual_parameters _ rest) = drop_nodes n rest

-- The first parameter of a section that was good: its type and its location.
abbrev pub FirstGood : Type 0
FirstGood = Option (PascalType × ℕ)

abbrev pub keep_first : FirstGood → PascalType → ℕ → FirstGood
keep_first none t location = some (t, location)
keep_first (some first) t location = some first

unfoldable pub check_actual_parameter_is_conformable :
    PascalType → ℕ → PascalType → FirstGood → Analysis Bool
unfolding is_conformable_with same_type report report_note
check_actual_parameter_is_conformable t location schema none = elim (is_conformable_with t schema) [
  | true ↦ pure true
  | false ↦ do report location type_mismatch []; pure false
]
check_actual_parameter_is_conformable t location schema (some (first, first_location)) =
    elim (same_type t first) [
      | true ↦ pure true
      | false ↦ do report location type_mismatch []; report_note first_location []; pure false
    ]

-- `type_is_schema`.
unfoldable pub type_is_schema : PascalType → Bool
unfolding is_ordinal
type_is_schema t = if_array t (λ index component packed. not (is_ordinal index)) false

unfoldable pub report_not_good : ℕ → Bool → Analysis Bool
unfolding report
report_not_good location true = pure true
report_not_good location false = do report location disallowed_parameter_form []; pure false

-- Components that must not be variable parameters: of packed types, and tag fields. A component of
-- another type than a record or an array is a failed `dynamic_cast`.
abbrev pub is_tag_field : Option (PascalType × Bool) → Option Bool
is_tag_field none = none
is_tag_field (some (_, is_tag)) = some is_tag

unfoldable pub check_field : PascalType → Text → ℕ → Analysis Bool
unfolding find_field report_not_good report
check_field (type_record _ fields _ packed) name location = elim packed [
  | true ↦ report_not_good location false
  | false ↦ do
    is_tag ← asserted (is_tag_field (find_field name fields))
    report_not_good location (not is_tag)
]
check_field _ name location = asserted none

unfoldable pub check_component : List Scope → SemAccess → ℕ → Analysis Bool
unfolding variable_type check_field report_not_good
check_component scopes (access_field of_record name) location = do
  t ← type_of_variable scopes of_record
  check_field t name location
check_component scopes (access_indexed array _) location = do
  t ← type_of_variable scopes array
  if_array t (λ index component packed. report_not_good location (not packed)) (asserted none)
check_component scopes _ location = pure true

-- The tests of a variable parameter of the section's type, and of a value parameter.
unfoldable pub check_variable_type : PascalType → FirstGood → PascalType → ℕ → Analysis Bool
unfolding type_is_schema check_actual_parameter_is_conformable same_type report
check_variable_type formal first t location = elim (type_is_schema formal) [
  | true ↦ check_actual_parameter_is_conformable t location formal first
  | false ↦ elim (same_type t formal) [
    | true ↦ pure true
    | false ↦ do report location type_mismatch []; pure false
  ]
]

abbrev pub is_conformant_array : PascalType → Bool
is_conformant_array t =
    if_array t (λ index component packed. if_subrange_dynamic index (λ bound. true) false) false

unfoldable pub check_value_type : PascalType → FirstGood → PascalType → ℕ → Analysis Bool
unfolding type_is_schema check_actual_parameter_is_conformable is_assignment_compatible_with
    report_not_good report
check_value_type formal first t location = elim (type_is_schema formal) [
  | true ↦ do
    good ← check_actual_parameter_is_conformable t location formal first
    elim good [ true ↦ report_not_good location (not (is_conformant_array t)) | false ↦ pure false ]
  | false ↦ elim (is_assignment_compatible_with t formal) [
    | true ↦ pure true
    | false ↦ do report location type_mismatch []; pure false
  ]
]

-- The missing parameter of a section, whose names are more than the parameters that are left.
unfoldable pub report_missing : ℕ → Text → Analysis (Unit {0})
unfolding report
report_missing location name = report location parameter_count_mismatch (text name ∷ [])

abbrev pub accesses : List SemAccess → SemAccesses
accesses [] = no_accesses
accesses (a ∷ l) = more_accesses a (accesses l)

abbrev pub values : List SemExpression → SemExpressions
values [] = no_expressions
values (e ∷ l) = more_expressions e (values l)
