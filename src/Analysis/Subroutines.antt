-- ===== src/Analysis/Subroutines.antt =====
-- src/semantics-analyze.cxx: identifiers of procedures and functions, and expressions that must be
-- variable accesses or such identifiers.
use waspas.Base.{ℕ, Bool, true, false, List, [], ◌∷◌, Option, none, some, codes}
use waspas.Utilities.{Text}
use waspas.Reporting.{text, undefined_identifier, wrong_identifier_kind, disallowed_parameter_form}
use waspas.Parsing.Combinators.{View}
use waspas.Parsing.Nodes.{Identifier, Sign}
use waspas.Parsing.Nodes.Expressions.{
  Expression, expression, expression_modifier, no_modifier, a_modifier, simple_expression,
  SimpleExpressionModifier, simple_expression_modifier, no_simple_modifiers, more_simple_modifiers,
  Term, term, term_modifier, no_term_modifiers, more_term_modifiers, Factor, function_designator,
  variable, unsigned_integer_constant, unsigned_real_constant, character_string, nil,
  set_constructor, parenthetical, not_expression, VariableAccess, variable_access,
  no_variable_modifiers, more_variable_modifiers,
}
use waspas.Semantics.Signatures.{
  Signature, parameters, result_type, subroutine_parameter_signatures,
}
use waspas.Semantics.Scopes.{Scope, LookupResult, block_region, lookup}
use waspas.Semantics.Blocks.{Block, find_name}
use waspas.Semantics.Expressions.{SubroutineReference, regular, parameter}
use waspas.Analysis.{Analysis, pure, ◌>>=◌, ◌>>◌, gets, report}
use waspas.Analysis.Access.{modifier_view}

-- The variant that `lookupSubroutineReference` returns.
pub data SubroutineLookup : Type 0 where
  not_found : SubroutineLookup
  builtin_subroutine : Text → SubroutineLookup
  defined_subroutine : SubroutineReference → Signature → SubroutineLookup

abbrev pub subroutine_kind : Bool → Text
subroutine_kind need_function = elim need_function [
  | true ↦ codes "function"
  | false ↦ codes "procedure"
]

-- Whether the signature is that of a function.
abbrev pub is_function : Signature → Bool
is_function heading = elim (result_type heading) [ none ↦ false | some _ ↦ true ]

abbrev pub same_kind : Bool → Bool → Bool
same_kind true b = b
same_kind false true = false
same_kind false false = true

abbrev pub builtin_of : Option Text → SubroutineLookup
builtin_of none = not_found
builtin_of (some name) = builtin_subroutine name

-- What the block has under the identifier, before the kind of the subroutine is checked.
unfoldable pub find_subroutine : Bool → Text → ℕ → Block → SubroutineLookup
unfolding find_name subroutine_parameter_signatures parameters
find_subroutine need_function id index b = elim (find_name id b.subroutines) [
  | some f ↦
      defined_subroutine (record { id = id; scope_index = index; kind = regular }) f.signature
  | none ↦ elim b.containing_signature [
    | some container ↦
        elim (find_name id (subroutine_parameter_signatures (parameters container))) [
          | some s ↦
              defined_subroutine (record { id = id; scope_index = index; kind = parameter }) s
          | none ↦ not_found
        ]
    | none ↦ elim need_function [
      | true ↦ builtin_of (find_name id b.builtin_functions)
      | false ↦ builtin_of (find_name id b.builtin_procedures)
    ]
  ]
]

unfoldable pub find_in_scope : Bool → Text → LookupResult → Analysis SubroutineLookup
unfolding find_subroutine
find_in_scope need_function id r = elim r.scope.region [
  | block_region b ↦ gets λ s. find_subroutine need_function id r.scope_index (s.blocks b)
  | _ ↦ pure not_found
]

unfoldable pub report_wrong_kind : Bool → Identifier → Analysis SubroutineLookup
unfolding report
report_wrong_kind need_function id = do
  report id.view.start wrong_identifier_kind
      (text id.spelling ∷ text (subroutine_kind need_function) ∷ [])
  pure not_found

unfoldable pub check_kind : Bool → Identifier → SubroutineLookup → Analysis SubroutineLookup
unfolding report_wrong_kind result_type
check_kind need_function id not_found = report_wrong_kind need_function id
check_kind need_function id (builtin_subroutine name) = pure (builtin_subroutine name)
check_kind need_function id (defined_subroutine r s) =
    elim (same_kind (is_function s) need_function) [
      | true ↦ pure (defined_subroutine r s)
      | false ↦ report_wrong_kind need_function id
    ]

unfoldable pub lookup_subroutine_reference :
    Bool → List Scope → Identifier → Analysis SubroutineLookup
unfolding lookup find_in_scope check_kind report
lookup_subroutine_reference need_function scopes id = elim (lookup id.spelling scopes) [
  | none ↦ do
    report id.view.start undefined_identifier
        (text (subroutine_kind need_function) ∷ text id.spelling ∷ [])
    pure not_found
  | some r ↦ do found ← find_in_scope need_function id.spelling r; check_kind need_function id found
]

unfoldable pub factor_view : Factor → View
factor_view (function_designator view _ _) = view
factor_view (variable (variable_access view _ _)) = view
factor_view (unsigned_integer_constant u) = u.view
factor_view (unsigned_real_constant u) = u.view
factor_view (character_string c) = c.view
factor_view (nil view) = view
factor_view (set_constructor view _) = view
factor_view (parenthetical view _) = view
factor_view (not_expression view _) = view

-- An operator that is in the way: its modifier's view.
unfoldable pub report_form : {A : Type 0} → View → Text → Analysis (Option A)
unfolding report
report_form view construct = do
  report view.start disallowed_parameter_form (text construct ∷ [])
  pure none

unfoldable pub check_term_is_variable_access : Term → Text → Analysis (Option VariableAccess)
unfolding report_form factor_view
check_term_is_variable_access (term _ operand (more_term_modifiers (term_modifier view _ _) _))
      construct =
    report_form view construct
check_term_is_variable_access (term _ (variable access) no_term_modifiers) construct =
    pure (some access)
check_term_is_variable_access (term _ operand no_term_modifiers) construct =
    report_form (factor_view operand) construct

unfoldable pub check_expression_is_variable_access :
    Expression → Text → Analysis (Option VariableAccess)
unfolding report_form check_term_is_variable_access
check_expression_is_variable_access (expression _ _ (a_modifier (expression_modifier view _ _)))
      construct =
    report_form view construct
check_expression_is_variable_access
      (expression _ (simple_expression view sign operand modifiers) no_modifier) construct =
    elim sign [
      | Sign.no_sign ↦ elim modifiers [
        | no_simple_modifiers ↦ check_term_is_variable_access operand construct
        | more_simple_modifiers m _ ↦ report_form (simple_modifier_view m) construct
      ]
      | _ ↦ report_form view construct
    ]
  where
    simple_modifier_view : SimpleExpressionModifier → View
    simple_modifier_view (simple_expression_modifier v _ _) = v

-- `resolveExpressionAsSubroutineReference`.
abbrev pub construct_text : Bool → Text
construct_text need_function = elim need_function [
  | true ↦ codes "function identifier"
  | false ↦ codes "procedure identifier"
]

unfoldable pub reference_of :
    Bool → Identifier → SubroutineLookup → Analysis (Option (SubroutineReference × Signature))
unfolding report_form
reference_of need_function id not_found = pure none
reference_of need_function id (builtin_subroutine _) =
    report_form id.view (construct_text need_function)
reference_of need_function id (defined_subroutine r s) = pure (some (r, s))

unfoldable pub access_as_subroutine_reference :
    Bool → List Scope → Option VariableAccess → Analysis (Option (SubroutineReference × Signature))
unfolding lookup_subroutine_reference reference_of report_form modifier_view
access_as_subroutine_reference need_function scopes none = pure none
access_as_subroutine_reference need_function scopes
      (some (variable_access _ id (more_variable_modifiers m _))) =
    report_form (modifier_view m) (construct_text need_function)
access_as_subroutine_reference need_function scopes
      (some (variable_access _ id no_variable_modifiers)) =
    do
      found ← lookup_subroutine_reference need_function scopes id
      reference_of need_function id found

unfoldable pub resolve_expression_as_subroutine_reference :
    Bool → List Scope → Expression → Analysis (Option (SubroutineReference × Signature))
unfolding check_expression_is_variable_access access_as_subroutine_reference
resolve_expression_as_subroutine_reference need_function scopes node = do
  access ← check_expression_is_variable_access node (construct_text need_function)
  access_as_subroutine_reference need_function scopes access
