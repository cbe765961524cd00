-- ===== src/Tests/Values.antt =====
-- The theorems on value types at concrete inputs.
use waspas.Base.{
  zero, suc, ◌≡◌, refl, sym, subst, ◌∙◌, ap, true, List, [], ◌∷◌, Option, none, some, codes, inl,
  inr, Bool-cases,
}
use mathlib.Core.Option
use mathlib.Core.Bool.{true≢false}
use waspas.Base.Integers.{pos}
use waspas.Utilities.{Text, cisref_eq}
use waspas.Parsing.Nodes.{MultiplyingOperator}
use waspas.Semantics.Types.{PascalType, type_integer, type_subrange}
use waspas.Semantics.Constants.{constant_integer}
use waspas.Semantics.Signatures.{Signature, signature, no_sections}
use waspas.Semantics.Scopes.{Scope, parent}
use waspas.Semantics.Blocks.{Block, VariableEntry, find_name}
use waspas.Semantics.Expressions.{
  SemAccess, SubroutineReference, ActualSections, regular, operator_add, operator_divide_integer,
  expression_access, expression_binary, expression_constant, expression_function_designator,
  access_activation_result, access_field_designator_id, access_parameter_id, access_variable_id,
  access_buffer, access_dereference, access_field, access_indexed,
}
use waspas.Analysis.{AnalysisState}
use waspas.Analysis.Values.{
  and_then, variable_type, value_type, block_at, with_type_at, block_of, with_of, file_component,
  array_component, domain_type, field_type, referred_signature,
}
use waspas.Analysis.Values.Promoted.{
  IsHosted, IsPromoted, AccessesAreHosted, BoundsAreHosted, value_type-IsPromoted,
}
use waspas.Analysis.Operators.{multiplying_step}
use waspas.Analysis.Operators.Functions.{IsRejected, function_operand-IsRejected}
use waspas.Tests.Samples.{block_scope, some_state, some_block, integer_operand}

abbrev scopes : List Scope
scopes = block_scope 0 ∷ []

-- The only variable is an integer, which has no components.
abbrev IsInteger : Option PascalType → Type 0
IsInteger none = Unit
IsInteger (some t) = t ≡ type_integer

variable_entry :
    (id : Text)
    → IsInteger (Option.map (λ (v : VariableEntry). v.type) (find_name id some_block.variables))
unfolding find_name
variable_entry id = elim (Bool-cases (cisref_eq id (codes "n"))) [
  | inl e ↦ rw e refl
  | inr e ↦ rw e tt
]

component :
    (o : Option PascalType) (f : PascalType → Option PascalType)
    → f type_integer ≡ none
    → IsInteger o
    → IsInteger (and_then o f)
component none f e h = tt
component (some t) f e h = subst IsInteger (sym (ap f h ∙ e)) tt

accesses : (a : SemAccess) → IsInteger (variable_type some_state scopes a)
unfolding variable_type block_at with_type_at parent block_of with_of find_name file_component
    array_component domain_type field_type
accesses (access_activation_result id zero) = tt
accesses (access_activation_result id (suc index)) = tt
accesses (access_field_designator_id id zero) = tt
accesses (access_field_designator_id id (suc index)) = tt
accesses (access_parameter_id id zero) = tt
accesses (access_parameter_id id (suc index)) = tt
accesses (access_variable_id id zero) = variable_entry id
accesses (access_variable_id id (suc index)) = tt
accesses (access_buffer file) = component _ file_component refl (accesses file)
accesses (access_dereference pointer) = component _ (domain_type some_state) refl (accesses pointer)
accesses (access_field of_record name) = component _ (field_type name) refl (accesses of_record)
accesses (access_indexed array index) = component _ array_component refl (accesses array)

accesses-AccessesAreHosted : AccessesAreHosted some_state scopes
accesses-AccessesAreHosted a t h =
    let e : t ≡ type_integer = subst IsInteger h (accesses a) in subst IsHosted (sym e) tt

none≢some : (heading : Signature) → ¬ (none ≡ some heading)
none≢some heading h = true≢false (cc h)

no_bounds : BoundsAreHosted some_state scopes
unfolding block_at parent block_of
no_bounds zero b heading id t at has found = absurd (
    none≢some heading
      (ap (λ (o : Option Block). and_then o (λ (c : Block). c.containing_signature)) at ∙ has))
no_bounds (suc index) b heading id t at has found = absurd (true≢false (cc at))

value_type-IsPromoted_example : IsPromoted type_integer
unfolding value_type variable_type find_name cisref_eq block_at parent block_of
value_type-IsPromoted_example =
    value_type-IsPromoted some_state scopes
      (expression_binary operator_add (expression_access (access_variable_id (codes "N") 0))
        (expression_constant (constant_integer (pos 1))))
      type_integer accesses-AccessesAreHosted no_bounds (tt, refl) refl

-- function f: 1..10;
abbrev function_signature : Signature
function_signature = signature no_sections (some (type_subrange 3 type_integer (pos 1) (pos 10)))

abbrev function_reference : SubroutineReference
function_reference = record { id = codes "f"; scope_index = 0; kind = regular }

abbrev function_state : AnalysisState
function_state = record some_state {
  blocks = λ _. record some_block {
    subroutines =
        (
          codes "f",
          record {
            last_declaration_location = 1;
            signature = function_signature;
            block = 1;
            contains_result_assignment = true;
          },
        )
        ∷ [];
  };
}

function_operand-IsRejected_example :
    (value_type function_state scopes
        (expression_function_designator function_reference ActualSections.no_sections)
      ≡ some (type_subrange 3 type_integer (pos 1) (pos 10)))
    × IsRejected
        (expression_binary operator_divide_integer
          (expression_function_designator function_reference ActualSections.no_sections)
          (integer_operand 54 2).value)
        (multiplying_step MultiplyingOperator.divide_integer
          (record {
            location = 50;
            value = expression_function_designator function_reference ActualSections.no_sections;
            type = type_subrange 3 type_integer (pos 1) (pos 10);
          })
          (integer_operand 54 2)
          function_state)
unfolding referred_signature block_at parent block_of find_name cisref_eq
function_operand-IsRejected_example =
    function_operand-IsRejected function_state scopes function_reference ActualSections.no_sections
      no_sections 3 (pos 1) (pos 10) 50 (integer_operand 54 2) refl
