-- ===== src/Analysis/Values.antt =====
-- src/semantics.cxx and src/semantics-expressions.ixx: `variableType` and `valueType`, the types of
-- expressions in a scope. `none` is a failed assertion, or a map without the entry.
pub mod Promoted
use waspas.Base.{ℕ, List, [], ◌∷◌, Option, none, some, Bool, if◌then◌else◌, get_elem?}
use mathlib.Core.Option
use waspas.Utilities.{Text, cisref_eq}
use waspas.Semantics.Types.{
  PascalType, FieldDescriptions, no_fields, more_fields, type_pointer_any, type_set_any, type_char,
  type_boolean, type_text, type_array, type_file, type_record, type_pointer,
}
use waspas.Semantics.Constants.{constant_type}
use waspas.Semantics.Signatures.{
  Signature, parameters, result_type, bound_types, regular_parameter_types,
  subroutine_parameter_signatures,
}
use waspas.Semantics.Scopes.{Scope, Region, block_region, with_region, parent}
use waspas.Semantics.Blocks.{Block, find_name}
use waspas.Semantics.Expressions.{
  SemExpression, SemAccess, SubroutineReference, regular, parameter, expression_bound,
  expression_constant, expression_function_designator, expression_nil, expression_binary,
  expression_negate, expression_not, expression_set_constructor, expression_access,
  expression_builtin, access_activation_result, access_field_designator_id, access_parameter_id,
  access_variable_id, access_buffer, access_dereference, access_field, access_indexed, promoted,
  operator_type,
}
use waspas.Analysis.{AnalysisState}

-- `block()` and `statementWith()` of a region.
unfoldable pub block_of : Region → Option ℕ
block_of (block_region b) = some b
block_of _ = none

unfoldable pub with_of : Region → Option ℕ
with_of (with_region w) = some w
with_of _ = none

-- `Option::bind`, for a chain of lookups.
abbrev pub and_then : {A B : Type 0} → Option A → (A → Option B) → Option B
and_then none f = none
and_then (some a) f = f a

-- `scope.parent(index).block()` and `scope.parent(index).statementWith()->variableType()`.
abbrev pub first_region : List Scope → Option Region
first_region [] = none
first_region (scope ∷ _) = some scope.region

unfoldable pub block_at : AnalysisState → List Scope → ℕ → Option Block
unfolding parent block_of
block_at s scopes index =
    and_then (parent index scopes)
      λ l. and_then (first_region l) λ r. Option.map s.blocks (block_of r)

unfoldable pub with_type_at : AnalysisState → List Scope → ℕ → Option PascalType
unfolding parent with_of
with_type_at s scopes index =
    and_then (parent index scopes)
      λ l. and_then (first_region l) λ r. and_then (with_of r) (get_elem? s.withs)

-- `fieldType` and `fieldIsTag` of a field list.
unfoldable pub find_field : Text → FieldDescriptions → Option (PascalType × Bool)
find_field name no_fields = none
find_field name (more_fields key type is_tag rest) =
    let later = find_field name rest in if cisref_eq name key then some (type, is_tag) else later

unfoldable pub field_type : Text → PascalType → Option PascalType
unfolding find_field
field_type name (type_record _ fields _ _) =
    Option.map (λ (entry : PascalType × Bool). entry.0) (find_field name fields)
field_type name _ = none

-- The component type of a `TypeFileLike` and of a `TypeArray`, and the domain type of a pointer.
unfoldable pub file_component : PascalType → Option PascalType
file_component type_text = some type_char
file_component (type_file _ component _) = some component
file_component _ = none

unfoldable pub array_component : PascalType → Option PascalType
array_component (type_array _ _ component _) = some component
array_component _ = none

unfoldable pub domain_type : AnalysisState → PascalType → Option PascalType
unfolding find_name
domain_type s (type_pointer _ block name) = find_name name (s.blocks block).types
domain_type s _ = none

unfoldable pub variable_type : AnalysisState → List Scope → SemAccess → Option PascalType
unfolding block_at with_type_at field_type file_component array_component domain_type find_name
    result_type regular_parameter_types parameters
variable_type s scopes (access_activation_result id index) =
    and_then (block_at s scopes index)
      λ b. and_then (find_name id b.subroutines) λ f. result_type f.signature
variable_type s scopes (access_field_designator_id id index) =
    and_then (with_type_at s scopes index) (field_type id)
variable_type s scopes (access_parameter_id id index) = and_then (block_at s scopes index) λ b.
    and_then b.containing_signature
      λ signature. find_name id (regular_parameter_types (parameters signature))
variable_type s scopes (access_variable_id id index) =
    and_then (block_at s scopes index) λ b. Option.map (λ v. v.type) (find_name id b.variables)
variable_type s scopes (access_buffer file) = and_then (variable_type s scopes file) file_component
variable_type s scopes (access_dereference pointer) =
    and_then (variable_type s scopes pointer) (domain_type s)
variable_type s scopes (access_field of_record name) =
    and_then (variable_type s scopes of_record) (field_type name)
variable_type s scopes (access_indexed array index) =
    and_then (variable_type s scopes array) array_component

-- The signature that a function designator refers to.
unfoldable pub referred_signature :
    AnalysisState → List Scope → SubroutineReference → Option Signature
unfolding block_at find_name subroutine_parameter_signatures parameters
referred_signature s scopes r = and_then (block_at s scopes r.scope_index) λ b. elim r.kind [
  | regular ↦ Option.map (λ f. f.signature) (find_name r.id b.subroutines)
  | parameter ↦
      and_then b.containing_signature
        λ signature. find_name r.id (subroutine_parameter_signatures (parameters signature))
]

abbrev pub constructor_type : Option PascalType → PascalType
constructor_type none = type_set_any
constructor_type (some t) = t

unfoldable pub value_type : AnalysisState → List Scope → SemExpression → Option PascalType
unfolding variable_type referred_signature block_at find_name bound_types result_type parameters
    promoted operator_type constant_type
value_type s scopes (expression_bound id index) = and_then (block_at s scopes index) λ b.
    and_then b.containing_signature
      λ signature. Option.map promoted (find_name id (bound_types (parameters signature)))
value_type s scopes (expression_constant c) = some (constant_type c)
value_type s scopes (expression_function_designator r actuals) =
    and_then (referred_signature s scopes r) result_type
value_type s scopes expression_nil = some type_pointer_any
value_type s scopes (expression_binary op left right) =
    operator_type op (value_type s scopes left) (value_type s scopes right)
value_type s scopes (expression_negate operand) = value_type s scopes operand
value_type s scopes (expression_not operand) = some type_boolean
value_type s scopes (expression_set_constructor designators type) = some (constructor_type type)
value_type s scopes (expression_access access) = Option.map promoted (variable_type s scopes access)
value_type s scopes (expression_builtin type operands) = some type
