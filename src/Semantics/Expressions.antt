-- ===== src/Semantics/Expressions.antt =====
-- src/semantics-expressions.ixx: the expressions that the analysis makes.
use waspas.Base.{ℕ, Bool, Option, some, none}
use waspas.Utilities.{Text}
use waspas.Semantics.Types.{
  PascalType, type_boolean, type_integer, type_real, type_set, type_subrange, full_range,
}
use waspas.Semantics.Types.Relations.{is_assignment_compatible_with}
use waspas.Semantics.Constants.{Constant}

pub data ReferenceKind : Type 0 where
  regular parameter : ReferenceKind

pub record SubroutineReference : Type 0 where
  pub id : Text
  pub scope_index : ℕ
  pub kind : ReferenceKind

-- The classes derived from `ExpressionOperatorBinary`.
pub data BinaryOperator : Type 0 where
  operator_and operator_equal operator_greater operator_greater_or_equal : BinaryOperator
  operator_in operator_less operator_less_or_equal operator_not_equal : BinaryOperator
  operator_or operator_add operator_multiply operator_subtract : BinaryOperator
  operator_divide_real operator_divide_integer operator_modulo : BinaryOperator

-- `SemExpression` is `sem::Expression`, and `SemAccess` is `sem::VariableAccess`, which is derived
-- from it. A set constructor has the type that it made, if it has members. An expression of
-- src/semantics-builtins.ixx is its value type and its operands.
mutual
  pub data SemExpression : Type 0 where
    expression_bound : Text → ℕ → SemExpression
    expression_constant : Constant → SemExpression
    expression_function_designator : SubroutineReference → ActualSections → SemExpression
    expression_nil : SemExpression
    expression_binary : BinaryOperator → SemExpression → SemExpression → SemExpression
    expression_negate : SemExpression → SemExpression
    expression_not : SemExpression → SemExpression
    expression_set_constructor : SemMembers → Option PascalType → SemExpression
    expression_access : SemAccess → SemExpression
    expression_builtin : PascalType → SemExpressions → SemExpression

  pub data SemAccess : Type 0 where
    access_activation_result : Text → ℕ → SemAccess
    access_field_designator_id : Text → ℕ → SemAccess
    access_parameter_id : Text → ℕ → SemAccess
    access_variable_id : Text → ℕ → SemAccess
    access_buffer : SemAccess → SemAccess
    access_dereference : SemAccess → SemAccess
    access_field : SemAccess → Text → SemAccess
    access_indexed : SemAccess → SemExpression → SemAccess

  -- `member_designator_t`: a single member or a range.
  pub data SemMembers : Type 0 where
    no_members : SemMembers
    single_member : SemExpression → SemMembers → SemMembers
    member_range : SemExpression → SemExpression → SemMembers → SemMembers

  pub data SemExpressions : Type 0 where
    no_expressions : SemExpressions
    more_expressions : SemExpression → SemExpressions → SemExpressions

  pub data SemAccesses : Type 0 where
    no_accesses : SemAccesses
    more_accesses : SemAccess → SemAccesses → SemAccesses

  -- `actual_parameter_section_t`: value parameters, variable parameters, or a subroutine.
  pub data ActualSections : Type 0 where
    no_sections : ActualSections
    value_section : SemExpressions → ActualSections → ActualSections
    variable_section : SemAccesses → ActualSections → ActualSections
    subroutine_section : SubroutineReference → ActualSections → ActualSections

-- `promoted()`. A set of a subrange holds a set of the host type, which it makes along with itself:
-- it has the next address.
abbrev pub host_set : ℕ → PascalType → Bool → PascalType
host_set a (type_subrange b host smallest largest) packed = type_set (ℕ.suc a) host packed
host_set a base packed = type_set a base packed

unfoldable pub promoted : PascalType → PascalType
unfolding full_range
promoted (type_set a base packed) = host_set a base packed
promoted t = full_range t

-- `ExpressionOperatorCommonType::valueType`.
unfoldable pub common_type : PascalType → PascalType → PascalType
unfolding is_assignment_compatible_with
common_type left_type right_type = elim (is_assignment_compatible_with left_type right_type) [
  | Bool.true ↦ right_type
  | Bool.false ↦ left_type
]

abbrev pub common : Option PascalType → Option PascalType → Option PascalType
common (some l) (some r) = some (common_type l r)
common _ _ = none

-- `valueType` of a binary operator, from those of its operands: most do not ask for them.
unfoldable pub operator_type :
    BinaryOperator → Option PascalType → Option PascalType → Option PascalType
unfolding common_type
operator_type operator_add l r = common l r
operator_type operator_multiply l r = common l r
operator_type operator_subtract l r = common l r
operator_type operator_divide_real l r = some type_real
operator_type operator_divide_integer l r = some type_integer
operator_type operator_modulo l r = some type_integer
operator_type _ l r = some type_boolean
