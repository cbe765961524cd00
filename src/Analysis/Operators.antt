-- ===== src/Analysis/Operators.antt =====
-- src/semantics-analyze.cxx: the operators of terms, simple expressions and expressions, on operands
-- that are resolved, with the locations and the value types of these.
use waspas.Base.{ℕ, Bool, true, false, not, ◌||◌, [], if◌then◌else◌}
use waspas.Reporting.{
  ErrorCode, type_mismatch, non_boolean_type, non_numeric_type, non_integer_type, non_set_type,
}
use waspas.Parsing.Nodes.{Sign, MultiplyingOperator, AddingOperator, RelationalOperator}
use waspas.Semantics.Types.{
  PascalType, type_boolean, type_integer, type_real, type_set_any, type_pointer_any, type_set,
  type_set_incomplete, type_array, same_type, is_ordinal, is_string,
}
use waspas.Semantics.Types.Relations.{is_compatible_with, is_assignment_compatible_with}
use waspas.Semantics.Constants.{constant_boolean}
use waspas.Semantics.Expressions.{
  SemExpression, BinaryOperator, expression_constant, expression_binary, expression_negate,
  operator_and, operator_equal, operator_greater, operator_greater_or_equal, operator_in,
  operator_less, operator_less_or_equal, operator_not_equal, operator_or, operator_add,
  operator_multiply, operator_subtract, operator_divide_real, operator_divide_integer,
  operator_modulo,
}
use waspas.Analysis.{Analysis, pure, ◌>>◌, when, report}
pub mod Typing
pub mod Relational
pub mod Functions

-- `synchronizeOperandTypes`.
unfoldable pub synchronize_operand_types : PascalType → PascalType → PascalType × PascalType
unfolding is_assignment_compatible_with
synchronize_operand_types left right =
    if is_assignment_compatible_with left right
    then (right, right)
    else if is_assignment_compatible_with right left
    then (left, left)
    else (left, right)

unfoldable pub is_boolean : PascalType → Bool
unfolding same_type
is_boolean t = same_type t type_boolean

unfoldable pub is_integer : PascalType → Bool
unfolding same_type
is_integer t = same_type t type_integer

-- `is_number` and `is_set`.
unfoldable pub is_number : PascalType → Bool
unfolding same_type
is_number t = same_type t type_integer || same_type t type_real

unfoldable pub is_set : PascalType → Bool
unfolding is_assignment_compatible_with
is_set t = is_assignment_compatible_with type_set_any t

unfoldable pub is_pointer : PascalType → Bool
unfolding is_assignment_compatible_with
is_pointer t = is_assignment_compatible_with type_pointer_any t

unfoldable pub is_simple_or_string : PascalType → Bool
unfolding is_string is_ordinal same_type
is_simple_or_string (type_array _ index component packed) = is_string index component packed
is_simple_or_string t = is_ordinal t || same_type t type_real

-- An operand, with its location and its value type.
pub record Operand : Type 0 where
  pub location : ℕ
  pub value : SemExpression
  pub type : PascalType

-- The loop over the two operands, each of which is to pass the test.
unfoldable pub check_operand : (PascalType → Bool) → ErrorCode → Operand → Analysis (Unit {0})
unfolding report
check_operand test code o = when (not (test o.type)) (report o.location code [])

unfoldable pub check_operands :
    (PascalType → Bool) → ErrorCode → Operand → Operand → Analysis (Unit {0})
unfolding check_operand
check_operands test code left right = do check_operand test code left; check_operand test code right

unfoldable pub checked_operator :
    (PascalType → Bool) → ErrorCode → BinaryOperator → Operand → Operand → Analysis SemExpression
unfolding check_operands
checked_operator test code op left right = do
  check_operands test code left right
  pure (expression_binary op left.value right.value)

-- `MULTIPLY`, `PLUS` and `MINUS`: on an error, the left operand stands for the result.
unfoldable pub common_operator : BinaryOperator → Operand → Operand → Analysis SemExpression
unfolding synchronize_operand_types is_number is_set is_compatible_with report
common_operator op left right =
    let types = synchronize_operand_types left.type right.type in
    elim (is_number types.0 || is_set types.0) [
      | false ↦ do report left.location type_mismatch []; pure left.value
      | true ↦ elim (is_compatible_with types.0 types.1) [
        | false ↦ do report right.location type_mismatch []; pure left.value
        | true ↦ pure (expression_binary op left.value right.value)
      ]
    ]

unfoldable pub multiplying_step : MultiplyingOperator → Operand → Operand → Analysis SemExpression
unfolding checked_operator common_operator is_boolean is_number is_integer
multiplying_step MultiplyingOperator.and l r =
    checked_operator is_boolean non_boolean_type operator_and l r
multiplying_step MultiplyingOperator.multiply l r = common_operator operator_multiply l r
multiplying_step MultiplyingOperator.divide_real l r =
    checked_operator is_number non_numeric_type operator_divide_real l r
multiplying_step MultiplyingOperator.divide_integer l r =
    checked_operator is_integer non_integer_type operator_divide_integer l r
multiplying_step MultiplyingOperator.modulo l r =
    checked_operator is_integer non_integer_type operator_modulo l r

unfoldable pub adding_step : AddingOperator → Operand → Operand → Analysis SemExpression
unfolding checked_operator common_operator is_boolean
adding_step AddingOperator.or l r = checked_operator is_boolean non_boolean_type operator_or l r
adding_step AddingOperator.plus l r = common_operator operator_add l r
adding_step AddingOperator.minus l r = common_operator operator_subtract l r

-- The sign of a simple expression: `false` stands for the return before its operators.
unfoldable pub sign_step : Sign → Operand → Analysis (SemExpression × Bool)
unfolding is_number report
sign_step Sign.no_sign o = pure (o.value, true)
sign_step sign o = elim (is_number o.type) [
  | false ↦ do report o.location non_numeric_type []; pure (o.value, false)
  | true ↦ elim sign [
    | Sign.minus ↦ pure (expression_negate o.value, true)
    | _ ↦ pure (o.value, true)
  ]
]

-- The recovery of `resolveExpression`.
abbrev pub constant_false : SemExpression
constant_false = expression_constant (constant_boolean false)

unfoldable pub relational_error : ℕ → ErrorCode → Analysis SemExpression
unfolding report
relational_error location code = do report location code []; pure constant_false

-- `IN`: the base type of the right operand, if it has one, is the type of the left one.
abbrev pub check_base : PascalType → Operand → Operand → Analysis SemExpression
check_base base left right = elim (same_type left.type base) [
  | false ↦ relational_error right.location type_mismatch
  | true ↦ pure (expression_binary operator_in left.value right.value)
]

unfoldable pub in_step : Operand → Operand → Analysis SemExpression
unfolding relational_error same_type
in_step left right = elim right.type [
  | type_set _ base _ ↦ check_base base left right
  | type_set_incomplete _ base ↦ check_base base left right
  | type_set_any ↦ pure (expression_binary operator_in left.value right.value)
  | _ ↦ relational_error right.location non_set_type
]

-- What `resolveExpression` demands of the type of the operands.
unfoldable pub is_comparable : RelationalOperator → PascalType → Bool
unfolding is_simple_or_string is_pointer is_set
is_comparable RelationalOperator.equal t = (is_simple_or_string t || is_pointer t) || is_set t
is_comparable RelationalOperator.not_equal t = (is_simple_or_string t || is_pointer t) || is_set t
is_comparable RelationalOperator.less t = is_simple_or_string t
is_comparable RelationalOperator.greater t = is_simple_or_string t
is_comparable RelationalOperator.less_or_equal t = is_simple_or_string t || is_set t
is_comparable RelationalOperator.greater_or_equal t = is_simple_or_string t || is_set t
is_comparable RelationalOperator.is_in t = false

unfoldable pub relational_operator : RelationalOperator → BinaryOperator
relational_operator RelationalOperator.equal = operator_equal
relational_operator RelationalOperator.not_equal = operator_not_equal
relational_operator RelationalOperator.less = operator_less
relational_operator RelationalOperator.greater = operator_greater
relational_operator RelationalOperator.less_or_equal = operator_less_or_equal
relational_operator RelationalOperator.greater_or_equal = operator_greater_or_equal
relational_operator RelationalOperator.is_in = operator_in

unfoldable pub compare_step : RelationalOperator → Operand → Operand → Analysis SemExpression
unfolding synchronize_operand_types is_comparable is_compatible_with relational_operator
    relational_error
compare_step op left right =
    let types = synchronize_operand_types left.type right.type in
    elim (is_comparable op types.0) [
      | false ↦ relational_error left.location type_mismatch
      | true ↦ elim (is_compatible_with types.0 types.1) [
        | false ↦ relational_error right.location type_mismatch
        | true ↦ pure (expression_binary (relational_operator op) left.value right.value)
      ]
    ]

unfoldable pub relational_step : RelationalOperator → Operand → Operand → Analysis SemExpression
unfolding in_step compare_step
relational_step RelationalOperator.is_in left right = in_step left right
relational_step op left right = compare_step op left right
