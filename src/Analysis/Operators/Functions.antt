-- ===== src/Analysis/Operators/Functions.antt =====
-- src/semantics-analyze.cxx and src/semantics.cxx: calls of functions whose results have a subrange
-- type, as operands of `div`.
use waspas.Base.{arith, ℕ, ◌≡◌, refl, Bool, true, false, not, [], List, Option, some}
use waspas.Base.Integers.{ℤ}
use waspas.Reporting.{non_integer_type, err}
use waspas.Parsing.Nodes.{MultiplyingOperator}
use waspas.Semantics.Types.{type_integer, type_subrange, same_type, address}
use waspas.Semantics.Signatures.{signature, ParameterSections, result_type}
use waspas.Semantics.Scopes.{Scope}
use waspas.Semantics.Expressions.{
  SemExpression, SubroutineReference, ActualSections, expression_function_designator,
  expression_binary, operator_divide_integer,
}
use waspas.Analysis.{AnalysisState, ◌>>◌, pure, report, when}
use waspas.Analysis.Constants.Lookup.{IsReported, err-IsReported}
use waspas.Analysis.Values.{value_type, referred_signature}
use waspas.Analysis.Operators.{
  Operand, multiplying_step, checked_operator, check_operands, check_operand, is_integer,
}

-- The division is made, but an error has been reported.
pub data IsRejected (made : SemExpression) : Option (SemExpression × AnalysisState) → Type 0 where
  is_rejected : (s : AnalysisState) → IsReported s.reporter → IsRejected made (some (made, s))

second :
    (made : SemExpression) (location : ℕ) (good : Bool) (s : AnalysisState)
    → IsReported s.reporter
    → IsRejected made ((when (not good) (report location non_integer_type []) >> pure made) s)
unfolding report
second made location true s h = is_rejected s h
second made location false s h =
    is_rejected _ (err-IsReported location non_integer_type [] s.reporter)

subrange_differs :
    (a : ℕ) (smallest largest : ℤ)
    → is_integer (type_subrange a type_integer smallest largest) ≡ false
unfolding is_integer same_type address
subrange_differs a smallest largest = ground arith

divided :
    (left right : Operand) (s : AnalysisState)
    → is_integer left.type ≡ false
    → IsRejected
        (expression_binary operator_divide_integer left.value right.value)
        (multiplying_step MultiplyingOperator.divide_integer left right s)
unfolding multiplying_step checked_operator check_operands check_operand report
divided left right s e =
    rw (e, multiplying_step)
      (second _ right.location (is_integer right.type)
        (record s { reporter = err left.location non_integer_type [] s.reporter })
        (err-IsReported left.location non_integer_type [] s.reporter))

-- A call of a function with a result type that is a subrange of integer has that type for its value
-- type, so that it is rejected as the left operand of `div`, whatever the right one is.
pub function_operand-IsRejected :
    (s : AnalysisState) (scopes : List Scope) (r : SubroutineReference) (actuals : ActualSections)
    (own : ParameterSections) (a : ℕ) (smallest largest : ℤ) (location : ℕ) (right : Operand)
    → referred_signature s scopes r
      ≡ some (signature own (some (type_subrange a type_integer smallest largest)))
    → (value_type s scopes (expression_function_designator r actuals)
        ≡ some (type_subrange a type_integer smallest largest))
      × IsRejected
          (expression_binary operator_divide_integer
            (expression_function_designator r actuals)
            right.value)
          (multiplying_step MultiplyingOperator.divide_integer
            (record {
              location = location;
              value = expression_function_designator r actuals;
              type = type_subrange a type_integer smallest largest;
            })
            right
            s)
unfolding value_type result_type
function_operand-IsRejected s scopes r actuals own a smallest largest location right h = (
  rw h refl,
  divided
      (record {
        location = location;
        value = expression_function_designator r actuals;
        type = type_subrange a type_integer smallest largest;
      })
      right s (subrange_differs a smallest largest),
)
