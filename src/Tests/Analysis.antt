-- ===== src/Tests/Analysis.antt =====
-- The theorems on operators, conditions and labels at concrete inputs.
use waspas.Base.{◌≡◌, refl, true, [], ◌∷◌, none, some}
use waspas.Base.Integers.{pos}
use waspas.Reporting.{initial_reporter, number, ambiguous_label, err, note_raw}
use waspas.Parsing.Nodes.{RelationalOperator}
use waspas.Semantics.Types.{type_integer}
use waspas.Semantics.Constants.{constant_integer}
use waspas.Semantics.Scopes.{closest_containing_block}
use waspas.Semantics.Blocks.{find_label}
use waspas.Semantics.Expressions.{operator_add, expression_binary, expression_constant}
use waspas.Semantics.Types.Relations.{is_assignment_compatible_with}
use waspas.Analysis.Values.{value_type}
use waspas.Analysis.Operators.{
  is_number, is_comparable, common_operator, compare_step, relational_step, relational_operator,
  constant_false,
}
use waspas.Analysis.Operators.Typing.{Checked, common_operator-Checked, compare_step-Checked}
use waspas.Analysis.Operators.Relational.{
  EndsBoolean, relational_step-EndsBoolean, resolve_condition-EndsBoolean,
}
use waspas.Analysis.Labels.{resolve_goto, prefix_label}
use waspas.Analysis.Labels.Targets.{Goes, resolve_goto-Goes}
use waspas.Analysis.Labels.Prefixes.{after_prefix, prefix_label_twice}
use waspas.Analysis.Steps.{resolve_condition}
use waspas.Tests.Samples.{
  block_scope, some_state, integer_operand, no_builtins, some_builder, nil_node, label_one,
}

common_operator-Checked_example :
    Checked true
      (integer_operand 50 1)
      (integer_operand 54 2)
      (expression_binary operator_add
        (expression_constant (constant_integer (pos 1)))
        (expression_constant (constant_integer (pos 2))))
      (expression_constant (constant_integer (pos 1)))
      some_state
      (common_operator operator_add (integer_operand 50 1) (integer_operand 54 2) some_state)
unfolding is_assignment_compatible_with is_number
common_operator-Checked_example =
    common_operator-Checked operator_add (integer_operand 50 1) (integer_operand 54 2) some_state
      (λ _. refl)

compare_step-Checked_example :
    Checked true
      (integer_operand 50 1)
      (integer_operand 54 2)
      (expression_binary
        (relational_operator RelationalOperator.less)
        (expression_constant (constant_integer (pos 1)))
        (expression_constant (constant_integer (pos 2))))
      constant_false
      some_state
      (compare_step RelationalOperator.less
        (integer_operand 50 1)
        (integer_operand 54 2)
        some_state)
unfolding is_assignment_compatible_with is_comparable
compare_step-Checked_example =
    compare_step-Checked RelationalOperator.less (integer_operand 50 1) (integer_operand 54 2)
      some_state (λ _. refl)

relational_step-EndsBoolean_example : EndsBoolean (block_scope 0 ∷ []) (
    relational_step RelationalOperator.is_in
      (integer_operand 50 1)
      (integer_operand 54 2)
      some_state)
relational_step-EndsBoolean_example =
    relational_step-EndsBoolean RelationalOperator.is_in (block_scope 0 ∷ []) some_state
      (integer_operand 50 1) (integer_operand 54 2)

resolve_condition-EndsBoolean_example : EndsBoolean (block_scope 0 ∷ []) (
    resolve_condition no_builtins
      (λ builder scopes node s. some (expression_constant (constant_integer (pos 1)), s))
      some_builder
      (block_scope 0 ∷ [])
      nil_node
      some_state)
unfolding value_type
resolve_condition-EndsBoolean_example =
    resolve_condition-EndsBoolean no_builtins
      (λ builder scopes node s. some (expression_constant (constant_integer (pos 1)), s))
      some_builder (block_scope 0 ∷ []) nil_node some_state some_state
      (expression_constant (constant_integer (pos 1))) type_integer refl refl

resolve_goto-Goes_example :
    Goes some_builder
      (block_scope 0 ∷ [])
      (label_one 70)
      some_state
      (resolve_goto some_builder (block_scope 0 ∷ []) (label_one 70) some_state)
resolve_goto-Goes_example =
    resolve_goto-Goes some_builder (block_scope 0 ∷ []) (label_one 70) some_state

prefix_label_twice_example :
    (prefix_label (block_scope 0 ∷ []) (some (label_one 70)) some_state
      ≡ some (1 ∷ [], after_prefix 0 (label_one 70) some_state))
    × (prefix_label
          (block_scope 0 ∷ [])
          (some (label_one 80))
          (after_prefix 0 (label_one 70) some_state)
        ≡ some (
          [],
          record (after_prefix 0 (label_one 70) some_state) {
            reporter =
                note_raw 70
                  (number 1 ∷ [])
                  (err 80 ambiguous_label (number 1 ∷ []) initial_reporter);
          },
        ))
unfolding closest_containing_block find_label
prefix_label_twice_example =
    prefix_label_twice (block_scope 0 ∷ []) (label_one 70) (label_one 80) 0 some_state
      (record { defining_occurrence = 6; prefixing_occurrence = none }) refl refl refl refl
