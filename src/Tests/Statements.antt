-- ===== src/Tests/Statements.antt =====
-- Statements analyzed whole: a while statement, a for statement and a goto; and a call.
use waspas.Base.{codes, ◌≤◌, ◌≡◌, refl, Bool, true, false, [], ◌∷◌, Option, none, some, ℕ}
use Prim.Native.String.{String}
use mathlib.Core.Option
use waspas.Parsing.Nodes.{no_sign, minus, MultiplyingOperator, RelationalOperator, RangeDirection}
use waspas.Parsing.Nodes.Expressions.{
  Expression, expression, expression_modifier, no_modifier, a_modifier, SimpleExpression,
  simple_expression, no_simple_modifiers, term, term_modifier, no_term_modifiers,
  more_term_modifiers, Factor, variable, unsigned_integer_constant, set_constructor,
  member_designator, no_members, more_members, no_expression, VariableAccess, variable_access,
  no_variable_modifiers, ActualParameters, actual_parameter, no_actual_parameters,
  more_actual_parameters, no_formatting,
}
use waspas.Parsing.Nodes.Statements.{
  Statement, statement, assignment_statement, while_statement, goto_statement, for_statement,
  compound_statement, compound, more_statements, no_statements,
}
use waspas.Semantics.Statements.{SemStatement}
use waspas.Utilities.{cisref_eq}
use waspas.Reporting.{initial_reporter}
use waspas.Semantics.Types.{type_integer}
use waspas.Analysis.{AnalysisState}
use waspas.Base.Integers.{pos}
use waspas.Semantics.Constants.{constant_integer}
use waspas.Semantics.Signatures.{
  Signature, signature, regular_section, no_sections, parameters, count_sections,
}
use waspas.Semantics.Expressions
use waspas.Semantics.Expressions.{
  ActualSections, value_section, more_expressions, expression_constant, expression_negate,
  expression_binary, operator_divide_integer,
}
use waspas.Analysis.Parameters.{count_nodes}
use waspas.Analysis.Sections.{resolve_actual_parameters}
use waspas.Analysis.Sections.Complete.{
  IsComplete, count_parameters, resolve_actual_parameters-IsComplete,
}
use waspas.Analysis.Expressions.{resolve_expression}
use waspas.Analysis.Statements.{analyze_statement}
use waspas.Tests.Samples.{
  named, at_offset, some_state, some_builder, block_scope, no_builtins, label_one,
}

abbrev access : String → ℕ → VariableAccess
access name n = variable_access (at_offset n) (named name n) no_variable_modifiers

abbrev pub number : ℕ → ℕ → Factor
number k n = unsigned_integer_constant (record { view = at_offset n; value = k })

abbrev pub simple : Factor → SimpleExpression
simple f =
    simple_expression (at_offset 60) no_sign (term (at_offset 60) f no_term_modifiers)
      no_simple_modifiers

abbrev pub only : Factor → Expression
only f = expression (at_offset 60) (simple f) no_modifier

-- -size div 2
abbrev divided_size : Expression
divided_size =
    expression (at_offset 60)
      (simple_expression (at_offset 60) minus
        (term (at_offset 60) (variable (access "size" 60)) (
          more_term_modifiers
            (term_modifier (at_offset 61) MultiplyingOperator.divide_integer (number 2 62))
            no_term_modifiers))
        no_simple_modifiers)
      no_modifier

-- n in [3]
abbrev is_three : Expression
is_three = expression (at_offset 60) (simple (variable (access "n" 64))) (
    a_modifier (
      expression_modifier (at_offset 65) RelationalOperator.is_in (
        simple (
          set_constructor (at_offset 66) (
            more_members (member_designator (at_offset 67) (only (number 3 67)) no_expression)
              no_members)))))

-- n := -size div 2
abbrev assignment : Statement
assignment =
    statement (at_offset 70) none (assignment_statement (at_offset 71) (access "n" 71) divided_size)

-- 1: while n in [3] do n := -size div 2
abbrev while_loop : Statement
while_loop =
    statement (at_offset 50) (some (label_one 50))
      (while_statement (at_offset 51) is_three assignment)

-- for n := 1 to size do begin goto 1; body end
abbrev for_loop : Statement → Statement
for_loop body = statement (at_offset 50) none (
    for_statement (at_offset 51) (named "n" 52) (only (number 1 53)) RangeDirection.to
      (only (variable (access "size" 54)))
      (statement (at_offset 70) none (
        compound_statement (
          compound (at_offset 71) (
            more_statements
              (statement (at_offset 72) none (goto_statement (at_offset 73) (label_one 74)))
              (more_statements body no_statements))))))

-- Whether the analysis, which ends, reports an error.
abbrev reports : Statement → Option Bool
reports s =
    Option.map (λ (p : SemStatement × AnalysisState). p.1.reporter.had_errors)
      (analyze_statement no_builtins 5 s (record some_builder { used_control_variables = [] })
        (block_scope 0 ∷ []) some_state)

while_loop-reports : reports while_loop ≡ some false
unfolding analyze_statement cisref_eq initial_reporter
while_loop-reports = refl

-- The body changes the control variable.
for_loop-reports : reports (for_loop assignment) ≡ some true
unfolding analyze_statement cisref_eq initial_reporter
for_loop-reports = refl

for_goto-reports :
    reports
      (for_loop (statement (at_offset 75) none (goto_statement (at_offset 76) (label_one 77))))
    ≡ some false
unfolding analyze_statement cisref_eq initial_reporter
for_goto-reports = refl

-- procedure p(a, b: integer), called as p(1, -size div 2).
abbrev two_parameters : Signature
two_parameters =
    signature (regular_section false (codes "a" ∷ codes "b" ∷ []) type_integer no_sections) none

abbrev two_nodes : ActualParameters
two_nodes =
    more_actual_parameters (actual_parameter (at_offset 53) (only (number 1 53)) no_formatting) (
      more_actual_parameters (actual_parameter (at_offset 60) divided_size no_formatting)
        no_actual_parameters)

abbrev two_made : ActualSections
two_made =
    value_section
      (more_expressions (expression_constant (constant_integer (pos 1))) (
        more_expressions
          (expression_negate (
            expression_binary operator_divide_integer
              (expression_constant (constant_integer (pos 10)))
              (expression_constant (constant_integer (pos 2)))))
          Expressions.no_expressions))
      ActualSections.no_sections

resolve_actual_parameters-IsComplete_example :
    IsComplete (parameters two_parameters) two_made
    × (count_parameters (parameters two_parameters) ≤ count_nodes two_nodes)
unfolding parameters count_nodes resolve_expression cisref_eq initial_reporter
    resolve_actual_parameters count_sections
resolve_actual_parameters-IsComplete_example =
    resolve_actual_parameters-IsComplete some_builder
      (resolve_expression no_builtins some_builder 5) (block_scope 0 ∷ []) two_parameters two_nodes
      70 some_state some_state two_made refl refl
