-- ===== src/Analysis/Expressions.antt =====
-- src/semantics-analyze.cxx: factors, terms, simple expressions and expressions.
use waspas.Base.{ℕ, zero, suc, true, false, List, Option, none, some, codes}
use waspas.Base.Integers.{pos}
use waspas.Parsing.Combinators.{View}
use waspas.Parsing.Nodes.{AddingOperator}
use waspas.Reporting.{non_boolean_type}
use waspas.Parsing.Nodes.Expressions.{
  expression, expression_modifier, OptionalExpressionModifier, no_modifier, a_modifier,
  SimpleExpression, simple_expression, simple_expression_modifier, SimpleExpressionModifiers,
  no_simple_modifiers, more_simple_modifiers, Term, term, term_modifier, TermModifiers,
  no_term_modifiers, more_term_modifiers, Factor, function_designator, variable,
  unsigned_integer_constant, unsigned_real_constant, character_string, nil, set_constructor,
  parenthetical, not_expression, ActualParameters,
}
use waspas.Semantics.Constants.{Constant, constant_integer, constant_real, constant_string}
use waspas.Semantics.Scopes.{Scope}
use waspas.Semantics.Expressions.{
  SemExpression, expression_constant, expression_function_designator, expression_nil,
  expression_not,
}
use waspas.Analysis.{Analysis, pure, ◌>>=◌, ◌>>◌, asserted, allocate}
use waspas.Analysis.Constants.{apply_fallback, resolve_string}
use waspas.Analysis.Values.{value_type}
use waspas.Analysis.Access.{Resolver, type_of_value, resolve_variable_access_like}
use waspas.Analysis.Operators.{
  Operand, check_operand, is_boolean, multiplying_step, adding_step, sign_step, relational_step,
}
use waspas.Analysis.Builder.{StatementBuilder}
use waspas.Analysis.Subroutines.{
  SubroutineLookup, not_found, builtin_subroutine, defined_subroutine, lookup_subroutine_reference,
  factor_view,
}
use waspas.Analysis.Sections.{resolve_actual_parameters}
use waspas.Analysis.Factors.{
  Builtins, fallback_expression, parameters_end, resolve_factor_identifier, resolve_set_constructor,
}

unfoldable pub term_view : Term → View
term_view (term view _ _) = view

unfoldable pub simple_view : SimpleExpression → View
simple_view (simple_expression view _ _ _) = view

-- `resolveFactor` of a character string, whose fallback is a string too.
unfoldable pub string_expression : Option Constant → Analysis SemExpression
unfolding allocate
string_expression (some c) = pure (expression_constant c)
string_expression none = do
  a ← allocate 2
  pure (expression_constant (constant_string a (codes "???")))

-- The operators of a simple expression report their left operands in two ways.
abbrev pub adding_location : AddingOperator → View → View → ℕ
adding_location AddingOperator.or whole first = whole.start
adding_location _ whole first = first.start

module _ (builtins : Builtins) (builder : StatementBuilder) (resolve_expression : Resolver) where
  unfoldable pub resolve_call :
      List Scope → ActualParameters → ℕ → SubroutineLookup → Analysis SemExpression
  unfolding resolve_actual_parameters
  resolve_call scopes nodes end_location not_found = pure fallback_expression
  resolve_call scopes nodes end_location (builtin_subroutine function) =
      builtins.function builder resolve_expression function scopes nodes end_location
  resolve_call scopes nodes end_location (defined_subroutine r formal) = do
    actuals ← resolve_actual_parameters builder resolve_expression scopes formal nodes end_location
    pure (expression_function_designator r actuals)

  abbrev pub with_type : List Scope → ℕ → SemExpression → Analysis Operand
  with_type scopes location e = do
    t ← type_of_value scopes e
    pure (record { location = location; value = e; type = t })

  abbrev pub or_fallback : Option SemExpression → Analysis SemExpression
  or_fallback none = pure fallback_expression
  or_fallback (some e) = pure e

  unfoldable pub resolve_any_factor : List Scope → Factor → Analysis SemExpression
  unfolding resolve_call parameters_end lookup_subroutine_reference resolve_variable_access_like
      resolve_factor_identifier resolve_set_constructor resolve_string string_expression
      apply_fallback check_operand is_boolean value_type factor_view
  resolve_any_factor scopes (function_designator view id nodes) = do
    found ← lookup_subroutine_reference true scopes id
    resolve_call scopes nodes (parameters_end nodes id.view.finish) found
  resolve_any_factor scopes (variable access) = do
    value ←
        resolve_variable_access_like resolve_expression scopes access
          (resolve_factor_identifier builtins builder resolve_expression)
          (codes "variable, field designator, constant, bound, or function")
    or_fallback value
  resolve_any_factor scopes (unsigned_integer_constant u) =
      pure (expression_constant (apply_fallback (some (constant_integer (pos u.value)))))
  resolve_any_factor scopes (unsigned_real_constant u) =
      pure (expression_constant (apply_fallback (some (constant_real false u.value))))
  resolve_any_factor scopes (character_string c) = do
    found ← resolve_string c
    string_expression found
  resolve_any_factor scopes (nil view) = pure expression_nil
  resolve_any_factor scopes (set_constructor view designators) =
      resolve_set_constructor builtins builder resolve_expression scopes designators
  resolve_any_factor scopes (parenthetical view inner) = resolve_expression scopes inner
  resolve_any_factor scopes (not_expression view operand) = do
    e ← resolve_any_factor scopes operand
    o ← with_type scopes (factor_view operand).start e
    check_operand is_boolean non_boolean_type o
    pure (expression_not e)

  -- The loop of `resolveTerm`, with the location of the first operand and the term so far.
  unfoldable pub resolve_term_modifiers :
      List Scope → ℕ → TermModifiers → SemExpression → Analysis SemExpression
  unfolding resolve_any_factor multiplying_step value_type factor_view
  resolve_term_modifiers scopes location no_term_modifiers e = pure e
  resolve_term_modifiers scopes location (more_term_modifiers (term_modifier view op operand) rest)
        e =
      do
        l ← with_type scopes location e
        value ← resolve_any_factor scopes operand
        r ← with_type scopes (factor_view operand).start value
        next ← multiplying_step op l r
        resolve_term_modifiers scopes location rest next

  unfoldable pub resolve_term : List Scope → Term → Analysis SemExpression
  unfolding resolve_any_factor resolve_term_modifiers factor_view
  resolve_term scopes (term view operand modifiers) = do
    e ← resolve_any_factor scopes operand
    resolve_term_modifiers scopes (factor_view operand).start modifiers e

  unfoldable pub resolve_simple_modifiers :
      List Scope → View → View → SimpleExpressionModifiers → SemExpression → Analysis SemExpression
  unfolding resolve_term adding_step value_type term_view
  resolve_simple_modifiers scopes whole first no_simple_modifiers e = pure e
  resolve_simple_modifiers scopes whole first
        (more_simple_modifiers (simple_expression_modifier view op operand) rest) e =
      do
        l ← with_type scopes (adding_location op whole first) e
        value ← resolve_term scopes operand
        r ← with_type scopes (term_view operand).start value
        next ← adding_step op l r
        resolve_simple_modifiers scopes whole first rest next

  unfoldable pub resolve_simple_expression : List Scope → SimpleExpression → Analysis SemExpression
  unfolding resolve_term sign_step resolve_simple_modifiers value_type term_view
  resolve_simple_expression scopes (simple_expression view sign operand modifiers) = do
    e ← resolve_term scopes operand
    o ← with_type scopes (term_view operand).start e
    signed ← sign_step sign o
    elim signed.1 [
      | false ↦ pure signed.0
      | true ↦ resolve_simple_modifiers scopes view (term_view operand) modifiers signed.0
    ]

  unfoldable pub resolve_modified_expression :
      List Scope → SimpleExpression → OptionalExpressionModifier → Analysis SemExpression
  unfolding resolve_simple_expression relational_step value_type simple_view
  resolve_modified_expression scopes left no_modifier = resolve_simple_expression scopes left
  resolve_modified_expression scopes left (a_modifier (expression_modifier view op right)) = do
    e ← resolve_simple_expression scopes left
    l ← with_type scopes (simple_view left).start e
    e' ← resolve_simple_expression scopes right
    r ← with_type scopes (simple_view right).start e'
    relational_step op l r

  unfoldable pub resolve_expression_step : Resolver
  unfolding resolve_modified_expression
  resolve_expression_step scopes (expression view operand modifier) =
      resolve_modified_expression scopes operand modifier

-- `resolveExpression`. Each unit of fuel is one more level of expressions inside expressions.
unfoldable pub resolve_expression : Builtins → StatementBuilder → ℕ → Resolver
unfolding resolve_expression_step
resolve_expression builtins builder zero scopes node = asserted none
resolve_expression builtins builder (suc fuel) scopes node =
    resolve_expression_step builtins builder (resolve_expression builtins builder fuel) scopes node
