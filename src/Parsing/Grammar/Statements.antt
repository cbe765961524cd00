-- ===== src/Parsing/Grammar/Statements.antt =====
-- src/parsing.cxx: statements. `factor` is `parseFactor` and `statement` is `parseStatement`.
use waspas.Base.{ℕ, zero, suc, List, [], ◌∷◌, Option, none, some}
use waspas.Lexing.Tokens
use waspas.Lexing.Tokens.{
  Token, assign, comma, colon, semicolon, left_parenthesis, right_parenthesis, ws_begin, ws_case,
  ws_do, ws_else, ws_end, ws_for, ws_goto, ws_if, ws_of, ws_repeat, ws_then, ws_until, ws_while,
  ws_with,
}
use waspas.Parsing.Reader.{Parser, out_of_fuel, ◌>>=◌, ◌>>◌, pure, try_consume, consume}
use waspas.Parsing.Combinators.{
  view_recorder, as_base, parse_alternatives, parse_separated_list, parse_optional, parse_enum,
  when_some, list_if,
}
use waspas.Parsing.Nodes.{Label, RangeDirection}
use waspas.Parsing.Nodes.Expressions.{Factor, ActualParameter, actual_parameters}
use waspas.Parsing.Nodes.Statements.{
  Statement, UnlabeledStatement, assignment_statement, procedure_statement, goto_statement,
  compound_statement, if_statement, case_statement, repeat_statement, while_statement,
  for_statement, with_statement, empty_statement, CompoundStatement, compound, statements,
  optional_statement, CaseListElement, case_list_element, cases,
}
use waspas.Parsing.Nodes.Statements
use waspas.Parsing.Grammar.Constants.{parse_identifier, parse_label, parse_constant}
use waspas.Parsing.Grammar.Expressions.{
  parse_expression, parse_variable_access, parse_actual_parameter, parse_factor,
}

-- The colon behind a label.
abbrev pub colon_if : Option Label → Parser (Unit {0})
colon_if none = pure tt
colon_if (some _) = do consume colon; pure tt

unfoldable pub parse_goto_statement : Parser UnlabeledStatement
unfolding view_recorder consume parse_label
parse_goto_statement =
    view_recorder do consume ws_goto; label ← parse_label; pure λ view. goto_statement view label

unfoldable pub parse_empty_statement : Parser UnlabeledStatement
unfolding view_recorder
parse_empty_statement = view_recorder (pure λ view. empty_statement view)

module _ (factor : Parser Factor) where
  unfoldable pub parse_assignment_statement : Parser UnlabeledStatement
  unfolding view_recorder parse_variable_access consume parse_expression
  parse_assignment_statement = view_recorder do
    access ← parse_variable_access factor
    consume assign
    e ← parse_expression factor
    pure λ view. assignment_statement view access e

  unfoldable pub parse_procedure_parameters : Parser (List ActualParameter)
  unfolding parse_separated_list parse_actual_parameter consume
  parse_procedure_parameters = do
    l ← parse_separated_list comma (parse_actual_parameter factor)
    consume right_parenthesis
    pure l

  unfoldable pub parse_procedure_statement : Parser UnlabeledStatement
  unfolding view_recorder parse_identifier try_consume parse_procedure_parameters
  parse_procedure_statement = view_recorder do
    procedure ← parse_identifier
    o ← try_consume left_parenthesis
    l ← list_if o parse_procedure_parameters
    pure λ view. procedure_statement view procedure (actual_parameters l)

  module _ (statement : Parser Statement) where
    unfoldable pub parse_if_statement : Parser UnlabeledStatement
    unfolding view_recorder consume parse_expression try_consume
    parse_if_statement = view_recorder do
      consume ws_if
      condition ← parse_expression factor
      consume ws_then
      true_branch ← statement
      o ← try_consume ws_else
      false_branch ← when_some o statement
      pure λ view. if_statement view condition true_branch (optional_statement false_branch)

    unfoldable pub parse_case_list_element : Parser CaseListElement
    unfolding view_recorder parse_separated_list parse_constant consume
    parse_case_list_element = view_recorder do
      constants ← parse_separated_list comma parse_constant
      consume colon
      s ← statement
      pure λ view. case_list_element view constants s

    unfoldable pub parse_case_statement : Parser UnlabeledStatement
    unfolding view_recorder consume parse_expression parse_separated_list parse_case_list_element
        try_consume
    parse_case_statement = view_recorder do
      consume ws_case
      case_index ← parse_expression factor
      consume ws_of
      l ← parse_separated_list semicolon parse_case_list_element
      try_consume semicolon
      consume ws_end
      pure λ view. case_statement view case_index (cases l)

    unfoldable pub parse_repeat_statement : Parser UnlabeledStatement
    unfolding view_recorder consume parse_separated_list parse_expression
    parse_repeat_statement = view_recorder do
      consume ws_repeat
      l ← parse_separated_list semicolon statement
      consume ws_until
      condition ← parse_expression factor
      pure λ view. repeat_statement view (statements l) condition

    unfoldable pub parse_while_statement : Parser UnlabeledStatement
    unfolding view_recorder consume parse_expression
    parse_while_statement = view_recorder do
      consume ws_while
      condition ← parse_expression factor
      consume ws_do
      body ← statement
      pure λ view. while_statement view condition body

    unfoldable pub parse_with_statement : Parser UnlabeledStatement
    unfolding view_recorder consume parse_separated_list parse_variable_access
    parse_with_statement = view_recorder do
      consume ws_with
      variables ← parse_separated_list comma (parse_variable_access factor)
      consume ws_do
      body ← statement
      pure λ view. with_statement view variables body

    unfoldable pub parse_for_statement : Parser UnlabeledStatement
    unfolding view_recorder consume parse_identifier parse_expression parse_enum
    parse_for_statement = view_recorder do
      consume ws_for
      control_variable ← parse_identifier
      consume assign
      initial_value ← parse_expression factor
      direction ←
          parse_enum (Tokens.ws_to, RangeDirection.to)
            ((Tokens.ws_downto, RangeDirection.downto) ∷ [])
      final_value ← parse_expression factor
      consume ws_do
      body ← statement
      pure λ view. for_statement view control_variable initial_value direction final_value body

    unfoldable pub parse_compound_statement : Parser CompoundStatement
    unfolding view_recorder consume parse_separated_list
    parse_compound_statement = view_recorder do
      consume ws_begin
      l ← parse_separated_list semicolon statement
      consume ws_end
      pure λ view. compound view (statements l)

    -- The alternatives behind the label.
    unfoldable pub parse_unlabeled_statement : Parser UnlabeledStatement
    unfolding parse_alternatives parse_assignment_statement parse_procedure_statement
        parse_goto_statement parse_compound_statement parse_if_statement parse_case_statement
        parse_repeat_statement parse_while_statement parse_for_statement parse_with_statement
        parse_empty_statement
    parse_unlabeled_statement = parse_alternatives parse_assignment_statement (
        parse_procedure_statement
        ∷ parse_goto_statement
        ∷ as_base compound_statement parse_compound_statement
        ∷ parse_if_statement
        ∷ parse_case_statement
        ∷ parse_repeat_statement
        ∷ parse_while_statement
        ∷ parse_for_statement
        ∷ parse_with_statement
        ∷ parse_empty_statement
        ∷ [])

    unfoldable pub statement_body : Parser Statement
    unfolding view_recorder parse_optional parse_label consume parse_unlabeled_statement
    statement_body = view_recorder do
      label ← parse_optional parse_label
      colon_if label
      unlabeled ← parse_unlabeled_statement
      pure λ view. Statements.statement view label unlabeled

-- A statement of at most `fuel` levels.
unfoldable pub parse_statement : ℕ → Parser Statement
unfolding statement_body parse_factor
parse_statement zero i r = out_of_fuel
parse_statement (suc fuel) i r = statement_body (parse_factor (suc fuel)) (parse_statement fuel) i r
