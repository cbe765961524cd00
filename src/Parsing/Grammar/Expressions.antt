-- ===== src/Parsing/Grammar/Expressions.antt =====
-- src/parsing.cxx: expressions. `factor` is `parseFactor` throughout.
use waspas.Base.{ℕ, zero, suc, List, [], ◌∷◌, Option, none, some}
use waspas.Lexing.Tokens
use waspas.Lexing.Tokens.{
  comma, colon, dot, dot_dot, caret, left_bracket, right_bracket, left_parenthesis,
  right_parenthesis, ws_nil, ws_not,
}
use waspas.Parsing.Reader.{Parser, out_of_fuel, ◌>>=◌, ◌>>◌, pure, try_consume, consume}
use waspas.Parsing.Combinators.{
  view_recorder, as_base, try_parse, parse_alternatives, parse_list, parse_separated_list,
  parse_optional, parse_enum, when_some,
}
use waspas.Parsing.Nodes.{MultiplyingOperator, AddingOperator, RelationalOperator}
use waspas.Parsing.Nodes.Expressions.{
  Expression, expression, ExpressionModifier, expression_modifier, optional_modifier,
  SimpleExpression, simple_expression, SimpleExpressionModifier, simple_expression_modifier,
  simple_modifiers, Term, term, TermModifier, term_modifier, term_modifiers, Factor,
  function_designator, variable, unsigned_integer_constant, unsigned_real_constant,
  character_string, nil, set_constructor, parenthetical, not_expression, VariableAccess,
  variable_access, VariableModifier, indexing_modifier, field_access_modifier,
  dereferencing_modifier, variable_modifiers, expressions, optional_expression, MemberDesignator,
  member_designator, members, FormattingSpecification, formatting_specification, ActualParameter,
  actual_parameter, optional_formatting, actual_parameters,
}
use waspas.Parsing.Grammar.Constants.{
  parse_identifier, parse_sign, parse_unsigned_integer_constant, parse_unsigned_real_constant,
  parse_character_string,
}

-- What a set constructor without members holds.
abbrev pub or_members : Option (List MemberDesignator) → List MemberDesignator
or_members none = []
or_members (some l) = l

unfoldable pub parse_nil : Parser Factor
unfolding view_recorder consume
parse_nil = view_recorder do consume ws_nil; pure λ view. nil view

unfoldable pub parse_field_access_modifier : Parser VariableModifier
unfolding view_recorder consume parse_identifier
parse_field_access_modifier =
    view_recorder
      do consume dot; field ← parse_identifier; pure λ view. field_access_modifier view field

unfoldable pub parse_dereferencing_modifier : Parser VariableModifier
unfolding view_recorder consume
parse_dereferencing_modifier =
    view_recorder do consume caret; pure λ view. dereferencing_modifier view

module _ (factor : Parser Factor) where
  unfoldable pub parse_term_modifier : Parser TermModifier
  unfolding view_recorder parse_enum
  parse_term_modifier = view_recorder do
    operator ←
        parse_enum (Tokens.asterisk, MultiplyingOperator.multiply)
          ((Tokens.slash, MultiplyingOperator.divide_real)
            ∷ (Tokens.ws_div, MultiplyingOperator.divide_integer)
            ∷ (Tokens.ws_mod, MultiplyingOperator.modulo)
            ∷ (Tokens.ws_and, MultiplyingOperator.and)
            ∷ [])
    operand ← factor
    pure λ view. term_modifier view operator operand

  unfoldable pub parse_term : Parser Term
  unfolding view_recorder parse_list parse_term_modifier
  parse_term = view_recorder do
    operand ← factor
    l ← parse_list parse_term_modifier
    pure λ view. term view operand (term_modifiers l)

  unfoldable pub parse_simple_expression_modifier : Parser SimpleExpressionModifier
  unfolding view_recorder parse_enum parse_term
  parse_simple_expression_modifier = view_recorder do
    operator ←
        parse_enum (Tokens.plus, AddingOperator.plus)
          ((Tokens.minus, AddingOperator.minus) ∷ (Tokens.ws_or, AddingOperator.or) ∷ [])
    operand ← parse_term
    pure λ view. simple_expression_modifier view operator operand

  unfoldable pub parse_simple_expression : Parser SimpleExpression
  unfolding view_recorder parse_sign parse_term parse_list parse_simple_expression_modifier
  parse_simple_expression = view_recorder do
    sign ← parse_sign
    operand ← parse_term
    l ← parse_list parse_simple_expression_modifier
    pure λ view. simple_expression view sign operand (simple_modifiers l)

  unfoldable pub parse_expression_modifier : Parser ExpressionModifier
  unfolding view_recorder parse_enum parse_simple_expression
  parse_expression_modifier = view_recorder do
    operator ←
        parse_enum (Tokens.equal, RelationalOperator.equal)
          ((Tokens.not_equal, RelationalOperator.not_equal)
            ∷ (Tokens.less_than, RelationalOperator.less)
            ∷ (Tokens.greater_than, RelationalOperator.greater)
            ∷ (Tokens.less_than_or_equal, RelationalOperator.less_or_equal)
            ∷ (Tokens.greater_than_or_equal, RelationalOperator.greater_or_equal)
            ∷ (Tokens.ws_in, RelationalOperator.is_in)
            ∷ [])
    operand ← parse_simple_expression
    pure λ view. expression_modifier view operator operand

  unfoldable pub parse_expression : Parser Expression
  unfolding view_recorder parse_simple_expression parse_optional parse_expression_modifier
  parse_expression = view_recorder do
    operand ← parse_simple_expression
    o ← parse_optional parse_expression_modifier
    pure λ view. expression view operand (optional_modifier o)

  unfoldable pub parse_indexing_modifier : Parser VariableModifier
  unfolding view_recorder consume parse_separated_list parse_expression
  parse_indexing_modifier = view_recorder do
    consume left_bracket
    indices ← parse_separated_list comma parse_expression
    consume right_bracket
    pure λ view. indexing_modifier view (expressions indices)

  unfoldable pub parse_variable_modifier : Parser VariableModifier
  unfolding parse_alternatives parse_indexing_modifier parse_field_access_modifier
      parse_dereferencing_modifier
  parse_variable_modifier =
      parse_alternatives parse_indexing_modifier
        (parse_field_access_modifier ∷ parse_dereferencing_modifier ∷ [])

  unfoldable pub parse_variable_access : Parser VariableAccess
  unfolding view_recorder parse_identifier parse_list parse_variable_modifier
  parse_variable_access = view_recorder do
    id ← parse_identifier
    l ← parse_list parse_variable_modifier
    pure λ view. variable_access view id (variable_modifiers l)

  unfoldable pub parse_member_designator : Parser MemberDesignator
  unfolding view_recorder parse_expression try_consume
  parse_member_designator = view_recorder do
    smallest ← parse_expression
    o ← try_consume dot_dot
    largest ← when_some o parse_expression
    pure λ view. member_designator view smallest (optional_expression largest)

  unfoldable pub parse_set_constructor : Parser Factor
  unfolding view_recorder consume try_parse parse_separated_list parse_member_designator
  parse_set_constructor = view_recorder do
    consume left_bracket
    o ← try_parse (parse_separated_list comma parse_member_designator)
    consume right_bracket
    pure λ view. set_constructor view (members (or_members o))

  unfoldable pub parse_formatting_specification : Parser FormattingSpecification
  unfolding view_recorder consume parse_expression try_consume
  parse_formatting_specification = view_recorder do
    consume colon
    total_width ← parse_expression
    o ← try_consume colon
    frac_digits ← when_some o parse_expression
    pure λ view. formatting_specification view total_width (optional_expression frac_digits)

  unfoldable pub parse_actual_parameter : Parser ActualParameter
  unfolding view_recorder parse_expression parse_optional parse_formatting_specification
  parse_actual_parameter = view_recorder do
    value ← parse_expression
    o ← parse_optional parse_formatting_specification
    pure λ view. actual_parameter view value (optional_formatting o)

  unfoldable pub parse_function_designator : Parser Factor
  unfolding view_recorder parse_identifier consume parse_separated_list parse_actual_parameter
  parse_function_designator = view_recorder do
    function ← parse_identifier
    consume left_parenthesis
    l ← parse_separated_list comma parse_actual_parameter
    consume right_parenthesis
    pure λ view. function_designator view function (actual_parameters l)

  unfoldable pub parse_parenthetical : Parser Factor
  unfolding view_recorder consume parse_expression
  parse_parenthetical = view_recorder do
    consume left_parenthesis
    inner_expression ← parse_expression
    consume right_parenthesis
    pure λ view. parenthetical view inner_expression

  unfoldable pub parse_not_expression : Parser Factor
  unfolding view_recorder consume
  parse_not_expression =
      view_recorder do consume ws_not; operand ← factor; pure λ view. not_expression view operand

  unfoldable pub factor_body : Parser Factor
  unfolding parse_alternatives parse_function_designator parse_variable_access
      parse_unsigned_integer_constant parse_unsigned_real_constant parse_character_string parse_nil
      parse_set_constructor parse_parenthetical parse_not_expression
  factor_body = parse_alternatives parse_function_designator (
      as_base variable parse_variable_access
      ∷ as_base unsigned_integer_constant parse_unsigned_integer_constant
      ∷ as_base unsigned_real_constant parse_unsigned_real_constant
      ∷ as_base character_string parse_character_string
      ∷ parse_nil
      ∷ parse_set_constructor
      ∷ parse_parenthetical
      ∷ parse_not_expression
      ∷ [])

-- A factor of at most `fuel` levels.
unfoldable pub parse_factor : ℕ → Parser Factor
unfolding factor_body
parse_factor zero i r = out_of_fuel
parse_factor (suc fuel) i r = factor_body (parse_factor fuel) i r
