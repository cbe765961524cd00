-- ===== src/Parsing/Nodes/Expressions.antt =====
-- generate-parsing-nodes.py: expressions, variable accesses and actual parameters.
use waspas.Base.{List, [], ◌∷◌, Option, none, some}
use waspas.Parsing.Combinators.{View}
use waspas.Parsing.Nodes.{
  Identifier, UnsignedIntegerConstant, UnsignedRealConstant, CharacterString, Sign, AddingOperator,
  MultiplyingOperator, RelationalOperator,
}

mutual
  pub data Expression : Type 0 where
    expression : View → SimpleExpression → OptionalExpressionModifier → Expression

  pub data ExpressionModifier : Type 0 where
    expression_modifier : View → RelationalOperator → SimpleExpression → ExpressionModifier

  pub data OptionalExpressionModifier : Type 0 where
    no_modifier : OptionalExpressionModifier
    a_modifier : ExpressionModifier → OptionalExpressionModifier

  pub data SimpleExpression : Type 0 where
    simple_expression : View → Sign → Term → SimpleExpressionModifiers → SimpleExpression

  pub data SimpleExpressionModifier : Type 0 where
    simple_expression_modifier : View → AddingOperator → Term → SimpleExpressionModifier

  pub data SimpleExpressionModifiers : Type 0 where
    no_simple_modifiers : SimpleExpressionModifiers
    more_simple_modifiers :
        SimpleExpressionModifier → SimpleExpressionModifiers → SimpleExpressionModifiers

  pub data Term : Type 0 where
    term : View → Factor → TermModifiers → Term

  pub data TermModifier : Type 0 where
    term_modifier : View → MultiplyingOperator → Factor → TermModifier

  pub data TermModifiers : Type 0 where
    no_term_modifiers : TermModifiers
    more_term_modifiers : TermModifier → TermModifiers → TermModifiers

  pub data Factor : Type 0 where
    function_designator : View → Identifier → ActualParameters → Factor
    variable : VariableAccess → Factor
    unsigned_integer_constant : UnsignedIntegerConstant → Factor
    unsigned_real_constant : UnsignedRealConstant → Factor
    character_string : CharacterString → Factor
    nil : View → Factor
    set_constructor : View → MemberDesignators → Factor
    parenthetical : View → Expression → Factor
    not_expression : View → Factor → Factor

  pub data VariableAccess : Type 0 where
    variable_access : View → Identifier → VariableModifiers → VariableAccess

  pub data VariableModifier : Type 0 where
    indexing_modifier : View → Expressions → VariableModifier
    field_access_modifier : View → Identifier → VariableModifier
    dereferencing_modifier : View → VariableModifier

  pub data VariableModifiers : Type 0 where
    no_variable_modifiers : VariableModifiers
    more_variable_modifiers : VariableModifier → VariableModifiers → VariableModifiers

  pub data Expressions : Type 0 where
    no_expressions : Expressions
    more_expressions : Expression → Expressions → Expressions

  pub data OptionalExpression : Type 0 where
    no_expression : OptionalExpression
    an_expression : Expression → OptionalExpression

  pub data MemberDesignator : Type 0 where
    member_designator : View → Expression → OptionalExpression → MemberDesignator

  pub data MemberDesignators : Type 0 where
    no_members : MemberDesignators
    more_members : MemberDesignator → MemberDesignators → MemberDesignators

  pub data FormattingSpecification : Type 0 where
    formatting_specification : View → Expression → OptionalExpression → FormattingSpecification

  pub data OptionalFormatting : Type 0 where
    no_formatting : OptionalFormatting
    a_formatting : FormattingSpecification → OptionalFormatting

  pub data ActualParameter : Type 0 where
    actual_parameter : View → Expression → OptionalFormatting → ActualParameter

  pub data ActualParameters : Type 0 where
    no_actual_parameters : ActualParameters
    more_actual_parameters : ActualParameter → ActualParameters → ActualParameters

abbrev pub optional_modifier : Option ExpressionModifier → OptionalExpressionModifier
optional_modifier none = no_modifier
optional_modifier (some x) = a_modifier x

abbrev pub simple_modifiers : List SimpleExpressionModifier → SimpleExpressionModifiers
simple_modifiers [] = no_simple_modifiers
simple_modifiers (x ∷ l) = more_simple_modifiers x (simple_modifiers l)

abbrev pub term_modifiers : List TermModifier → TermModifiers
term_modifiers [] = no_term_modifiers
term_modifiers (x ∷ l) = more_term_modifiers x (term_modifiers l)

abbrev pub variable_modifiers : List VariableModifier → VariableModifiers
variable_modifiers [] = no_variable_modifiers
variable_modifiers (x ∷ l) = more_variable_modifiers x (variable_modifiers l)

abbrev pub expressions : List Expression → Expressions
expressions [] = no_expressions
expressions (x ∷ l) = more_expressions x (expressions l)

abbrev pub optional_expression : Option Expression → OptionalExpression
optional_expression none = no_expression
optional_expression (some x) = an_expression x

abbrev pub members : List MemberDesignator → MemberDesignators
members [] = no_members
members (x ∷ l) = more_members x (members l)

abbrev pub optional_formatting : Option FormattingSpecification → OptionalFormatting
optional_formatting none = no_formatting
optional_formatting (some x) = a_formatting x

abbrev pub actual_parameters : List ActualParameter → ActualParameters
actual_parameters [] = no_actual_parameters
actual_parameters (x ∷ l) = more_actual_parameters x (actual_parameters l)
