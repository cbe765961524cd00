-- ===== src/Parsing/Grammar/Constants.antt =====
-- src/parsing.cxx: labels, identifiers and constants.
use waspas.Base.{[], ◌∷◌}
use waspas.Lexing.Tokens
use waspas.Lexing.Tokens.{comma, equal, dot_dot, left_parenthesis, right_parenthesis}
use waspas.Parsing.Reader.{
  Parser, ◌>>=◌, ◌>>◌, pure, consume, consume_id, consume_int, consume_label, consume_real,
  consume_string,
}
use waspas.Parsing.Combinators.{
  view_recorder, as_base, parse_alternatives, parse_separated_list, parse_enum_or,
}
use waspas.Parsing.Nodes.{
  Label, Identifier, UnsignedIntegerConstant, UnsignedRealConstant, SignableConstant,
  SignedConstant, Sign, CharacterString, Constant, ConstantDefinition, EnumeratedType, SubrangeType,
  OrdinalType,
}

unfoldable pub parse_label : Parser Label
unfolding view_recorder consume_label
parse_label =
    view_recorder do value ← consume_label; pure λ view. record { view = view; value = value }

unfoldable pub parse_unsigned_integer_constant : Parser UnsignedIntegerConstant
unfolding view_recorder consume_int
parse_unsigned_integer_constant =
    view_recorder do value ← consume_int; pure λ view. record { view = view; value = value }

unfoldable pub parse_unsigned_real_constant : Parser UnsignedRealConstant
unfolding view_recorder consume_real
parse_unsigned_real_constant =
    view_recorder do value ← consume_real; pure λ view. record { view = view; value = value }

unfoldable pub parse_identifier : Parser Identifier
unfolding view_recorder consume_id
parse_identifier =
    view_recorder do spelling ← consume_id; pure λ view. record { view = view; spelling = spelling }

unfoldable pub parse_signable_constant : Parser SignableConstant
unfolding parse_alternatives parse_unsigned_integer_constant parse_unsigned_real_constant
    parse_identifier
parse_signable_constant =
    parse_alternatives
      (as_base SignableConstant.unsigned_integer_constant parse_unsigned_integer_constant)
      (as_base SignableConstant.unsigned_real_constant parse_unsigned_real_constant
        ∷ as_base SignableConstant.identifier parse_identifier
        ∷ [])

unfoldable pub parse_sign : Parser Sign
unfolding parse_enum_or
parse_sign = parse_enum_or Sign.no_sign (Tokens.plus, Sign.plus) ((Tokens.minus, Sign.minus) ∷ [])

unfoldable pub parse_signed_constant : Parser SignedConstant
unfolding view_recorder parse_sign parse_signable_constant
parse_signed_constant = view_recorder do
  sign ← parse_sign
  unsigned_value ← parse_signable_constant
  pure λ view. record { view = view; sign = sign; unsigned_value = unsigned_value }

unfoldable pub parse_character_string : Parser CharacterString
unfolding view_recorder consume_string
parse_character_string =
    view_recorder do value ← consume_string; pure λ view. record { view = view; value = value }

unfoldable pub parse_constant : Parser Constant
unfolding parse_alternatives parse_signed_constant parse_character_string
parse_constant =
    parse_alternatives (as_base Constant.signed_constant parse_signed_constant)
      (as_base Constant.character_string parse_character_string ∷ [])

unfoldable pub parse_constant_definition : Parser ConstantDefinition
unfolding view_recorder parse_identifier consume parse_constant
parse_constant_definition = view_recorder do
  name ← parse_identifier
  consume equal
  value ← parse_constant
  pure λ view. record { view = view; name = name; value = value }

unfoldable pub parse_enumerated_type : Parser EnumeratedType
unfolding view_recorder parse_identifier consume parse_separated_list
parse_enumerated_type = view_recorder do
  consume left_parenthesis
  constants ← parse_separated_list comma parse_identifier
  consume right_parenthesis
  pure λ view. record { view = view; constants = constants }

unfoldable pub parse_subrange_type : Parser SubrangeType
unfolding view_recorder parse_constant consume
parse_subrange_type = view_recorder do
  smallest ← parse_constant
  consume dot_dot
  largest ← parse_constant
  pure λ view. record { view = view; smallest = smallest; largest = largest }

unfoldable pub parse_ordinal_type : Parser OrdinalType
unfolding parse_alternatives parse_enumerated_type parse_subrange_type parse_identifier
parse_ordinal_type =
    parse_alternatives (as_base OrdinalType.enumerated_type parse_enumerated_type) (
      as_base OrdinalType.subrange_type parse_subrange_type
      ∷ as_base OrdinalType.identifier parse_identifier
      ∷ [])
