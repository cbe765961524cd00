-- ===== src/Parsing/Reads/Constants.antt =====
-- src/parsing.cxx: labels, identifiers and constants read at least a token, save a sign.
use waspas.Base.{ℕ}
use waspas.Lexing.Tokens.{plus, minus, comma, equal, dot_dot, left_parenthesis, right_parenthesis}
use waspas.Parsing.Reads.{Reads, pure-Reads, ◌⟫◌, ◌▸◌}
use waspas.Parsing.Reads.Reader.{
  consume-Reads, consume_id-Reads, consume_int-Reads, consume_label-Reads, consume_real-Reads,
  consume_string-Reads,
}
use waspas.Parsing.Reads.Loops.{
  view_recorder-Reads, as_base-Reads, parse_alternatives-Reads, parse_separated_list-Reads,
  parse_enum_or-Reads, no_more, also, no_more_real, also_real,
}
use waspas.Parsing.Grammar.Constants.{
  parse_label, parse_unsigned_integer_constant, parse_unsigned_real_constant, parse_identifier,
  parse_signable_constant, parse_sign, parse_signed_constant, parse_character_string,
  parse_constant, parse_constant_definition, parse_enumerated_type, parse_subrange_type,
  parse_ordinal_type,
}

module _ {b : ℕ} where
  pub parse_label-Reads : Reads 1 b parse_label
  unfolding parse_label
  parse_label-Reads = view_recorder-Reads (consume_label-Reads ▸ λ value. pure-Reads _)

  pub parse_unsigned_integer_constant-Reads : Reads 1 b parse_unsigned_integer_constant
  unfolding parse_unsigned_integer_constant
  parse_unsigned_integer_constant-Reads =
      view_recorder-Reads (consume_int-Reads ▸ λ value. pure-Reads _)

  pub parse_unsigned_real_constant-Reads : Reads 1 b parse_unsigned_real_constant
  unfolding parse_unsigned_real_constant
  parse_unsigned_real_constant-Reads =
      view_recorder-Reads (consume_real-Reads ▸ λ value. pure-Reads _)

  pub parse_identifier-Reads : Reads 1 b parse_identifier
  unfolding parse_identifier
  parse_identifier-Reads = view_recorder-Reads (consume_id-Reads ▸ λ spelling. pure-Reads _)

  pub parse_signable_constant-Reads : Reads 1 b parse_signable_constant
  unfolding parse_signable_constant
  parse_signable_constant-Reads =
      parse_alternatives-Reads (as_base-Reads _ parse_unsigned_integer_constant-Reads) (
        also (as_base-Reads _ parse_unsigned_real_constant-Reads)
          (also (as_base-Reads _ parse_identifier-Reads) no_more))

  pub parse_sign-Reads : Reads 0 b parse_sign
  unfolding parse_sign
  parse_sign-Reads = parse_enum_or-Reads _ plus _ tt (also_real minus tt no_more_real)

  pub parse_signed_constant-Reads : Reads 1 b parse_signed_constant
  unfolding parse_signed_constant
  parse_signed_constant-Reads =
      view_recorder-Reads
        (parse_sign-Reads ⟫ λ sign. parse_signable_constant-Reads ▸ λ unsigned_value. pure-Reads _)

  pub parse_character_string-Reads : Reads 1 b parse_character_string
  unfolding parse_character_string
  parse_character_string-Reads = view_recorder-Reads (consume_string-Reads ▸ λ value. pure-Reads _)

  pub parse_constant-Reads : Reads 1 b parse_constant
  unfolding parse_constant
  parse_constant-Reads =
      parse_alternatives-Reads (as_base-Reads _ parse_signed_constant-Reads)
        (also (as_base-Reads _ parse_character_string-Reads) no_more)

  pub parse_constant_definition-Reads : Reads 1 b parse_constant_definition
  unfolding parse_constant_definition
  parse_constant_definition-Reads = view_recorder-Reads (
      parse_identifier-Reads ▸ λ name.
      consume-Reads equal tt ⟫ λ _. parse_constant-Reads ⟫ λ value. pure-Reads _)

  pub parse_enumerated_type-Reads : Reads 1 b parse_enumerated_type
  unfolding parse_enumerated_type
  parse_enumerated_type-Reads = view_recorder-Reads (
      consume-Reads left_parenthesis tt ▸ λ _.
      parse_separated_list-Reads comma tt parse_identifier-Reads ⟫ λ constants.
      consume-Reads right_parenthesis tt ⟫ λ _. pure-Reads _)

  pub parse_subrange_type-Reads : Reads 1 b parse_subrange_type
  unfolding parse_subrange_type
  parse_subrange_type-Reads = view_recorder-Reads (
      parse_constant-Reads ▸ λ smallest.
      consume-Reads dot_dot tt ⟫ λ _. parse_constant-Reads ⟫ λ largest. pure-Reads _)

  pub parse_ordinal_type-Reads : Reads 1 b parse_ordinal_type
  unfolding parse_ordinal_type
  parse_ordinal_type-Reads =
      parse_alternatives-Reads (as_base-Reads _ parse_enumerated_type-Reads) (
        also (as_base-Reads _ parse_subrange_type-Reads)
          (also (as_base-Reads _ parse_identifier-Reads) no_more))
