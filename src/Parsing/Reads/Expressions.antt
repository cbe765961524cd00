-- ===== src/Parsing/Reads/Expressions.antt =====
-- src/parsing.cxx: expressions read at least a token, given that factors do.
use waspas.Base.{ℕ, zero, suc, arith}
use waspas.Lexing.Tokens.{
  comma, colon, dot, dot_dot, caret, left_bracket, right_bracket, left_parenthesis,
  right_parenthesis, ws_nil, ws_not, asterisk, slash, ws_div, ws_mod, ws_and, plus, minus, ws_or,
  equal, not_equal, less_than, greater_than, less_than_or_equal, greater_than_or_equal, ws_in,
}
use waspas.Parsing.Nodes.Expressions.{Factor}
use waspas.Parsing.Reader.{Parser}
use waspas.Parsing.Reads.{Reads, pure-Reads, ◌⟫◌, ◌▸◌, ◌▹◌}
use waspas.Parsing.Reads.Reader.{consume-Reads, try_consume-Reads}
use waspas.Parsing.Reads.Loops.{
  view_recorder-Reads, as_base-Reads, parse_alternatives-Reads, parse_list-Reads,
  parse_separated_list-Reads, try_parse-Reads, parse_optional-Reads, when_some-Reads,
  parse_enum-Reads, no_more, also, no_more_real, also_real,
}
use waspas.Parsing.Reads.Constants.{
  parse_identifier-Reads, parse_sign-Reads, parse_unsigned_integer_constant-Reads,
  parse_unsigned_real_constant-Reads, parse_character_string-Reads,
}
use waspas.Parsing.Grammar.Expressions.{
  parse_nil, parse_field_access_modifier, parse_dereferencing_modifier, parse_term_modifier,
  parse_term, parse_simple_expression_modifier, parse_simple_expression, parse_expression_modifier,
  parse_expression, parse_indexing_modifier, parse_variable_modifier, parse_variable_access,
  parse_member_designator, parse_set_constructor, parse_formatting_specification,
  parse_actual_parameter, parse_function_designator, parse_parenthetical, parse_not_expression,
  factor_body, parse_factor,
}

module _ {b : ℕ} where
  parse_nil-Reads : Reads 1 b parse_nil
  unfolding parse_nil
  parse_nil-Reads = view_recorder-Reads (consume-Reads ws_nil tt ▸ λ _. pure-Reads _)

  parse_field_access_modifier-Reads : Reads 1 b parse_field_access_modifier
  unfolding parse_field_access_modifier
  parse_field_access_modifier-Reads =
      view_recorder-Reads
        (consume-Reads dot tt ▸ λ _. parse_identifier-Reads ⟫ λ field. pure-Reads _)

  parse_dereferencing_modifier-Reads : Reads 1 b parse_dereferencing_modifier
  unfolding parse_dereferencing_modifier
  parse_dereferencing_modifier-Reads =
      view_recorder-Reads (consume-Reads caret tt ▸ λ _. pure-Reads _)

module _ {b : ℕ} {factor : Parser Factor} (factor-Reads : Reads 1 b factor) where
  parse_term_modifier-Reads : Reads 1 b (parse_term_modifier factor)
  unfolding parse_term_modifier
  parse_term_modifier-Reads = view_recorder-Reads (
      parse_enum-Reads asterisk _ tt (
        also_real slash tt
          (also_real ws_div tt (also_real ws_mod tt (also_real ws_and tt no_more_real))))
      ▸ λ operator. factor-Reads ⟫ λ operand. pure-Reads _)

  pub parse_term-Reads : Reads 1 b (parse_term factor)
  unfolding parse_term
  parse_term-Reads =
      view_recorder-Reads
        (factor-Reads ▸ λ operand. parse_list-Reads parse_term_modifier-Reads ⟫ λ l. pure-Reads _)

  parse_simple_expression_modifier-Reads : Reads 1 b (parse_simple_expression_modifier factor)
  unfolding parse_simple_expression_modifier
  parse_simple_expression_modifier-Reads = view_recorder-Reads (
      parse_enum-Reads plus _ tt (also_real minus tt (also_real ws_or tt no_more_real))
      ▸ λ operator. parse_term-Reads ⟫ λ operand. pure-Reads _)

  parse_simple_expression-Reads : Reads 1 b (parse_simple_expression factor)
  unfolding parse_simple_expression
  parse_simple_expression-Reads = view_recorder-Reads (
      parse_sign-Reads ⟫ λ sign. parse_term-Reads ▸ λ operand.
      parse_list-Reads parse_simple_expression_modifier-Reads ⟫ λ l. pure-Reads _)

  parse_expression_modifier-Reads : Reads 1 b (parse_expression_modifier factor)
  unfolding parse_expression_modifier
  parse_expression_modifier-Reads = view_recorder-Reads (
      parse_enum-Reads equal _ tt (
        also_real not_equal tt (
          also_real less_than tt (
            also_real greater_than tt (
              also_real less_than_or_equal tt
                (also_real greater_than_or_equal tt (also_real ws_in tt no_more_real))))))
      ▸ λ operator. parse_simple_expression-Reads ⟫ λ operand. pure-Reads _)

  pub parse_expression-Reads : Reads 1 b (parse_expression factor)
  unfolding parse_expression
  parse_expression-Reads = view_recorder-Reads (
      parse_simple_expression-Reads ▸ λ operand.
      parse_optional-Reads parse_expression_modifier-Reads ⟫ λ o. pure-Reads _)

  parse_indexing_modifier-Reads : Reads 1 b (parse_indexing_modifier factor)
  unfolding parse_indexing_modifier
  parse_indexing_modifier-Reads = view_recorder-Reads (
      consume-Reads left_bracket tt ▸ λ _.
      parse_separated_list-Reads comma tt parse_expression-Reads ⟫ λ indices.
      consume-Reads right_bracket tt ⟫ λ _. pure-Reads _)

  parse_variable_modifier-Reads : Reads 1 b (parse_variable_modifier factor)
  unfolding parse_variable_modifier
  parse_variable_modifier-Reads =
      parse_alternatives-Reads parse_indexing_modifier-Reads
        (also parse_field_access_modifier-Reads (also parse_dereferencing_modifier-Reads no_more))

  pub parse_variable_access-Reads : Reads 1 b (parse_variable_access factor)
  unfolding parse_variable_access
  parse_variable_access-Reads = view_recorder-Reads (
      parse_identifier-Reads ▸ λ id.
      parse_list-Reads parse_variable_modifier-Reads ⟫ λ l. pure-Reads _)

  parse_member_designator-Reads : Reads 1 b (parse_member_designator factor)
  unfolding parse_member_designator
  parse_member_designator-Reads = view_recorder-Reads (
      parse_expression-Reads ▸ λ smallest. try_consume-Reads dot_dot tt ⟫ λ o.
      when_some-Reads o parse_expression-Reads ⟫ λ largest. pure-Reads _)

  parse_formatting_specification-Reads : Reads 1 b (parse_formatting_specification factor)
  unfolding parse_formatting_specification
  parse_formatting_specification-Reads = view_recorder-Reads (
      consume-Reads colon tt ▸ λ _. parse_expression-Reads ⟫ λ total_width.
      try_consume-Reads colon tt ⟫ λ o.
      when_some-Reads o parse_expression-Reads ⟫ λ frac_digits. pure-Reads _)

  pub parse_actual_parameter-Reads : Reads 1 b (parse_actual_parameter factor)
  unfolding parse_actual_parameter
  parse_actual_parameter-Reads = view_recorder-Reads (
      parse_expression-Reads ▸ λ value.
      parse_optional-Reads parse_formatting_specification-Reads ⟫ λ o. pure-Reads _)

  parse_set_constructor-Reads : Reads 1 (suc b) (parse_set_constructor factor)
  unfolding parse_set_constructor
  parse_set_constructor-Reads = view_recorder-Reads (
      consume-Reads left_bracket tt ▹ λ _.
      try_parse-Reads (parse_separated_list-Reads comma tt parse_member_designator-Reads) ⟫ λ o.
      consume-Reads right_bracket tt ⟫ λ _. pure-Reads _)

  parse_function_designator-Reads : Reads 1 (suc b) (parse_function_designator factor)
  unfolding parse_function_designator
  parse_function_designator-Reads = view_recorder-Reads (
      parse_identifier-Reads ▹ λ function. consume-Reads left_parenthesis tt ⟫ λ _.
      parse_separated_list-Reads comma tt parse_actual_parameter-Reads ⟫ λ l.
      consume-Reads right_parenthesis tt ⟫ λ _. pure-Reads _)

  parse_parenthetical-Reads : Reads 1 (suc b) (parse_parenthetical factor)
  unfolding parse_parenthetical
  parse_parenthetical-Reads = view_recorder-Reads (
      consume-Reads left_parenthesis tt ▹ λ _.
      parse_expression-Reads ⟫ λ e. consume-Reads right_parenthesis tt ⟫ λ _. pure-Reads _)

  parse_not_expression-Reads : Reads 1 (suc b) (parse_not_expression factor)
  unfolding parse_not_expression
  parse_not_expression-Reads =
      view_recorder-Reads (consume-Reads ws_not tt ▹ λ _. factor-Reads ⟫ λ operand. pure-Reads _)

  -- A variable access that begins a factor.
  access-Reads : Reads 1 (suc b) (parse_variable_access factor)
  unfolding parse_variable_access
  access-Reads = view_recorder-Reads (
      parse_identifier-Reads ▹ λ id.
      parse_list-Reads parse_variable_modifier-Reads ⟫ λ l. pure-Reads _)

  factor_body-Reads : Reads 1 (suc b) (factor_body factor)
  unfolding factor_body
  factor_body-Reads = parse_alternatives-Reads parse_function_designator-Reads (
      also (as_base-Reads _ access-Reads) (
        also (as_base-Reads _ parse_unsigned_integer_constant-Reads) (
          also (as_base-Reads _ parse_unsigned_real_constant-Reads) (
            also (as_base-Reads _ parse_character_string-Reads) (
              also parse_nil-Reads (
                also parse_set_constructor-Reads
                  (also parse_parenthetical-Reads (also parse_not_expression-Reads no_more))))))))

-- `fuel` levels are enough where fewer than `fuel` tokens are left.
pub parse_factor-Reads : (fuel : ℕ) → Reads 1 fuel (parse_factor fuel)
unfolding parse_factor
parse_factor-Reads zero = record {
  run = λ i r input reader left. absurd (let h = reader.inside in omega arith);
}
parse_factor-Reads (suc fuel) = record { run = (factor_body-Reads (parse_factor-Reads fuel)).run }
