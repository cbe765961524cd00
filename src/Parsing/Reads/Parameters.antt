-- ===== src/Parsing/Reads/Parameters.antt =====
-- src/parsing.cxx: formal parameters and the headings of subroutines read at least a token.
use waspas.Base.{ℕ, zero, suc, arith}
use waspas.Lexing.Tokens.{
  comma, colon, semicolon, dot_dot, left_bracket, right_bracket, left_parenthesis,
  right_parenthesis, ws_array, ws_function, ws_of, ws_packed, ws_procedure, ws_var,
}
use waspas.Parsing.Nodes.Types.{FormalParameterTypeOrSchema, FormalParameterSection}
use waspas.Parsing.Reader.{Parser}
use waspas.Parsing.Reads.{Reads, pure-Reads, ◌⟫◌, ◌▸◌, ◌▹◌}
use waspas.Parsing.Reads.Reader.{consume-Reads, try_consume-Reads}
use waspas.Parsing.Reads.Loops.{
  view_recorder-Reads, as_base-Reads, parse_alternatives-Reads, parse_separated_list-Reads,
  list_if-Reads, no_more, also,
}
use waspas.Parsing.Reads.Constants.{parse_identifier-Reads}
use waspas.Parsing.Grammar.Parameters.{
  parse_index_type_specification, parse_packed_conformant_array_schema,
  parse_unpacked_conformant_array_schema, type_or_schema_body,
  parse_formal_parameter_type_or_schema, parse_regular_parameter_section, parse_parameters,
  parse_procedure_heading, parse_function_heading, formal_parameter_section_body,
  parse_formal_parameter_section, parse_function_identification, parse_subroutine_heading,
}

module _ {b : ℕ} where
  parse_index_type_specification-Reads : Reads 1 b parse_index_type_specification
  unfolding parse_index_type_specification
  parse_index_type_specification-Reads = view_recorder-Reads (
      parse_identifier-Reads ▸ λ smallest. consume-Reads dot_dot tt ⟫ λ _.
      parse_identifier-Reads ⟫ λ largest.
      consume-Reads colon tt ⟫ λ _. parse_identifier-Reads ⟫ λ bound_type. pure-Reads _)

  parse_packed_conformant_array_schema-Reads : Reads 1 b parse_packed_conformant_array_schema
  unfolding parse_packed_conformant_array_schema
  parse_packed_conformant_array_schema-Reads = view_recorder-Reads (
      consume-Reads ws_packed tt ▸ λ _. consume-Reads ws_array tt ⟫ λ _.
      consume-Reads left_bracket tt ⟫ λ _. parse_index_type_specification-Reads ⟫ λ index_type.
      consume-Reads right_bracket tt ⟫ λ _.
      consume-Reads ws_of tt ⟫ λ _. parse_identifier-Reads ⟫ λ component_type. pure-Reads _)

module _ {b : ℕ} {schema : Parser FormalParameterTypeOrSchema}
    (schema-Reads : Reads 1 b schema) where
  parse_unpacked_conformant_array_schema-Reads :
      Reads 1 (suc b) (parse_unpacked_conformant_array_schema schema)
  unfolding parse_unpacked_conformant_array_schema
  parse_unpacked_conformant_array_schema-Reads = view_recorder-Reads (
      consume-Reads ws_array tt ▹ λ _. consume-Reads left_bracket tt ⟫ λ _.
      parse_separated_list-Reads semicolon tt parse_index_type_specification-Reads ⟫ λ index_types.
      consume-Reads right_bracket tt ⟫ λ _.
      consume-Reads ws_of tt ⟫ λ _. schema-Reads ⟫ λ component_type. pure-Reads _)

  type_or_schema_body-Reads : Reads 1 (suc b) (type_or_schema_body schema)
  unfolding type_or_schema_body
  type_or_schema_body-Reads = parse_alternatives-Reads (as_base-Reads _ parse_identifier-Reads) (
      also parse_packed_conformant_array_schema-Reads
        (also parse_unpacked_conformant_array_schema-Reads no_more))

schema-Reads : (fuel : ℕ) → Reads 1 fuel (parse_formal_parameter_type_or_schema fuel)
unfolding parse_formal_parameter_type_or_schema
schema-Reads zero = record {
  run = λ i r input reader left. absurd (let h = reader.inside in omega arith);
}
schema-Reads (suc fuel) = record { run = (type_or_schema_body-Reads (schema-Reads fuel)).run }

module _ {b : ℕ} (schema : Parser FormalParameterTypeOrSchema)
    {section : Parser FormalParameterSection} (section-Reads : Reads 1 b section) where
  parse_parameters-Reads : Reads 1 b (parse_parameters schema section)
  unfolding parse_parameters
  parse_parameters-Reads = parse_separated_list-Reads semicolon tt section-Reads ▸ λ l.
      consume-Reads right_parenthesis tt ⟫ λ _. pure-Reads l

  parse_procedure_heading-Reads : Reads 1 (suc b) (parse_procedure_heading schema section)
  unfolding parse_procedure_heading
  parse_procedure_heading-Reads = view_recorder-Reads (
      consume-Reads ws_procedure tt ▹ λ _. parse_identifier-Reads ⟫ λ name.
      try_consume-Reads left_parenthesis tt ⟫ λ o.
      list_if-Reads o parse_parameters-Reads ⟫ λ l. pure-Reads _)

  parse_function_heading-Reads : Reads 1 (suc b) (parse_function_heading schema section)
  unfolding parse_function_heading
  parse_function_heading-Reads = view_recorder-Reads (
      consume-Reads ws_function tt ▹ λ _. parse_identifier-Reads ⟫ λ name.
      try_consume-Reads left_parenthesis tt ⟫ λ o. list_if-Reads o parse_parameters-Reads ⟫ λ l.
      consume-Reads colon tt ⟫ λ _. parse_identifier-Reads ⟫ λ result_type. pure-Reads _)

  parse_regular_parameter_section-Reads :
      Reads 1 (suc b) schema → Reads 1 (suc b) (parse_regular_parameter_section schema section)
  unfolding parse_regular_parameter_section
  parse_regular_parameter_section-Reads h = view_recorder-Reads (
      try_consume-Reads ws_var tt ⟫ λ o.
      parse_separated_list-Reads comma tt parse_identifier-Reads ▸ λ parameter_names.
      consume-Reads colon tt ⟫ λ _. h ⟫ λ parameter_type. pure-Reads _)

  formal_parameter_section_body-Reads :
      Reads 1 (suc b) schema → Reads 1 (suc b) (formal_parameter_section_body schema section)
  unfolding formal_parameter_section_body
  formal_parameter_section_body-Reads h =
      parse_alternatives-Reads (as_base-Reads _ (parse_regular_parameter_section-Reads h)) (
        also (as_base-Reads _ parse_procedure_heading-Reads)
          (also (as_base-Reads _ parse_function_heading-Reads) no_more))

section-Reads : (fuel : ℕ) → Reads 1 fuel (parse_formal_parameter_section fuel)
unfolding parse_formal_parameter_section
section-Reads zero = record {
  run = λ i r input reader left. absurd (let h = reader.inside in omega arith);
}
section-Reads (suc fuel) = record {
  run = (formal_parameter_section_body-Reads _ (section-Reads fuel) (schema-Reads (suc fuel))).run;
}

parse_function_identification-Reads : {b : ℕ} → Reads 1 b parse_function_identification
unfolding parse_function_identification
parse_function_identification-Reads =
    view_recorder-Reads
      (consume-Reads ws_function tt ▸ λ _. parse_identifier-Reads ⟫ λ name. pure-Reads _)

-- The fuel of a heading is enough where at most that many tokens are left.
pub parse_subroutine_heading-Reads : (fuel : ℕ) → Reads 1 (suc fuel) (parse_subroutine_heading fuel)
unfolding parse_subroutine_heading
parse_subroutine_heading-Reads fuel =
    parse_alternatives-Reads
      (as_base-Reads _ (
        parse_procedure_heading-Reads (parse_formal_parameter_type_or_schema fuel)
          (section-Reads fuel)))
      (also
        (as_base-Reads _ (
          parse_function_heading-Reads (parse_formal_parameter_type_or_schema fuel)
            (section-Reads fuel)))
        (also (as_base-Reads _ parse_function_identification-Reads) no_more))
