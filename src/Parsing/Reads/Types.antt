-- ===== src/Parsing/Reads/Types.antt =====
-- src/parsing.cxx: type denoters read at least a token; a field list may read nothing.
use waspas.Base.{ℕ, zero, suc, List, Option, none, some, arith}
use waspas.Lexing.Tokens.{
  Token, comma, colon, semicolon, equal, caret, left_bracket, right_bracket, left_parenthesis,
  right_parenthesis, ws_array, ws_case, ws_end, ws_file, ws_of, ws_packed, ws_record, ws_set,
}
use waspas.Parsing.Nodes.{Identifier}
use waspas.Parsing.Nodes.Types.{TypeDenoter, FieldList, VariantPart, RecordSection}
use waspas.Parsing.Reader.{Parser}
use waspas.Parsing.Reads.{Reads, pure-Reads, ◌⟫◌, ◌▸◌, ◌▹◌}
use waspas.Parsing.Reads.Reader.{consume-Reads, try_consume-Reads}
use waspas.Parsing.Reads.Loops.{
  view_recorder-Reads, as_base-Reads, parse_alternatives-Reads, parse_separated_list-Reads,
  try_parse-Reads, parse_optional-Reads, only_if-Reads, no_more, also,
}
use waspas.Parsing.Reads.Constants.{
  parse_identifier-Reads, parse_constant-Reads, parse_enumerated_type-Reads,
  parse_subrange_type-Reads, parse_ordinal_type-Reads,
}
use waspas.Parsing.Grammar.Types.{
  parse_tag, skip_semicolon, parse_array_type, parse_record_section, parse_variant,
  parse_variant_part, variant_part_tail, after_fixed, field_list_body, parse_record_type,
  parse_file_type, parse_set_type, parse_new_pointer_type, parse_new_structured_type,
  type_denoter_body, parse_type_denoter, parse_field_list, parse_type_definition,
  parse_variable_declaration,
}

module _ {b : ℕ} where
  parse_tag-Reads : (id : Identifier) (o : Option Token) → Reads 0 b (parse_tag id o)
  parse_tag-Reads id none = pure-Reads _
  parse_tag-Reads id (some _) = parse_identifier-Reads ⟫ λ tag_type. pure-Reads _

  skip_semicolon-Reads : (o : Option VariantPart) → Reads 0 b (skip_semicolon o)
  skip_semicolon-Reads none = pure-Reads _
  skip_semicolon-Reads (some v) = try_consume-Reads semicolon tt ⟫ λ _. pure-Reads _

  parse_set_type-Reads : Reads 1 b parse_set_type
  unfolding parse_set_type
  parse_set_type-Reads = view_recorder-Reads (
      consume-Reads ws_set tt ▸ λ _.
      consume-Reads ws_of tt ⟫ λ _. parse_ordinal_type-Reads ⟫ λ base_type. pure-Reads _)

  parse_new_pointer_type-Reads : Reads 1 b parse_new_pointer_type
  unfolding parse_new_pointer_type
  parse_new_pointer_type-Reads =
      view_recorder-Reads
        (consume-Reads caret tt ▸ λ _. parse_identifier-Reads ⟫ λ domain_type. pure-Reads _)

module _ {b : ℕ} {type_denoter : Parser TypeDenoter} {fields : Parser FieldList}
    (type_denoter-Reads : Reads 1 b type_denoter) (fields-Reads : Reads 0 b fields) where
  parse_array_type-Reads : Reads 1 (suc b) (parse_array_type type_denoter fields)
  unfolding parse_array_type
  parse_array_type-Reads = view_recorder-Reads (
      consume-Reads ws_array tt ▹ λ _. consume-Reads left_bracket tt ⟫ λ _.
      parse_separated_list-Reads comma tt parse_ordinal_type-Reads ⟫ λ index_types.
      consume-Reads right_bracket tt ⟫ λ _.
      consume-Reads ws_of tt ⟫ λ _. type_denoter-Reads ⟫ λ component_type. pure-Reads _)

  parse_record_section-Reads : Reads 1 (suc b) (parse_record_section type_denoter fields)
  unfolding parse_record_section
  parse_record_section-Reads = view_recorder-Reads (
      parse_separated_list-Reads comma tt parse_identifier-Reads ▹ λ field_names.
      consume-Reads colon tt ⟫ λ _. type_denoter-Reads ⟫ λ field_type. pure-Reads _)

  parse_variant-Reads : Reads 1 (suc b) (parse_variant type_denoter fields)
  unfolding parse_variant
  parse_variant-Reads = view_recorder-Reads (
      parse_separated_list-Reads comma tt parse_constant-Reads ▹ λ case_constants.
      consume-Reads colon tt ⟫ λ _. consume-Reads left_parenthesis tt ⟫ λ _.
      fields-Reads ⟫ λ l. consume-Reads right_parenthesis tt ⟫ λ _. pure-Reads _)

  parse_variant_part-Reads : Reads 1 (suc b) (parse_variant_part type_denoter fields)
  unfolding parse_variant_part
  parse_variant_part-Reads = view_recorder-Reads (
      consume-Reads ws_case tt ▸ λ _. parse_identifier-Reads ⟫ λ id.
      try_consume-Reads colon tt ⟫ λ o. parse_tag-Reads id o ⟫ λ tag. consume-Reads ws_of tt ⟫ λ _.
      parse_separated_list-Reads semicolon tt parse_variant-Reads ⟫ λ l. pure-Reads _)

  variant_part_tail-Reads : Reads 0 (suc b) (variant_part_tail type_denoter fields)
  unfolding variant_part_tail
  variant_part_tail-Reads =
      parse_optional-Reads parse_variant_part-Reads ⟫ λ v. skip_semicolon-Reads v

  after_fixed-Reads :
      (fixed : Option (List RecordSection))
      → Reads 0 (suc b) (after_fixed type_denoter fields fixed)
  unfolding after_fixed
  after_fixed-Reads none = variant_part_tail-Reads
  after_fixed-Reads (some _) =
      try_consume-Reads semicolon tt ⟫ λ o. only_if-Reads o variant_part_tail-Reads

  field_list_body-Reads : Reads 0 (suc b) (field_list_body type_denoter fields)
  unfolding field_list_body
  field_list_body-Reads = view_recorder-Reads (
      try_parse-Reads (parse_separated_list-Reads semicolon tt parse_record_section-Reads)
      ⟫ λ fixed. after_fixed-Reads fixed ⟫ λ v. pure-Reads _)

  parse_record_type-Reads : Reads 1 (suc b) (parse_record_type type_denoter fields)
  unfolding parse_record_type
  parse_record_type-Reads = view_recorder-Reads (
      consume-Reads ws_record tt ▹ λ _.
      fields-Reads ⟫ λ l. consume-Reads ws_end tt ⟫ λ _. pure-Reads _)

  parse_file_type-Reads : Reads 1 (suc b) (parse_file_type type_denoter fields)
  unfolding parse_file_type
  parse_file_type-Reads = view_recorder-Reads (
      consume-Reads ws_file tt ▹ λ _.
      consume-Reads ws_of tt ⟫ λ _. type_denoter-Reads ⟫ λ component_type. pure-Reads _)

  parse_new_structured_type-Reads : Reads 1 (suc b) (parse_new_structured_type type_denoter fields)
  unfolding parse_new_structured_type
  parse_new_structured_type-Reads = view_recorder-Reads (
      try_consume-Reads ws_packed tt ⟫ λ o.
      parse_alternatives-Reads parse_array_type-Reads (
        also parse_record_type-Reads
          (also parse_set_type-Reads (also parse_file_type-Reads no_more)))
      ▸ λ unpacked. pure-Reads _)

  type_denoter_body-Reads : Reads 1 (suc b) (type_denoter_body type_denoter fields)
  unfolding type_denoter_body
  type_denoter_body-Reads = parse_alternatives-Reads (as_base-Reads _ parse_enumerated_type-Reads) (
      also (as_base-Reads _ parse_subrange_type-Reads) (
        also parse_new_structured_type-Reads (
          also parse_new_pointer_type-Reads
            (also (as_base-Reads _ parse_identifier-Reads) no_more))))

-- `fuel` levels are enough where fewer than `fuel` tokens are left.
types-Read :
    (fuel : ℕ) → Reads 1 fuel (parse_type_denoter fuel) × Reads 0 fuel (parse_field_list fuel)
unfolding parse_type_denoter parse_field_list
types-Read zero = (
  record { run = λ i r input reader left. absurd (let h = reader.inside in omega arith) },
  record { run = λ i r input reader left. absurd (let h = reader.inside in omega arith) },
)
types-Read (suc fuel) =
    let (denoter, fields) = types-Read fuel in
    (
      record { run = (type_denoter_body-Reads denoter fields).run },
      record { run = (field_list_body-Reads denoter fields).run },
    )

pub parse_type_denoter-Reads : (fuel : ℕ) → Reads 1 fuel (parse_type_denoter fuel)
parse_type_denoter-Reads fuel = (types-Read fuel).0

module _ {b : ℕ} {type_denoter : Parser TypeDenoter}
    (type_denoter-Reads : Reads 1 b type_denoter) where
  pub parse_type_definition-Reads : Reads 1 b (parse_type_definition type_denoter)
  unfolding parse_type_definition
  parse_type_definition-Reads = view_recorder-Reads (
      parse_identifier-Reads ▸ λ name.
      consume-Reads equal tt ⟫ λ _. type_denoter-Reads ⟫ λ denoter. pure-Reads _)

  pub parse_variable_declaration-Reads : Reads 1 b (parse_variable_declaration type_denoter)
  unfolding parse_variable_declaration
  parse_variable_declaration-Reads = view_recorder-Reads (
      parse_separated_list-Reads comma tt parse_identifier-Reads ▸ λ var_names.
      consume-Reads colon tt ⟫ λ _. type_denoter-Reads ⟫ λ var_type. pure-Reads _)
