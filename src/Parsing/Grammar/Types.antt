-- ===== src/Parsing/Grammar/Types.antt =====
-- src/parsing.cxx: type denoters, type definitions and variable declarations.
use waspas.Base.{ℕ, zero, suc, List, [], ◌∷◌, Option, none, some}
use waspas.Lexing.Tokens.{
  Token, comma, colon, semicolon, equal, caret, left_bracket, right_bracket, left_parenthesis,
  right_parenthesis, ws_array, ws_case, ws_end, ws_file, ws_of, ws_packed, ws_record, ws_set,
}
use waspas.Parsing.Reader.{Parser, out_of_fuel, ◌>>=◌, ◌>>◌, pure, try_consume, consume}
use waspas.Parsing.Combinators.{
  view_recorder, as_base, parse_alternatives, parse_separated_list, parse_optional, try_parse,
  is_some, only_if,
}
use waspas.Parsing.Nodes
use waspas.Parsing.Nodes.{Identifier}
use waspas.Parsing.Nodes.Types.{
  TypeDenoter, ordinal_type, new_structured_type, new_pointer_type, UnpackedStructuredType,
  array_type, record_type, set_type, file_type, RecordSection, record_section, record_sections,
  FieldList, field_list, VariantPart, variant_part, optional_variant_part, Variant, variant,
  variants, TypeDefinition, VariableDeclaration,
}
use waspas.Parsing.Grammar.Constants.{
  parse_identifier, parse_constant, parse_enumerated_type, parse_subrange_type, parse_ordinal_type,
}

-- The tag of a variant part, behind its first identifier: a field with its type, or a type.
abbrev pub parse_tag : Identifier → Option Token → Parser (Option Identifier × Identifier)
parse_tag id none = pure (none, id)
parse_tag id (some _) = do tag_type ← parse_identifier; pure (some id, tag_type)

-- The variant part of a field list, with the semicolon that may follow it.
abbrev pub skip_semicolon : Option VariantPart → Parser (Option VariantPart)
skip_semicolon none = pure none
skip_semicolon (some v) = do try_consume semicolon; pure (some v)

abbrev pub or_record_sections : Option (List RecordSection) → List RecordSection
or_record_sections none = []
or_record_sections (some l) = l

-- `type_denoter` and `fields` are `parseTypeDenoter` and `parseFieldList`.
module _ (type_denoter : Parser TypeDenoter) (fields : Parser FieldList) where
  unfoldable pub parse_array_type : Parser UnpackedStructuredType
  unfolding view_recorder consume parse_separated_list parse_ordinal_type
  parse_array_type = view_recorder do
    consume ws_array
    consume left_bracket
    index_types ← parse_separated_list comma parse_ordinal_type
    consume right_bracket
    consume ws_of
    component_type ← type_denoter
    pure λ view. array_type view index_types component_type

  unfoldable pub parse_record_section : Parser RecordSection
  unfolding view_recorder consume parse_separated_list parse_identifier
  parse_record_section = view_recorder do
    field_names ← parse_separated_list comma parse_identifier
    consume colon
    field_type ← type_denoter
    pure λ view. record_section view field_names field_type

  unfoldable pub parse_variant : Parser Variant
  unfolding view_recorder consume parse_separated_list parse_constant
  parse_variant = view_recorder do
    case_constants ← parse_separated_list comma parse_constant
    consume colon
    consume left_parenthesis
    l ← fields
    consume right_parenthesis
    pure λ view. variant view case_constants l

  unfoldable pub parse_variant_part : Parser VariantPart
  unfolding view_recorder consume try_consume parse_identifier parse_separated_list parse_variant
  parse_variant_part = view_recorder do
    consume ws_case
    id ← parse_identifier
    o ← try_consume colon
    tag ← parse_tag id o
    consume ws_of
    l ← parse_separated_list semicolon parse_variant
    pure λ view. variant_part view tag.0 tag.1 (variants l)

  unfoldable pub variant_part_tail : Parser (Option VariantPart)
  unfolding parse_optional parse_variant_part try_consume
  variant_part_tail = do v ← parse_optional parse_variant_part; skip_semicolon v

  -- What comes after the fixed sections, if these are `fixed` and the next semicolon is `o`.
  unfoldable pub after_fixed : Option (List RecordSection) → Parser (Option VariantPart)
  unfolding variant_part_tail try_consume
  after_fixed none = variant_part_tail
  after_fixed (some _) = do o ← try_consume semicolon; only_if o variant_part_tail

  unfoldable pub field_list_body : Parser FieldList
  unfolding view_recorder try_parse parse_separated_list parse_record_section after_fixed
  field_list_body = view_recorder do
    fixed ← try_parse (parse_separated_list semicolon parse_record_section)
    v ← after_fixed fixed
    pure λ view.
        field_list view (record_sections (or_record_sections fixed)) (optional_variant_part v)

  unfoldable pub parse_record_type : Parser UnpackedStructuredType
  unfolding view_recorder consume
  parse_record_type =
      view_recorder
        do consume ws_record; l ← fields; consume ws_end; pure λ view. record_type view l

  unfoldable pub parse_file_type : Parser UnpackedStructuredType
  unfolding view_recorder consume
  parse_file_type = view_recorder do
    consume ws_file
    consume ws_of
    component_type ← type_denoter
    pure λ view. file_type view component_type

unfoldable pub parse_set_type : Parser UnpackedStructuredType
unfolding view_recorder consume parse_ordinal_type
parse_set_type = view_recorder do
  consume ws_set
  consume ws_of
  base_type ← parse_ordinal_type
  pure λ view. set_type view base_type

unfoldable pub parse_new_pointer_type : Parser TypeDenoter
unfolding view_recorder consume parse_identifier
parse_new_pointer_type =
    view_recorder do
      consume caret
      domain_type ← parse_identifier
      pure λ view. new_pointer_type view domain_type

module _ (type_denoter : Parser TypeDenoter) (fields : Parser FieldList) where
  unfoldable pub parse_new_structured_type : Parser TypeDenoter
  unfolding view_recorder try_consume parse_alternatives parse_array_type parse_record_type
      parse_set_type parse_file_type
  parse_new_structured_type = view_recorder do
    o ← try_consume ws_packed
    unpacked ← parse_alternatives (parse_array_type type_denoter fields) (
        parse_record_type type_denoter fields
        ∷ parse_set_type
        ∷ parse_file_type type_denoter fields
        ∷ [])
    pure λ view. new_structured_type view (is_some o) unpacked

  unfoldable pub type_denoter_body : Parser TypeDenoter
  unfolding parse_alternatives parse_enumerated_type parse_subrange_type parse_new_structured_type
      parse_new_pointer_type parse_identifier
  type_denoter_body =
      parse_alternatives
        (as_base (λ t. ordinal_type (Nodes.enumerated_type t)) parse_enumerated_type)
        (as_base (λ t. ordinal_type (Nodes.subrange_type t)) parse_subrange_type
          ∷ parse_new_structured_type
          ∷ parse_new_pointer_type
          ∷ as_base (λ t. ordinal_type (Nodes.OrdinalType.identifier t)) parse_identifier
          ∷ [])

-- A type denoter or a field list of at most `fuel` levels.
unfoldable mutual
  unfolding type_denoter_body field_list_body

  pub parse_type_denoter : ℕ → Parser TypeDenoter
  parse_type_denoter zero i r = out_of_fuel
  parse_type_denoter (suc fuel) i r =
      type_denoter_body (parse_type_denoter fuel) (parse_field_list fuel) i r

  pub parse_field_list : ℕ → Parser FieldList
  parse_field_list zero i r = out_of_fuel
  parse_field_list (suc fuel) i r =
      field_list_body (parse_type_denoter fuel) (parse_field_list fuel) i r

unfoldable pub parse_type_definition : Parser TypeDenoter → Parser TypeDefinition
unfolding view_recorder consume parse_identifier
parse_type_definition type_denoter = view_recorder do
  name ← parse_identifier
  consume equal
  denoter ← type_denoter
  pure λ view. record { view = view; name = name; denoter = denoter }

unfoldable pub parse_variable_declaration : Parser TypeDenoter → Parser VariableDeclaration
unfolding view_recorder consume parse_separated_list parse_identifier
parse_variable_declaration type_denoter = view_recorder do
  var_names ← parse_separated_list comma parse_identifier
  consume colon
  var_type ← type_denoter
  pure λ view. record { view = view; var_names = var_names; var_type = var_type }
