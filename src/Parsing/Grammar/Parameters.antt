-- ===== src/Parsing/Grammar/Parameters.antt =====
-- src/parsing.cxx: formal parameters and the headings of subroutines.
use waspas.Base.{ℕ, zero, suc, true, false, List, [], ◌∷◌}
use waspas.Lexing.Tokens.{
  comma, colon, semicolon, dot_dot, left_bracket, right_bracket, left_parenthesis,
  right_parenthesis, ws_array, ws_function, ws_of, ws_packed, ws_procedure, ws_var,
}
use waspas.Parsing.Reader.{Parser, out_of_fuel, ◌>>=◌, ◌>>◌, pure, try_consume, consume}
use waspas.Parsing.Combinators.{
  view_recorder, as_base, parse_alternatives, parse_separated_list, is_some, list_if,
}
use waspas.Parsing.Nodes.Types.{
  IndexTypeSpecification, FormalParameterTypeOrSchema, type_identifier, conformant_array_schema,
  RegularParameterSection, ProcedureHeading, procedure_heading, FunctionHeading, function_heading,
  FormalParameterSection, regular_parameter_section, procedure_parameter, function_parameter,
  formal_parameters, FunctionIdentification, SubroutineHeading, a_procedure_heading,
  a_function_heading, a_function_identification,
}
use waspas.Parsing.Grammar.Constants.{parse_identifier}

unfoldable pub parse_index_type_specification : Parser IndexTypeSpecification
unfolding view_recorder consume parse_identifier
parse_index_type_specification = view_recorder do
  smallest ← parse_identifier
  consume dot_dot
  largest ← parse_identifier
  consume colon
  bound_type ← parse_identifier
  pure λ view. record {
    view = view;
    smallest = smallest;
    largest = largest;
    bound_type = bound_type;
  }

unfoldable pub parse_packed_conformant_array_schema : Parser FormalParameterTypeOrSchema
unfolding view_recorder consume parse_identifier parse_index_type_specification
parse_packed_conformant_array_schema = view_recorder do
  consume ws_packed
  consume ws_array
  consume left_bracket
  index_type ← parse_index_type_specification
  consume right_bracket
  consume ws_of
  component_type ← parse_identifier
  pure λ view. conformant_array_schema view true (index_type ∷ []) (type_identifier component_type)

-- `schema` is `parseFormalParameterTypeOrSchema`.
unfoldable pub parse_unpacked_conformant_array_schema :
    Parser FormalParameterTypeOrSchema → Parser FormalParameterTypeOrSchema
unfolding view_recorder consume parse_separated_list parse_index_type_specification
parse_unpacked_conformant_array_schema schema = view_recorder do
  consume ws_array
  consume left_bracket
  index_types ← parse_separated_list semicolon parse_index_type_specification
  consume right_bracket
  consume ws_of
  component_type ← schema
  pure λ view. conformant_array_schema view false index_types component_type

unfoldable pub type_or_schema_body :
    Parser FormalParameterTypeOrSchema → Parser FormalParameterTypeOrSchema
unfolding parse_alternatives parse_identifier parse_packed_conformant_array_schema
    parse_unpacked_conformant_array_schema
type_or_schema_body schema =
    parse_alternatives (as_base type_identifier parse_identifier)
      (parse_packed_conformant_array_schema ∷ parse_unpacked_conformant_array_schema schema ∷ [])

unfoldable pub parse_formal_parameter_type_or_schema : ℕ → Parser FormalParameterTypeOrSchema
unfolding type_or_schema_body
parse_formal_parameter_type_or_schema zero i r = out_of_fuel
parse_formal_parameter_type_or_schema (suc fuel) i r =
    type_or_schema_body (parse_formal_parameter_type_or_schema fuel) i r

-- `schema` is `parseFormalParameterTypeOrSchema`, `section` is `parseFormalParameterSection`.
module _ (schema : Parser FormalParameterTypeOrSchema)
    (section : Parser FormalParameterSection) where
  unfoldable pub parse_regular_parameter_section : Parser RegularParameterSection
  unfolding view_recorder try_consume consume parse_separated_list parse_identifier
  parse_regular_parameter_section = view_recorder do
    o ← try_consume ws_var
    parameter_names ← parse_separated_list comma parse_identifier
    consume colon
    parameter_type ← schema
    pure λ view. record {
      view = view;
      is_variable = is_some o;
      parameter_names = parameter_names;
      parameter_type = parameter_type;
    }

  -- The parenthesised parameters of a heading, behind the opening parenthesis.
  unfoldable pub parse_parameters : Parser (List FormalParameterSection)
  unfolding parse_separated_list consume
  parse_parameters = do
    l ← parse_separated_list semicolon section
    consume right_parenthesis
    pure l

  unfoldable pub parse_procedure_heading : Parser ProcedureHeading
  unfolding view_recorder try_consume consume parse_identifier parse_parameters
  parse_procedure_heading = view_recorder do
    consume ws_procedure
    name ← parse_identifier
    o ← try_consume left_parenthesis
    l ← list_if o parse_parameters
    pure λ view. procedure_heading view name (formal_parameters l)

  unfoldable pub parse_function_heading : Parser FunctionHeading
  unfolding view_recorder try_consume consume parse_identifier parse_parameters
  parse_function_heading = view_recorder do
    consume ws_function
    name ← parse_identifier
    o ← try_consume left_parenthesis
    l ← list_if o parse_parameters
    consume colon
    result_type ← parse_identifier
    pure λ view. function_heading view name (formal_parameters l) result_type

  unfoldable pub formal_parameter_section_body : Parser FormalParameterSection
  unfolding parse_alternatives parse_regular_parameter_section parse_procedure_heading
      parse_function_heading
  formal_parameter_section_body =
      parse_alternatives (as_base regular_parameter_section parse_regular_parameter_section) (
        as_base procedure_parameter parse_procedure_heading
        ∷ as_base function_parameter parse_function_heading
        ∷ [])

unfoldable pub parse_formal_parameter_section : ℕ → Parser FormalParameterSection
unfolding formal_parameter_section_body parse_formal_parameter_type_or_schema
parse_formal_parameter_section zero i r = out_of_fuel
parse_formal_parameter_section (suc fuel) i r =
    formal_parameter_section_body (parse_formal_parameter_type_or_schema (suc fuel))
      (parse_formal_parameter_section fuel) i r

unfoldable pub parse_function_identification : Parser FunctionIdentification
unfolding view_recorder consume parse_identifier
parse_function_identification = view_recorder do
  consume ws_function
  name ← parse_identifier
  pure λ view. record { view = view; name = name }

-- The heading of a subroutine declaration.
unfoldable pub parse_subroutine_heading : ℕ → Parser SubroutineHeading
unfolding parse_alternatives parse_procedure_heading parse_function_heading
    parse_function_identification parse_formal_parameter_section
    parse_formal_parameter_type_or_schema
parse_subroutine_heading fuel =
    let schema = parse_formal_parameter_type_or_schema fuel in
    let section = parse_formal_parameter_section fuel in
    parse_alternatives (as_base a_procedure_heading (parse_procedure_heading schema section)) (
      as_base a_function_heading (parse_function_heading schema section)
      ∷ as_base a_function_identification parse_function_identification
      ∷ [])
