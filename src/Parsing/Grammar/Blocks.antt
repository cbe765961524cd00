-- ===== src/Parsing/Grammar/Blocks.antt =====
-- src/parsing.cxx: subroutine declarations, blocks and the program, and the function `parse`.
-- `block` is `parseBlock`.
use waspas.Base.{ℕ, zero, suc, List, [], Option, none, some, length}
use waspas.Reporting.{Reporter}
use waspas.Lexing.Tokens.{
  comma, dot, eof, semicolon, left_parenthesis, right_parenthesis, ws_const, ws_label, ws_program,
  ws_type, ws_var, TokenKind,
}
use waspas.Parsing.Reader.{
  Input, Outcome, Parser, ok, thrown, undefined, out_of_fuel, ◌>>=◌, ◌>>◌, pure, try_consume,
  consume, consume_directive_forward, initial_reader, report,
}
use waspas.Parsing.Combinators.{
  view_recorder, try_parse, parse_separated_list, parse_optional, list_if,
}
use waspas.Parsing.Nodes.{Identifier}
use waspas.Parsing.Nodes.Types.{
  SubroutineHeading, a_procedure_heading, a_function_heading, a_function_identification,
}
use waspas.Parsing.Nodes.Statements
use waspas.Parsing.Nodes.Statements.{
  Block, OptionalBlock, no_block, a_block, SubroutineDeclaration, subroutine_declaration,
  subroutine_declarations, Program,
}
use waspas.Parsing.Grammar.Constants.{parse_identifier, parse_label, parse_constant_definition}
use waspas.Parsing.Grammar.Types.{
  parse_type_denoter, parse_type_definition, parse_variable_declaration,
}
use waspas.Parsing.Grammar.Parameters.{parse_subroutine_heading}
use waspas.Parsing.Grammar.Expressions.{parse_factor}
use waspas.Parsing.Grammar.Statements.{parse_statement, parse_compound_statement}

-- A part of a block: behind its keyword, items separated and followed by the given tokens.
unfoldable pub parse_part : {A : Type 0} → TokenKind → TokenKind → Parser A → Parser (List A)
unfolding try_consume parse_separated_list consume
parse_part keyword separator item = do
  o ← try_consume keyword
  list_if o do l ← parse_separated_list separator item; consume semicolon; pure l

-- The semicolon behind the subroutine declarations, if there are any.
unfoldable pub end_subroutines :
    Option (List SubroutineDeclaration) → Parser (List SubroutineDeclaration)
unfolding consume
end_subroutines none = pure []
end_subroutines (some l) = do consume semicolon; pure l

module _ (fuel : ℕ) (block : Parser Block) where
  unfoldable pub block_or_forward : Option Block → Parser OptionalBlock
  unfolding consume_directive_forward
  block_or_forward (some b) = pure (a_block b)
  block_or_forward none = do consume_directive_forward; pure no_block

  -- What comes behind the heading of a subroutine declaration.
  unfoldable pub parse_body : SubroutineHeading → Parser OptionalBlock
  unfolding parse_optional block_or_forward
  parse_body (a_function_identification _) = do b ← block; pure (a_block b)
  parse_body (a_procedure_heading _) = do o ← parse_optional block; block_or_forward o
  parse_body (a_function_heading _) = do o ← parse_optional block; block_or_forward o

  unfoldable pub parse_subroutine_declaration : Parser SubroutineDeclaration
  unfolding view_recorder parse_subroutine_heading consume parse_body
  parse_subroutine_declaration = view_recorder do
    heading ← parse_subroutine_heading fuel
    consume semicolon
    b ← parse_body heading
    pure λ view. subroutine_declaration view heading b

  unfoldable pub block_body : Parser Block
  unfolding view_recorder parse_part parse_label parse_constant_definition parse_type_definition
      parse_variable_declaration parse_type_denoter try_parse parse_separated_list
      parse_subroutine_declaration end_subroutines parse_compound_statement parse_factor
      parse_statement
  block_body = view_recorder do
    labels ← parse_part ws_label comma parse_label
    constants ← parse_part ws_const semicolon parse_constant_definition
    types ← parse_part ws_type semicolon (parse_type_definition (parse_type_denoter fuel))
    variables ← parse_part ws_var semicolon (parse_variable_declaration (parse_type_denoter fuel))
    o ← try_parse (parse_separated_list semicolon parse_subroutine_declaration)
    subroutines ← end_subroutines o
    statement ← parse_compound_statement (parse_factor fuel) (parse_statement fuel)
    pure λ view.
        Statements.block view labels constants types variables (subroutine_declarations subroutines)
          statement

-- A block of at most `fuel` levels.
unfoldable pub parse_block : ℕ → Parser Block
unfolding block_body
parse_block zero i r = out_of_fuel
parse_block (suc fuel) i r = block_body (suc fuel) (parse_block fuel) i r

-- The program parameters, behind the opening parenthesis.
unfoldable pub parse_program_parameters : Parser (List Identifier)
unfolding parse_separated_list parse_identifier consume
parse_program_parameters = do
  l ← parse_separated_list comma parse_identifier
  consume right_parenthesis
  pure l

unfoldable pub parse_program : ℕ → Parser Program
unfolding view_recorder consume parse_identifier try_consume parse_program_parameters parse_block
parse_program fuel = view_recorder do
  consume ws_program
  name ← parse_identifier
  o ← try_consume left_parenthesis
  l ← list_if o parse_program_parameters
  consume semicolon
  b ← parse_block fuel
  consume dot
  pure λ view. record { view = view; name = name; parameter_declarations = l; block = b }

-- The result of `parse`: after an error the caller does not read the program. `faulty` is undefined
-- behaviour, a failed assertion, or fuel that ran out.
pub data Parsed : Type 0 where
  accepted : Program → Reporter → Parsed
  rejected : Reporter → Parsed
  faulty : Parsed

unfoldable pub parse_all : ℕ → Parser Program
unfolding parse_program consume
parse_all fuel = do program ← parse_program fuel; consume eof; pure program

abbrev pub rejected_if : Option Reporter → Parsed
rejected_if none = faulty
rejected_if (some reporter) = rejected reporter

-- What `parse` makes of a run.
abbrev pub decided : Input → Reporter → Outcome Program → Parsed
decided i reporter (ok program _) = accepted program reporter
decided i reporter (thrown e r) = rejected_if (report e i r reporter)
decided i reporter undefined = faulty
decided i reporter out_of_fuel = faulty

unfoldable pub parse : Input → Reporter → Parsed
unfolding parse_all report
parse i reporter = decided i reporter (parse_all (suc (length i.tokens)) i initial_reader)
