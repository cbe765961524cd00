-- ===== src/Parsing/Reads/Blocks.antt =====
-- src/parsing.cxx: blocks and the program read at least a token, and end.
use waspas.Base.{ℕ, zero, suc, List, [], Option, none, some, arith}
use waspas.Lexing.Tokens.{
  TokenKind, comma, dot, semicolon, left_parenthesis, right_parenthesis, ws_const, ws_label,
  ws_program, ws_type, ws_var,
}
use waspas.Parsing.Nodes.Types.{
  SubroutineHeading, a_procedure_heading, a_function_heading, a_function_identification,
}
use waspas.Parsing.Nodes.Statements.{Block, SubroutineDeclaration}
use waspas.Parsing.Reader.{Parser}
use waspas.Parsing.Reads.{Reads, weaken, pure-Reads, ◌⟫◌, ◌▸◌, ◌▹◌}
use waspas.Parsing.Reads.Reader.{
  consume-Reads, try_consume-Reads, consume_directive_forward-Reads, IsReal,
}
use waspas.Parsing.Reads.Loops.{
  view_recorder-Reads, parse_separated_list-Reads, parse_optional-Reads, try_parse-Reads,
  list_if-Reads,
}
use waspas.Parsing.Reads.Constants.{
  parse_identifier-Reads, parse_label-Reads, parse_constant_definition-Reads,
}
use waspas.Parsing.Reads.Types.{
  parse_type_denoter-Reads, parse_type_definition-Reads, parse_variable_declaration-Reads,
}
use waspas.Parsing.Reads.Parameters.{parse_subroutine_heading-Reads}
use waspas.Parsing.Reads.Expressions.{parse_factor-Reads}
use waspas.Parsing.Reads.Statements.{parse_statement-Reads, parse_compound_statement-Reads}
use waspas.Parsing.Grammar.Blocks.{
  parse_part, end_subroutines, block_or_forward, parse_body, parse_subroutine_declaration,
  block_body, parse_block, parse_program_parameters, parse_program,
}

module _ {b : ℕ} where
  parse_part-Reads :
      {A : Type 0} {item : Parser A} (keyword separator : TokenKind)
      → IsReal keyword
      → IsReal separator
      → Reads 1 b item
      → Reads 0 b (parse_part keyword separator item)
  unfolding parse_part
  parse_part-Reads keyword separator real real' h = try_consume-Reads keyword real ⟫ λ o.
      list_if-Reads o (
        parse_separated_list-Reads separator real' h ▸ λ l.
        consume-Reads semicolon tt ⟫ λ _. pure-Reads l)

  end_subroutines-Reads : (o : Option (List SubroutineDeclaration)) → Reads 0 b (end_subroutines o)
  unfolding end_subroutines
  end_subroutines-Reads none = pure-Reads []
  end_subroutines-Reads (some l) = consume-Reads semicolon tt ⟫ λ _. pure-Reads l

  parse_program_parameters-Reads : Reads 1 b parse_program_parameters
  unfolding parse_program_parameters
  parse_program_parameters-Reads = parse_separated_list-Reads comma tt parse_identifier-Reads ▸ λ l.
      consume-Reads right_parenthesis tt ⟫ λ _. pure-Reads l

module _ (fuel : ℕ) {b : ℕ} {block : Parser Block} (block-Reads : Reads 1 b block) where
  block_or_forward-Reads : (o : Option Block) → Reads 0 b (block_or_forward fuel block o)
  unfolding block_or_forward
  block_or_forward-Reads (some x) = pure-Reads _
  block_or_forward-Reads none = consume_directive_forward-Reads ⟫ λ _. pure-Reads _

  parse_body-Reads : (heading : SubroutineHeading) → Reads 0 b (parse_body fuel block heading)
  unfolding parse_body
  parse_body-Reads (a_function_identification _) = block-Reads ⟫ λ x. pure-Reads _
  parse_body-Reads (a_procedure_heading _) =
      parse_optional-Reads block-Reads ⟫ λ o. block_or_forward-Reads o
  parse_body-Reads (a_function_heading _) =
      parse_optional-Reads block-Reads ⟫ λ o. block_or_forward-Reads o

module _ (b : ℕ) {block : Parser Block} (block-Reads : Reads 1 b block) where
  parse_subroutine_declaration-Reads : Reads 1 (suc b) (parse_subroutine_declaration (suc b) block)
  unfolding parse_subroutine_declaration
  parse_subroutine_declaration-Reads = view_recorder-Reads (
      weaken 1 (suc (suc b)) 1 (suc b) (omega arith) (omega arith)
        (parse_subroutine_heading-Reads (suc b))
      ▹ λ heading. consume-Reads semicolon tt ⟫ λ _.
          parse_body-Reads (suc b) block-Reads heading ⟫ λ x. pure-Reads _)

  block_body-Reads : Reads 1 (suc b) (block_body (suc b) block)
  unfolding block_body
  block_body-Reads = view_recorder-Reads (
      parse_part-Reads ws_label comma tt tt parse_label-Reads ⟫ λ labels.
      parse_part-Reads ws_const semicolon tt tt parse_constant_definition-Reads ⟫ λ constants.
      parse_part-Reads ws_type semicolon tt tt
        (parse_type_definition-Reads (parse_type_denoter-Reads (suc b)))
      ⟫ λ types.
          parse_part-Reads ws_var semicolon tt tt
            (parse_variable_declaration-Reads (parse_type_denoter-Reads (suc b)))
          ⟫ λ variables.
              try_parse-Reads
                (parse_separated_list-Reads semicolon tt parse_subroutine_declaration-Reads)
              ⟫ λ o. end_subroutines-Reads o ⟫ λ subroutines.
                  parse_compound_statement-Reads (parse_factor-Reads (suc b)) (
                    weaken 0 (suc b) 0 b (omega arith) (omega arith)
                      (parse_statement-Reads (suc b)))
                  ▸ λ statement. pure-Reads _)

-- `fuel` levels are enough where fewer than `fuel` tokens are left.
parse_block-Reads : (fuel : ℕ) → Reads 1 fuel (parse_block fuel)
unfolding parse_block
parse_block-Reads zero = record {
  run = λ i r input reader left. absurd (let h = reader.inside in omega arith);
}
parse_block-Reads (suc fuel) = record { run = (block_body-Reads fuel (parse_block-Reads fuel)).run }

pub parse_program-Reads : (fuel : ℕ) → Reads 1 fuel (parse_program fuel)
unfolding parse_program
parse_program-Reads fuel = view_recorder-Reads (
    consume-Reads ws_program tt ▸ λ _. parse_identifier-Reads ⟫ λ name.
    try_consume-Reads left_parenthesis tt ⟫ λ o.
    list_if-Reads o parse_program_parameters-Reads ⟫ λ l. consume-Reads semicolon tt ⟫ λ _.
    parse_block-Reads fuel ⟫ λ b. consume-Reads dot tt ⟫ λ _. pure-Reads _)
