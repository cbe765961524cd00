-- ===== src/Parsing/Reads/Statements.antt =====
-- src/parsing.cxx: statements end; all but the empty one read at least a token.
use waspas.Base.{ℕ, zero, suc, Option, none, some, arith}
use waspas.Lexing.Tokens.{
  assign, comma, colon, semicolon, left_parenthesis, right_parenthesis, ws_begin, ws_case, ws_do,
  ws_else, ws_end, ws_for, ws_goto, ws_if, ws_of, ws_repeat, ws_then, ws_until, ws_while, ws_with,
  ws_to, ws_downto,
}
use waspas.Parsing.Nodes.{Label}
use waspas.Parsing.Nodes.Expressions.{Factor}
use waspas.Parsing.Nodes.Statements.{Statement, empty_statement}
use waspas.Parsing.Reader.{Parser}
use waspas.Parsing.Reads.{Reads, weaken, pure-Reads, ◌⟫◌, ◌▸◌, ◌▹◌}
use waspas.Parsing.Reads.Reader.{consume-Reads, try_consume-Reads}
use waspas.Parsing.Reads.Loops.{
  view_recorder-Reads, as_base-Reads, parse_alternatives-Reads, parse_separated_list-Reads,
  parse_optional-Reads, parse_enum-Reads, when_some-Reads, list_if-Reads, no_more, also,
  no_more_real, also_real,
}
use waspas.Parsing.Reads.Constants.{parse_identifier-Reads, parse_label-Reads, parse_constant-Reads}
use waspas.Parsing.Reads.Expressions.{
  parse_expression-Reads, parse_variable_access-Reads, parse_actual_parameter-Reads,
  parse_factor-Reads,
}
use waspas.Parsing.Grammar.Statements.{
  colon_if, parse_goto_statement, parse_empty_statement, parse_assignment_statement,
  parse_procedure_parameters, parse_procedure_statement, parse_if_statement,
  parse_case_list_element, parse_case_statement, parse_repeat_statement, parse_while_statement,
  parse_with_statement, parse_for_statement, parse_compound_statement, parse_unlabeled_statement,
  statement_body, parse_statement,
}

module _ {b : ℕ} where
  colon_if-Reads : (label : Option Label) → Reads 0 b (colon_if label)
  colon_if-Reads none = pure-Reads tt
  colon_if-Reads (some _) = consume-Reads colon tt ⟫ λ _. pure-Reads tt

  parse_goto_statement-Reads : Reads 1 b parse_goto_statement
  unfolding parse_goto_statement
  parse_goto_statement-Reads =
      view_recorder-Reads
        (consume-Reads ws_goto tt ▸ λ _. parse_label-Reads ⟫ λ label. pure-Reads _)

  parse_empty_statement-Reads : Reads 0 b parse_empty_statement
  unfolding parse_empty_statement
  parse_empty_statement-Reads = view_recorder-Reads (pure-Reads (λ view. empty_statement view))

module _ {b : ℕ} {factor : Parser Factor} (factor-Reads : Reads 1 b factor) where
  parse_assignment_statement-Reads : Reads 1 b (parse_assignment_statement factor)
  unfolding parse_assignment_statement
  parse_assignment_statement-Reads = view_recorder-Reads (
      parse_variable_access-Reads factor-Reads ▸ λ access.
      consume-Reads assign tt ⟫ λ _. parse_expression-Reads factor-Reads ⟫ λ e. pure-Reads _)

  parse_procedure_parameters-Reads : Reads 1 b (parse_procedure_parameters factor)
  unfolding parse_procedure_parameters
  parse_procedure_parameters-Reads =
      parse_separated_list-Reads comma tt (parse_actual_parameter-Reads factor-Reads) ▸ λ l.
      consume-Reads right_parenthesis tt ⟫ λ _. pure-Reads l

  parse_procedure_statement-Reads : Reads 1 b (parse_procedure_statement factor)
  unfolding parse_procedure_statement
  parse_procedure_statement-Reads = view_recorder-Reads (
      parse_identifier-Reads ▸ λ procedure. try_consume-Reads left_parenthesis tt ⟫ λ o.
      list_if-Reads o parse_procedure_parameters-Reads ⟫ λ l. pure-Reads _)

module _ {b : ℕ} {factor : Parser Factor} {statement : Parser Statement}
    (factor-Reads : Reads 1 (suc b) factor) (statement-Reads : Reads 0 b statement) where
  -- A factor behind the first token of a statement.
  inner-Reads : Reads 1 b factor
  inner-Reads = weaken 1 (suc b) 1 b (omega arith) (omega arith) factor-Reads

  parse_if_statement-Reads : Reads 1 (suc b) (parse_if_statement factor statement)
  unfolding parse_if_statement
  parse_if_statement-Reads = view_recorder-Reads (
      consume-Reads ws_if tt ▹ λ _. parse_expression-Reads inner-Reads ⟫ λ condition.
      consume-Reads ws_then tt ⟫ λ _. statement-Reads ⟫ λ true_branch.
      try_consume-Reads ws_else tt ⟫ λ o.
      when_some-Reads o statement-Reads ⟫ λ false_branch. pure-Reads _)

  parse_case_list_element-Reads : Reads 1 (suc b) (parse_case_list_element factor statement)
  unfolding parse_case_list_element
  parse_case_list_element-Reads = view_recorder-Reads (
      parse_separated_list-Reads comma tt parse_constant-Reads ▹ λ constants.
      consume-Reads colon tt ⟫ λ _. statement-Reads ⟫ λ s. pure-Reads _)

  parse_case_statement-Reads : Reads 1 (suc b) (parse_case_statement factor statement)
  unfolding parse_case_statement
  parse_case_statement-Reads = view_recorder-Reads (
      consume-Reads ws_case tt ▸ λ _. parse_expression-Reads factor-Reads ⟫ λ case_index.
      consume-Reads ws_of tt ⟫ λ _.
      parse_separated_list-Reads semicolon tt parse_case_list_element-Reads ⟫ λ l.
      try_consume-Reads semicolon tt ⟫ λ _. consume-Reads ws_end tt ⟫ λ _. pure-Reads _)

  parse_repeat_statement-Reads : Reads 1 (suc b) (parse_repeat_statement factor statement)
  unfolding parse_repeat_statement
  parse_repeat_statement-Reads = view_recorder-Reads (
      consume-Reads ws_repeat tt ▹ λ _.
      parse_separated_list-Reads semicolon tt statement-Reads ⟫ λ l.
      consume-Reads ws_until tt ⟫ λ _.
      parse_expression-Reads inner-Reads ⟫ λ condition. pure-Reads _)

  parse_while_statement-Reads : Reads 1 (suc b) (parse_while_statement factor statement)
  unfolding parse_while_statement
  parse_while_statement-Reads = view_recorder-Reads (
      consume-Reads ws_while tt ▹ λ _. parse_expression-Reads inner-Reads ⟫ λ condition.
      consume-Reads ws_do tt ⟫ λ _. statement-Reads ⟫ λ body. pure-Reads _)

  parse_with_statement-Reads : Reads 1 (suc b) (parse_with_statement factor statement)
  unfolding parse_with_statement
  parse_with_statement-Reads = view_recorder-Reads (
      consume-Reads ws_with tt ▹ λ _.
      parse_separated_list-Reads comma tt (parse_variable_access-Reads inner-Reads) ⟫ λ variables.
      consume-Reads ws_do tt ⟫ λ _. statement-Reads ⟫ λ body. pure-Reads _)

  parse_for_statement-Reads : Reads 1 (suc b) (parse_for_statement factor statement)
  unfolding parse_for_statement
  parse_for_statement-Reads = view_recorder-Reads (
      consume-Reads ws_for tt ▹ λ _. parse_identifier-Reads ⟫ λ control_variable.
      consume-Reads assign tt ⟫ λ _. parse_expression-Reads inner-Reads ⟫ λ initial_value.
      parse_enum-Reads ws_to _ tt (also_real ws_downto tt no_more_real) ⟫ λ direction.
      parse_expression-Reads inner-Reads ⟫ λ final_value.
      consume-Reads ws_do tt ⟫ λ _. statement-Reads ⟫ λ body. pure-Reads _)

  pub parse_compound_statement-Reads : Reads 1 (suc b) (parse_compound_statement factor statement)
  unfolding parse_compound_statement
  parse_compound_statement-Reads = view_recorder-Reads (
      consume-Reads ws_begin tt ▹ λ _.
      parse_separated_list-Reads semicolon tt statement-Reads ⟫ λ l.
      consume-Reads ws_end tt ⟫ λ _. pure-Reads _)

  parse_unlabeled_statement-Reads : Reads 0 (suc b) (parse_unlabeled_statement factor statement)
  unfolding parse_unlabeled_statement
  parse_unlabeled_statement-Reads =
      parse_alternatives-Reads (less (parse_assignment_statement-Reads factor-Reads)) (
        also (less (parse_procedure_statement-Reads factor-Reads)) (
          also (less parse_goto_statement-Reads) (
            also (less (as_base-Reads _ parse_compound_statement-Reads)) (
              also (less parse_if_statement-Reads) (
                also (less parse_case_statement-Reads) (
                  also (less parse_repeat_statement-Reads) (
                    also (less parse_while_statement-Reads) (
                      also (less parse_for_statement-Reads) (
                        also (less parse_with_statement-Reads)
                          (also parse_empty_statement-Reads no_more))))))))))
    where
      less : {A : Type 0} {p : Parser A} → Reads 1 (suc b) p → Reads 0 (suc b) p
      less h = weaken 1 (suc b) 0 (suc b) (omega arith) (omega arith) h

  statement_body-Reads : Reads 0 (suc b) (statement_body factor statement)
  unfolding statement_body
  statement_body-Reads = view_recorder-Reads (
      parse_optional-Reads parse_label-Reads ⟫ λ label.
      colon_if-Reads label ⟫ λ _. parse_unlabeled_statement-Reads ⟫ λ unlabeled. pure-Reads _)

-- `fuel` levels are enough where fewer than `fuel` tokens are left.
pub parse_statement-Reads : (fuel : ℕ) → Reads 0 fuel (parse_statement fuel)
unfolding parse_statement
parse_statement-Reads zero = record {
  run = λ i r input reader left. absurd (let h = reader.inside in omega arith);
}
parse_statement-Reads (suc fuel) = record {
  run = (statement_body-Reads (parse_factor-Reads (suc fuel)) (parse_statement-Reads fuel)).run;
}
