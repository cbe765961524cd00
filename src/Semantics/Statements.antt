-- ===== src/Semantics/Statements.antt =====
-- src/semantics-statements.ixx: the statements that the analysis makes.
use waspas.Base.{ℕ, List}
use waspas.Utilities.{Text}
use waspas.Parsing.Nodes.{RangeDirection}
use waspas.Semantics.Constants.{Constant}
use waspas.Semantics.Expressions.{SemExpression, SemAccess, SubroutineReference, ActualSections}

-- `SemStatement` is `sem::Statement`. A with statement is known by the number of its scope. A
-- statement of src/semantics-builtins.ixx is its operands.
mutual
  pub data SemStatement : Type 0 where
    statement_assignment : SemAccess → SemExpression → SemStatement
    statement_case : SemCases → SemStatement
    statement_compound : SemStatements → SemStatement
    statement_empty : SemStatement
    statement_for :
        Text → SemExpression → RangeDirection → SemExpression → SemStatement → SemStatement
    statement_goto : ℕ → ℕ → SemStatement
    statement_if : SemExpression → SemStatement → SemOptionalStatement → SemStatement
    statement_labeled : ℕ → SemStatement → SemStatement
    statement_procedure : SubroutineReference → ActualSections → SemStatement
    statement_repeat : SemStatements → SemExpression → SemStatement
    statement_while : SemExpression → SemStatement → SemStatement
    statement_with : ℕ → SemAccess → SemStatement → SemStatement
    statement_builtin : ActualSections → SemStatement

  pub data SemStatements : Type 0 where
    no_statements : SemStatements
    more_statements : SemStatement → SemStatements → SemStatements

  pub data SemOptionalStatement : Type 0 where
    no_statement : SemOptionalStatement
    a_statement : SemStatement → SemOptionalStatement

  pub data SemCases : Type 0 where
    no_cases : SemCases
    more_cases : List Constant → SemStatement → SemCases → SemCases
