-- ===== src/Parsing/Nodes/Statements.antt =====
-- generate-parsing-nodes.py: statements, blocks and the program.
use waspas.Base.{List, [], ◌∷◌, Option, none, some}
use waspas.Parsing.Combinators.{View}
use waspas.Parsing.Nodes.{Identifier, Label, Constant, ConstantDefinition, RangeDirection}
use waspas.Parsing.Nodes.Types.{TypeDefinition, VariableDeclaration, SubroutineHeading}
use waspas.Parsing.Nodes.Expressions.{Expression, VariableAccess, ActualParameters}

mutual
  pub data Statement : Type 0 where
    statement : View → Option Label → UnlabeledStatement → Statement

  pub data UnlabeledStatement : Type 0 where
    assignment_statement : View → VariableAccess → Expression → UnlabeledStatement
    procedure_statement : View → Identifier → ActualParameters → UnlabeledStatement
    goto_statement : View → Label → UnlabeledStatement
    compound_statement : CompoundStatement → UnlabeledStatement
    if_statement : View → Expression → Statement → OptionalStatement → UnlabeledStatement
    case_statement : View → Expression → CaseListElements → UnlabeledStatement
    repeat_statement : View → Statements → Expression → UnlabeledStatement
    while_statement : View → Expression → Statement → UnlabeledStatement
    for_statement :
        View
        → Identifier
        → Expression
        → RangeDirection
        → Expression
        → Statement
        → UnlabeledStatement
    with_statement : View → List VariableAccess → Statement → UnlabeledStatement
    empty_statement : View → UnlabeledStatement

  pub data CompoundStatement : Type 0 where
    compound : View → Statements → CompoundStatement

  pub data Statements : Type 0 where
    no_statements : Statements
    more_statements : Statement → Statements → Statements

  pub data OptionalStatement : Type 0 where
    no_statement : OptionalStatement
    a_statement : Statement → OptionalStatement

  pub data CaseListElement : Type 0 where
    case_list_element : View → List Constant → Statement → CaseListElement

  pub data CaseListElements : Type 0 where
    no_cases : CaseListElements
    more_cases : CaseListElement → CaseListElements → CaseListElements

abbrev pub statements : List Statement → Statements
statements [] = no_statements
statements (x ∷ l) = more_statements x (statements l)

abbrev pub optional_statement : Option Statement → OptionalStatement
optional_statement none = no_statement
optional_statement (some x) = a_statement x

abbrev pub cases : List CaseListElement → CaseListElements
cases [] = no_cases
cases (x ∷ l) = more_cases x (cases l)

mutual
  pub data Block : Type 0 where
    block :
        View
        → List Label
        → List ConstantDefinition
        → List TypeDefinition
        → List VariableDeclaration
        → SubroutineDeclarations
        → CompoundStatement
        → Block

  pub data OptionalBlock : Type 0 where
    no_block : OptionalBlock
    a_block : Block → OptionalBlock

  pub data SubroutineDeclaration : Type 0 where
    subroutine_declaration : View → SubroutineHeading → OptionalBlock → SubroutineDeclaration

  pub data SubroutineDeclarations : Type 0 where
    no_subroutines : SubroutineDeclarations
    more_subroutines : SubroutineDeclaration → SubroutineDeclarations → SubroutineDeclarations

abbrev pub subroutine_declarations : List SubroutineDeclaration → SubroutineDeclarations
subroutine_declarations [] = no_subroutines
subroutine_declarations (x ∷ l) = more_subroutines x (subroutine_declarations l)

pub record Program : Type 0 where
  pub view : View
  pub name : Identifier
  pub parameter_declarations : List Identifier
  pub block : Block
