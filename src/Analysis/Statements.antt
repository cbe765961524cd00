-- ===== src/Analysis/Statements.antt =====
-- src/semantics-analyze.cxx: statements.
use waspas.Base.{ℕ, true, false, List, [], ◌∷◌, Option, none, some}
use waspas.Reporting.{non_ordinal_type}
use waspas.Parsing.Nodes.{Label}
use waspas.Parsing.Nodes.Expressions.{Expression}
use waspas.Parsing.Nodes.Statements.{
  Statement, statement, UnlabeledStatement, assignment_statement, procedure_statement,
  goto_statement, compound_statement, if_statement, case_statement, repeat_statement,
  while_statement, for_statement, with_statement, empty_statement, compound, Statements,
  no_statements, more_statements, OptionalStatement, no_statement, a_statement, case_list_element,
  CaseListElements, no_cases, more_cases,
}
use waspas.Semantics.Types.{PascalType, is_ordinal}
use waspas.Semantics.Constants.{Constant}
use waspas.Semantics.Scopes.{Scope}
use waspas.Semantics.Statements.{
  SemStatement, SemStatements, SemOptionalStatement, SemCases, statement_case, statement_compound,
  statement_empty, statement_if, statement_labeled, statement_repeat, statement_while,
}
use waspas.Semantics.Statements as Sem
use waspas.Analysis.{Analysis, pure, ◌>>=◌, ◌>>◌, report}
use waspas.Analysis.Values.{value_type}
use waspas.Analysis.Access.{Resolver, type_of_value, expression_view}
use waspas.Analysis.Builder.{StatementBuilder}
use waspas.Analysis.Labels.{with_targets, resolve_goto, prefix_label}
use waspas.Analysis.Cases.{UsedOrdinals, resolve_case_constants}
use waspas.Analysis.Factors.{Builtins}
use waspas.Analysis.Expressions.{resolve_expression}
use waspas.Analysis.Steps.{
  Body, resolve_condition, resolve_assignment, resolve_procedure, resolve_with,
}
use waspas.Analysis.Loops.{resolve_for}

-- The labels of the statements of a sequence.
abbrev pub label_values : Option Label → List ℕ → List ℕ
label_values none labels = labels
label_values (some label) labels = label.value ∷ labels

unfoldable pub statement_labels : Statements → List ℕ
statement_labels no_statements = []
statement_labels (more_statements (statement view label unlabeled) rest) =
    label_values label (statement_labels rest)

-- `StatementLabeled`, if the label was taken.
unfoldable pub label_statement : List ℕ → SemStatement → SemStatement
label_statement [] s = s
label_statement (label ∷ _) s = statement_labeled label s

-- A case without constants is left out; without cases, there is no case statement.
abbrev pub add_case : List Constant → SemStatement → SemCases → SemCases
add_case [] s rest = rest
add_case (c ∷ constants) s rest = Sem.more_cases (c ∷ constants) s rest

unfoldable pub make_case : SemCases → SemStatement
make_case Sem.no_cases = statement_empty
make_case (Sem.more_cases constants s rest) = statement_case (Sem.more_cases constants s rest)

module _ (builtins : Builtins) (resolver : StatementBuilder → Resolver) where
  -- The kinds of statements that hold others, which their arguments resolve.
  unfoldable pub resolve_compound :
      (StatementBuilder → List Scope → Analysis SemStatements) → List ℕ → Body
  unfolding with_targets
  resolve_compound inner labels builder scopes = do
    s ← inner (with_targets labels builder) scopes
    pure (statement_compound s)

  unfoldable pub resolve_if :
      Expression → Body → (StatementBuilder → List Scope → Analysis SemOptionalStatement) → Body
  unfolding resolve_condition
  resolve_if condition on_true on_false builder scopes = do
    c ← resolve_condition builtins resolver builder scopes condition
    s ← on_true builder scopes
    s' ← on_false builder scopes
    pure (statement_if c s s')

  unfoldable pub resolve_case :
      Expression → (PascalType → StatementBuilder → List Scope → Analysis SemCases) → Body
  unfolding value_type is_ordinal make_case report expression_view
  resolve_case case_index elements builder scopes = do
    e ← resolver builder scopes case_index
    t ← type_of_value scopes e
    elim (is_ordinal t) [
      | false ↦ do
        report (expression_view case_index).start non_ordinal_type []
        pure statement_empty
      | true ↦ do kept ← elements t builder scopes; pure (make_case kept)
    ]

  unfoldable pub resolve_repeat :
      (StatementBuilder → List Scope → Analysis SemStatements) → List ℕ → Expression → Body
  unfolding with_targets resolve_condition
  resolve_repeat inner labels condition builder scopes = do
    s ← inner (with_targets labels builder) scopes
    c ← resolve_condition builtins resolver builder scopes condition
    pure (statement_repeat s c)

  unfoldable pub resolve_while : Expression → Body → Body
  unfolding resolve_condition
  resolve_while condition body builder scopes = do
    c ← resolve_condition builtins resolver builder scopes condition
    s ← body builder scopes
    pure (statement_while c s)

  unfoldable mutual
    unfolding prefix_label with_targets label_statement resolve_assignment resolve_procedure
        resolve_goto resolve_compound resolve_if resolve_case resolve_repeat resolve_while
        resolve_for resolve_with statement_labels resolve_case_constants

    pub resolve_statement : Statement → StatementBuilder → List Scope → Analysis SemStatement
    resolve_statement (statement view label unlabeled) builder scopes = do
      targets ← prefix_label scopes label
      s ← resolve_unlabeled_statement unlabeled (with_targets targets builder) scopes
      pure (label_statement targets s)

    pub resolve_unlabeled_statement :
        UnlabeledStatement → StatementBuilder → List Scope → Analysis SemStatement
    resolve_unlabeled_statement (assignment_statement view left right) builder scopes =
        resolve_assignment builtins resolver builder scopes left right
    resolve_unlabeled_statement (procedure_statement view id nodes) builder scopes =
        resolve_procedure builtins resolver builder scopes id nodes
    resolve_unlabeled_statement (goto_statement view label) builder scopes =
        resolve_goto builder scopes label
    resolve_unlabeled_statement (compound_statement (compound view inner)) builder scopes =
        resolve_compound (resolve_statements inner) (statement_labels inner) builder scopes
    resolve_unlabeled_statement (if_statement view condition on_true on_false) builder scopes =
        resolve_if condition (resolve_statement on_true) (resolve_optional_statement on_false)
          builder scopes
    resolve_unlabeled_statement (case_statement view case_index elements) builder scopes =
        resolve_case case_index (λ t. resolve_cases elements t []) builder scopes
    resolve_unlabeled_statement (repeat_statement view inner condition) builder scopes =
        resolve_repeat (resolve_statements inner) (statement_labels inner) condition builder scopes
    resolve_unlabeled_statement (while_statement view condition body) builder scopes =
        resolve_while condition (resolve_statement body) builder scopes
    resolve_unlabeled_statement (for_statement view id initial direction final body) builder
          scopes =
        resolve_for resolver builder scopes id initial direction final (resolve_statement body)
    resolve_unlabeled_statement (with_statement view accesses body) builder scopes =
        resolve_with builtins resolver builder scopes accesses (resolve_statement body)
    resolve_unlabeled_statement (empty_statement view) builder scopes = pure statement_empty

    pub resolve_statements : Statements → StatementBuilder → List Scope → Analysis SemStatements
    resolve_statements no_statements builder scopes = pure Sem.no_statements
    resolve_statements (more_statements s rest) builder scopes = do
      first ← resolve_statement s builder scopes
      others ← resolve_statements rest builder scopes
      pure (Sem.more_statements first others)

    pub resolve_optional_statement :
        OptionalStatement → StatementBuilder → List Scope → Analysis SemOptionalStatement
    resolve_optional_statement no_statement builder scopes = pure Sem.no_statement
    resolve_optional_statement (a_statement s) builder scopes = do
      inner ← resolve_statement s builder scopes
      pure (Sem.a_statement inner)

    pub resolve_cases :
        CaseListElements
        → PascalType
        → UsedOrdinals
        → StatementBuilder
        → List Scope
        → Analysis SemCases
    resolve_cases no_cases t used builder scopes = pure Sem.no_cases
    resolve_cases (more_cases (case_list_element view nodes body) rest) t used builder scopes = do
      constants ← resolve_case_constants scopes t used nodes
      s ← resolve_statement body builder scopes
      others ← resolve_cases rest t constants.1 builder scopes
      pure (add_case constants.0 s others)

-- A statement with the analysis of expressions inside it, on fuel.
unfoldable pub analyze_statement :
    Builtins → ℕ → Statement → StatementBuilder → List Scope → Analysis SemStatement
unfolding resolve_statement resolve_expression
analyze_statement builtins fuel node builder scopes =
    resolve_statement builtins (λ b. resolve_expression builtins b fuel) node builder scopes
