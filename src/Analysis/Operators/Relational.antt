-- ===== src/Analysis/Operators/Relational.antt =====
-- src/semantics-analyze.cxx: the type of what a relational operator and a condition resolve to.
use waspas.Base.{
  arith, subst, ◌∙◌, ℕ, ◌≡◌, refl, sym, ap, Bool, true, false, [], List, Option, some,
}
use waspas.Reporting.{ErrorCode}
use waspas.Parsing.Nodes.{RelationalOperator}
use waspas.Parsing.Nodes.Expressions.{Expression}
use waspas.Semantics.Types.{
  PascalType, type_boolean, type_set, type_set_incomplete, type_set_any, same_type, address,
}
use waspas.Semantics.Types.Relations.{is_compatible_with}
use waspas.Semantics.Scopes.{Scope}
use waspas.Semantics.Expressions.{SemExpression, expression_binary, operator_in}
use waspas.Analysis.{Analysis, AnalysisState, ◌>>=◌, ◌>>◌, pure, report}
use waspas.Analysis.Running.{bind-some, asserted-some}
use waspas.Analysis.Access.{type_of_value, Resolver, expression_view}
use waspas.Analysis.Builder.{StatementBuilder}
use waspas.Analysis.Factors.{Builtins}
use waspas.Analysis.Steps.{resolve_condition}
use waspas.Analysis.Values.{value_type}
use waspas.Analysis.Operators.{
  Operand, synchronize_operand_types, is_comparable, relational_operator, relational_error,
  constant_false, in_step, compare_step, relational_step, is_boolean,
}

-- A run that ends with an expression of the type Boolean.
pub data EndsBoolean (scopes : List Scope) : Option (SemExpression × AnalysisState) → Type 0 where
  ends_boolean :
      (e : SemExpression) (s : AnalysisState)
      → value_type s scopes e ≡ some type_boolean
      → EndsBoolean scopes (some (e, s))

recovered :
    (scopes : List Scope) (location : ℕ) (code : ErrorCode) (s : AnalysisState)
    → EndsBoolean scopes (relational_error location code s)
unfolding relational_error report value_type
recovered scopes location code s = ends_boolean _ _ refl

-- The expression of the operator, whatever its operands are.
made :
    (scopes : List Scope) (s : AnalysisState) (op : RelationalOperator) (l r : Operand)
    → value_type s scopes (expression_binary (relational_operator op) l.value r.value)
      ≡ some type_boolean
unfolding value_type relational_operator
made scopes s RelationalOperator.equal l r = refl
made scopes s RelationalOperator.not_equal l r = refl
made scopes s RelationalOperator.less l r = refl
made scopes s RelationalOperator.greater l r = refl
made scopes s RelationalOperator.less_or_equal l r = refl
made scopes s RelationalOperator.greater_or_equal l r = refl
made scopes s RelationalOperator.is_in l r = refl

module _ (scopes : List Scope) (s : AnalysisState) (l r : Operand) where
  compared :
      (op : RelationalOperator) (passes compatible : Bool)
      → EndsBoolean scopes (
          (elim passes as (λ _. Analysis SemExpression) [
            | false ↦ relational_error l.location ErrorCode.type_mismatch
            | true ↦ elim compatible as (λ _. Analysis SemExpression) [
              | false ↦ relational_error r.location ErrorCode.type_mismatch
              | true ↦ pure (expression_binary (relational_operator op) l.value r.value)
            ]
          ])
            s)
  compared op false c = recovered scopes l.location ErrorCode.type_mismatch s
  compared op true false = recovered scopes r.location ErrorCode.type_mismatch s
  compared op true true = ends_boolean _ _ (made scopes s op l r)

  compare_step-EndsBoolean : (op : RelationalOperator) → EndsBoolean scopes (compare_step op l r s)
  unfolding compare_step
  compare_step-EndsBoolean op =
      let types = synchronize_operand_types l.type r.type in
      compared op (is_comparable op types.0) (is_compatible_with types.0 types.1)

  based :
      (same : Bool)
      → EndsBoolean scopes (
          (elim same as (λ _. Analysis SemExpression) [
            | false ↦ relational_error r.location ErrorCode.type_mismatch
            | true ↦ pure (expression_binary operator_in l.value r.value)
          ])
            s)
  unfolding relational_operator
  based false = recovered scopes r.location ErrorCode.type_mismatch s
  based true = ends_boolean _ _ (made scopes s RelationalOperator.is_in l r)

in_step-EndsBoolean :
    (scopes : List Scope) (s : AnalysisState) (l : Operand) (location : ℕ) (value : SemExpression)
    (t : PascalType)
    → EndsBoolean scopes (in_step l (record { location = location; value = value; type = t }) s)
unfolding in_step relational_operator
in_step-EndsBoolean scopes s l location value (type_set a base packed) =
    based scopes s l (record { location = location; value = value; type = type_set a base packed })
      (same_type l.type base)
in_step-EndsBoolean scopes s l location value (type_set_incomplete a base) =
    based scopes s l
      (record { location = location; value = value; type = type_set_incomplete a base })
      (same_type l.type base)
in_step-EndsBoolean scopes s l location value type_set_any =
    based scopes s l (record { location = location; value = value; type = type_set_any }) true
in_step-EndsBoolean scopes s l location value t = recovered scopes location ErrorCode.non_set_type s

-- Whatever the operands of a relational operator are, its analysis ends, with an expression of the
-- type Boolean.
pub relational_step-EndsBoolean :
    (op : RelationalOperator) (scopes : List Scope) (s : AnalysisState) (l r : Operand)
    → EndsBoolean scopes (relational_step op l r s)
unfolding relational_step
relational_step-EndsBoolean RelationalOperator.is_in scopes s l r =
    in_step-EndsBoolean scopes s l r.location r.value r.type
relational_step-EndsBoolean op scopes s l r = compare_step-EndsBoolean scopes s l r op

boolean_is : (t : PascalType) → is_boolean t ≡ true → t ≡ type_boolean
unfolding is_boolean same_type address
boolean_is type_boolean h = refl
boolean_is t h = ground arith

-- The test of a condition whose expression is resolved.
tested :
    (scopes : List Scope) (s : AnalysisState) (e : SemExpression) (location : ℕ) (good : Bool)
    → (good ≡ true → value_type s scopes e ≡ some type_boolean)
    → EndsBoolean scopes (
        (elim good as (λ _. Analysis SemExpression) [
          | true ↦ pure e
          | false ↦ do report location ErrorCode.non_boolean_type []; pure constant_false
        ])
          s)
unfolding report value_type
tested scopes s e location true h = ends_boolean _ _ (h refl)
tested scopes s e location false h = ends_boolean _ _ refl

-- The steps of `resolve_condition` after the expression.
abbrev condition_test : Expression → SemExpression → PascalType → Analysis SemExpression
condition_test node e t = elim (is_boolean t) [
  | true ↦ pure e
  | false ↦ do
    report (expression_view node).start ErrorCode.non_boolean_type []
    pure constant_false
]

abbrev condition_rest : List Scope → Expression → SemExpression → Analysis SemExpression
condition_rest scopes node e = type_of_value scopes e >>= condition_test node e

-- Where the expression of a condition resolves to one with a value type, the condition resolves to
-- an expression of the type Boolean.
pub resolve_condition-EndsBoolean :
    (builtins : Builtins) (resolver : StatementBuilder → Resolver) (builder : StatementBuilder)
    (scopes : List Scope) (node : Expression) (s s' : AnalysisState) (e : SemExpression)
    (t : PascalType)
    → resolver builder scopes node s ≡ some (e, s')
    → value_type s' scopes e ≡ some t
    → EndsBoolean scopes (resolve_condition builtins resolver builder scopes node s)
unfolding resolve_condition
resolve_condition-EndsBoolean builtins resolver builder scopes node s s' e t h k =
    subst (EndsBoolean scopes)
      (sym (
        bind-some (resolver builder scopes node) (condition_rest scopes node) s e s' h
        ∙ bind-some (type_of_value scopes e) (condition_test node e) s' t s'
            (asserted-some (value_type s' scopes e) t s' k)))
      (tested scopes s' e (expression_view node).start (is_boolean t)
        (λ good. k ∙ ap some (boolean_is t good)))
