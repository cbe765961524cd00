-- ===== src/Analysis/Factors.antt =====
-- src/semantics-analyze.cxx: the factors of expressions. The functions of
-- src/semantics-builtins.ixx are called through pointers, which the blocks hold: here, through
-- `Builtins`, by name.
use waspas.Base.{ℕ, true, false, List, [], Option, none, some}
use mathlib.Core.Option
use waspas.Base.Integers.{pos}
use waspas.Utilities.{Text}
use waspas.Reporting.{non_ordinal_type, type_mismatch}
use waspas.Parsing.Nodes.{Identifier}
use waspas.Parsing.Nodes.Expressions.{
  Expression, OptionalExpression, no_expression, an_expression, member_designator,
  MemberDesignators, no_members, more_members, actual_parameter, ActualParameters,
  no_actual_parameters, more_actual_parameters,
}
use waspas.Semantics.Types.{PascalType, type_set_incomplete, same_type, is_ordinal}
use waspas.Semantics.Constants.{Constant, constant_integer}
use waspas.Semantics.Signatures.{
  Signature, parameters, result_type, bound_types, subroutine_parameter_signatures,
}
use waspas.Semantics.Scopes.{Scope, LookupResult, block_region}
use waspas.Semantics.Blocks.{Block, find_name, contains_name}
use waspas.Semantics.Expressions.{
  SemExpression, SemMembers, single_member, member_range, ReferenceKind, SubroutineReference,
  regular, parameter, expression_bound, expression_constant, expression_function_designator,
  expression_nil, expression_not, expression_set_constructor, expression_access,
}
use waspas.Semantics.Expressions
use waspas.Semantics.Statements.{SemStatement}
use waspas.Analysis.{Analysis, pure, ◌>>=◌, ◌>>◌, asserted, report, allocate}
use waspas.Analysis.Values.{value_type}
use waspas.Analysis.Identifiers.{resolve_variable_or_fd_identifier}
use waspas.Analysis.Access.{Resolver, type_of_value, expression_view}
use waspas.Analysis.Builder.{StatementBuilder}
use waspas.Analysis.Subroutines.{is_function}
use waspas.Analysis.Sections.{resolve_actual_parameters}

pub record Builtins : Type 0 where
  pub function :
      StatementBuilder
      → Resolver
      → Text
      → List Scope
      → ActualParameters
      → ℕ
      → Analysis SemExpression
  pub procedure :
      StatementBuilder → Resolver → Text → List Scope → ActualParameters → ℕ → Analysis SemStatement

abbrev pub fallback_expression : SemExpression
fallback_expression = expression_constant (constant_integer (pos 0))

-- The end of the last actual parameter, of which there is at least one.
unfoldable pub parameters_end : ActualParameters → ℕ → ℕ
parameters_end no_actual_parameters finish = finish
parameters_end (more_actual_parameters (actual_parameter view _ _) rest) finish =
    parameters_end rest view.finish

-- `[]`, and what an error in a set constructor leaves.
abbrev pub empty_set : SemExpression
empty_set = expression_set_constructor Expressions.no_members none

module _ (builtins : Builtins) (builder : StatementBuilder) (resolve_expression : Resolver) where
  -- A call of a function without actual parameters, if it is one.
  unfoldable pub call_function :
      List Scope → SubroutineReference → Signature → ℕ → Analysis (Option SemExpression)
  unfolding resolve_actual_parameters result_type
  call_function scopes reference formal end_location = elim (is_function formal) [
    | false ↦ pure none
    | true ↦ do
      actuals ←
          resolve_actual_parameters builder resolve_expression scopes formal no_actual_parameters
            end_location
      pure (some (expression_function_designator reference actuals))
  ]

  abbrev pub reference_to : Text → ℕ → ReferenceKind → SubroutineReference
  reference_to id index kind = record { id = id; scope_index = index; kind = kind }

  unfoldable pub block_subroutine :
      List Scope → Text → ℕ → ℕ → Block → Analysis (Option SemExpression)
  unfolding call_function find_name
  block_subroutine scopes name index end_location b = elim (find_name name b.subroutines) [
    | some f ↦ call_function scopes (reference_to name index regular) f.signature end_location
    | none ↦ elim (find_name name b.builtin_functions) [
      | none ↦ pure none
      | some function ↦ do
        e ←
            builtins.function builder resolve_expression function scopes no_actual_parameters
              end_location
        pure (some e)
    ]
  ]

  unfoldable pub container_identifier :
      List Scope → Text → ℕ → ℕ → Block → Option Signature → Analysis (Option SemExpression)
  unfolding block_subroutine call_function contains_name find_name bound_types
      subroutine_parameter_signatures parameters
  container_identifier scopes name index end_location b none =
      block_subroutine scopes name index end_location b
  container_identifier scopes name index end_location b (some container) =
      elim (contains_name name (bound_types (parameters container))) [
        | true ↦ pure (some (expression_bound name index))
        | false ↦ elim (find_name name (subroutine_parameter_signatures (parameters container))) [
          | some s ↦ call_function scopes (reference_to name index parameter) s end_location
          | none ↦ block_subroutine scopes name index end_location b
        ]
      ]

  -- A constant of the block; the null entry of one that is being defined has no value.
  abbrev pub constant_expression : Option Constant → Analysis (Option SemExpression)
  constant_expression none = asserted none
  constant_expression (some c) = pure (some (expression_constant c))

  unfoldable pub block_identifier :
      List Scope → Text → ℕ → ℕ → Block → Analysis (Option SemExpression)
  unfolding container_identifier find_name
  block_identifier scopes name index end_location b = elim (find_name name b.constants) [
    | some c ↦ constant_expression c
    | none ↦ container_identifier scopes name index end_location b b.containing_signature
  ]

  -- `resolveVariableFdConstantBoundOrFunctionIdentifier`.
  unfoldable pub resolve_factor_identifier :
      List Scope → LookupResult → Identifier → Analysis (Option SemExpression)
  unfolding resolve_variable_or_fd_identifier block_identifier
  resolve_factor_identifier scopes r id = do
    access ← resolve_variable_or_fd_identifier scopes r id
    elim access [
      | some a ↦ pure (some (expression_access a))
      | none ↦ elim r.scope.region [
        | block_region b ↦
            λ s. block_identifier scopes id.spelling r.scope_index id.view.finish (s.blocks b) s
        | _ ↦ pure none
      ]
    ]

  -- A bound of a member after the first: its type is to be that of the first.
  unfoldable pub resolve_member_bound :
      List Scope → PascalType → Expression → Analysis (Option SemExpression)
  unfolding value_type same_type report expression_view
  resolve_member_bound scopes first node = do
    e ← resolve_expression scopes node
    t ← type_of_value scopes e
    elim (same_type t first) [
      | true ↦ pure (some e)
      | false ↦ do report (expression_view node).start type_mismatch []; pure none
    ]

  -- The rest of a member, whose smallest value is resolved.
  unfoldable pub resolve_member_range :
      List Scope
      → PascalType
      → SemExpression
      → OptionalExpression
      → Analysis (Option (SemMembers → SemMembers))
  unfolding resolve_member_bound
  resolve_member_range scopes first smallest no_expression = pure (some (single_member smallest))
  resolve_member_range scopes first smallest (an_expression node) = do
    largest ← resolve_member_bound scopes first node
    pure (Option.map (λ e rest. member_range smallest e rest) largest)

  unfoldable pub resolve_members :
      List Scope → PascalType → MemberDesignators → Analysis (Option SemMembers)
  unfolding resolve_member_bound resolve_member_range
  resolve_members scopes first no_members = pure (some Expressions.no_members)
  resolve_members scopes first (more_members (member_designator view smallest largest) rest) = do
    s ← resolve_member_bound scopes first smallest
    elim s [
      | none ↦ pure none
      | some e ↦ do
        m ← resolve_member_range scopes first e largest
        elim m [
          | none ↦ pure none
          | some member ↦ do
            others ← resolve_members scopes first rest
            pure (Option.map member others)
        ]
    ]

  unfoldable pub make_set : PascalType → Option SemMembers → Analysis SemExpression
  unfolding allocate
  make_set first none = pure empty_set
  make_set first (some designators) = do
    a ← allocate 1
    pure (expression_set_constructor designators (some (type_set_incomplete a first)))

  -- The first member decides the base type of the set, which is to be ordinal.
  unfoldable pub resolve_set_constructor : List Scope → MemberDesignators → Analysis SemExpression
  unfolding resolve_member_range resolve_members make_set value_type is_ordinal report
      expression_view
  resolve_set_constructor scopes no_members = pure empty_set
  resolve_set_constructor scopes (more_members (member_designator view smallest largest) rest) = do
    e ← resolve_expression scopes smallest
    first ← type_of_value scopes e
    elim (is_ordinal first) [
      | false ↦ do report (expression_view smallest).start non_ordinal_type []; pure empty_set
      | true ↦ do
        m ← resolve_member_range scopes first e largest
        elim m [
          | none ↦ pure empty_set
          | some member ↦ do
            others ← resolve_members scopes first rest
            make_set first (Option.map member others)
        ]
    ]
