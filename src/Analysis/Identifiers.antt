-- ===== src/Analysis/Identifiers.antt =====
-- src/semantics-analyze.cxx: the identifiers that variable accesses begin with.
use waspas.Base.{ℕ, zero, suc, Bool, true, false, List, Option, none, some, ◌==◌}
use waspas.Utilities.{Text}
use waspas.Parsing.Nodes.{Identifier}
use waspas.Semantics.Types.{PascalType}
use waspas.Semantics.Signatures.{Signature, parameters, result_type, regular_parameter_types}
use waspas.Semantics.Scopes.{
  Scope, LookupResult, Region, no_region, block_region, with_region, parent,
}
use waspas.Semantics.Blocks.{Block, find_name, contains_name}
use waspas.Semantics.Expressions.{
  SemAccess, access_activation_result, access_field_designator_id, access_parameter_id,
  access_variable_id,
}
use waspas.Analysis.{Analysis, pure, ◌>>=◌, gets, asserted}
use waspas.Analysis.Values.{with_type_at, first_region, field_type}

-- `hasRegularParameter` of the subroutine around a block, if there is one.
abbrev pub has_regular_parameter : Text → Option Signature → Bool
has_regular_parameter name none = false
has_regular_parameter name (some heading) =
    contains_name name (regular_parameter_types (parameters heading))

-- `hasField` of a type that is a record.
abbrev pub has_field : Text → PascalType → Bool
has_field name t = elim (field_type name t) [ none ↦ false | some _ ↦ true ]

unfoldable pub block_variable : Text → ℕ → Block → Option SemAccess
unfolding contains_name regular_parameter_types parameters
block_variable name index b = elim (contains_name name b.variables) [
  | true ↦ some (access_variable_id name index)
  | false ↦ elim (has_regular_parameter name b.containing_signature) [
    | true ↦ some (access_parameter_id name index)
    | false ↦ none
  ]
]

unfoldable pub with_field : Text → ℕ → PascalType → Option SemAccess
unfolding field_type
with_field name index t = elim (has_field name t) [
  | true ↦ some (access_field_designator_id name index)
  | false ↦ none
]

unfoldable pub resolve_variable_or_fd_identifier :
    List Scope → LookupResult → Identifier → Analysis (Option SemAccess)
unfolding block_variable with_field with_type_at
resolve_variable_or_fd_identifier scopes r id = elim r.scope.region [
  | block_region b ↦ gets λ s. block_variable id.spelling r.scope_index (s.blocks b)
  | with_region w ↦ do
    t ← λ s. asserted (with_type_at s scopes r.scope_index) s
    pure (with_field id.spelling r.scope_index t)
  | no_region ↦ pure none
]

-- Whether the scope below the defining one is that of the block of the function.
abbrev pub is_block_region : ℕ → Option Region → Bool
is_block_region n (some (block_region b)) = b == n
is_block_region n _ = false

unfoldable pub resolve_current_function :
    List Scope → ℕ → Text → Block → Analysis (Option SemAccess)
unfolding find_name parent result_type
resolve_current_function scopes zero name b = pure none
resolve_current_function scopes (suc index) name b = elim (find_name name b.subroutines) [
  | none ↦ pure none
  | some f ↦ elim (result_type f.signature) [
    | none ↦ pure none
    | some _ ↦ do
      around ← asserted (parent index scopes)
      elim (is_block_region f.block (first_region around)) [
        | false ↦ pure none
        | true ↦ pure (some (access_activation_result name (suc index)))
      ]
  ]
]

unfoldable pub resolve_variable_fd_or_current_function_identifier :
    List Scope → LookupResult → Identifier → Analysis (Option SemAccess)
unfolding resolve_variable_or_fd_identifier resolve_current_function
resolve_variable_fd_or_current_function_identifier scopes r id = do
  access ← resolve_variable_or_fd_identifier scopes r id
  elim access [
    | some a ↦ pure (some a)
    | none ↦ elim r.scope.region [
      | block_region b ↦
          λ s. resolve_current_function scopes r.scope_index id.spelling (s.blocks b) s
      | _ ↦ pure none
    ]
  ]
