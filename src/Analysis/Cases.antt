-- ===== src/Analysis/Cases.antt =====
-- src/semantics-analyze.cxx: the constants of a case statement.
pub mod Ordinals
pub mod Distinct
use waspas.Base.{ℕ, true, false, List, [], ◌∷◌, Option, none, some}
use waspas.Base.Integers.{ℤ, equal_ℤ}
use waspas.Parsing.Combinators.{View}
use waspas.Parsing.Nodes
use waspas.Reporting.{type_mismatch, duplicate_case}
use waspas.Semantics.Types.{PascalType, same_type}
use waspas.Semantics.Constants.{Constant, constant_type, ordinal_number}
use waspas.Semantics.Scopes.{Scope}
use waspas.Analysis.{Analysis, pure, ◌>>=◌, ◌>>◌, asserted, report, report_note}
use waspas.Analysis.Constants.{resolve_constant}

-- `used_ordinals`: the ordinals so far, with the locations of their constants.
abbrev pub UsedOrdinals : Type 0
UsedOrdinals = List (ℤ × ℕ)

unfoldable pub find_ordinal : ℤ → UsedOrdinals → Option ℕ
unfolding equal_ℤ
find_ordinal n [] = none
find_ordinal n ((m, location) ∷ used) =
    let rest = find_ordinal n used in elim (equal_ℤ n m) [ true ↦ some location | false ↦ rest ]

unfoldable pub constant_view : Nodes.Constant → View
constant_view (Nodes.Constant.signed_constant sc) = sc.view
constant_view (Nodes.Constant.character_string cs) = cs.view

-- One round of the loop over the constants, for a constant that is resolved: its ordinal, if it is
-- of the type of the case index and new.
unfoldable pub check_ordinal : ℤ → ℕ → UsedOrdinals → Analysis (Option ℤ)
unfolding find_ordinal report report_note
check_ordinal n location used = elim (find_ordinal n used) [
  | none ↦ pure (some n)
  | some previous ↦ do report location duplicate_case []; report_note previous []; pure none
]

unfoldable pub check_case_constant :
    PascalType → ℕ → UsedOrdinals → Option Constant → Analysis (Option ℤ)
unfolding constant_type same_type ordinal_number check_ordinal report
check_case_constant index_type location used none = pure none
check_case_constant index_type location used (some c) =
    elim (same_type (constant_type c) index_type) [
      | false ↦ do report location type_mismatch []; pure none
      | true ↦ do n ← asserted (ordinal_number c); check_ordinal n location used
    ]

-- The constants of one element that are kept, with the ordinals that are used after it.
abbrev pub kept : Option ℤ → Option Constant → List Constant → List Constant
kept (some _) (some c) constants = c ∷ constants
kept _ _ constants = constants

abbrev pub used_with : Option ℤ → ℕ → UsedOrdinals → UsedOrdinals
used_with none location used = used
used_with (some n) location used = (n, location) ∷ used

unfoldable pub resolve_case_constants :
    List Scope
    → PascalType
    → UsedOrdinals
    → List Nodes.Constant
    → Analysis (List Constant × UsedOrdinals)
unfolding resolve_constant check_case_constant constant_view
resolve_case_constants scopes index_type used [] = pure ([], used)
resolve_case_constants scopes index_type used (node ∷ nodes) = do
  c ← resolve_constant scopes node
  n ← check_case_constant index_type (constant_view node).start used c
  rest ←
      resolve_case_constants scopes index_type (used_with n (constant_view node).start used) nodes
  pure (kept n c rest.0, rest.1)
