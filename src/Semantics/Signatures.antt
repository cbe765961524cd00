-- ===== src/Semantics/Signatures.antt =====
-- src/semantics.ixx and src/semantics.cxx: `Signature`, the formal parameters and the result type
-- of a procedure or a function.
use waspas.Base.{ℕ, Bool, true, false, ◌&&◌, List, [], ◌∷◌, ◌++◌, Option, none, some, length, ◌==◌}
use waspas.Utilities.{Text}
use waspas.Semantics.Types.{PascalType, type_subrange_dynamic, type_array, same_type, is_ordinal}
use waspas.Semantics.Types.Relations.{same_flag, is_equivalent}
pub mod Congruity

-- A section is regular, with `is_variable_`, its names and its type, or the name and the signature
-- of a procedure or a function.
mutual
  pub data Signature : Type 0 where
    signature : ParameterSections → Option PascalType → Signature

  pub data ParameterSections : Type 0 where
    no_sections : ParameterSections
    regular_section : Bool → List Text → PascalType → ParameterSections → ParameterSections
    subroutine_section : Text → Signature → ParameterSections → ParameterSections

unfoldable pub parameters : Signature → ParameterSections
parameters (signature sections _) = sections

unfoldable pub result_type : Signature → Option PascalType
result_type (signature _ result) = result

unfoldable pub count_sections : ParameterSections → ℕ
count_sections no_sections = 0
count_sections (regular_section _ _ _ rest) = ℕ.suc (count_sections rest)
count_sections (subroutine_section _ _ rest) = ℕ.suc (count_sections rest)

-- The maps that the constructor fills: `try_emplace` keeps the first entry of a name, which is the
-- one that is found first in these lists.
unfoldable pub names_with : {A : Type 0} → A → List Text → List (Text × A)
names_with a [] = []
names_with a (name ∷ names) = (name, a) ∷ names_with a names

unfoldable pub regular_parameter_types : ParameterSections → List (Text × PascalType)
unfolding names_with
regular_parameter_types no_sections = []
regular_parameter_types (regular_section _ names type rest) =
    names_with type names ++ regular_parameter_types rest
regular_parameter_types (subroutine_section _ _ rest) = regular_parameter_types rest

-- The loop over the types of a conformant array schema.
abbrev pub if_schema : {A : Type 0} → PascalType → (Text → Text → PascalType → A) → A → A
if_schema (type_subrange_dynamic _ smallest largest bound) f d = f smallest largest bound
if_schema _ f d = d

unfoldable pub schema_bounds : PascalType → List (Text × PascalType)
schema_bounds (type_array _ index component _) =
    let inner = schema_bounds component in
    if_schema index (λ smallest largest bound. (smallest, bound) ∷ (largest, bound) ∷ inner) []
schema_bounds _ = []

unfoldable pub bound_types : ParameterSections → List (Text × PascalType)
unfolding schema_bounds
bound_types no_sections = []
bound_types (regular_section _ _ type rest) = schema_bounds type ++ bound_types rest
bound_types (subroutine_section _ _ rest) = bound_types rest

unfoldable pub subroutine_parameter_signatures : ParameterSections → List (Text × Signature)
subroutine_parameter_signatures no_sections = []
subroutine_parameter_signatures (regular_section _ _ _ rest) = subroutine_parameter_signatures rest
subroutine_parameter_signatures (subroutine_section name s rest) =
    (name, s) ∷ subroutine_parameter_signatures rest

-- Equality of two pointers to types, either of which may be null.
unfoldable pub same_result : Option PascalType → Option PascalType → Bool
unfolding same_type
same_result none none = true
same_result none (some _) = false
same_result (some _) none = false
same_result (some t) (some t') = same_type t t'

-- `isCongruousWith`: the two counts are compared first, then the sections one by one.
unfoldable mutual
  pub is_congruous_with : Signature → Signature → Bool
  is_congruous_with (signature sections _) (signature sections' _) =
      count_sections sections == count_sections sections' && sections_match sections sections'

  pub sections_match : ParameterSections → ParameterSections → Bool
  sections_match no_sections _ = true
  sections_match (regular_section _ _ _ _) no_sections = true
  sections_match (regular_section is_variable names type rest)
        (regular_section is_variable' names' type' rest') =
      (same_flag is_variable is_variable'
        && (length names == length names' && is_equivalent type type'))
      && sections_match rest rest'
  sections_match (regular_section _ _ _ _) (subroutine_section _ _ _) = false
  sections_match (subroutine_section _ _ _) no_sections = true
  sections_match (subroutine_section _ _ _) (regular_section _ _ _ _) = false
  sections_match (subroutine_section _ s rest) (subroutine_section _ s' rest') =
      (is_congruous_with s s' && same_result (result_type s) (result_type s'))
      && sections_match rest rest'
