-- ===== src/Semantics/Types/Relations.antt =====
-- src/semantics-core.ixx, src/semantics-types.ixx and src/semantics.cxx: compatibility, assignment
-- compatibility, conformance and equivalence of types.
use waspas.Base.{ℕ, Bool, true, false, not, ◌&&◌, ◌||◌, ◌==◌, if◌then◌else◌}
use waspas.Base.Integers.{ℤ, less_ℤ, equal_ℤ}
use waspas.Utilities.{Text}
use waspas.Semantics.Types.{
  PascalType, type_boolean, type_char, type_integer, type_real, type_text, type_set_any,
  type_pointer_any, type_enumerated, type_subrange, type_subrange_dynamic, type_array, type_file,
  type_record, type_set, type_set_incomplete, type_pointer, address, same_type, is_ordinal,
  is_ordinal_dynamic, full_range, smallest_ordinal, largest_ordinal, can_be_file_component,
  is_string,
}
pub mod Laws
pub mod Fitting

-- `is_packed_ == other.is_packed_`.
abbrev pub same_flag : Bool → Bool → Bool
same_flag true b = b
same_flag false b = not b

-- What a successful `dynamic_cast` of `other` leads to, and what a failed one.
abbrev pub if_array : {A : Type 0} → PascalType → (PascalType → PascalType → Bool → A) → A → A
if_array (type_array _ index component packed) f d = f index component packed
if_array _ f d = d

abbrev pub if_set : {A : Type 0} → PascalType → (PascalType → Bool → A) → A → A
if_set (type_set _ base packed) f d = f base packed
if_set _ f d = d

abbrev pub if_set_incomplete : {A : Type 0} → PascalType → (PascalType → A) → A → A
if_set_incomplete (type_set_incomplete _ base) f d = f base
if_set_incomplete _ f d = d

abbrev pub if_pointer : {A : Type 0} → PascalType → A → A → A
if_pointer (type_pointer _ _ _) f d = f
if_pointer _ f d = d

abbrev pub if_subrange_dynamic : {A : Type 0} → PascalType → (PascalType → A) → A → A
if_subrange_dynamic (type_subrange_dynamic _ _ _ bound) f d = f bound
if_subrange_dynamic _ f d = d

-- `isCompatibleWith` of an ordinal type.
unfoldable pub ordinal_is_compatible_with : PascalType → PascalType → Bool
unfolding is_ordinal_dynamic same_type full_range
ordinal_is_compatible_with t other =
    if is_ordinal_dynamic other
    then same_type (full_range t) (full_range other)
    else same_type t other

unfoldable pub is_compatible_with : PascalType → PascalType → Bool
unfolding ordinal_is_compatible_with is_string same_type
is_compatible_with (type_array a index component packed) other =
    let identical = same_type (type_array a index component packed) other in
    if is_string index component packed
    then if_array other
        (λ index' component' packed'.
          is_string index' component' packed'
          && equal_ℤ (largest_ordinal index) (largest_ordinal index'))
        identical
    else identical
is_compatible_with (type_set a base packed) other =
    if_set other (λ base' packed'. same_flag packed packed' && is_compatible_with base base')
      (same_type (type_set a base packed) other)
is_compatible_with (type_set_incomplete a base) other =
    if_set_incomplete other (λ base'. is_compatible_with base base')
      (same_type (type_set_incomplete a base) other)
is_compatible_with t other =
    if is_ordinal_dynamic t then ordinal_is_compatible_with t other else same_type t other

-- `Type::isAssignmentCompatibleWith`.
unfoldable pub base_is_assignment_compatible_with : PascalType → PascalType → Bool
unfolding is_compatible_with same_type can_be_file_component
base_is_assignment_compatible_with t other =
    if same_type t other then can_be_file_component t else is_compatible_with t other

unfoldable pub is_assignment_compatible_with : PascalType → PascalType → Bool
unfolding base_is_assignment_compatible_with is_compatible_with same_type
is_assignment_compatible_with type_integer other =
    if same_type other type_real
    then true
    else base_is_assignment_compatible_with type_integer other
is_assignment_compatible_with (type_set_incomplete a base) other =
    if_set other (λ base' packed'. is_compatible_with base base')
      (base_is_assignment_compatible_with (type_set_incomplete a base) other)
is_assignment_compatible_with type_set_any other =
    if_set other (λ base' packed'. true)
      (if_set_incomplete other (λ base'. true)
        (base_is_assignment_compatible_with type_set_any other))
is_assignment_compatible_with type_pointer_any other =
    if_pointer other true (base_is_assignment_compatible_with type_pointer_any other)
is_assignment_compatible_with t other = base_is_assignment_compatible_with t other

-- The check of the bounds of an index type that are known, in `TypeArray::isConformableWith`.
unfoldable pub bounds_fit : PascalType → PascalType → Bool
unfolding is_ordinal smallest_ordinal largest_ordinal less_ℤ
bounds_fit index bound =
    if is_ordinal index
    then not (less_ℤ (smallest_ordinal index) (smallest_ordinal bound))
      && not (less_ℤ (largest_ordinal bound) (largest_ordinal index))
    else true

unfoldable pub is_conformable_with : PascalType → PascalType → Bool
unfolding is_compatible_with bounds_fit same_type
is_conformable_with (type_array a index component packed) other =
    let identical = same_type (type_array a index component packed) other in
    if_array other
      (λ index' component' packed'.
        if_subrange_dynamic index'
          (λ bound.
            is_compatible_with index bound
            && (bounds_fit index bound
                && (same_flag packed packed' && is_conformable_with component component')))
          identical)
      identical
is_conformable_with t other = same_type t other

unfoldable pub is_equivalent : PascalType → PascalType → Bool
unfolding same_type
is_equivalent (type_array a index component packed) other =
    if_array other
      (λ index' component' packed'.
        let identical = same_type (type_array a index component packed) other in
        if_subrange_dynamic index
          (λ bound.
            if_subrange_dynamic index'
              (λ bound'.
                same_type bound bound'
                && (is_equivalent component component' && same_flag packed packed'))
              identical)
          identical)
      false
is_equivalent t other = same_type t other
