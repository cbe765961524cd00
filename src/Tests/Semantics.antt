-- ===== src/Tests/Semantics.antt =====
-- The theorems on types and scopes at concrete inputs.
use waspas.Base.{ℕ, ◌≡◌, refl, true, [], ◌∷◌, some, codes}
use waspas.Utilities.{cisref_eq}
use waspas.Base.Integers.{pos}
use waspas.Semantics.Types.{
  PascalType, type_char, type_integer, type_real, type_array, type_subrange, can_be_file_component,
}
use waspas.Semantics.Types.Relations.{
  is_compatible_with, is_assignment_compatible_with, is_equivalent,
}
use waspas.Semantics.Types.Relations.Laws.{
  is_compatible_with_refl, is_equivalent_refl, is_assignment_compatible_with-can_be,
}
use Prim.Native.String.{String}
use waspas.Semantics.Scopes.{
  OccurrenceKind, block_region, Scope, find_occurrence, lookup, add, merge_from, contains_shallow,
}
use waspas.Semantics.Scopes.Lookup.{Looked, lookup-Looked}
use waspas.Semantics.Scopes.Adding.{first_of, meaning, meaning-add, meaning-merge_from}

-- packed array [1..5] of char, and integer: types that are assigned.
abbrev string_type : PascalType
string_type = type_array 0 (type_subrange 1 type_integer (pos 1) (pos 5)) type_char true

assigned : is_assignment_compatible_with type_integer type_real ≡ true
unfolding is_assignment_compatible_with
assigned = refl

is_assignment_compatible_with-can_be_example : can_be_file_component type_integer ≡ true
is_assignment_compatible_with-can_be_example =
    is_assignment_compatible_with-can_be type_integer type_real assigned

is_compatible_with_refl_example : is_compatible_with string_type string_type ≡ true
is_compatible_with_refl_example = is_compatible_with_refl string_type

is_equivalent_refl_example : is_equivalent string_type string_type ≡ true
is_equivalent_refl_example = is_equivalent_refl string_type

-- x in a block, and y in the block around it.
abbrev of_name : String → ℕ → Scope
of_name name b = record {
  region = block_region b;
  dos = (codes name, record { location = some b; kind = OccurrenceKind.not_type }) ∷ [];
}

lookup-Looked_example :
    Looked
      (codes "Y")
      0
      (of_name "x" 1 ∷ of_name "y" 0 ∷ [])
      (lookup (codes "Y") (of_name "x" 1 ∷ of_name "y" 0 ∷ []))
lookup-Looked_example = lookup-Looked (codes "Y") (of_name "x" 1 ∷ of_name "y" 0 ∷ [])

-- Y is defined in the scope of x, and hides y.
meaning-add_example :
    meaning
      (codes "y")
      (add (codes "Y") (some 9) OccurrenceKind.a_type (of_name "x" 1) ∷ of_name "y" 0 ∷ [])
    ≡ some (0, record { location = some 9; kind = OccurrenceKind.a_type })
unfolding cisref_eq contains_shallow find_occurrence
meaning-add_example =
    meaning-add (codes "Y") (codes "y") (some 9) OccurrenceKind.a_type (of_name "x" 1)
      (of_name "y" 0 ∷ [])

meaning-merge_from_example :
    meaning (codes "y") (merge_from (of_name "y" 2) (of_name "x" 1) ∷ of_name "y" 0 ∷ [])
    ≡ first_of
        (meaning (codes "y") (of_name "x" 1 ∷ []))
        (meaning (codes "y") (of_name "y" 2 ∷ of_name "y" 0 ∷ []))
meaning-merge_from_example =
    meaning-merge_from (codes "y") (of_name "y" 2) (of_name "x" 1) (of_name "y" 0 ∷ [])
