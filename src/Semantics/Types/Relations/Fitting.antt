-- ===== src/Semantics/Types/Relations/Fitting.antt =====
-- src/semantics-core.ixx, src/semantics-types.ixx and src/semantics.cxx: how assignment
-- compatibility and compatibility stand to each other.
use waspas.Base.{ℕ, subst, ◌∙◌, ◌≡◌, refl, inl, inr, Bool, true, false, Bool-cases}
use waspas.Semantics.Types.{
  PascalType, type_integer, type_real, type_set, type_set_incomplete, type_set_any,
  type_pointer_any, type_pointer, same_type, can_be_file_component,
}
use waspas.Semantics.Types.Relations.Laws.{is_assignment_compatible_with_self}
use waspas.Semantics.Types.Relations.{
  is_compatible_with, base_is_assignment_compatible_with, is_assignment_compatible_with,
}

-- The comparison of `Type` itself lets every type through that is compatible and another one.
base-of_compatible :
    (t other : PascalType)
    → same_type t other ≡ false
    → is_compatible_with t other ≡ true
    → base_is_assignment_compatible_with t other ≡ true
unfolding base_is_assignment_compatible_with
base-of_compatible t other h k = rw h k

incomplete-set :
    (a b : ℕ) (base base' : PascalType) (packed : Bool)
    → is_compatible_with (type_set_incomplete a base) (type_set b base' packed)
      ≡ same_type (type_set_incomplete a base) (type_set b base' packed)
unfolding is_compatible_with
incomplete-set a b base base' packed = refl

-- A type that is compatible with another one is assignment compatible with it.
pub assignable-of_compatible :
    (t other : PascalType)
    → same_type t other ≡ false
    → is_compatible_with t other ≡ true
    → is_assignment_compatible_with t other ≡ true
unfolding is_assignment_compatible_with
assignable-of_compatible type_integer other h k = elim (Bool-cases (same_type other type_real)) [
  | inl e ↦ rw e refl
  | inr e ↦ rw e (base-of_compatible type_integer other h k)
]
assignable-of_compatible (type_set_incomplete a base) (type_set b base' packed) h k =
    cc (h, k, incomplete-set a b base base' packed)
assignable-of_compatible (type_set_incomplete a base) other h k =
    base-of_compatible (type_set_incomplete a base) other h k
assignable-of_compatible type_set_any (type_set b base packed) h k = refl
assignable-of_compatible type_set_any (type_set_incomplete b base) h k = refl
assignable-of_compatible type_set_any other h k = base-of_compatible type_set_any other h k
assignable-of_compatible type_pointer_any (type_pointer b block name) h k = refl
assignable-of_compatible type_pointer_any other h k = base-of_compatible type_pointer_any other h k
assignable-of_compatible t other h k = base-of_compatible t other h k

-- Two types are one object if their addresses are the same.
abbrev pub IsCoherent : PascalType → PascalType → Type 0
IsCoherent t other = same_type t other ≡ true → t ≡ other

-- Among types that may be assigned at all, compatibility is no wider than assignment compatibility.
pub assignable-of_can_be :
    (t other : PascalType)
    → IsCoherent t other
    → can_be_file_component t ≡ true
    → is_compatible_with t other ≡ true
    → is_assignment_compatible_with t other ≡ true
assignable-of_can_be t other one c k = elim (Bool-cases (same_type t other)) [
  | inl same ↦
      subst (λ x. is_assignment_compatible_with t x ≡ true) (one same)
        (is_assignment_compatible_with_self t ∙ c)
  | inr differ ↦ assignable-of_compatible t other differ k
]
