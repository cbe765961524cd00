-- ===== src/Semantics/Types/Relations/Laws.antt =====
-- src/semantics-core.ixx, src/semantics-types.ixx and src/semantics.cxx: laws of the relations
-- between types.
use waspas.Base.{◌≡◌, refl, inl, inr, Bool, true, false, Bool-cases, ◌&&◌, if◌then◌else◌, arith}
use waspas.Base.Integers.{ℤ, pos, negsuc, equal_ℤ}
use waspas.Semantics.Types.{
  PascalType, type_integer, type_text, type_subrange, type_subrange_dynamic, type_array, type_file,
  type_record, type_set, type_set_incomplete, same_type, full_range, can_be_file_component,
  is_string, largest_ordinal,
}
use waspas.Semantics.Types.Relations.{
  same_flag, if_subrange_dynamic, ordinal_is_compatible_with, is_compatible_with,
  base_is_assignment_compatible_with, is_assignment_compatible_with, is_equivalent,
}

pub same_type_refl : (t : PascalType) → same_type t t ≡ true
unfolding same_type
same_type_refl t = ground arith

pub same_flag_refl : (b : Bool) → same_flag b b ≡ true
same_flag_refl true = refl
same_flag_refl false = refl

equal_ℤ_refl : (a : ℤ) → equal_ℤ a a ≡ true
unfolding equal_ℤ
equal_ℤ_refl (pos a) = ground arith
equal_ℤ_refl (negsuc a) = ground arith

pub and-true : {a b : Bool} → a ≡ true → b ≡ true → (a && b) ≡ true
and-true h k = rw h k

-- The comparison of the index types of two arrays, for one index type.
indices_refl :
    (index : PascalType) (rest identical : Bool)
    → rest ≡ true
    → identical ≡ true
    → if_subrange_dynamic index
        (λ bound. if_subrange_dynamic index (λ bound'. same_type bound bound' && rest) identical)
        identical
      ≡ true
indices_refl (type_subrange_dynamic _ _ _ bound) rest identical h k =
    and-true (same_type_refl bound) h
indices_refl index rest identical h k = k

-- A type is equivalent to itself, an array type or a schema included.
pub is_equivalent_refl : (t : PascalType) → is_equivalent t t ≡ true
unfolding is_equivalent
is_equivalent_refl (type_array a index component packed) =
    indices_refl index (is_equivalent component component && same_flag packed packed)
      (same_type (type_array a index component packed) (type_array a index component packed))
      (and-true (is_equivalent_refl component) (same_flag_refl packed))
      (same_type_refl (type_array a index component packed))
is_equivalent_refl t = same_type_refl t

string_refl :
    (text identical equal : Bool)
    → identical ≡ true
    → equal ≡ true
    → (if text then text && equal else identical) ≡ true
string_refl true identical equal h k = k
string_refl false identical equal h k = h

-- A type is compatible with itself.
pub is_compatible_with_refl : (t : PascalType) → is_compatible_with t t ≡ true
unfolding is_compatible_with ordinal_is_compatible_with
is_compatible_with_refl (type_array a index component packed) =
    string_refl (is_string index component packed)
      (same_type (type_array a index component packed) (type_array a index component packed))
      (equal_ℤ (largest_ordinal index) (largest_ordinal index))
      (same_type_refl (type_array a index component packed)) (equal_ℤ_refl (largest_ordinal index))
is_compatible_with_refl (type_set a base packed) =
    and-true (same_flag_refl packed) (is_compatible_with_refl base)
is_compatible_with_refl (type_set_incomplete a base) = is_compatible_with_refl base
is_compatible_with_refl (type_subrange a host smallest largest) = same_type_refl (full_range host)
is_compatible_with_refl (type_subrange_dynamic a s l bound) = same_type_refl (full_range bound)
is_compatible_with_refl t = same_type_refl t

-- Where only the address decides, a type that is not the same is not compatible.
base-can_be :
    (t other : PascalType)
    → is_compatible_with t other ≡ same_type t other
    → base_is_assignment_compatible_with t other ≡ true
    → can_be_file_component t ≡ true
unfolding base_is_assignment_compatible_with
base-can_be t other e h = elim (Bool-cases (same_type t other)) [
  | inl same ↦ rw (same, base_is_assignment_compatible_with) at h
  | inr differ ↦ cc (rw (differ, base_is_assignment_compatible_with) at h, e, differ)
]

-- A string has characters for components.
pub string-can_be :
    (index component : PascalType) (packed : Bool)
    → is_string index component packed ≡ true
    → can_be_file_component component ≡ true
unfolding is_string same_type can_be_file_component
string-can_be index type_text packed h = ground arith
string-can_be index (type_file a component p) packed h = ground arith
string-can_be index (type_array a i component p) packed h = ground arith
string-can_be index (type_record a own nested p) packed h = ground arith
string-can_be index component packed h = refl

-- A value can only be assigned if its type is permissible as a file component: no file, nor a
-- structure with a file in it, is ever assignment compatible with anything.
pub is_assignment_compatible_with-can_be :
    (t other : PascalType)
    → is_assignment_compatible_with t other ≡ true
    → can_be_file_component t ≡ true
unfolding is_assignment_compatible_with
is_assignment_compatible_with-can_be (type_array a index component packed) other h =
    elim (Bool-cases (is_string index component packed)) [
      | inl text ↦ string-can_be index component packed text
      | inr plain ↦
          base-can_be (type_array a index component packed) other
            (unfold is_compatible_with in rw plain refl) h
    ]
is_assignment_compatible_with-can_be (type_record a own nested packed) other h =
    base-can_be (type_record a own nested packed) other (unfold is_compatible_with in refl) h
is_assignment_compatible_with-can_be (type_file a component packed) other h =
    base-can_be (type_file a component packed) other (unfold is_compatible_with in refl) h
is_assignment_compatible_with-can_be type_text other h =
    base-can_be type_text other (unfold is_compatible_with in refl) h
is_assignment_compatible_with-can_be t other h = refl

self-base : (t : PascalType) → base_is_assignment_compatible_with t t ≡ can_be_file_component t
unfolding base_is_assignment_compatible_with
self-base t = rw (same_type_refl t, base_is_assignment_compatible_with) refl

-- Between variables of one type an assignment is allowed exactly if the type is permissible as a
-- file component.
pub is_assignment_compatible_with_self :
    (t : PascalType) → is_assignment_compatible_with t t ≡ can_be_file_component t
unfolding is_assignment_compatible_with
is_assignment_compatible_with_self type_integer = unfold same_type in self-base type_integer
is_assignment_compatible_with_self t = self-base t
