-- ===== src/Semantics/Types.antt =====
-- src/semantics-types.ixx and src/semantics-core.ixx: the classes of types and the relations
-- between them (with src/semantics.cxx). The program compares types by their addresses: a type
-- that is made at run time carries its address, and the single instances have fixed ones.
use waspas.Base.{
  ℕ, suc, ◌+◌, Bool, true, false, not, ◌&&◌, ◌||◌, List, [], ◌∷◌, Option, ◌==◌, if◌then◌else◌,
}
use waspas.Base.Integers.{ℤ, pos, negsuc, less_ℤ, equal_ℤ}
use waspas.Utilities.{Text}
use waspas.Lexing.Tokens.{pascal_integer_max}
pub mod Relations

-- A field list is an unordered map, given as a list of its entries, with its variant part; a
-- pointer type names its domain type in a block, which is given by its address.
mutual
  pub data PascalType : Type 0 where
    type_boolean type_char type_integer type_real type_text : PascalType
    type_set_any type_pointer_any : PascalType
    type_enumerated : ℕ → ℕ → PascalType
    type_subrange : ℕ → PascalType → ℤ → ℤ → PascalType
    type_subrange_dynamic : ℕ → Text → Text → PascalType → PascalType
    type_array : ℕ → PascalType → PascalType → Bool → PascalType
    type_file : ℕ → PascalType → Bool → PascalType
    type_record : ℕ → FieldDescriptions → VariantFields → Bool → PascalType
    type_set : ℕ → PascalType → Bool → PascalType
    type_set_incomplete : ℕ → PascalType → PascalType
    type_pointer : ℕ → ℕ → Text → PascalType

  -- `field_descriptions_`: name, type, and whether it is the tag field.
  pub data FieldDescriptions : Type 0 where
    no_fields : FieldDescriptions
    more_fields : Text → PascalType → Bool → FieldDescriptions → FieldDescriptions

  -- `variant_part_`: the field lists of its variants, none without a variant part.
  pub data VariantFields : Type 0 where
    no_variants : VariantFields
    more_variants : FieldDescriptions → VariantFields → VariantFields → VariantFields

unfoldable pub address : PascalType → ℕ
address type_boolean = 0
address type_char = 1
address type_integer = 2
address type_real = 3
address type_text = 4
address type_set_any = 5
address type_pointer_any = 6
address (type_enumerated a _) = 7 + a
address (type_subrange a _ _ _) = 7 + a
address (type_subrange_dynamic a _ _ _) = 7 + a
address (type_array a _ _ _) = 7 + a
address (type_file a _ _) = 7 + a
address (type_record a _ _ _) = 7 + a
address (type_set a _ _) = 7 + a
address (type_set_incomplete a _) = 7 + a
address (type_pointer a _ _) = 7 + a

-- `this == &other`.
unfoldable pub same_type : PascalType → PascalType → Bool
unfolding address
same_type t other = address t == address other

-- `dynamic_cast` to `TypeOrdinal` and to `TypeOrdinalDynamic`.
unfoldable pub is_ordinal : PascalType → Bool
is_ordinal type_boolean = true
is_ordinal type_char = true
is_ordinal type_integer = true
is_ordinal (type_enumerated _ _) = true
is_ordinal (type_subrange _ _ _ _) = true
is_ordinal _ = false

unfoldable pub is_ordinal_dynamic : PascalType → Bool
unfolding is_ordinal
is_ordinal_dynamic (type_subrange_dynamic _ _ _ _) = true
is_ordinal_dynamic t = is_ordinal t

unfoldable pub full_range : PascalType → PascalType
full_range (type_subrange _ host _ _) = full_range host
full_range (type_subrange_dynamic _ _ _ bound) = full_range bound
full_range t = t

-- `smallestOrdinal` and `largestOrdinal` of a `TypeOrdinal`.
unfoldable pub smallest_ordinal : PascalType → ℤ
smallest_ordinal type_integer = negsuc 2147483646
smallest_ordinal (type_subrange _ _ smallest _) = smallest
smallest_ordinal _ = pos 0

unfoldable pub largest_ordinal : PascalType → ℤ
largest_ordinal type_boolean = pos 1
largest_ordinal type_char = pos 255
largest_ordinal type_integer = pos pascal_integer_max
largest_ordinal (type_enumerated _ largest) = pos largest
largest_ordinal (type_subrange _ _ _ largest) = largest
largest_ordinal _ = pos 0

unfoldable mutual
  pub can_be_file_component : PascalType → Bool
  can_be_file_component type_text = false
  can_be_file_component (type_file _ _ _) = false
  can_be_file_component (type_array _ _ component _) = can_be_file_component component
  can_be_file_component (type_record _ fields variants _) =
      fields_can_be fields && variants_can_be variants
  can_be_file_component _ = true

  pub fields_can_be : FieldDescriptions → Bool
  fields_can_be no_fields = true
  fields_can_be (more_fields _ t _ rest) = can_be_file_component t && fields_can_be rest

  pub variants_can_be : VariantFields → Bool
  variants_can_be no_variants = true
  variants_can_be (more_variants fields variants rest) =
      (fields_can_be fields && variants_can_be variants) && variants_can_be rest

-- `TypeArray::isString`, from the index type, the component type and the packedness.
unfoldable pub is_string_index : PascalType → Bool
unfolding same_type less_ℤ equal_ℤ
is_string_index (type_subrange _ host smallest largest) =
    same_type host type_integer && (equal_ℤ smallest (pos 1) && less_ℤ (pos 1) largest)
is_string_index _ = false

unfoldable pub is_string : PascalType → PascalType → Bool → Bool
unfolding is_string_index same_type
is_string index component packed =
    packed && (is_string_index index && same_type component type_char)
