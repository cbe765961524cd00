-- ===== src/Semantics/Constants.antt =====
-- src/semantics-constants.ixx: the values of constants and their types.
use waspas.Base.{ℕ, zero, suc, Bool, Option, none, some, length, if◌then◌else◌}
use waspas.Base.Integers.{ℤ, pos, negsuc}
use waspas.Utilities.{Text}
use waspas.Semantics.Types.{
  PascalType, type_boolean, type_char, type_integer, type_real, type_array, type_subrange,
}
use waspas.Lexing.Tokens.{pascal_integer_max}

-- A real is a sign, set by a minus, and the value that was read, as the tree holds it. A string
-- makes its own type: the address is that of the index type, and the array type has the next one.
-- An enumerated constant has its type, its number and its name.
pub data Constant : Type 0 where
  constant_boolean : Bool → Constant
  constant_integer : ℤ → Constant
  constant_real : Bool → ℕ → Constant
  constant_char : ℕ → Constant
  constant_string : ℕ → Text → Constant
  constant_enumerated : PascalType → ℕ → Text → Constant

-- The type that `ConstantString` makes.
unfoldable pub string_type : ℕ → ℕ → PascalType
string_type a size =
    type_array (suc a) (type_subrange a type_integer (pos 1) (pos size)) type_char Bool.true

-- `type()`.
unfoldable pub constant_type : Constant → PascalType
unfolding string_type
constant_type (constant_boolean _) = type_boolean
constant_type (constant_integer _) = type_integer
constant_type (constant_real _ _) = type_real
constant_type (constant_char _) = type_char
constant_type (constant_string a value) = string_type a (length value)
constant_type (constant_enumerated type _ _) = type

-- `ordinalNumber()`, where the constant is a `ConstantOrdinal`.
unfoldable pub ordinal_number : Constant → Option ℤ
ordinal_number (constant_boolean value) = some (if value then pos 1 else pos 0)
ordinal_number (constant_integer value) = some value
ordinal_number (constant_real _ _) = none
ordinal_number (constant_char value) = some (pos value)
ordinal_number (constant_string _ _) = none
ordinal_number (constant_enumerated _ number _) = some (pos number)

-- `-value`.
unfoldable pub negate_ℤ : ℤ → ℤ
negate_ℤ (pos zero) = pos zero
negate_ℤ (pos (suc n)) = negsuc n
negate_ℤ (negsuc n) = pos (suc n)

-- `ConstantInteger::instanceMax`.
unfoldable pub constant_integer_max : Constant
constant_integer_max = constant_integer (pos pascal_integer_max)
