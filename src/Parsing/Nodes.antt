-- ===== src/Parsing/Nodes.antt =====
-- generate-parsing-nodes.py: the classes of the parse tree (namespace `nodes`). An abstract class is
-- a data type with a constructor for each class derived from it. A class that holds vectors of
-- itself, at some depth, is declared in a block with a type for each such vector.
pub mod Types
pub mod Expressions
pub mod Statements
use waspas.Base.{ℕ, Bool, List, Option}
use waspas.Utilities.{Text}
use waspas.Parsing.Combinators.{View}

pub data AddingOperator : Type 0 where
  plus minus or : AddingOperator

pub data MultiplyingOperator : Type 0 where
  multiply divide_real divide_integer modulo and : MultiplyingOperator

pub data RangeDirection : Type 0 where
  to downto : RangeDirection

pub data RelationalOperator : Type 0 where
  equal not_equal less greater less_or_equal greater_or_equal is_in : RelationalOperator

pub data Sign : Type 0 where
  no_sign plus minus : Sign

pub record Identifier : Type 0 where
  pub view : View
  pub spelling : Text

pub record Label : Type 0 where
  pub view : View
  pub value : ℕ

pub record UnsignedIntegerConstant : Type 0 where
  pub view : View
  pub value : ℕ

pub record UnsignedRealConstant : Type 0 where
  pub view : View
  pub value : ℕ

pub record CharacterString : Type 0 where
  pub view : View
  pub value : Text

pub data SignableConstant : Type 0 where
  unsigned_integer_constant : UnsignedIntegerConstant → SignableConstant
  unsigned_real_constant : UnsignedRealConstant → SignableConstant
  identifier : Identifier → SignableConstant

pub record SignedConstant : Type 0 where
  pub view : View
  pub sign : Sign
  pub unsigned_value : SignableConstant

pub data Constant : Type 0 where
  signed_constant : SignedConstant → Constant
  character_string : CharacterString → Constant

pub record ConstantDefinition : Type 0 where
  pub view : View
  pub name : Identifier
  pub value : Constant

pub record EnumeratedType : Type 0 where
  pub view : View
  pub constants : List Identifier

pub record SubrangeType : Type 0 where
  pub view : View
  pub smallest : Constant
  pub largest : Constant

pub data OrdinalType : Type 0 where
  enumerated_type : EnumeratedType → OrdinalType
  subrange_type : SubrangeType → OrdinalType
  identifier : Identifier → OrdinalType
