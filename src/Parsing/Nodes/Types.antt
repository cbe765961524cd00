-- ===== src/Parsing/Nodes/Types.antt =====
-- generate-parsing-nodes.py: type denoters, and the formal parameters of a subroutine.
use waspas.Base.{Bool, List, [], ◌∷◌, Option, none, some}
use waspas.Parsing.Combinators.{View}
use waspas.Parsing.Nodes.{Identifier, Constant, OrdinalType}

mutual
  pub data TypeDenoter : Type 0 where
    ordinal_type : OrdinalType → TypeDenoter
    new_structured_type : View → Bool → UnpackedStructuredType → TypeDenoter
    new_pointer_type : View → Identifier → TypeDenoter

  pub data UnpackedStructuredType : Type 0 where
    array_type : View → List OrdinalType → TypeDenoter → UnpackedStructuredType
    record_type : View → FieldList → UnpackedStructuredType
    set_type : View → OrdinalType → UnpackedStructuredType
    file_type : View → TypeDenoter → UnpackedStructuredType

  pub data RecordSection : Type 0 where
    record_section : View → List Identifier → TypeDenoter → RecordSection

  pub data RecordSections : Type 0 where
    no_sections : RecordSections
    more_sections : RecordSection → RecordSections → RecordSections

  pub data FieldList : Type 0 where
    field_list : View → RecordSections → OptionalVariantPart → FieldList

  pub data OptionalVariantPart : Type 0 where
    no_variant_part : OptionalVariantPart
    a_variant_part : VariantPart → OptionalVariantPart

  pub data VariantPart : Type 0 where
    variant_part : View → Option Identifier → Identifier → Variants → VariantPart

  pub data Variant : Type 0 where
    variant : View → List Constant → FieldList → Variant

  pub data Variants : Type 0 where
    no_variants : Variants
    more_variants : Variant → Variants → Variants

abbrev pub record_sections : List RecordSection → RecordSections
record_sections [] = no_sections
record_sections (x ∷ l) = more_sections x (record_sections l)

abbrev pub variants : List Variant → Variants
variants [] = no_variants
variants (x ∷ l) = more_variants x (variants l)

abbrev pub optional_variant_part : Option VariantPart → OptionalVariantPart
optional_variant_part none = no_variant_part
optional_variant_part (some x) = a_variant_part x

pub record TypeDefinition : Type 0 where
  pub view : View
  pub name : Identifier
  pub denoter : TypeDenoter

pub record VariableDeclaration : Type 0 where
  pub view : View
  pub var_names : List Identifier
  pub var_type : TypeDenoter

pub record IndexTypeSpecification : Type 0 where
  pub view : View
  pub smallest : Identifier
  pub largest : Identifier
  pub bound_type : Identifier

pub data FormalParameterTypeOrSchema : Type 0 where
  type_identifier : Identifier → FormalParameterTypeOrSchema
  conformant_array_schema :
      View
      → Bool
      → List IndexTypeSpecification
      → FormalParameterTypeOrSchema
      → FormalParameterTypeOrSchema

pub record RegularParameterSection : Type 0 where
  pub view : View
  pub is_variable : Bool
  pub parameter_names : List Identifier
  pub parameter_type : FormalParameterTypeOrSchema

mutual
  pub data ProcedureHeading : Type 0 where
    procedure_heading : View → Identifier → FormalParameters → ProcedureHeading

  pub data FunctionHeading : Type 0 where
    function_heading : View → Identifier → FormalParameters → Identifier → FunctionHeading

  pub data FormalParameterSection : Type 0 where
    regular_parameter_section : RegularParameterSection → FormalParameterSection
    procedure_parameter : ProcedureHeading → FormalParameterSection
    function_parameter : FunctionHeading → FormalParameterSection

  pub data FormalParameters : Type 0 where
    no_parameters : FormalParameters
    more_parameters : FormalParameterSection → FormalParameters → FormalParameters

abbrev pub formal_parameters : List FormalParameterSection → FormalParameters
formal_parameters [] = no_parameters
formal_parameters (x ∷ l) = more_parameters x (formal_parameters l)

pub record FunctionIdentification : Type 0 where
  pub view : View
  pub name : Identifier

pub data SubroutineHeading : Type 0 where
  a_procedure_heading : ProcedureHeading → SubroutineHeading
  a_function_heading : FunctionHeading → SubroutineHeading
  a_function_identification : FunctionIdentification → SubroutineHeading
