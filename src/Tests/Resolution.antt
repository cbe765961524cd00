-- ===== src/Tests/Resolution.antt =====
-- The theorems on identifiers, constants and variables of the analysis at concrete inputs.
use waspas.Base.{
  ℕ, ◌≡◌, refl, sym, subst, ◌∙◌, ap, true, false, List, [], ◌∷◌, Option, none, some, codes,
  Bool-cases, inl, inr, arith,
}
use waspas.Utilities.{Text, cisref_eq}
use waspas.Parsing.Nodes.{
  Identifier, Label, Sign, RelationalOperator, no_sign, minus, unsigned_integer_constant,
  identifier, UnsignedIntegerConstant, SignedConstant,
}
use waspas.Parsing.Nodes
use waspas.Semantics.Types.{
  FieldDescriptions, no_fields, more_fields, no_variants, type_integer, type_boolean, type_real,
  is_ordinal, address,
}
use waspas.Semantics.Constants.{Constant}
use waspas.Semantics.Signatures.{
  Signature, signature, no_sections, regular_section, subroutine_section, is_congruous_with,
}
use waspas.Semantics.Signatures.Congruity.{is_congruous_with_refl}
use waspas.Semantics.Scopes.{
  Region, block_region, LookupResult, DefiningOccurrence, OccurrenceKind, find_occurrence, lookup,
  lookup_from,
}
use waspas.Semantics.Blocks.{find_name}
use waspas.Semantics.Expressions.{access_field_designator_id}
use waspas.Analysis.Values.{variable_type}
use waspas.Analysis.Values.{find_field}
use waspas.Analysis.Constants.{resolve_constant, lookup_identifier}
use waspas.Analysis.Constants.Lookup.{IsProper, Looks, lookup_identifier-Looks}
use waspas.Analysis.Constants.Ranges.{
  InRange, Resolves, AreInRange, AreProper, resolve_constant-Resolves,
}
use waspas.Analysis.Cases.{resolve_case_constants}
use waspas.Analysis.Cases.Distinct.{CasesEnd, resolve_case_constants-CasesEnd}
use waspas.Analysis.Steps.{with_scope}
use waspas.Analysis.Steps.Fields.{field_result, with_field-means}
use waspas.Analysis.Identifiers.{resolve_variable_or_fd_identifier}
use waspas.Tests.Samples.{at_offset, named, some_block, block_scope, some_state}

-- A block alone is proper: what is found is found in it.
abbrev region_of : Option LookupResult → Region
region_of none = block_region 0
region_of (some r) = r.scope.region

abbrev ProperRegion : OccurrenceKind → Region → Type 0
ProperRegion kind Region.no_region = kind ≡ OccurrenceKind.not_type
ProperRegion kind (block_region _) = Unit
ProperRegion kind (Region.with_region _) = kind ≡ OccurrenceKind.not_type

found_region :
    (o : Option DefiningOccurrence)
    → region_of (elim o as (λ _. Option LookupResult) [
      | none ↦ none
      | some d ↦ some (record { scope_index = 0; scope = block_scope 0; defining_occurrence = d })
    ])
      ≡ block_region 0
found_region none = refl
found_region (some d) = refl

one_region : (id : Text) → region_of (lookup id (block_scope 0 ∷ [])) ≡ block_region 0
unfolding lookup lookup_from
one_region id = found_region (find_occurrence id (block_scope 0).dos)

IsProper-at : (r : LookupResult) → r.scope.region ≡ block_region 0 → IsProper r
IsProper-at r e = subst (ProperRegion r.defining_occurrence.kind) (sym e) tt

scope-AreProper : AreProper (block_scope 0 ∷ [])
scope-AreProper id r h = IsProper-at r (sym (ap region_of h) ∙ one_region id)

abbrev InRangeEntry : Option (Option Constant) → Type 0
InRangeEntry none = Unit
InRangeEntry (some none) = Unit
InRangeEntry (some (some c)) = InRange c

size-InRangeEntry : (id : Text) → InRangeEntry (find_name id some_block.constants)
unfolding find_name
size-InRangeEntry id = elim (Bool-cases (cisref_eq id (codes "size"))) [
  | inl e ↦ rw e (omega arith)
  | inr e ↦ rw e tt
]

blocks-AreInRange : AreInRange some_state.blocks
blocks-AreInRange b id c h = subst InRangeEntry h (size-InRangeEntry id)

lookup_identifier-Looks_example :
    Looks
      (λ b. b.constants)
      (codes "SIZE")
      some_state
      (lookup_identifier
        (block_scope 0 ∷ [])
        (named "SIZE" 90)
        (λ b. b.constants)
        (codes "constant")
        some_state)
lookup_identifier-Looks_example =
    lookup_identifier-Looks (λ b. b.constants) (named "SIZE" 90) (codes "constant") some_state
      (block_scope 0 ∷ []) (scope-AreProper (codes "SIZE"))

abbrev minus_size : Nodes.Constant
minus_size =
    Nodes.Constant.signed_constant
      (record { view = at_offset 90; sign = minus; unsigned_value = identifier (named "size" 91) })

abbrev constant_node : ℕ → ℕ → Nodes.Constant
constant_node n value = Nodes.Constant.signed_constant (record {
  view = at_offset n;
  sign = no_sign;
  unsigned_value = unsigned_integer_constant (record { view = at_offset n; value = value });
})

resolve_constant-Resolves_example :
    Resolves some_state (resolve_constant (block_scope 0 ∷ []) minus_size some_state)
resolve_constant-Resolves_example =
    resolve_constant-Resolves some_state (block_scope 0 ∷ []) minus_size blocks-AreInRange
      scope-AreProper tt

-- case ... of 1, size, 1: ...
abbrev case_nodes : List Nodes.Constant
case_nodes = constant_node 100 1 ∷ minus_size ∷ constant_node 106 1 ∷ []

resolve_case_constants-CasesEnd_example :
    CasesEnd type_integer [] some_state
      (resolve_case_constants (block_scope 0 ∷ []) type_integer [] case_nodes some_state)
unfolding is_ordinal address
resolve_case_constants-CasesEnd_example =
    resolve_case_constants-CasesEnd (block_scope 0 ∷ []) type_integer case_nodes [] some_state
      (refl, omega arith) scope-AreProper blocks-AreInRange (omega arith, (tt, (omega arith, tt)))
      tt

-- (var a, b: integer; procedure p)
abbrev some_signature : Signature
some_signature =
    signature
      (regular_section true (codes "a" ∷ codes "b" ∷ []) type_integer
        (subroutine_section (codes "p") (signature no_sections none) no_sections))
      (some type_boolean)

is_congruous_with_refl_example : is_congruous_with some_signature some_signature ≡ true
is_congruous_with_refl_example = is_congruous_with_refl some_signature

abbrev record_fields : FieldDescriptions
record_fields = more_fields (codes "x") type_real false no_fields

with_field-means_example :
    (lookup (codes "X") (with_scope 0 record_fields 110 ∷ block_scope 0 ∷ [])
      ≡ some (field_result 0 record_fields 110))
    × (resolve_variable_or_fd_identifier
          (with_scope 0 record_fields 110 ∷ block_scope 0 ∷ [])
          (field_result 0 record_fields 110)
          (named "X" 120)
          some_state
        ≡ some (some (access_field_designator_id (codes "X") 0), some_state))
    × (variable_type some_state
          (with_scope 0 record_fields 110 ∷ block_scope 0 ∷ [])
          (access_field_designator_id (codes "X") 0)
        ≡ some type_real)
unfolding find_field cisref_eq
with_field-means_example =
    with_field-means 0 record_fields 110 (block_scope 0 ∷ []) (named "X" 120) type_real false
      some_state 0 no_variants false refl refl
