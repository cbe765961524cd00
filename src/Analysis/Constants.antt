-- ===== src/Analysis/Constants.antt =====
-- src/semantics-analyze.cxx: `Builder`, which looks up identifiers and resolves constants.
pub mod Lookup
pub mod Ranges
use waspas.Base.{
  ℕ, Bool, true, false, not, List, [], ◌∷◌, Option, none, some, length, ltb, leb, codes,
}
use waspas.Base.Integers.{pos}
use waspas.Utilities.{Text}
use waspas.Lexing.Tokens.{pascal_integer_max}
use waspas.Reporting.{
  text, number, type_mismatch, undefined_identifier, use_before_definition, wrong_identifier_kind,
  circular_definition, too_many_elements,
}
use waspas.Parsing.Nodes.{
  Identifier, Sign, no_sign, plus, minus, SignableConstant, unsigned_integer_constant,
  unsigned_real_constant, identifier, CharacterString,
}
use waspas.Parsing.Nodes
use waspas.Semantics.Constants.{
  Constant, constant_integer, constant_real, constant_char, constant_string, negate_ℤ,
}
use waspas.Semantics.Scopes.{
  Scope, DefiningOccurrence, OccurrenceKind, not_type, a_type, Region, block_region, no_region,
  with_region, lookup,
}
use waspas.Semantics.Blocks.{Block, find_name}
use waspas.Analysis.{Analysis, pure, ◌>>=◌, ◌>>◌, gets, asserted, report, report_note, allocate}

-- `applyFallback` of a constant.
unfoldable pub apply_fallback : Option Constant → Constant
apply_fallback none = constant_integer (pos 0)
apply_fallback (some c) = c

unfoldable pub apply_sign_to_constant : Constant → Sign → ℕ → Analysis Constant
unfolding negate_ℤ report
apply_sign_to_constant c no_sign location = pure c
apply_sign_to_constant (constant_integer value) plus location = pure (constant_integer value)
apply_sign_to_constant (constant_integer value) minus location =
    pure (constant_integer (negate_ℤ value))
apply_sign_to_constant (constant_real negative value) plus location =
    pure (constant_real negative value)
apply_sign_to_constant (constant_real negative value) minus location =
    pure (constant_real (not negative) value)
apply_sign_to_constant c _ location = do report location type_mismatch []; pure c

-- Whether the defining occurrence stands after the applied one; a null location does not.
unfoldable pub is_later : Option ℕ → ℕ → Bool
is_later none applied = false
is_later (some location) applied = ltb applied location

-- The reports of `lookupIdentifier` about an identifier that is not in the map.
unfoldable pub note_definition : Option ℕ → Text → Analysis (Unit {0})
unfolding report_note
note_definition none spelling = pure tt
note_definition (some location) spelling = report_note location (text spelling ∷ [])

unfoldable pub report_misuse : DefiningOccurrence → Identifier → Text → Analysis (Unit {0})
unfolding is_later note_definition report
report_misuse d id kind = elim (is_later d.location id.view.start) [
  | true ↦ do
    report id.view.start use_before_definition (text id.spelling ∷ [])
    note_definition d.location id.spelling
  | false ↦ do
    report id.view.start wrong_identifier_kind (text id.spelling ∷ text kind ∷ [])
    note_definition d.location id.spelling
]

-- What the map of the defining scope's block has; a scope of no block must not define types.
unfoldable pub find_in_region :
    {T : Type 0} → (Block → List (Text × T)) → Region → OccurrenceKind → Text → Analysis (Option T)
unfolding find_name
find_in_region member (block_region b) kind id = gets λ s. find_name id (member (s.blocks b))
find_in_region member no_region not_type id = pure none
find_in_region member no_region a_type id = asserted none
find_in_region member (with_region _) not_type id = pure none
find_in_region member (with_region _) a_type id = asserted none

unfoldable pub lookup_identifier :
    {T : Type 0} → List Scope → Identifier → (Block → List (Text × T)) → Text → Analysis (Option T)
unfolding lookup find_in_region report_misuse report
lookup_identifier scopes id member kind = elim (lookup id.spelling scopes) [
  | none ↦ do
    report id.view.start undefined_identifier (text kind ∷ text id.spelling ∷ [])
    pure none
  | some r ↦ do
    found ← find_in_region member r.scope.region r.defining_occurrence.kind id.spelling
    elim found [
      | none ↦ do report_misuse r.defining_occurrence id kind; pure none
      | some t ↦ pure (some t)
    ]
]

unfoldable pub lookup_constant : List Scope → Identifier → Analysis (Option (Option Constant))
unfolding lookup_identifier
lookup_constant scopes id = lookup_identifier scopes id (λ b. b.constants) (codes "constant")

-- `resolveSignableConstant`; the entry of a constant that is being defined is null.
unfoldable pub defined_constant : Identifier → Option (Option Constant) → Analysis (Option Constant)
unfolding report
defined_constant id none = pure none
defined_constant id (some none) = do
  report id.view.start circular_definition (text id.spelling ∷ [])
  pure none
defined_constant id (some (some c)) = pure (some c)

unfoldable pub resolve_signable_constant :
    List Scope → SignableConstant → Analysis (Option Constant)
unfolding lookup_constant defined_constant
resolve_signable_constant scopes (unsigned_integer_constant u) =
    pure (some (constant_integer (pos u.value)))
resolve_signable_constant scopes (unsigned_real_constant u) =
    pure (some (constant_real false u.value))
resolve_signable_constant scopes (identifier id) = do
  entry ← lookup_constant scopes id
  defined_constant id entry

-- The case of a character string in `resolveConstant`.
unfoldable pub resolve_long_string : CharacterString → Analysis (Option Constant)
unfolding report allocate
resolve_long_string c = elim (leb (length c.value) pascal_integer_max) [
  | true ↦ do a ← allocate 2; pure (some (constant_string a c.value))
  | false ↦ do
    report c.view.start too_many_elements (number (length c.value) ∷ number pascal_integer_max ∷ [])
    pure none
]

unfoldable pub resolve_string : CharacterString → Analysis (Option Constant)
unfolding resolve_long_string
resolve_string c = elim c.value [
  | [] ↦ resolve_long_string c
  | x ∷ more ↦ elim more [ [] ↦ pure (some (constant_char x)) | _ ∷ _ ↦ resolve_long_string c ]
]

unfoldable pub sign_constant : Option Constant → Sign → ℕ → Analysis (Option Constant)
unfolding apply_sign_to_constant
sign_constant none sign location = pure none
sign_constant (some c) sign location = do
  signed ← apply_sign_to_constant c sign location
  pure (some signed)

unfoldable pub resolve_constant : List Scope → Nodes.Constant → Analysis (Option Constant)
unfolding resolve_signable_constant sign_constant resolve_string
resolve_constant scopes (Nodes.Constant.signed_constant sc) = do
  c ← resolve_signable_constant scopes sc.unsigned_value
  sign_constant c sc.sign sc.view.start
resolve_constant scopes (Nodes.Constant.character_string cs) = resolve_string cs
