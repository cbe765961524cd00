-- ===== src/Analysis/Constants/Ranges.antt =====
-- src/semantics-analyze.cxx: a constant that is resolved has a value that Pascal allows.
use waspas.Base.{
  ℕ, zero, suc, ◌≤◌, ◌≡◌, refl, List, [], ◌∷◌, Option, none, some, codes, leb, length, Bool-cases,
  inl, inr,
}
use waspas.Base.Integers.{ℤ, pos, negsuc}
use waspas.Utilities.{Text}
use waspas.Lexing.Tokens.{pascal_integer_max}
use waspas.Reporting.{text, number, circular_definition, too_many_elements}
use waspas.Parsing.Nodes.{
  Identifier, Sign, no_sign, plus, minus, SignableConstant, unsigned_integer_constant,
  unsigned_real_constant, identifier, CharacterString,
}
use waspas.Parsing.Nodes
use waspas.Semantics.Constants.{Constant, constant_integer, constant_real, constant_char, negate_ℤ}
use waspas.Semantics.Scopes.{Scope, LookupResult, lookup}
use waspas.Semantics.Blocks.{Block, find_name}
use waspas.Analysis.{Analysis, AnalysisState, pure, report, allocate}
use waspas.Analysis.Constants.{
  apply_sign_to_constant, lookup_constant, defined_constant, resolve_signable_constant,
  resolve_long_string, resolve_string, sign_constant, resolve_constant,
}
use waspas.Analysis.Constants.Lookup.{
  IsReported, err-IsReported, IsProper, Looks, finds, fails, lookup_identifier-Looks,
}

-- From `-maxint` to `maxint`.
abbrev pub InRange : Constant → Type 0
InRange (constant_integer (pos n)) = n ≤ pascal_integer_max
InRange (constant_integer (negsuc n)) = suc n ≤ pascal_integer_max
InRange _ = Unit

negate-InRange : (z : ℤ) → InRange (constant_integer z) → InRange (constant_integer (negate_ℤ z))
unfolding negate_ℤ
negate-InRange (pos zero) h = h
negate-InRange (pos (suc n)) h = h
negate-InRange (negsuc n) h = h

-- How the analysis of a constant ends: the blocks stay as they are.
pub data Resolves (s : AnalysisState) : Option (Option Constant × AnalysisState) → Type 0 where
  resolves :
      (c : Constant) (s' : AnalysisState)
      → InRange c
      → s'.blocks ≡ s.blocks
      → Resolves s (some (some c, s'))
  rejects :
      (s' : AnalysisState)
      → IsReported s'.reporter
      → s'.blocks ≡ s.blocks
      → Resolves s (some (none, s'))

-- What the parser, and the definitions so far, give.
abbrev pub IsRead : Nodes.Constant → Type 0
IsRead (Nodes.Constant.signed_constant sc) = elim sc.unsigned_value [
  | unsigned_integer_constant u ↦ u.value ≤ pascal_integer_max
  | _ ↦ Unit
]
IsRead (Nodes.Constant.character_string _) = Unit

abbrev pub AreInRange : (ℕ → Block) → Type 0
AreInRange blocks =
    (b : ℕ) (id : Text) (c : Constant)
    → find_name id (blocks b).constants ≡ some (some c)
    → InRange c

abbrev pub AreProper : List Scope → Type 0
AreProper scopes = (id : Text) (r : LookupResult) → lookup id scopes ≡ some r → IsProper r

sign-Resolves :
    (s s' : AnalysisState) (location : ℕ) (c : Constant) (sign : Sign)
    → InRange c
    → s'.blocks ≡ s.blocks
    → Resolves s (sign_constant (some c) sign location s')
unfolding sign_constant apply_sign_to_constant report
sign-Resolves s s' location c no_sign h e = resolves c s' h e
sign-Resolves s s' location (constant_integer z) plus h e = resolves (constant_integer z) s' h e
sign-Resolves s s' location (constant_integer z) minus h e =
    resolves (constant_integer (negate_ℤ z)) s' (negate-InRange z h) e
sign-Resolves s s' location (constant_real negative value) plus h e = resolves _ _ tt e
sign-Resolves s s' location (constant_real negative value) minus h e = resolves _ _ tt e
sign-Resolves s s' location c sign h e = resolves c _ h e

signed :
    (s : AnalysisState) (sign : Sign) (location : ℕ) (o : Option (Option Constant × AnalysisState))
    → Resolves s o
    → Resolves s (elim o as (λ _. Option (Option Constant × AnalysisState)) [
      | none ↦ none
      | some (c, s') ↦ sign_constant c sign location s'
    ])
unfolding sign_constant
signed s sign location none r = elim r [ ]
signed s sign location (some (some c, s')) (resolves _ _ h e) =
    sign-Resolves s s' location c sign h e
signed s sign location (some (none, s')) (rejects _ h e) = rejects s' h e

defined :
    (s : AnalysisState) (id : Identifier)
    → AreInRange s.blocks
    → (o : Option (Option (Option Constant) × AnalysisState))
    → Looks (λ b. b.constants) id.spelling s o
    → Resolves s (elim o as (λ _. Option (Option Constant × AnalysisState)) [
      | none ↦ none
      | some (entry, s') ↦ defined_constant id entry s'
    ])
unfolding defined_constant report
defined s id known none r = elim r [ ]
defined s id known (some (some (some c), s')) (finds b _ h) =
    resolves c s' (known b id.spelling c h) refl
defined s id known (some (some none, s')) (finds b _ h) =
    rejects _ (err-IsReported id.view.start circular_definition (text id.spelling ∷ []) s.reporter)
      refl
defined s id known (some (none, s')) (fails r h) = rejects _ h refl

signable-Resolves :
    (s : AnalysisState) (scopes : List Scope) (node : SignableConstant)
    → AreInRange s.blocks
    → AreProper scopes
    → (elim node as (λ _. Type 0) [
      | unsigned_integer_constant u ↦ u.value ≤ pascal_integer_max
      | _ ↦ Unit
    ])
    → Resolves s (resolve_signable_constant scopes node s)
unfolding resolve_signable_constant lookup_constant
signable-Resolves s scopes (unsigned_integer_constant u) known proper h = resolves _ s h refl
signable-Resolves s scopes (unsigned_real_constant u) known proper h = resolves _ s tt refl
signable-Resolves s scopes (identifier id) known proper h =
    defined s id known _ (
      lookup_identifier-Looks (λ b. b.constants) id (codes "constant") s scopes
        (proper id.spelling))

long_string-Resolves :
    (s : AnalysisState) (c : CharacterString) → Resolves s (resolve_long_string c s)
unfolding resolve_long_string allocate report
long_string-Resolves s c = elim (Bool-cases (leb (length c.value) pascal_integer_max)) [
  | inl e ↦ rw (e, resolve_long_string) (resolves _ _ tt refl)
  | inr e ↦
      rw (e, resolve_long_string)
        (rejects _
          (err-IsReported c.view.start too_many_elements
            (number (length c.value) ∷ number pascal_integer_max ∷ []) s.reporter)
          refl)
]

string-Resolves :
    (s : AnalysisState) (c : CharacterString) (value : Text)
    → Resolves s (
        (elim value as (λ _. Analysis (Option Constant)) [
          | [] ↦ resolve_long_string c
          | x ∷ more ↦ elim more [
            | [] ↦ pure (some (constant_char x))
            | _ ∷ _ ↦ resolve_long_string c
          ]
        ])
          s)
string-Resolves s c [] = long_string-Resolves s c
string-Resolves s c (x ∷ []) = resolves _ s tt refl
string-Resolves s c (x ∷ y ∷ more) = long_string-Resolves s c

-- The analysis of a constant always ends, and leaves the blocks as they are: with a constant, whose
-- value, if it is an integer, is from -maxint to maxint, or without one, after reporting an error.
-- An integer that is read is at most maxint, the constants that the blocks have are in that
-- range, and only scopes of blocks define types.
pub resolve_constant-Resolves :
    (s : AnalysisState) (scopes : List Scope) (node : Nodes.Constant)
    → AreInRange s.blocks
    → AreProper scopes
    → IsRead node
    → Resolves s (resolve_constant scopes node s)
unfolding resolve_constant resolve_string
resolve_constant-Resolves s scopes (Nodes.Constant.signed_constant sc) known proper h =
    signed s sc.sign sc.view.start (resolve_signable_constant scopes sc.unsigned_value s)
      (signable-Resolves s scopes sc.unsigned_value known proper h)
resolve_constant-Resolves s scopes (Nodes.Constant.character_string cs) known proper h =
    string-Resolves s cs cs.value
