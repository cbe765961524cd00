-- ===== src/Analysis/Builder/Threats.antt =====
-- src/semantics-analyze.cxx: changes of control variables, in the block of the variable and in
-- procedures and functions inside it.
use waspas.Base.{
  ℕ, ◌≡◌, refl, ap, ◌∙◌, false, List, [], ◌∷◌, Option, none, some, ◌==◌, Bool-cases, inl, inr,
  if◌then◌else◌, arith,
}
use mathlib.Core.Option
use waspas.Utilities.{Text, cisref_eq}
use waspas.Semantics.Scopes.{Scope, closest_containing_block}
use waspas.Semantics.Blocks.{VariableEntry, find_name, change_name}
use waspas.Semantics.Expressions.{access_variable_id}
use waspas.Analysis.{AnalysisState, ◌>>=◌, asserted, change_block}
use waspas.Analysis.Builder.{
  StatementBuilder, block_number, set_threat, threaten_outer, threaten_variable,
}

pub find_name-change_self :
    {T : Type 0} (id : Text) (f : T → T) (entries : List (Text × T)) (t : T)
    → find_name id entries ≡ some t
    → find_name id (change_name id f entries) ≡ some (f t)
unfolding find_name change_name
find_name-change_self id f [] t h = cc
find_name-change_self id f ((key, x) ∷ entries) t h = elim (Bool-cases (cisref_eq id key)) [
  | inl e ↦ rw e (rw (e, find_name) (ap (Option.map f) (rw (e, find_name) at h)))
  | inr e ↦ rw e (rw (e, find_name) (find_name-change_self id f entries t (rw (e, find_name) at h)))
]

-- The state after an inner block has changed a variable of the block.
abbrev pub after_threat : ℕ → Text → ℕ → AnalysisState → AnalysisState
after_threat b id location s = record s {
  blocks = λ m.
      if m == b
      then record (s.blocks m) {
        variables = change_name id (set_threat location) (s.blocks m).variables;
      }
      else s.blocks m;
}

module _ (builder : StatementBuilder) (scopes : List Scope) (id : Text)
    (index location own closest : ℕ) (s : AnalysisState)
    (around : closest_containing_block scopes ≡ some closest)
    (defines : block_number scopes index ≡ some own) where
  -- A change from a block inside the block of the variable.
  pub outside :
      (v : VariableEntry)
      → (own == closest) ≡ false
      → find_name id (s.blocks own).variables ≡ some v
      → threaten_variable builder scopes (access_variable_id id index) location s
        ≡ some (tt, after_threat own id location s)
  unfolding threaten_variable threaten_outer change_block
  outside v differ declared =
      rw (around, threaten_variable)
        (rw (defines, asserted) (rw (differ, ◌>>=◌) (rw (declared, asserted) refl)))

-- What a variable is after a threat: the first location stays.
abbrev pub first_threat : Option ℕ → ℕ → ℕ
first_threat none location = location
first_threat (some first) location = first

pub set_threat-location :
    (location : ℕ) (v : VariableEntry)
    → (set_threat location v).subroutine_threat_location
      ≡ some (first_threat v.subroutine_threat_location location)
unfolding set_threat
set_threat-location location v =
    elim v.subroutine_threat_location
      as (λ o.
        (elim o as (λ _. VariableEntry) [
          | none ↦ record v { subroutine_threat_location = some location }
          | some _ ↦ record v { subroutine_threat_location = o }
        ]).subroutine_threat_location
        ≡ some (first_threat o location)) [ none ↦ refl | some first ↦ refl ]

after_threat-variables :
    (b : ℕ) (id : Text) (location : ℕ) (s : AnalysisState)
    → ((after_threat b id location s).blocks b).variables
      ≡ change_name id (set_threat location) (s.blocks b).variables
after_threat-variables b id location s = ground arith

-- The variable has the threat, from then on.
pub after_threat-declared :
    (b : ℕ) (id : Text) (location : ℕ) (s : AnalysisState) (v : VariableEntry)
    → find_name id (s.blocks b).variables ≡ some v
    → find_name id ((after_threat b id location s).blocks b).variables
      ≡ some (set_threat location v)
after_threat-declared b id location s v declared =
    ap (find_name id) (after_threat-variables b id location s)
    ∙ find_name-change_self id (set_threat location) (s.blocks b).variables v declared
