-- ===== src/Semantics/Scopes.antt =====
-- src/semantics-core.ixx: `Scope`. A scope stands with the scopes that enclose it, the innermost
-- first, so that `parent_` is the rest of the list. Blocks and statements are given by number.
use waspas.Base.{
  ℕ, zero, suc, ◌+◌, Bool, true, false, List, [], ◌∷◌, Option, none, some, if◌then◌else◌,
}
use waspas.Utilities.{Text, cisref_eq}
pub mod Lookup
pub mod Adding

pub data OccurrenceKind : Type 0 where
  not_type a_type : OccurrenceKind

pub record DefiningOccurrence : Type 0 where
  pub location : Option ℕ
  pub kind : OccurrenceKind

-- `region_t`.
pub data Region : Type 0 where
  no_region : Region
  block_region with_region : ℕ → Region

-- `dos_`, an unordered map, is a list with one entry for each key.
pub record Scope : Type 0 where
  pub region : Region
  pub dos : List (Text × DefiningOccurrence)

-- `find` and `try_emplace` of the map.
unfoldable pub find_occurrence : Text → List (Text × DefiningOccurrence) → Option DefiningOccurrence
find_occurrence id [] = none
find_occurrence id ((key, d) ∷ dos) = if cisref_eq id key then some d else find_occurrence id dos

unfoldable pub try_emplace :
    Text → DefiningOccurrence → List (Text × DefiningOccurrence) → List (Text × DefiningOccurrence)
try_emplace id d [] = (id, d) ∷ []
try_emplace id d ((key, d') ∷ dos) =
    let rest = try_emplace id d dos in
    if cisref_eq id key then (key, d') ∷ dos else (key, d') ∷ rest

unfoldable pub add : Text → Option ℕ → OccurrenceKind → Scope → Scope
unfolding try_emplace
add id location kind s = record s {
  dos = try_emplace id (record { location = location; kind = kind }) s.dos;
}

-- `mergeFrom`.
unfoldable pub insert_all :
    List (Text × DefiningOccurrence)
    → List (Text × DefiningOccurrence)
    → List (Text × DefiningOccurrence)
unfolding try_emplace
insert_all [] dos = dos
insert_all ((id, d) ∷ more) dos = insert_all more (try_emplace id d dos)

unfoldable pub merge_from : Scope → Scope → Scope
unfolding insert_all
merge_from other s = record s { dos = insert_all other.dos s.dos }

unfoldable pub contains_shallow : Text → Scope → Bool
unfolding find_occurrence
contains_shallow id s = elim (find_occurrence id s.dos) [ none ↦ false | some _ ↦ true ]

-- `parent(index)`; `none` is a failed assertion.
unfoldable pub parent : ℕ → List Scope → Option (List Scope)
parent zero scopes = some scopes
parent (suc index) [] = none
parent (suc index) (_ ∷ []) = none
parent (suc index) (_ ∷ s ∷ scopes) = parent index (s ∷ scopes)

pub record LookupResult : Type 0 where
  pub scope_index : ℕ
  pub scope : Scope
  pub defining_occurrence : DefiningOccurrence

-- The loop of `lookup`, at the scope with the index `scope_index`.
unfoldable pub lookup_from : Text → ℕ → List Scope → Option LookupResult
unfolding find_occurrence
lookup_from id scope_index [] = none
lookup_from id scope_index (s ∷ scopes) =
    let rest = lookup_from id (scope_index + 1) scopes in
    elim (find_occurrence id s.dos) [
      | none ↦ rest
      | some d ↦ some (record { scope_index = scope_index; scope = s; defining_occurrence = d })
    ]

unfoldable pub lookup : Text → List Scope → Option LookupResult
unfolding lookup_from
lookup id scopes = lookup_from id 0 scopes

-- `closestContainingBlock`; `none` is a failed assertion.
unfoldable pub closest_containing_block : List Scope → Option ℕ
closest_containing_block [] = none
closest_containing_block (s ∷ scopes) =
    let rest = closest_containing_block scopes in
    elim s.region [ no_region ↦ rest | block_region b ↦ some b | with_region _ ↦ rest ]
