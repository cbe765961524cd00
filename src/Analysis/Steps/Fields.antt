-- ===== src/Analysis/Steps/Fields.antt =====
-- src/semantics-analyze.cxx: inside a with statement, the names of the fields mean the fields.
use waspas.Base.{
  ℕ, ◌≡◌, refl, ◌∙◌, Bool, true, false, List, [], ◌∷◌, none, some, get_elem?, Bool-cases, inl, inr,
}
use waspas.Utilities.{Text, cisref_eq}
use waspas.Semantics.Types.{
  PascalType, FieldDescriptions, no_fields, more_fields, VariantFields, type_record,
}
use waspas.Semantics.Scopes.{
  Scope, LookupResult, DefiningOccurrence, not_type, with_region, find_occurrence, try_emplace, add,
  lookup, lookup_from, parent,
}
use waspas.Semantics.Scopes.Adding.{find_occurrence-try_emplace}
use waspas.Parsing.Nodes.{Identifier}
use waspas.Semantics.Expressions.{access_field_designator_id}
use waspas.Analysis.Running.{bind-some, asserted-some}
use waspas.Analysis.{pure, AnalysisState, asserted}
use waspas.Analysis.Values.{find_field, field_type, with_type_at, variable_type, with_of}
use waspas.Analysis.Identifiers.{resolve_variable_or_fd_identifier, with_field}
use waspas.Analysis.Steps.{add_fields, with_scope}

-- The occurrence that `add` makes for a field.
abbrev occurrence : ℕ → DefiningOccurrence
occurrence location = record { location = some location; kind = not_type }

emplaced-kept :
    (key name : Text) (location : ℕ) (dos : List (Text × DefiningOccurrence))
    → find_occurrence name dos ≡ some (occurrence location)
    → find_occurrence name (try_emplace key (occurrence location) dos) ≡ some (occurrence location)
emplaced-kept key name location dos h =
    find_occurrence-try_emplace key name (occurrence location) dos ∙ rw h refl

emplaced-new :
    (key name : Text) (location : ℕ) (dos : List (Text × DefiningOccurrence))
    → cisref_eq name key ≡ true
    → find_occurrence name dos ≡ none
    → find_occurrence name (try_emplace key (occurrence location) dos) ≡ some (occurrence location)
emplaced-new key name location dos e h =
    find_occurrence-try_emplace key name (occurrence location) dos ∙ rw (h, e) refl

emplaced-other :
    (key name : Text) (location : ℕ) (dos : List (Text × DefiningOccurrence))
    → cisref_eq name key ≡ false
    → find_occurrence name dos ≡ none
    → find_occurrence name (try_emplace key (occurrence location) dos) ≡ none
emplaced-other key name location dos e h =
    find_occurrence-try_emplace key name (occurrence location) dos ∙ rw (h, e) refl

add_fields-keeps :
    (name : Text) (fields : FieldDescriptions) (location : ℕ) (s : Scope)
    → find_occurrence name s.dos ≡ some (occurrence location)
    → find_occurrence name (add_fields fields location s).dos ≡ some (occurrence location)
unfolding add_fields add
add_fields-keeps name no_fields location s h = h
add_fields-keeps name (more_fields key t tag rest) location s h =
    add_fields-keeps name rest location (add key (some location) not_type s)
      (emplaced-kept key name location s.dos h)

add_fields-finds :
    (name : Text) (fields : FieldDescriptions) (location : ℕ) (s : Scope)
    (entry : PascalType × Bool)
    → find_field name fields ≡ some entry
    → find_occurrence name s.dos ≡ none
    → find_occurrence name (add_fields fields location s).dos ≡ some (occurrence location)
unfolding add_fields add find_field
add_fields-finds name no_fields location s entry f h = cc f
add_fields-finds name (more_fields key t tag rest) location s entry f h =
    elim (Bool-cases (cisref_eq name key)) [
      | inl e ↦
          add_fields-keeps name rest location (add key (some location) not_type s)
            (emplaced-new key name location s.dos e h)
      | inr e ↦
          add_fields-finds name rest location (add key (some location) not_type s) entry
            (rw (e, find_field) at f) (emplaced-other key name location s.dos e h)
    ]

add_fields-region :
    (fields : FieldDescriptions) (location : ℕ) (s : Scope)
    → (add_fields fields location s).region ≡ s.region
unfolding add_fields add
add_fields-region no_fields location s = refl
add_fields-region (more_fields key t tag rest) location s =
    add_fields-region rest location (add key (some location) not_type s)

lookup_here :
    (id : Text) (scope : Scope) (scopes : List Scope) (d : DefiningOccurrence)
    → find_occurrence id scope.dos ≡ some d
    → lookup id (scope ∷ scopes)
      ≡ some (record { scope_index = 0; scope = scope; defining_occurrence = d })
unfolding lookup lookup_from
lookup_here id scope scopes d h = rw (h, lookup_from) refl

-- The result of a lookup of a field in the scope of its with statement.
abbrev pub field_result : ℕ → FieldDescriptions → ℕ → LookupResult
field_result n fields location = record {
  scope_index = 0;
  scope = with_scope n fields location;
  defining_occurrence = occurrence location;
}

module _ (n : ℕ) (fields : FieldDescriptions) (location : ℕ) (scopes : List Scope) (id : Identifier)
    (field : PascalType) (is_tag : Bool)
    (has : find_field id.spelling fields ≡ some (field, is_tag)) where
  finds_field :
      lookup id.spelling (with_scope n fields location ∷ scopes)
      ≡ some (field_result n fields location)
  unfolding lookup lookup_from with_scope find_occurrence
  finds_field =
      lookup_here id.spelling (with_scope n fields location) scopes (occurrence location) (
        add_fields-finds id.spelling fields location (record { region = with_region n; dos = [] })
          (field, is_tag) has refl)

  scope_region : (with_scope n fields location).region ≡ with_region n
  unfolding with_scope
  scope_region = add_fields-region fields location (record { region = with_region n; dos = [] })

  module _ (s : AnalysisState) (a : ℕ) (variants : VariantFields) (packed : Bool)
      (current : get_elem? s.withs n ≡ some (type_record a fields variants packed)) where
    here_type :
        with_type_at s (with_scope n fields location ∷ scopes) 0
        ≡ some (type_record a fields variants packed)
    unfolding with_type_at parent with_of
    here_type = rw scope_region current

    field_access :
        resolve_variable_or_fd_identifier
          (with_scope n fields location ∷ scopes)
          (field_result n fields location)
          id
          s
        ≡ some (some (access_field_designator_id id.spelling 0), s)
    unfolding resolve_variable_or_fd_identifier with_field field_type
    field_access =
        rw (scope_region, resolve_variable_or_fd_identifier)
          (bind-some (λ s'. asserted (with_type_at s' (with_scope n fields location ∷ scopes) 0) s')
              (λ t. pure (with_field id.spelling 0 t)) s (type_record a fields variants packed) s
              (asserted-some (with_type_at s (with_scope n fields location ∷ scopes) 0)
                (type_record a fields variants packed) s here_type)
            ∙ rw (has, with_field, field_type) refl)

    field_access_type :
        variable_type s
          (with_scope n fields location ∷ scopes)
          (access_field_designator_id id.spelling 0)
        ≡ some field
    unfolding variable_type field_type
    field_access_type = rw here_type (rw has refl)

-- In the scope of a with statement, a name of a field of the record means the field: the lookup ends
-- at that scope, the identifier resolves to a field designator there, without a report, and its
-- type is that of the field. The with statement has the number of the scope.
pub with_field-means :
    (n : ℕ) (fields : FieldDescriptions) (location : ℕ) (scopes : List Scope) (id : Identifier)
    (field : PascalType) (is_tag : Bool) (s : AnalysisState) (a : ℕ) (variants : VariantFields)
    (packed : Bool)
    → find_field id.spelling fields ≡ some (field, is_tag)
    → get_elem? s.withs n ≡ some (type_record a fields variants packed)
    → (lookup id.spelling (with_scope n fields location ∷ scopes)
        ≡ some (field_result n fields location))
      × (resolve_variable_or_fd_identifier
            (with_scope n fields location ∷ scopes)
            (field_result n fields location)
            id
            s
          ≡ some (some (access_field_designator_id id.spelling 0), s))
      × (variable_type s
            (with_scope n fields location ∷ scopes)
            (access_field_designator_id id.spelling 0)
          ≡ some field)
with_field-means n fields location scopes id field is_tag s a variants packed has current = (
  finds_field n fields location scopes id field is_tag has,
  field_access n fields location scopes id field is_tag has s a variants packed current,
  field_access_type n fields location scopes id field is_tag has s a variants packed current,
)
