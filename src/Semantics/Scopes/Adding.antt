-- ===== src/Semantics/Scopes/Adding.antt =====
-- src/semantics-core.ixx: what lookups find after definitions are added.
use mathlib.Core.Option
use waspas.Base.{
  ◌&&◌, not, Bool, ℕ, ◌≡◌, refl, sym, inl, inr, true, false, Bool-cases, Option-cases, List, [],
  ◌∷◌, Option, none, some, if◌then◌else◌,
}
use waspas.Utilities.{Text, cisref_eq}
use waspas.Utilities.Cisref.{cisref_eq_trans, cisref_eq_sym}
use waspas.Semantics.Scopes.{
  DefiningOccurrence, Scope, find_occurrence, try_emplace, LookupResult, lookup_from, lookup,
  OccurrenceKind, add, contains_shallow, insert_all, merge_from,
}

-- The first of two results.
abbrev pub first_of : {A : Type 0} → Option A → Option A → Option A
first_of (some a) o = some a
first_of none o = o

first_of-none : {A : Type 0} (o : Option A) → first_of o none ≡ o
first_of-none none = refl
first_of-none (some a) = refl

differ :
    (id id' key : Text)
    → cisref_eq id key ≡ true
    → cisref_eq id' key ≡ false
    → cisref_eq id' id ≡ false
differ id id' key h k = elim (Bool-cases (cisref_eq id' id)) [
  | inl same ↦ cc (cisref_eq_trans id' id key same h, k)
  | inr away ↦ away
]

-- What a name means after `try_emplace`: what it meant before, if anything; else the definition.
pub find_occurrence-try_emplace :
    (id id' : Text) (d : DefiningOccurrence) (dos : List (Text × DefiningOccurrence))
    → find_occurrence id' (try_emplace id d dos)
      ≡ first_of (find_occurrence id' dos) (if cisref_eq id' id then some d else none)
unfolding find_occurrence try_emplace
find_occurrence-try_emplace id id' d [] = refl
find_occurrence-try_emplace id id' d ((key, e) ∷ dos) =
    let ih = find_occurrence-try_emplace id id' d dos in
    elim (Bool-cases (cisref_eq id key)) [
      | inl here ↦ elim (Bool-cases (cisref_eq id' key)) [
        | inl found ↦ rw (here, found, find_occurrence) refl
        | inr missed ↦
            rw (here, missed, differ id id' key here missed, find_occurrence)
              (sym (first_of-none (find_occurrence id' dos)))
      ]
      | inr away ↦ elim (Bool-cases (cisref_eq id' key)) [
        | inl found ↦ rw (away, found, find_occurrence) refl
        | inr missed ↦ rw (away, missed, find_occurrence) ih
      ]
    ]

-- What a name means in a scope, from the inside: the index of the scope that defines it, and its
-- definition.
abbrev pub meaning : Text → List Scope → Option (ℕ × DefiningOccurrence)
meaning id scopes =
    Option.map (λ (r : LookupResult). (r.scope_index, r.defining_occurrence)) (lookup id scopes)

meaning-cons :
    (id : Text) (s : Scope) (outer : List Scope)
    → meaning id (s ∷ outer)
      ≡ first_of (Option.map (λ d. (0, d)) (find_occurrence id s.dos)) (
          Option.map
            (λ (r : LookupResult). (r.scope_index, r.defining_occurrence))
            (lookup_from id 1 outer))
unfolding lookup lookup_from
meaning-cons id s outer = elim (Option-cases (find_occurrence id s.dos)) [
  | inl e ↦ rw (e, lookup, lookup_from) refl
  | inr (d, e) ↦ rw (e, lookup, lookup_from) refl
]

differ_left :
    (id id' key : Text)
    → cisref_eq id' id ≡ true
    → cisref_eq id key ≡ false
    → cisref_eq id' key ≡ false
differ_left id id' key h k = elim (Bool-cases (cisref_eq id' key)) [
  | inl same ↦ cc (cisref_eq_trans id id' key (cisref_eq_sym id' id h) same, k)
  | inr away ↦ away
]

first_of_if :
    (o more : Option DefiningOccurrence) (d : DefiningOccurrence) (b : Bool)
    → first_of (first_of o (if b then some d else none)) more
      ≡ first_of o (if b then some d else more)
first_of_if none more d true = refl
first_of_if none more d false = refl
first_of_if (some e) more d b = refl

-- Names that are equal up to case are found alike.
find_occurrence-congruent :
    (id id' : Text) (dos : List (Text × DefiningOccurrence))
    → cisref_eq id' id ≡ true
    → find_occurrence id' dos ≡ find_occurrence id dos
unfolding find_occurrence
find_occurrence-congruent id id' [] same = refl
find_occurrence-congruent id id' ((key, d) ∷ dos) same = elim (Bool-cases (cisref_eq id key)) [
  | inl here ↦ rw (here, cisref_eq_trans id' id key same here) refl
  | inr away ↦
      rw (away, differ_left id id' key same away) (find_occurrence-congruent id id' dos same)
]

-- The scope of the definition adds it, unless the name is defined there, in another case or not: so
-- a name that is the same up to case means the new definition from inside that scope. Every other
-- lookup, and that of a name which was defined there, gives what it gave before.
pub meaning-add :
    (id id' : Text) (location : Option ℕ) (kind : OccurrenceKind) (s : Scope) (outer : List Scope)
    → meaning id' (add id location kind s ∷ outer) ≡ (
        if cisref_eq id' id && not (contains_shallow id s)
        then some (0, record { location = location; kind = kind })
        else meaning id' (s ∷ outer))
unfolding add contains_shallow
meaning-add id id' location kind s outer =
    let new : DefiningOccurrence = record { location = location; kind = kind } in
    let added = find_occurrence-try_emplace id id' new s.dos in
    rw (meaning-cons id' (add id location kind s) outer, meaning-cons id' s outer, added)
      (elim (Bool-cases (cisref_eq id' id)) [
        | inr e ↦ rw e (rw (first_of-none (find_occurrence id' s.dos)) refl)
        | inl e ↦
            rw (e, find_occurrence-congruent id id' s.dos e)
              (elim (Option-cases (find_occurrence id s.dos)) [
                | inl absent ↦ rw (absent, contains_shallow) refl
                | inr (d, present) ↦ rw (present, contains_shallow) refl
              ])
      ])

find_occurrence-insert_all :
    (id : Text) (more dos : List (Text × DefiningOccurrence))
    → find_occurrence id (insert_all more dos)
      ≡ first_of (find_occurrence id dos) (find_occurrence id more)
unfolding insert_all find_occurrence
find_occurrence-insert_all id [] dos = sym (first_of-none (find_occurrence id dos))
find_occurrence-insert_all id ((key, d) ∷ more) dos =
    rw
      (
        find_occurrence-insert_all id more (try_emplace key d dos),
        find_occurrence-try_emplace key id d dos,
      )
      (first_of_if (find_occurrence id dos) (find_occurrence id more) d (cisref_eq id key))

merged :
    (own others : Option DefiningOccurrence) (more : Option (ℕ × DefiningOccurrence))
    → first_of (Option.map (λ d. (0, d)) (first_of own others)) more
      ≡ first_of
          (first_of (Option.map (λ d. (0, d)) own) none)
          (first_of (Option.map (λ d. (0, d)) others) more)
merged none none more = refl
merged none (some d) more = refl
merged (some d) others more = refl

-- After a scope takes over the definitions of another one, a name means what it meant in the scope
-- itself, or else what it means where the other one stands in its place.
pub meaning-merge_from :
    (id : Text) (other s : Scope) (outer : List Scope)
    → meaning id (merge_from other s ∷ outer)
      ≡ first_of (meaning id (s ∷ [])) (meaning id (other ∷ outer))
unfolding merge_from lookup_from
meaning-merge_from id other s outer =
    rw
      (
        meaning-cons id (merge_from other s) outer,
        meaning-cons id s [],
        meaning-cons id other outer,
        find_occurrence-insert_all id other.dos s.dos,
      )
      (merged (find_occurrence id s.dos) (find_occurrence id other.dos) _)
