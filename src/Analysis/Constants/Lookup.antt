-- ===== src/Analysis/Constants/Lookup.antt =====
-- src/semantics-analyze.cxx: `lookupIdentifier` finds an entry or reports an error.
use waspas.Base.{ℕ, ◌≡◌, refl, true, List, [], ◌∷◌, Option, none, some, ◌⊎◌, inl, inr, Bool-cases}
use waspas.Utilities.{Text}
use waspas.Reporting.{
  Reporter, ErrorCode, Argument, emit, err, note_raw, text, use_before_definition,
  wrong_identifier_kind, undefined_identifier,
}
use waspas.Parsing.Nodes.{Identifier}
use waspas.Semantics.Scopes.{
  Scope, LookupResult, DefiningOccurrence, OccurrenceKind, not_type, a_type, Region, block_region,
  no_region, with_region, lookup,
}
use waspas.Semantics.Blocks.{Block, find_name}
use waspas.Analysis.{Analysis, AnalysisState, ◌>>=◌, ◌>>◌, pure, report, report_note}
use waspas.Analysis.Constants.{
  is_later, note_definition, report_misuse, find_in_region, lookup_identifier,
}

-- An error has been reported, or is held back.
abbrev pub IsReported : Reporter → Type 0
IsReported r = (r.had_errors ≡ true) ⊎ (r.held_had_errors ≡ true)

pub err-IsReported :
    (location : ℕ) (code : ErrorCode) (arguments : List Argument) (r : Reporter)
    → IsReported (err location code arguments r)
unfolding err emit
err-IsReported location code arguments r = elim (Bool-cases r.holding) [
  | inl e ↦ rw e (inr refl)
  | inr e ↦ rw e (inl refl)
]

pub note_raw-IsReported :
    (location : ℕ) (arguments : List Argument) (r : Reporter)
    → IsReported r
    → IsReported (note_raw location arguments r)
unfolding note_raw emit
note_raw-IsReported location arguments r h = elim (Bool-cases r.holding) [
  | inl e ↦ rw e h
  | inr e ↦ rw e h
]

-- Only a scope of a block defines types.
abbrev pub IsProper : LookupResult → Type 0
IsProper r = elim r.scope.region [
  | no_region ↦ r.defining_occurrence.kind ≡ not_type
  | block_region _ ↦ Unit
  | with_region _ ↦ r.defining_occurrence.kind ≡ not_type
]

-- A lookup ends with an entry of a block, or with an error.
pub data Looks {T : Type 0} (member : Block → List (Text × T)) (id : Text) (s : AnalysisState)
    : Option (Option T × AnalysisState) → Type 0 where
  finds :
      (b : ℕ) (t : T)
      → find_name id (member (s.blocks b)) ≡ some t
      → Looks member id s (some (some t, s))
  fails : (r : Reporter) → IsReported r → Looks member id s (some (none, record s { reporter = r }))

module _ {T : Type 0} (member : Block → List (Text × T)) (id : Identifier) (kind : Text)
    (s : AnalysisState) where
  noted :
      (location : Option ℕ) (r : Reporter)
      → IsReported r
      → Looks member id.spelling s
          ((note_definition location id.spelling >> pure none) (record s { reporter = r }))
  unfolding note_definition report_note
  noted none r h = fails r h
  noted (some location) r h = fails _ (note_raw-IsReported location (text id.spelling ∷ []) r h)

  misuse-Looks :
      (d : DefiningOccurrence)
      → Looks member id.spelling s ((report_misuse d id kind >> pure none) s)
  unfolding report_misuse report
  misuse-Looks d = elim (Bool-cases (is_later d.location id.view.start)) [
    | inl e ↦
        rw (e, report_misuse)
          (noted d.location _
            (err-IsReported id.view.start use_before_definition (text id.spelling ∷ []) s.reporter))
    | inr e ↦
        rw (e, report_misuse)
          (noted d.location _ (
            err-IsReported id.view.start wrong_identifier_kind (text id.spelling ∷ text kind ∷ [])
              s.reporter))
  ]

  -- After what the region of the defining scope has.
  entered :
      (d : DefiningOccurrence) (b : ℕ) (o : Option T)
      → find_name id.spelling (member (s.blocks b)) ≡ o
      → Looks member id.spelling s (
          (elim o as (λ _. Analysis (Option T)) [
            | none ↦ do report_misuse d id kind; pure none
            | some t ↦ pure (some t)
          ])
            s)
  entered d b none h = misuse-Looks d
  entered d b (some t) h = finds b t h

  region-Looks :
      (d : DefiningOccurrence) (scope_region : Region) (occurrence : OccurrenceKind)
      → (elim scope_region as (λ _. Type 0) [
        | no_region ↦ occurrence ≡ not_type
        | block_region _ ↦ Unit
        | with_region _ ↦ occurrence ≡ not_type
      ])
      → Looks member id.spelling s (
          (do
            found ← find_in_region member scope_region occurrence id.spelling
            elim found as (λ _. Analysis (Option T)) [
              | none ↦ do report_misuse d id kind; pure none
              | some t ↦ pure (some t)
            ])
            s)
  unfolding find_in_region
  region-Looks d (block_region b) occurrence h =
      entered d b (find_name id.spelling (member (s.blocks b))) refl
  region-Looks d no_region not_type h = misuse-Looks d
  region-Looks d no_region a_type h = cc h
  region-Looks d (with_region w) not_type h = misuse-Looks d
  region-Looks d (with_region w) a_type h = cc h

  looked :
      (o : Option LookupResult)
      → ((r : LookupResult) → o ≡ some r → IsProper r)
      → Looks member id.spelling s (
          (elim o as (λ _. Analysis (Option T)) [
            | none ↦ do
              report id.view.start undefined_identifier (text kind ∷ text id.spelling ∷ [])
              pure none
            | some r ↦ do
              found ← find_in_region member r.scope.region r.defining_occurrence.kind id.spelling
              elim found [
                | none ↦ do report_misuse r.defining_occurrence id kind; pure none
                | some t ↦ pure (some t)
              ]
          ])
            s)
  unfolding report
  looked none h = fails _ (
      err-IsReported id.view.start undefined_identifier (text kind ∷ text id.spelling ∷ [])
        s.reporter)
  looked (some r) h =
      region-Looks r.defining_occurrence r.scope.region r.defining_occurrence.kind (h r refl)

  -- Where types are only defined in the scopes of blocks, a lookup of an identifier always ends: with
  -- an entry of the map of a block, reporting nothing, or without one, after reporting an error.
  pub lookup_identifier-Looks :
      (scopes : List Scope)
      → ((r : LookupResult) → lookup id.spelling scopes ≡ some r → IsProper r)
      → Looks member id.spelling s (lookup_identifier scopes id member kind s)
  unfolding lookup_identifier
  lookup_identifier-Looks scopes h = looked (lookup id.spelling scopes) h
