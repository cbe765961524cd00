-- ===== src/Analysis/Labels.antt =====
-- src/semantics-analyze.cxx: the labels that prefix statements, and the goto statements.
use waspas.Base.{ℕ, ◌+◌, Bool, true, false, List, [], ◌∷◌, Option, none, some, ◌==◌, ◌||◌}
use waspas.Reporting.{number, ambiguous_label, undefined_label, disallowed_goto_target}
use waspas.Parsing.Nodes.{Label}
use waspas.Semantics.Scopes.{Scope, Region, block_region, closest_containing_block}
use waspas.Semantics.Blocks.{Block, LabelEntry, find_label, change_label}
use waspas.Semantics.Statements.{SemStatement, statement_empty, statement_goto}
use waspas.Analysis.{Analysis, pure, ◌>>=◌, ◌>>◌, gets, asserted, report, report_note, change_block}
use waspas.Analysis.Builder.{StatementBuilder}
pub mod Targets
pub mod Prefixes

-- `withNewAllowedGotoTargets`, unless there are no new targets.
unfoldable pub with_targets : List ℕ → StatementBuilder → StatementBuilder
with_targets [] builder = builder
with_targets (label ∷ more) builder = record builder {
  allowed_goto_targets = (label ∷ more) ∷ builder.allowed_goto_targets;
}

unfoldable pub contains_label : ℕ → List ℕ → Bool
contains_label label [] = false
contains_label label (l ∷ labels) = label == l || contains_label label labels

unfoldable pub is_allowed_target : ℕ → List (List ℕ) → Bool
unfolding contains_label
is_allowed_target label [] = false
is_allowed_target label (targets ∷ more) =
    contains_label label targets || is_allowed_target label more

unfoldable pub declares_label : ℕ → (ℕ → Block) → Region → Bool
unfolding find_label
declares_label label blocks (block_region b) = elim (find_label label (blocks b).labels) [
  | none ↦ false
  | some _ ↦ true
]
declares_label label blocks _ = false

-- The loop of a goto statement over the scopes, from the scope with the index `index`.
unfoldable pub find_label_scope : ℕ → (ℕ → Block) → ℕ → List Scope → Option ℕ
unfolding declares_label
find_label_scope label blocks index [] = none
find_label_scope label blocks index (scope ∷ scopes) =
    let rest = find_label_scope label blocks (index + 1) scopes in
    elim (declares_label label blocks scope.region) [ true ↦ some index | false ↦ rest ]

unfoldable pub resolve_goto : StatementBuilder → List Scope → Label → Analysis SemStatement
unfolding find_label_scope is_allowed_target report
resolve_goto builder scopes label = do
  found ← gets λ s. find_label_scope label.value s.blocks 0 scopes
  elim found [
    | none ↦ do report label.view.start undefined_label []; pure statement_empty
    | some index ↦ elim (is_allowed_target label.value builder.allowed_goto_targets) [
      | true ↦ pure (statement_goto label.value index)
      | false ↦ do report label.view.start disallowed_goto_target []; pure statement_empty
    ]
  ]

unfoldable pub set_prefix : ℕ → LabelEntry → LabelEntry
set_prefix location l = record l { prefixing_occurrence = some location }

-- The label is the block's: its first statement takes it.
unfoldable pub take_label : ℕ → Label → LabelEntry → Analysis (List ℕ)
unfolding change_label set_prefix change_block report report_note
take_label b label l = elim l.prefixing_occurrence [
  | some first ↦ do
    report label.view.start ambiguous_label (number label.value ∷ [])
    report_note first (number label.value ∷ [])
    pure []
  | none ↦ do
    change_block b λ block. record block {
      labels = change_label label.value (set_prefix label.view.start) block.labels;
    }
    pure (label.value ∷ [])
]

-- The labels that `resolveStatement` makes targets inside its statement: one, or none.
unfoldable pub prefix_label : List Scope → Option Label → Analysis (List ℕ)
unfolding closest_containing_block find_label take_label report
prefix_label scopes none = pure []
prefix_label scopes (some label) = do
  b ← asserted (closest_containing_block scopes)
  found ← gets λ s. find_label label.value (s.blocks b).labels
  elim found [
    | none ↦ do report label.view.start undefined_label []; pure []
    | some l ↦ take_label b label l
  ]
