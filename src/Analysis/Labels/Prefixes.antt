-- ===== src/Analysis/Labels/Prefixes.antt =====
-- src/semantics-analyze.cxx: a label prefixes one statement.
use waspas.Base.{ℕ, ◌≡◌, refl, ap, ◌∙◌, List, [], ◌∷◌, none, some, ◌==◌, arith, if◌then◌else◌}
use waspas.Reporting.{ambiguous_label, number, err, note_raw}
use waspas.Parsing.Nodes.{Label}
use waspas.Semantics.Scopes.{Scope, closest_containing_block}
use waspas.Semantics.Blocks.{LabelEntry, find_label, change_label}
use waspas.Analysis.{AnalysisState, ◌>>=◌, report, report_note, change_block}
use waspas.Analysis.Labels.{set_prefix, take_label, prefix_label}

find_label-change_self :
    (n : ℕ) (f : LabelEntry → LabelEntry) (entries : List (ℕ × LabelEntry)) (l : LabelEntry)
    → find_label n entries ≡ some l
    → find_label n (change_label n f entries) ≡ some (f l)
unfolding find_label change_label
find_label-change_self n f [] l h = cc
find_label-change_self n f ((key, x) ∷ entries) l h =
    ground (arith, find_label-change_self n f entries l)

-- The state after a statement of the block has taken its label.
abbrev pub after_prefix : ℕ → Label → AnalysisState → AnalysisState
after_prefix b label s = record s {
  blocks = λ m.
      if m == b
      then record (s.blocks m) {
        labels = change_label label.value (set_prefix label.view.start) (s.blocks m).labels;
      }
      else s.blocks m;
}

module _ (scopes : List Scope) (label : Label) (b : ℕ) (s : AnalysisState) (l : LabelEntry)
    (around : closest_containing_block scopes ≡ some b)
    (declared : find_label label.value (s.blocks b).labels ≡ some l) where
  takes :
      l.prefixing_occurrence ≡ none
      → prefix_label scopes (some label) s ≡ some (label.value ∷ [], after_prefix b label s)
  unfolding prefix_label take_label change_block
  takes fresh = rw (around, prefix_label) (rw (declared, ◌>>=◌) (rw (fresh, take_label) refl))

  refuses :
      (first : ℕ)
      → l.prefixing_occurrence ≡ some first
      → prefix_label scopes (some label) s
        ≡ some (
          [],
          record s {
            reporter =
                note_raw first
                  (number label.value ∷ [])
                  (err label.view.start ambiguous_label (number label.value ∷ []) s.reporter);
          },
        )
  unfolding prefix_label take_label report report_note
  refuses first taken =
      rw (around, prefix_label) (rw (declared, ◌>>=◌) (rw (taken, take_label) refl))

  after_prefix-labels :
      ((after_prefix b label s).blocks b).labels
      ≡ change_label label.value (set_prefix label.view.start) (s.blocks b).labels
  after_prefix-labels = ground arith

  after_prefix-declared :
      (n : ℕ)
      → n ≡ label.value
      → find_label n ((after_prefix b label s).blocks b).labels
        ≡ some (set_prefix label.view.start l)
  after_prefix-declared n e = rw e (
      ap (find_label label.value) after_prefix-labels
      ∙ find_label-change_self label.value (set_prefix label.view.start) (s.blocks b).labels l
          declared)

-- A label that the block around a statement declares, and that no statement has taken, is taken by
-- the first statement that it prefixes. A second statement with the label does not get it: that
-- is reported, with a note at the first statement.
pub prefix_label_twice :
    (scopes : List Scope) (label again : Label) (b : ℕ) (s : AnalysisState) (l : LabelEntry)
    → closest_containing_block scopes ≡ some b
    → find_label label.value (s.blocks b).labels ≡ some l
    → l.prefixing_occurrence ≡ none
    → again.value ≡ label.value
    → (prefix_label scopes (some label) s ≡ some (label.value ∷ [], after_prefix b label s))
      × (prefix_label scopes (some again) (after_prefix b label s)
          ≡ some (
            [],
            record (after_prefix b label s) {
              reporter =
                  note_raw label.view.start
                    (number again.value ∷ [])
                    (err again.view.start ambiguous_label (number again.value ∷ []) s.reporter);
            },
          ))
unfolding set_prefix
prefix_label_twice scopes label again b s l around declared fresh same = (
  takes scopes label b s l around declared fresh,
  refuses scopes again b (after_prefix b label s) (set_prefix label.view.start l) around
      (after_prefix-declared scopes label b s l around declared again.value same) label.view.start
      refl,
)
