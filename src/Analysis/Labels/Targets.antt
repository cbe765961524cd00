-- ===== src/Analysis/Labels/Targets.antt =====
-- src/semantics-analyze.cxx: where a goto statement goes.
use waspas.Base.{
  ℕ, zero, suc, ◌+◌, ◌≡◌, refl, subst, Bool, true, false, List, [], ◌∷◌, Option, none, some, take,
  arith, Bool-cases, inl, inr,
}
use waspas.Reporting.{undefined_label, disallowed_goto_target, err}
use waspas.Parsing.Nodes.{Label}
use waspas.Semantics.Scopes.{Scope, parent}
use waspas.Semantics.Blocks.{Block}
use waspas.Semantics.Statements.{SemStatement, statement_empty, statement_goto}
use waspas.Analysis.{Analysis, AnalysisState, ◌>>◌, pure, report}
use waspas.Analysis.Builder.{StatementBuilder}
use waspas.Analysis.Labels.{declares_label, find_label_scope, is_allowed_target, resolve_goto}

-- No block among those of the scopes declares the label.
abbrev pub NoLabel : ℕ → (ℕ → Block) → List Scope → Type 0
NoLabel label blocks [] = Unit
NoLabel label blocks (scope ∷ scopes) =
    (declares_label label blocks scope.region ≡ false) × NoLabel label blocks scopes

-- The innermost scope whose block declares the label, by its distance, or none.
pub data Located (label : ℕ) (blocks : ℕ → Block) (scopes : List Scope) (index : ℕ)
    : Option ℕ → Type 0 where
  located :
      (d : ℕ) (scope : Scope) (outer : List Scope)
      → parent d scopes ≡ some (scope ∷ outer)
      → declares_label label blocks scope.region ≡ true
      → NoLabel label blocks (take d scopes)
      → Located label blocks scopes index (some (index + d))
  missing : NoLabel label blocks scopes → Located label blocks scopes index none

parent-suc :
    (d : ℕ) (first scope : Scope) (scopes outer : List Scope)
    → parent d scopes ≡ some (scope ∷ outer)
    → parent (suc d) (first ∷ scopes) ≡ some (scope ∷ outer)
unfolding parent
parent-suc zero first scope [] outer h = cc
parent-suc (suc d) first scope [] outer h = cc
parent-suc d first scope (x ∷ scopes) outer h = h

farther :
    (label : ℕ) (blocks : ℕ → Block) (first : Scope) (scopes : List Scope) (index : ℕ)
    → declares_label label blocks first.region ≡ false
    → (o : Option ℕ) → Located label blocks scopes (index + 1) o
    → Located label blocks (first ∷ scopes) index o
farther label blocks first scopes index h (some _) (located d scope outer p q r) =
    let e : index + suc d ≡ index + 1 + d = omega arith in
    subst (λ n. Located label blocks (first ∷ scopes) index (some n)) e
      (located (suc d) scope outer (parent-suc d first scope scopes outer p) q (h, r))
farther label blocks first scopes index h none (missing r) = missing (h, r)

add_zero : (n : ℕ) → n + 0 ≡ n
add_zero n = omega arith

find_label_scope-Located :
    (label : ℕ) (blocks : ℕ → Block) (index : ℕ) (scopes : List Scope)
    → Located label blocks scopes index (find_label_scope label blocks index scopes)
unfolding find_label_scope parent
find_label_scope-Located label blocks index [] = missing tt
find_label_scope-Located label blocks index (scope ∷ scopes) =
    elim (Bool-cases (declares_label label blocks scope.region)) [
      | inl e ↦
          rw (e, find_label_scope)
            (subst (λ n. Located label blocks (scope ∷ scopes) index (some n)) (add_zero index)
              (located 0 scope scopes refl e tt))
      | inr e ↦
          rw (e, find_label_scope)
            (farther label blocks scope scopes index e
              (find_label_scope label blocks (index + 1) scopes)
              (find_label_scope-Located label blocks (index + 1) scopes))
    ]

-- How a goto statement ends.
pub data Goes (builder : StatementBuilder) (scopes : List Scope) (label : Label) (s : AnalysisState)
    : Option (SemStatement × AnalysisState) → Type 0 where
  jumps :
      (index : ℕ)
      → Located label.value s.blocks scopes 0 (some index)
      → is_allowed_target label.value builder.allowed_goto_targets ≡ true
      → Goes builder scopes label s (some (statement_goto label.value index, s))
  disallowed :
      (index : ℕ)
      → Located label.value s.blocks scopes 0 (some index)
      → is_allowed_target label.value builder.allowed_goto_targets ≡ false
      → Goes builder scopes label s (
          some (
            statement_empty,
            record s { reporter = err label.view.start disallowed_goto_target [] s.reporter },
          ))
  undefined :
      NoLabel label.value s.blocks scopes
      → Goes builder scopes label s (
          some (
            statement_empty,
            record s { reporter = err label.view.start undefined_label [] s.reporter },
          ))

module _ (builder : StatementBuilder) (scopes : List Scope) (label : Label)
    (s : AnalysisState) where
  allowed :
      (index : ℕ) (good : Bool)
      → is_allowed_target label.value builder.allowed_goto_targets ≡ good
      → Located label.value s.blocks scopes 0 (some index)
      → Goes builder scopes label s (
          (elim good as (λ _. Analysis SemStatement) [
            | true ↦ pure (statement_goto label.value index)
            | false ↦ do report label.view.start disallowed_goto_target []; pure statement_empty
          ])
            s)
  unfolding report
  allowed index true h l = jumps index l h
  allowed index false h l = disallowed index l h

  found :
      (o : Option ℕ)
      → Located label.value s.blocks scopes 0 o
      → Goes builder scopes label s (
          (elim o as (λ _. Analysis SemStatement) [
            | none ↦ do report label.view.start undefined_label []; pure statement_empty
            | some index ↦ elim (is_allowed_target label.value builder.allowed_goto_targets) [
              | true ↦ pure (statement_goto label.value index)
              | false ↦ do report label.view.start disallowed_goto_target []; pure statement_empty
            ]
          ])
            s)
  unfolding report
  found none (missing h) = undefined h
  found (some index) l =
      allowed index (is_allowed_target label.value builder.allowed_goto_targets) refl l

  -- The analysis of a goto statement always ends. It makes a goto, and reports nothing, exactly if
  -- the innermost block that declares the label is found, by the index that `parent` takes, and
  -- the label is an allowed target; else it reports that the target is disallowed, or, if no block
  -- around the statement declares the label, that the label is undefined.
  pub resolve_goto-Goes : Goes builder scopes label s (resolve_goto builder scopes label s)
  unfolding resolve_goto
  resolve_goto-Goes =
      found (find_label_scope label.value s.blocks 0 scopes)
        (find_label_scope-Located label.value s.blocks 0 scopes)
