-- ===== src/Analysis/Loops/Search.antt =====
-- src/semantics-analyze.cxx: the loop of a for statement that looks for the block of its variable.
use waspas.Base.{
  ℕ, suc, ◌+◌, ◌≡◌, refl, ap, subst, sym, ◌∙◌, true, false, List, [], ◌∷◌, Option, none, some,
  Bool-cases, inl, inr, arith,
}
use mathlib.Core.Bool.{true≢false}
use waspas.Reporting.{text, wrong_identifier_kind}
use waspas.Parsing.Nodes.{Identifier}
use waspas.Semantics.Scopes.{
  Scope, Region, no_region, block_region, with_region, parent, closest_containing_block,
  contains_shallow,
}
use waspas.Analysis.{Analysis, AnalysisState, pure, ◌>>◌, report}
use waspas.Analysis.Constants.Lookup.{IsReported, err-IsReported}
use waspas.Analysis.Values.{block_of}
use waspas.Analysis.Builder.{block_number}
use waspas.Analysis.Steps.{control_variable_block}

-- The block that encloses the statement, or an error: the name is a field of a with statement.
pub data BlockFound (scopes : List Scope) (b from : ℕ) (s : AnalysisState)
    : Option (Option (ℕ × ℕ) × AnalysisState) → Type 0 where
  hidden :
      (s' : AnalysisState) → IsReported s'.reporter → BlockFound scopes b from s (some (none, s'))
  found :
      (k index : ℕ)
      → index ≡ from + k
      → block_number scopes k ≡ some b
      → BlockFound scopes b from s (some (some (b, index), s))

outer-found :
    (scope : Scope) (scopes : List Scope) (b from : ℕ) (s : AnalysisState)
    {o : Option (Option (ℕ × ℕ) × AnalysisState)}
    → closest_containing_block scopes ≡ some b
    → BlockFound scopes b (from + 1) s o
    → BlockFound (scope ∷ scopes) b from s o
unfolding block_number parent closest_containing_block
outer-found scope [] b from s h rest = absurd (true≢false (cc h))
outer-found scope (next ∷ scopes) b from s h (hidden s' e) = hidden s' e
outer-found scope (next ∷ scopes) b from s h (found k index sum at) =
    found (suc k) index (omega arith) at

module _ (id : Identifier) (from : ℕ) (scope : Scope) (scopes : List Scope) (b : ℕ)
    (s : AnalysisState)
    (again : closest_containing_block scopes ≡ some b
      → BlockFound scopes b (from + 1) s (control_variable_block id (from + 1) scopes s)) where
  -- What the loop does at a scope that is no block's.
  past : Analysis (Option (ℕ × ℕ))
  past = elim (contains_shallow id.spelling scope) [
    | true ↦ do report id.view.start wrong_identifier_kind (text id.spelling ∷ []); pure none
    | false ↦ control_variable_block id (from + 1) scopes
  ]

  further :
      control_variable_block id from (scope ∷ scopes) s ≡ past s
      → closest_containing_block scopes ≡ some b
      → BlockFound (scope ∷ scopes) b from s (control_variable_block id from (scope ∷ scopes) s)
  unfolding report past
  further same h =
      subst (BlockFound (scope ∷ scopes) b from s) (sym same)
        (elim (Bool-cases (contains_shallow id.spelling scope)) [
          | inl e ↦
              rw (e, past)
                (hidden _ (
                  err-IsReported id.view.start wrong_identifier_kind (text id.spelling ∷ [])
                    s.reporter))
          | inr e ↦ rw (e, past) (outer-found scope scopes b from s h (again h))
        ])

  from_region :
      (r : Region)
      → scope.region ≡ r
      → closest_containing_block (scope ∷ scopes) ≡ some b
      → BlockFound (scope ∷ scopes) b from s (control_variable_block id from (scope ∷ scopes) s)
  unfolding control_variable_block closest_containing_block block_number parent block_of past
  from_region (block_region own) e h =
      let same : own ≡ b = cc (rw (e, closest_containing_block) at h) in
      let stops : control_variable_block id from (scope ∷ scopes) s ≡ some (some (own, from), s) =
        rw (e, control_variable_block) refl in
      subst (BlockFound (scope ∷ scopes) b from s) (sym stops) (
        subst (λ n. BlockFound (scope ∷ scopes) b from s (some (some (n, from), s))) (sym same)
          (found 0 from (omega arith) (ap block_of e ∙ ap some same)))
  from_region no_region e h =
      further (rw (e, control_variable_block) refl) (rw (e, closest_containing_block) at h)
  from_region (with_region w) e h =
      further (rw (e, control_variable_block) refl) (rw (e, closest_containing_block) at h)

pub control_variable_block-BlockFound :
    (id : Identifier) (from : ℕ) (scopes : List Scope) (b : ℕ) (s : AnalysisState)
    → closest_containing_block scopes ≡ some b
    → BlockFound scopes b from s (control_variable_block id from scopes s)
unfolding closest_containing_block
control_variable_block-BlockFound id from [] b s h = absurd (true≢false (cc h))
control_variable_block-BlockFound id from (scope ∷ scopes) b s h =
    from_region id from scope scopes b s
      (control_variable_block-BlockFound id (from + 1) scopes b s) scope.region refl h
