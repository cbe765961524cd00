-- ===== src/Analysis/Loops/Nested.antt =====
-- src/semantics-analyze.cxx: control variables that other statements use or change.
use waspas.Base.{ℕ, ◌≡◌, ap, ◌∙◌, subst, sym, List, Option, some}
use waspas.Parsing.Nodes.{Identifier, RangeDirection}
use waspas.Parsing.Nodes.Expressions.{Expression}
use waspas.Semantics.Scopes.{Scope, closest_containing_block}
use waspas.Semantics.Blocks.{VariableEntry, find_name}
use waspas.Analysis.{AnalysisState}
use waspas.Analysis.Constants.Lookup.{IsReported}
use waspas.Analysis.Access.{Resolver}
use waspas.Analysis.Builder.{StatementBuilder, ControlVariable}
use waspas.Analysis.Steps.{Body}
use waspas.Analysis.Loops.{with_control_variable, check_no_threat, resolve_for}
use waspas.Analysis.Loops.Rejecting.{
  Rejects, IsSound, Rejects-bind, resolve_limits_and_body-Rejects,
}
use waspas.Analysis.Loops.Variables.{
  changed, resolve_for-Rejects, changed-Keeps, check_no_threat-Rejects,
}

-- The statement in a loop is analyzed, and then forgets no error.
abbrev pub KeepsErrors : Body → StatementBuilder → List Scope → Type 0
KeepsErrors body builder scopes =
    (s : AnalysisState) → IsReported s.reporter → Rejects (body builder scopes s)

-- What a for statement that uses the identifier for control adds to the builder of its body.
abbrev pub used_by : Identifier → ControlVariable
used_by id = record { name = id.spelling; location = id.view.start }

module _ (resolver : StatementBuilder → Resolver) (scopes : List Scope) (b : ℕ)
    (around : closest_containing_block scopes ≡ some b) (id : Identifier) (initial : Expression)
    (direction : RangeDirection) (final : Expression) (body : Body)
    (first_sound : IsSound resolver scopes initial)
    (final_sound : IsSound resolver scopes final) where
  -- The variable has a threat location.
  pub threatened-Rejects :
      (builder : StatementBuilder) (v : VariableEntry) (threat : ℕ) (s : AnalysisState)
      → find_name id.spelling (s.blocks b).variables ≡ some v
      → v.subroutine_threat_location ≡ some threat
      → KeepsErrors body (with_control_variable id builder) scopes
      → Rejects (resolve_for resolver builder scopes id initial direction final body s)
  threatened-Rejects builder v threat s declared threatened inner =
      resolve_for-Rejects resolver builder scopes id initial direction final body b around s
        λ index w at again.
          let same : v ≡ w = cc (declared, again) in
          let has : w.subroutine_threat_location ≡ some threat =
            ap (λ (x : VariableEntry). x.subroutine_threat_location) (sym same) ∙ threatened in
          Rejects-bind
            (λ _. changed resolver builder scopes id initial direction final body b around index w)
            (check_no_threat id.view.start w.subroutine_threat_location) s
            (subst (λ (o : Option ℕ). Rejects (check_no_threat id.view.start o s)) (sym has)
              (check_no_threat-Rejects id.view.start threat s))
            λ _ s1 reported.
              changed-Keeps resolver builder scopes id initial direction final body b around index w
                s1 at
                λ s2 kept2.
                  resolve_limits_and_body-Rejects resolver builder scopes id w.type initial
                    direction final body first_sound final_sound (λ u. IsReported u.reporter)
                    (λ u u' keep h. keep h) inner s2 (kept2 reported)
