-- ===== src/Analysis/Loops/Variables.antt =====
-- src/semantics-analyze.cxx: the control variable of a for statement.
use waspas.Base.{
  ℕ, ◌≡◌, refl, subst, sym, true, List, [], ◌∷◌, Option, none, some, ◌==◌, Bool-cases, Option-cases,
  inl, inr, arith,
}
use waspas.Utilities.{Text}
use waspas.Reporting.{text, threatened_control_variable, undefined_identifier, non_ordinal_type}
use waspas.Parsing.Nodes.{Identifier, RangeDirection}
use waspas.Parsing.Nodes.Expressions.{Expression}
use waspas.Semantics.Types.{is_ordinal}
use waspas.Semantics.Scopes.{Scope, closest_containing_block}
use waspas.Semantics.Blocks.{VariableEntry, find_name}
use waspas.Semantics.Expressions.{access_variable_id}
use waspas.Semantics.Statements.{SemStatement, statement_empty}
use waspas.Analysis.{Analysis, AnalysisState, pure, ◌>>=◌, ◌>>◌, asserted, report}
use waspas.Analysis.Constants.Lookup.{IsReported}
use waspas.Analysis.Access.{Resolver}
use waspas.Analysis.Builder.{
  StatementBuilder, ControlVariable, find_control_variable, block_number, threaten_here,
  threaten_variable,
}
use waspas.Analysis.Steps.{Body}
use waspas.Analysis.Loops.{
  check_no_threat, resolve_limits_and_body, resolve_for_variable, resolve_for,
}
use waspas.Analysis.Loops.Rejecting.{
  Rejects, rejects, Keeps, keeps, Rejects-bind, Keeps-bind, report-Rejects, noted-Rejects,
  Rejects-Keeps,
}
use waspas.Analysis.Loops.Search.{BlockFound, hidden, found, control_variable_block-BlockFound}

-- In the block of the variable its name decides.
threaten_variable-here_lem :
    (builder : StatementBuilder) (scopes : List Scope) (id : Text) (index location b : ℕ)
    (s : AnalysisState)
    → closest_containing_block scopes ≡ some b
    → block_number scopes index ≡ some b
    → threaten_variable builder scopes (access_variable_id id index) location s
      ≡ threaten_here builder id location s
unfolding threaten_variable
threaten_variable-here_lem builder scopes id index location b s around defines =
    let same : (b == b) ≡ true = ground arith in
    rw (around, threaten_variable) (rw (defines, asserted) (rw (same, ◌>>=◌) refl))

pub threaten_here-Rejects :
    (builder : StatementBuilder) (id : Text) (location : ℕ) (v : ControlVariable)
    (s : AnalysisState)
    → find_control_variable id builder.used_control_variables ≡ some v
    → Rejects (threaten_here builder id location s)
unfolding threaten_here
threaten_here-Rejects builder id location v s used =
    rw (used, threaten_here)
      (noted-Rejects location v.location threatened_control_variable [] (text v.name ∷ []) s)

threaten_here-Keeps :
    (builder : StatementBuilder) (id : Text) (location : ℕ) (s : AnalysisState)
    → Keeps s (threaten_here builder id location s)
unfolding threaten_here
threaten_here-Keeps builder id location s =
    elim (Option-cases (find_control_variable id builder.used_control_variables)) [
      | inl e ↦ rw (e, threaten_here) (keeps tt s (λ h. h))
      | inr (v, e) ↦ Rejects-Keeps (threaten_here-Rejects builder id location v s e)
    ]

pub check_no_threat-Rejects :
    (location threat : ℕ) (s : AnalysisState) → Rejects (check_no_threat location (some threat) s)
unfolding check_no_threat
check_no_threat-Rejects location threat s =
    noted-Rejects location threat threatened_control_variable [] [] s

pub check_no_threat-Keeps :
    (location : ℕ) (threat : Option ℕ) (s : AnalysisState)
    → Keeps s (check_no_threat location threat s)
unfolding check_no_threat
check_no_threat-Keeps location none s = keeps tt s (λ h. h)
check_no_threat-Keeps location (some threat) s =
    Rejects-Keeps (check_no_threat-Rejects location threat s)

module _ (resolver : StatementBuilder → Resolver) (builder : StatementBuilder) (scopes : List Scope)
    (id : Identifier) (initial : Expression) (direction : RangeDirection) (final : Expression)
    (body : Body) (b : ℕ) (around : closest_containing_block scopes ≡ some b) where
  -- What comes behind the test of the variable's type.
  abbrev pub changed : ℕ → VariableEntry → Analysis SemStatement
  changed index v =
      threaten_variable builder scopes (access_variable_id id.spelling index) id.view.start
      >> resolve_limits_and_body resolver builder scopes id v.type initial direction final body

  abbrev pub checked : ℕ → VariableEntry → Analysis SemStatement
  checked index v = check_no_threat id.view.start v.subroutine_threat_location >> changed index v

  of_variable : ℕ → Option VariableEntry → Analysis SemStatement
  of_variable index none = do report id.view.start undefined_identifier []; pure statement_empty
  of_variable index (some v) =
      resolve_for_variable resolver builder scopes id index v initial direction final body

  in_block : Option (ℕ × ℕ) → Analysis SemStatement
  in_block none s = pure statement_empty s
  in_block (some p) s = of_variable p.1 (find_name id.spelling (s.blocks p.0).variables) s

  ordinal-Rejects :
      (index : ℕ) (v : VariableEntry) (s : AnalysisState)
      → Rejects (checked index v s)
      → Rejects
          (resolve_for_variable resolver builder scopes id index v initial direction final body s)
  unfolding resolve_for_variable
  ordinal-Rejects index v s h = elim (Bool-cases (is_ordinal v.type)) [
    | inl good ↦ rw (good, resolve_for_variable) h
    | inr bad ↦
        rw (bad, resolve_for_variable)
          (report-Rejects statement_empty id.view.start non_ordinal_type [] s)
  ]

  of_variable-Rejects :
      (index : ℕ) (o : Option VariableEntry) (s : AnalysisState)
      → ((v : VariableEntry) → o ≡ some v → Rejects (checked index v s))
      → Rejects (of_variable index o s)
  unfolding of_variable
  of_variable-Rejects index none s h =
      report-Rejects statement_empty id.view.start undefined_identifier [] s
  of_variable-Rejects index (some v) s h = ordinal-Rejects index v s (h v refl)

  -- A for statement is rejected if it is rejected wherever its variable is found and ordinal.
  pub resolve_for-Rejects :
      (s : AnalysisState)
      → ((index : ℕ) (v : VariableEntry)
          → block_number scopes index ≡ some b
          → find_name id.spelling (s.blocks b).variables ≡ some v
          → Rejects (checked index v s))
      → Rejects (resolve_for resolver builder scopes id initial direction final body s)
  unfolding resolve_for in_block of_variable
  resolve_for-Rejects s h = go (control_variable_block-BlockFound id 0 scopes b s around)
    where
      go :
          {o : Option (Option (ℕ × ℕ) × AnalysisState)}
          → BlockFound scopes b 0 s o
          → Rejects (elim o as (λ _. Option (SemStatement × AnalysisState)) [
            | none ↦ none
            | some p ↦ in_block p.0 p.1
          ])
      go (hidden s' e) = rejects statement_empty s' e
      go (found k index sum at) =
          let same : k ≡ index = omega arith in
          of_variable-Rejects index (find_name id.spelling (s.blocks b).variables) s
            λ v e. h index v (subst (λ n. block_number scopes n ≡ some b) same at) e

  -- The change by the statement itself is rejected if a statement around uses the variable.
  pub changed-Rejects :
      (index : ℕ) (v : VariableEntry) (s : AnalysisState)
      → block_number scopes index ≡ some b
      → Rejects (threaten_here builder id.spelling id.view.start s)
      → ((s' : AnalysisState)
          → IsReported s'.reporter
          → Rejects (
              resolve_limits_and_body resolver builder scopes id v.type initial direction final body
                s'))
      → Rejects (changed index v s)
  changed-Rejects index v s at h more =
      Rejects-bind
        (λ _.
          resolve_limits_and_body resolver builder scopes id v.type initial direction final body)
        (threaten_variable builder scopes (access_variable_id id.spelling index) id.view.start) s
        (subst Rejects
          (sym (
            threaten_variable-here_lem builder scopes id.spelling index id.view.start b s around
              at))
          h)
        (λ _ s' e. more s' e)

  pub changed-Keeps :
      (index : ℕ) (v : VariableEntry) (s : AnalysisState)
      → block_number scopes index ≡ some b
      → ((s' : AnalysisState)
          → (IsReported s.reporter → IsReported s'.reporter)
          → Rejects (
              resolve_limits_and_body resolver builder scopes id v.type initial direction final body
                s'))
      → Rejects (changed index v s)
  changed-Keeps index v s at more =
      Keeps-bind
        (λ _.
          resolve_limits_and_body resolver builder scopes id v.type initial direction final body)
        (threaten_variable builder scopes (access_variable_id id.spelling index) id.view.start) s
        (subst (Keeps s)
          (sym (
            threaten_variable-here_lem builder scopes id.spelling index id.view.start b s around
              at))
          (threaten_here-Keeps builder id.spelling id.view.start s))
        (λ _ s' e. more s' e)
