-- ===== src/Analysis/Sections/Complete.antt =====
-- src/semantics-analyze.cxx: a call whose sections are all there has all its parameters.
use waspas.Base.{
  arith, ℕ, suc, ◌≤◌, ◌+◌, ◌≡◌, sym, subst, Bool, true, false, List, some, length, ◌==◌, Bool-cases,
  inl, inr,
}
use waspas.Utilities.{Text}
use waspas.Parsing.Nodes.Expressions.{ActualParameters}
use waspas.Semantics.Types.{PascalType}
use waspas.Semantics.Signatures.{
  Signature, ParameterSections, no_sections, regular_section, subroutine_section, count_sections,
  parameters,
}
use waspas.Semantics.Scopes.{Scope}
use waspas.Semantics.Expressions.{ActualSections, value_section, variable_section}
use waspas.Analysis.{Analysis, AnalysisState, pure, ◌>>=◌}
use waspas.Analysis.Access.{Resolver}
use waspas.Analysis.Builder.{StatementBuilder}
use waspas.Analysis.Running.{bind-inv, pure-inv}
use waspas.Analysis.Parameters.{count_nodes, check_no_extraneous_parameter}
use waspas.Analysis.Sections.{
  put, resolve_regular_section, resolve_subroutine_section, resolve_sections,
  resolve_actual_parameters,
}
use waspas.Analysis.Sections.Resolved.{
  count_accesses, count_expressions, Taken, Resolved, failed, variables, values_of, IsSubroutine,
  resolve_regular_section-Resolved, resolve_subroutine_section-IsSubroutine,
}

abbrev pub count_actual : ActualSections → ℕ
count_actual ActualSections.no_sections = 0
count_actual (value_section _ rest) = suc (count_actual rest)
count_actual (variable_section _ rest) = suc (count_actual rest)
count_actual (ActualSections.subroutine_section _ rest) = suc (count_actual rest)

-- The number of parameters of a call.
abbrev pub count_parameters : ParameterSections → ℕ
count_parameters no_sections = 0
count_parameters (regular_section _ names _ rest) = length names + count_parameters rest
count_parameters (subroutine_section _ _ rest) = suc (count_parameters rest)

-- Each section of the call is of the kind of the formal one, with one parameter for each name.
abbrev pub IsComplete : ParameterSections → ActualSections → Type 0
IsComplete no_sections ActualSections.no_sections = Unit
IsComplete (regular_section true names _ rest) (variable_section l more) =
    (count_accesses l ≡ length names) × IsComplete rest more
IsComplete (regular_section false names _ rest) (value_section l more) =
    (count_expressions l ≡ length names) × IsComplete rest more
IsComplete (subroutine_section _ _ rest) (ActualSections.subroutine_section _ more) =
    IsComplete rest more
IsComplete _ _ = true ≡ false

-- What the sections after it add is all that is left to compare.
IsFilled : ParameterSections → ActualParameters → ActualSections → Type 0
IsFilled formal nodes made =
    (count_actual made ≤ count_sections formal)
    × (count_actual made ≡ count_sections formal
        → IsComplete formal made × (count_parameters formal ≤ count_nodes nodes))

module _ (builder : StatementBuilder) (resolver : Resolver) where
  fill_regular :
      (b : Bool) (names : List Text) (type : PascalType) (rest : ParameterSections)
      (nodes left : ActualParameters) (others : ActualSections) (section : Taken)
      → Resolved names b section
      → length names + count_nodes left ≡ count_nodes nodes
      → IsFilled rest left others
      → IsFilled (regular_section b names type rest) nodes (put builder resolver section others)
  unfolding IsFilled count_sections
  fill_regular b names type rest nodes left others section (failed _) taken (most, all) =
      (omega arith, λ e. absurd (omega (arith, e, most)))
  fill_regular b names type rest nodes left others section (variables l e) taken (most, all) = (
    omega (arith, most),
    λ c.
        let (complete, enough) = all (omega (arith, c)) in
        ((e, complete), omega (arith, taken, enough)),
  )
  fill_regular b names type rest nodes left others section (values_of l e) taken (most, all) = (
    omega (arith, most),
    λ c.
        let (complete, enough) = all (omega (arith, c)) in
        ((e, complete), omega (arith, taken, enough)),
  )

  fill_subroutine :
      (name : Text) (formal : Signature) (rest : ParameterSections) (nodes left : ActualParameters)
      (others : ActualSections) (section : Taken)
      → IsSubroutine section
      → suc (count_nodes left) ≡ count_nodes nodes
      → IsFilled rest left others
      → IsFilled (subroutine_section name formal rest) nodes (put builder resolver section others)
  unfolding IsFilled count_sections
  fill_subroutine name formal rest nodes left others section (inl e) taken (most, all) =
      subst
        (λ (t : Taken).
          IsFilled (subroutine_section name formal rest) nodes (put builder resolver t others))
        (sym e) (omega (arith, most), λ c. absurd (omega (arith, c, most)))
  fill_subroutine name formal rest nodes left others section (inr (r, e)) taken (most, all) =
      subst
        (λ (t : Taken).
          IsFilled (subroutine_section name formal rest) nodes (put builder resolver t others))
        (sym e)
        (
          omega (arith, most),
          λ c.
              let (complete, enough) = all (omega (arith, c)) in
              (complete, omega (arith, taken, enough)),
        )

  -- What the loop does after a section.
  tail :
      ℕ
      → List Scope
      → ParameterSections
      → ActualParameters
      → Taken × ActualParameters
      → Analysis ActualSections
  tail end_location scopes rest nodes found = elim (count_nodes found.1 == count_nodes nodes) [
    | true ↦ pure ActualSections.no_sections
    | false ↦ resolve_sections builder resolver scopes rest found.1 end_location >>= λ others.
        pure (put builder resolver found.0 others)
  ]

  tail-IsFilled :
      (end_location : ℕ) (scopes : List Scope) (formal rest : ParameterSections)
      (nodes : ActualParameters) (found : Taken × ActualParameters) (made : ActualSections)
      (s s' : AnalysisState)
      → tail end_location scopes rest nodes found s ≡ some (made, s')
      → IsFilled formal nodes ActualSections.no_sections
      → ((count_nodes found.1 == count_nodes nodes) ≡ false
          → (others : ActualSections) (s2 : AnalysisState)
          → resolve_sections builder resolver scopes rest found.1 end_location s ≡ some (others, s2)
          → IsFilled formal nodes (put builder resolver found.0 others))
      → IsFilled formal nodes made
  unfolding tail
  tail-IsFilled end_location scopes formal rest nodes found made s s' h stopped more =
      elim (Bool-cases (count_nodes found.1 == count_nodes nodes)) [
        | inl c ↦ subst (IsFilled formal nodes) (pure-inv ((rw (c, tail) at h))) stopped
        | inr c ↦
            let (others, s2, d, d') =
              bind-inv (resolve_sections builder resolver scopes rest found.1 end_location)
                (λ others. pure (put builder resolver found.0 others)) s (made, s')
                (rw (c, tail) at h) in
            subst (IsFilled formal nodes) (pure-inv (d')) (more c others s2 d)
      ]

  resolve_sections-IsFilled :
      (scopes : List Scope) (formal : ParameterSections) (nodes : ActualParameters)
      (end_location : ℕ) (s s' : AnalysisState) (made : ActualSections)
      → resolve_sections builder resolver scopes formal nodes end_location s ≡ some (made, s')
      → IsFilled formal nodes made
  unfolding resolve_sections count_sections IsFilled tail
  resolve_sections-IsFilled scopes no_sections nodes end_location s s' made h =
      let (u, s1, e, e') =
        bind-inv (check_no_extraneous_parameter nodes) (λ _. pure ActualSections.no_sections) s
          (made, s') h in
      subst (IsFilled no_sections nodes) (pure-inv (e')) (omega arith, λ _. (tt, omega arith))
  resolve_sections-IsFilled scopes (regular_section b names type rest) nodes end_location s s' made
        h =
      let (found, s1, e, e') =
        bind-inv (resolve_regular_section builder resolver scopes b names type nodes end_location)
          (tail end_location scopes rest nodes) s (made, s') h in
      tail-IsFilled end_location scopes (regular_section b names type rest) rest nodes found made s1
        s' e' (omega arith, λ c. absurd (omega (arith, c)))
        (λ c others s2 d.
          let (kind, taken) =
            resolve_regular_section-Resolved builder resolver scopes b names type nodes found.1
              end_location s s1 found.0 e c in
          fill_regular b names type rest nodes found.1 others found.0 kind taken
            (resolve_sections-IsFilled scopes rest found.1 end_location s1 s2 others d))
  resolve_sections-IsFilled scopes (subroutine_section name formal rest) nodes end_location s s'
        made h =
      let (found, s1, e, e') =
        bind-inv (resolve_subroutine_section builder resolver scopes name formal nodes end_location)
          (tail end_location scopes rest nodes) s (made, s') h in
      tail-IsFilled end_location scopes (subroutine_section name formal rest) rest nodes found made
        s1 s' e' (omega arith, λ c. absurd (omega (arith, c)))
        (λ c others s2 d.
          let (kind, taken) =
            resolve_subroutine_section-IsSubroutine builder resolver scopes name formal nodes
              found.1 end_location s s1 found.0 e c in
          fill_subroutine name formal rest nodes found.1 others found.0 kind taken
            (resolve_sections-IsFilled scopes rest found.1 end_location s1 s2 others d))

-- A call that has a section for each section of the signature has one of the same kind, with one
-- parameter for each name, and there were at least as many actual parameters as formal ones.
pub resolve_actual_parameters-IsComplete :
    (builder : StatementBuilder) (resolver : Resolver) (scopes : List Scope) (formal : Signature)
    (nodes : ActualParameters) (end_location : ℕ) (s s' : AnalysisState) (made : ActualSections)
    → resolve_actual_parameters builder resolver scopes formal nodes end_location s
      ≡ some (made, s')
    → count_actual made ≡ count_sections (parameters formal)
    → IsComplete (parameters formal) made
      × (count_parameters (parameters formal) ≤ count_nodes nodes)
unfolding resolve_actual_parameters IsFilled
resolve_actual_parameters-IsComplete builder resolver scopes formal nodes end_location s s' made h
      all =
    (resolve_sections-IsFilled builder resolver scopes (parameters formal) nodes end_location s s'
        made h).1
      all
