-- ===== src/Analysis/Sections/Resolved.antt =====
-- src/semantics-analyze.cxx: what a section of a call is resolved to.
use waspas.Base.{
  arith, ℕ, zero, suc, ◌≤◌, ◌+◌, ◌≡◌, refl, sym, ◌∙◌, subst, ap, Bool, true, false, List, [], ◌∷◌,
  Option, none, some, length, ltb, get_elem?, ◌==◌, Bool-cases, inl, inr, ◌⊎◌, ==_iff,
}
use waspas.Utilities.{Text}
use waspas.Parsing.Nodes.Expressions.{
  ActualParameters, no_actual_parameters, more_actual_parameters, actual_parameter,
}
use waspas.Semantics.Types.{PascalType}
use waspas.Semantics.Signatures.{Signature, is_congruous_with, same_result, result_type}
use waspas.Semantics.Scopes.{Scope}
use waspas.Semantics.Expressions.{
  SubroutineReference, SemExpression, SemAccess, SemExpressions, SemAccesses, no_expressions,
  more_expressions, no_accesses, more_accesses, ActualSections, value_section, variable_section,
}
use waspas.Reporting.{type_mismatch}
use waspas.Analysis.{AnalysisState, pure, ◌>>◌, report, asserted}
use waspas.Analysis.Access.{Resolver, expression_view}
use waspas.Analysis.Subroutines.{is_function, resolve_expression_as_subroutine_reference}
use mathlib.Core.Bool.{true≢false}
use waspas.Analysis.Builder.{StatementBuilder}
use waspas.Analysis.Running.{bind-inv, pure-inv}
use waspas.Analysis.Parameters.{
  count_nodes, drop_nodes, accesses, values, report_missing, check_no_formatting_specification,
}
use waspas.Analysis.Sections.{
  variable_parameters, value_parameters, regular_parameters, resolve_regular_section,
  resolve_subroutine_section, check_reference,
}

abbrev pub count_accesses : SemAccesses → ℕ
count_accesses no_accesses = 0
count_accesses (more_accesses _ rest) = suc (count_accesses rest)

abbrev pub count_expressions : SemExpressions → ℕ
count_expressions no_expressions = 0
count_expressions (more_expressions _ rest) = suc (count_expressions rest)

count-accesses : (l : List SemAccess) → count_accesses (accesses l) ≡ length l
count-accesses [] = refl
count-accesses (a ∷ l) = ap suc (count-accesses l)

count-values : (l : List SemExpression) → count_expressions (values l) ≡ length l
count-values [] = refl
count-values (a ∷ l) = ap suc (count-values l)

count-drop :
    (n : ℕ) (nodes : ActualParameters)
    → n ≤ count_nodes nodes
    → n + count_nodes (drop_nodes n nodes) ≡ count_nodes nodes
unfolding count_nodes drop_nodes
count-drop zero nodes h = omega arith
count-drop (suc n) no_actual_parameters h = omega arith
count-drop (suc n) (more_actual_parameters p nodes) h =
    omega (arith, count-drop n nodes (omega arith))

-- What a section is resolved to, with the parameters that are left.
abbrev pub Taken : Type 0
Taken = Option (ActualSections → ActualSections)

pub data Resolved (names : List Text) : Bool → Taken → Type 0 where
  failed : (b : Bool) → Resolved names b none
  variables :
      (l : SemAccesses)
      → count_accesses l ≡ length names
      → Resolved names true (some (variable_section l))
  values_of :
      (l : SemExpressions)
      → count_expressions l ≡ length names
      → Resolved names false (some (value_section l))

abbrev pub IsSubroutine : Taken → Type 0
IsSubroutine section =
    (section ≡ none)
    ⊎ ((r : SubroutineReference) × (section ≡ some (ActualSections.subroutine_section r)))

module _ (builder : StatementBuilder) (resolver : Resolver) where
  regular_parameters-Resolved :
      (scopes : List Scope) (is_variable : Bool) (names : List Text) (formal : PascalType)
      (nodes : ActualParameters) (s s' : AnalysisState) (section : Taken)
      → regular_parameters builder resolver scopes is_variable (length names) formal nodes s
        ≡ some (section, s')
      → Resolved names is_variable section
  unfolding regular_parameters
  regular_parameters-Resolved scopes true names formal nodes s s' section h =
      let (found, s1, e, e') =
        bind-inv (variable_parameters builder resolver scopes formal none (length names) nodes) _ s
          (section, s') h in
      elim (Bool-cases (length found == length names)) [
        | inl c ↦ subst (Resolved names true) (pure-inv ((rw c at e'))) (
            variables (accesses found)
              (count-accesses found ∙ (==_iff (length found) (length names)).0 c))
        | inr c ↦ subst (Resolved names true) (pure-inv ((rw c at e'))) (failed true)
      ]
  regular_parameters-Resolved scopes false names formal nodes s s' section h =
      let (found, s1, e, e') =
        bind-inv (value_parameters builder resolver scopes formal none (length names) nodes) _ s
          (section, s') h in
      elim (Bool-cases (length found == length names)) [
        | inl c ↦ subst (Resolved names false) (pure-inv ((rw c at e'))) (
            values_of (values found)
              (count-values found ∙ (==_iff (length found) (length names)).0 c))
        | inr c ↦ subst (Resolved names false) (pure-inv ((rw c at e'))) (failed false)
      ]

  same_count :
      (left nodes : ActualParameters)
      → nodes ≡ left
      → ¬ ((count_nodes left == count_nodes nodes) ≡ false)
  same_count left nodes e h = true≢false (
      cc (
        ground_refl (count_nodes nodes),
        ap (λ (l : ActualParameters). count_nodes l == count_nodes nodes) e,
        h,
      ))
    where
      ground_refl : (n : ℕ) → (n == n) ≡ true
      ground_refl n = ground arith

  pub resolve_regular_section-Resolved :
      (scopes : List Scope) (is_variable : Bool) (names : List Text) (formal : PascalType)
      (nodes left : ActualParameters) (end_location : ℕ) (s s' : AnalysisState) (section : Taken)
      → resolve_regular_section builder resolver scopes is_variable names formal nodes end_location
          s
        ≡ some ((section, left), s')
      → (count_nodes left == count_nodes nodes) ≡ false
      → Resolved names is_variable section × (length names + count_nodes left ≡ count_nodes nodes)
  unfolding resolve_regular_section
  resolve_regular_section-Resolved scopes is_variable names formal nodes left end_location s s'
        section h differs =
      elim (Bool-cases (ltb (count_nodes nodes) (length names))) [
        | inl c ↦
            let (name, s1, e, e') =
              bind-inv (asserted (get_elem? names (count_nodes nodes)))
                (λ name.
                  report_missing end_location name
                  >> pure {A = Taken × ActualParameters} (none, nodes))
                s ((section, left), s') (rw (c, resolve_regular_section) at h) in
            let (u, s2, d, d') =
              bind-inv (report_missing end_location name) (λ _. pure (none, nodes)) s1
                ((section, left), s') e' in
            absurd (
              same_count left nodes (ap (λ (p : Taken × ActualParameters). p.1) (pure-inv d'))
                differs)
        | inr c ↦
            let (found, s1, e, e') =
              bind-inv
                (regular_parameters builder resolver scopes is_variable (length names) formal nodes)
                (λ found. pure (found, drop_nodes (length names) nodes)) s ((section, left), s')
                (rw (c, resolve_regular_section) at h) in
            let r : found ≡ section = ap (λ (p : Taken × ActualParameters). p.0) (pure-inv e') in
            let d : drop_nodes (length names) nodes ≡ left =
              ap (λ (p : Taken × ActualParameters). p.1) (pure-inv e') in
            (
              subst (Resolved names is_variable) r
                  (regular_parameters-Resolved scopes is_variable names formal nodes s s1 found e),
              subst (λ l. length names + count_nodes l ≡ count_nodes nodes) d
                  (count-drop (length names) nodes (not_less (count_nodes nodes) (length names) c)),
            )
      ]
    where
      not_less : (a b : ℕ) → ltb a b ≡ false → b ≤ a
      not_less a b k = ground arith

  mismatch-IsSubroutine :
      (location : ℕ) (s s' : AnalysisState) (made : Taken)
      → (report location type_mismatch [] >> pure {A = Taken} none) s ≡ some (made, s')
      → IsSubroutine made
  unfolding report
  mismatch-IsSubroutine location s s' made h = inl (sym (pure-inv (h)))

  check_reference-IsSubroutine :
      (formal : Signature) (location : ℕ) (found : Option (SubroutineReference × Signature))
      (s s' : AnalysisState) (made : Taken)
      → check_reference builder resolver formal location found s ≡ some (made, s')
      → IsSubroutine made
  unfolding check_reference
  check_reference-IsSubroutine formal location none s s' made h = inl (sym (pure-inv (h)))
  check_reference-IsSubroutine formal location (some (r, own)) s s' made h =
      elim (Bool-cases (is_congruous_with own formal)) [
        | inr c ↦ mismatch-IsSubroutine location s s' made (rw (c, check_reference) at h)
        | inl c ↦ elim (Bool-cases (same_result (result_type own) (result_type formal))) [
          | inr d ↦
              mismatch-IsSubroutine location s s' made
                (rw (d, check_reference) at (rw (c, check_reference) at h))
          | inl d ↦
              inr (r, sym (pure-inv ((rw (d, check_reference) at (rw (c, check_reference) at h)))))
        ]
      ]

  pub resolve_subroutine_section-IsSubroutine :
      (scopes : List Scope) (name : Text) (formal : Signature) (nodes left : ActualParameters)
      (end_location : ℕ) (s s' : AnalysisState) (section : Taken)
      → resolve_subroutine_section builder resolver scopes name formal nodes end_location s
        ≡ some ((section, left), s')
      → (count_nodes left == count_nodes nodes) ≡ false
      → IsSubroutine section × (suc (count_nodes left) ≡ count_nodes nodes)
  unfolding resolve_subroutine_section count_nodes check_reference
  resolve_subroutine_section-IsSubroutine scopes name formal no_actual_parameters left end_location
        s s' section h differs =
      let (u, s2, d, d') =
        bind-inv (report_missing end_location name) (λ _. pure (none, no_actual_parameters)) s
          ((section, left), s') h in
      absurd (
        same_count left no_actual_parameters
          (ap (λ (p : Taken × ActualParameters). p.1) (pure-inv d')) differs)
  resolve_subroutine_section-IsSubroutine scopes name formal
        (more_actual_parameters (actual_parameter view node formatting) nodes) left end_location s
        s' section h differs =
      let (u, s1, e, e1) = bind-inv (check_no_formatting_specification formatting) _ s _ h in
      let (found, s2, e', e2) =
        bind-inv (resolve_expression_as_subroutine_reference (is_function formal) scopes node) _ s1
          _ e1 in
      let (made, s3, d, e3) =
        bind-inv (check_reference builder resolver formal (expression_view node).start found)
          (λ made. pure (made, nodes)) s2 _ e2 in
      (
        subst IsSubroutine (ap (λ (p : Taken × ActualParameters). p.0) (pure-inv e3))
            (check_reference-IsSubroutine formal (expression_view node).start found s2 s3 made d),
        ap (λ (p : Taken × ActualParameters). suc (count_nodes p.1)) (sym (pure-inv e3)),
      )
