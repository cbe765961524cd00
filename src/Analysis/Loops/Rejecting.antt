-- ===== src/Analysis/Loops/Rejecting.antt =====
-- src/semantics-analyze.cxx: how the parts of the analysis of a for statement end.
use waspas.Base.{
  ℕ, ◌≡◌, subst, sym, true, false, List, [], Option, none, some, Bool-cases, inl, inr,
}
use waspas.Reporting.{ErrorCode, Argument, err, type_mismatch}
use waspas.Parsing.Nodes.{Identifier, RangeDirection}
use waspas.Parsing.Nodes.Expressions.{Expression}
use waspas.Semantics.Types.{PascalType}
use waspas.Semantics.Types.Relations.{is_compatible_with}
use waspas.Semantics.Scopes.{Scope}
use waspas.Semantics.Expressions.{SemExpression}
use waspas.Semantics.Statements.{SemStatement, statement_empty, statement_for}
use waspas.Analysis.{Analysis, AnalysisState, pure, ◌>>=◌, ◌>>◌, report, report_note}
use waspas.Analysis.Running.{bind-some, asserted-some}
use waspas.Analysis.Constants.Lookup.{IsReported, err-IsReported, note_raw-IsReported}
use waspas.Analysis.Values.{value_type}
use waspas.Analysis.Access.{Resolver, type_of_value, expression_view}
use waspas.Analysis.Builder.{StatementBuilder}
use waspas.Analysis.Steps.{Body}
use waspas.Analysis.Loops.{with_control_variable, resolve_limit, resolve_limits_and_body}

-- A run that ends with an error reported.
pub data Rejects {A : Type 0} : Option (A × AnalysisState) → Type 0 where
  rejects : (a : A) (s : AnalysisState) → IsReported s.reporter → Rejects (some (a, s))

-- A run from a state that ends, and forgets no error.
pub data Keeps {A : Type 0} (s : AnalysisState) : Option (A × AnalysisState) → Type 0 where
  keeps :
      (a : A) (s' : AnalysisState)
      → (IsReported s.reporter → IsReported s'.reporter)
      → Keeps s (some (a, s'))

module _ {A B : Type 0} (f : A → Analysis B) where
  pub Rejects-bind :
      (m : Analysis A) (s : AnalysisState)
      → Rejects (m s)
      → ((a : A) (s' : AnalysisState) → IsReported s'.reporter → Rejects (f a s'))
      → Rejects ((m >>= f) s)
  Rejects-bind m s h k = go h
    where
      go :
          {o : Option (A × AnalysisState)}
          → Rejects o
          → Rejects
              (elim o as (λ _. Option (B × AnalysisState)) [ none ↦ none | some p ↦ f p.0 p.1 ])
      go (rejects a s' reported) = k a s' reported

  pub Keeps-bind :
      (m : Analysis A) (s : AnalysisState)
      → Keeps s (m s)
      → ((a : A) (s' : AnalysisState)
          → (IsReported s.reporter → IsReported s'.reporter)
          → Rejects (f a s'))
      → Rejects ((m >>= f) s)
  Keeps-bind m s h k = go h
    where
      go :
          {o : Option (A × AnalysisState)}
          → Keeps s o
          → Rejects
              (elim o as (λ _. Option (B × AnalysisState)) [ none ↦ none | some p ↦ f p.0 p.1 ])
      go (keeps a s' kept) = k a s' kept

pub report-Rejects :
    {A : Type 0} (a : A) (location : ℕ) (code : ErrorCode) (arguments : List Argument)
    (s : AnalysisState)
    → Rejects ((report location code arguments >> pure a) s)
unfolding report
report-Rejects a location code arguments s =
    rejects a _ (err-IsReported location code arguments s.reporter)

-- The same, with a note.
pub noted-Rejects :
    (location note_location : ℕ) (code : ErrorCode) (arguments note_arguments : List Argument)
    (s : AnalysisState)
    → Rejects ((report location code arguments >> report_note note_location note_arguments) s)
unfolding report report_note
noted-Rejects location note_location code arguments note_arguments s = rejects tt _ (
    note_raw-IsReported note_location note_arguments (err location code arguments s.reporter)
      (err-IsReported location code arguments s.reporter))

pub Rejects-Keeps :
    {A : Type 0} {s : AnalysisState} {o : Option (A × AnalysisState)} → Rejects o → Keeps s o
Rejects-Keeps (rejects a s' h) = keeps a s' (λ _. h)

-- What the analysis of an expression does where it works: it ends, with a value type, and forgets no
-- error.
pub data HasType (scopes : List Scope) (s : AnalysisState)
    : Option (SemExpression × AnalysisState) → Type 0 where
  has_type :
      (e : SemExpression) (s' : AnalysisState) (t : PascalType)
      → value_type s' scopes e ≡ some t
      → (IsReported s.reporter → IsReported s'.reporter)
      → HasType scopes s (some (e, s'))

abbrev pub IsSound : (StatementBuilder → Resolver) → List Scope → Expression → Type 0
IsSound resolver scopes node =
    (builder : StatementBuilder) (s : AnalysisState)
    → HasType scopes s (resolver builder scopes node s)

-- A limit is there, or an error is.
data Limited (s : AnalysisState) : Option (Option SemExpression × AnalysisState) → Type 0 where
  limit :
      (e : SemExpression) (s' : AnalysisState)
      → (IsReported s.reporter → IsReported s'.reporter)
      → Limited s (some (some e, s'))
  no_limit : (s' : AnalysisState) → IsReported s'.reporter → Limited s (some (none, s'))

module _ (resolver : StatementBuilder → Resolver) (builder : StatementBuilder)
    (scopes : List Scope) where
  compared : PascalType → Expression → SemExpression → PascalType → Analysis (Option SemExpression)
  compared t node e own = elim (is_compatible_with own t) [
    | true ↦ pure (some e)
    | false ↦ do report (expression_view node).start type_mismatch []; pure none
  ]

  typed : PascalType → Expression → SemExpression → Analysis (Option SemExpression)
  typed t node e = type_of_value scopes e >>= compared t node e

  compared-Limited :
      (t : PascalType) (node : Expression) (e : SemExpression) (own : PascalType)
      (s s' : AnalysisState)
      → (IsReported s.reporter → IsReported s'.reporter)
      → Limited s (compared t node e own s')
  unfolding compared report
  compared-Limited t node e own s s' kept = elim (Bool-cases (is_compatible_with own t)) [
    | inl c ↦ rw (c, compared) (limit e s' kept)
    | inr c ↦
        rw (c, compared)
          (no_limit _ (err-IsReported (expression_view node).start type_mismatch [] s'.reporter))
  ]

  resolve_limit-Limited :
      (t : PascalType) (node : Expression) (s : AnalysisState)
      → IsSound resolver scopes node
      → Limited s (resolve_limit resolver builder scopes t node s)
  unfolding resolve_limit typed compared
  resolve_limit-Limited t node s sound = go (sound builder s)
    where
      go :
          {o : Option (SemExpression × AnalysisState)}
          → HasType scopes s o
          → Limited s (elim o as (λ _. Option (Option SemExpression × AnalysisState)) [
            | none ↦ none
            | some p ↦ typed t node p.0 p.1
          ])
      go (has_type e s' own h kept) =
          subst (Limited s)
            (sym (
              bind-some (type_of_value scopes e) (compared t node e) s' own s'
                (asserted-some (value_type s' scopes e) own s' h)))
            (compared-Limited t node e own s s' kept)

  -- The limits and the body, from a state for which `Known` holds, as it does for every later one.
  module _ (id : Identifier) (t : PascalType) (initial : Expression) (direction : RangeDirection)
      (final : Expression) (body : Body) (first_sound : IsSound resolver scopes initial)
      (final_sound : IsSound resolver scopes final) (Known : AnalysisState → Type 0)
      (later : (s s' : AnalysisState)
        → (IsReported s.reporter → IsReported s'.reporter)
        → Known s
        → Known s')
      (inner : (s : AnalysisState)
        → Known s
        → Rejects (body (with_control_variable id builder) scopes s)) where
    last_part : SemExpression → Option SemExpression → Analysis SemStatement
    last_part first none = pure statement_empty
    last_part first (some last) = body (with_control_variable id builder) scopes >>= λ made.
        pure (statement_for id.spelling first direction last made)

    first_part : Option SemExpression → Analysis SemStatement
    first_part none = pure statement_empty
    first_part (some first) = resolve_limit resolver builder scopes t final >>= last_part first

    first_part-Rejects :
        (first : SemExpression) (s : AnalysisState) → Known s → Rejects (first_part (some first) s)
    unfolding first_part last_part
    first_part-Rejects first s known = go (resolve_limit-Limited t final s final_sound)
      where
        go :
            {o : Option (Option SemExpression × AnalysisState)}
            → Limited s o
            → Rejects (elim o as (λ _. Option (SemStatement × AnalysisState)) [
              | none ↦ none
              | some p ↦ last_part first p.0 p.1
            ])
        go (no_limit s' h) = rejects statement_empty s' h
        go (limit e s' kept) =
            Rejects-bind (λ made. pure (statement_for id.spelling first direction e made))
              (body (with_control_variable id builder) scopes) s' (inner s' (later s s' kept known))
              λ made s2 h. rejects _ s2 h

    pub resolve_limits_and_body-Rejects :
        (s : AnalysisState)
        → Known s
        → Rejects
            (resolve_limits_and_body resolver builder scopes id t initial direction final body s)
    unfolding resolve_limits_and_body first_part last_part
    resolve_limits_and_body-Rejects s known = go (resolve_limit-Limited t initial s first_sound)
      where
        go :
            {o : Option (Option SemExpression × AnalysisState)}
            → Limited s o
            → Rejects (elim o as (λ _. Option (SemStatement × AnalysisState)) [
              | none ↦ none
              | some p ↦ first_part p.0 p.1
            ])
        go (no_limit s' h) = rejects statement_empty s' h
        go (limit e s' kept) = first_part-Rejects e s' (later s s' kept known)
