-- ===== src/Analysis/Operators/Typing.antt =====
-- src/semantics-analyze.cxx: which operands the operators accept, and the types of the results.
use waspas.Base.{
  ℕ, ◌≡◌, refl, sym, ◌⊎◌, inl, inr, Bool, true, false, ◌&&◌, ◌||◌, [], Option, some, Bool-cases,
  if◌then◌else◌, arith,
}
use waspas.Reporting.{type_mismatch, err}
use waspas.Semantics.Types.{
  PascalType, type_text, type_file, type_array, type_record, same_type, can_be_file_component,
  is_ordinal,
}
use waspas.Semantics.Types.Relations.{
  is_compatible_with, is_assignment_compatible_with, base_is_assignment_compatible_with,
}
use waspas.Semantics.Types.Relations.Laws.{string-can_be, is_compatible_with_refl}
use waspas.Semantics.Types.Relations.Fitting.{IsCoherent, assignable-of_can_be}
use waspas.Semantics.Expressions.{SemExpression, BinaryOperator, expression_binary}
use waspas.Parsing.Nodes.{RelationalOperator}
use waspas.Analysis.{◌>>◌, pure, Analysis, AnalysisState, report}
use waspas.Analysis.Operators.{
  is_pointer, is_simple_or_string, is_comparable, relational_operator, compare_step,
  relational_error, constant_false, Operand, synchronize_operand_types, is_number, is_set,
  common_operator,
}

-- The operands of `*`, `+` and `-` are to be numbers or sets.
abbrev pub is_arithmetic : PascalType → Bool
is_arithmetic t = is_number t || is_set t

-- The right type passes the test if the left one can be assigned to it; if not, the right type can be
-- assigned to the left one, which passes the test.
abbrev pub fits : (PascalType → Bool) → PascalType → PascalType → Bool
fits test l r =
    if is_assignment_compatible_with l r
    then test r
    else is_assignment_compatible_with r l && test l

-- The test of the first synchronized type and the compatibility of the two, as one.
abbrev pub accepted : (PascalType → Bool) → PascalType × PascalType → Bool
accepted test types = test types.0 && is_compatible_with types.0 types.1

and-true_right : (b : Bool) → (b && true) ≡ b
and-true_right true = refl
and-true_right false = refl

-- Types of which neither can be assigned to the other are not accepted.
never :
    (test : PascalType → Bool) (l r : PascalType)
    → IsCoherent l r
    → ((t : PascalType) → test t ≡ true → can_be_file_component t ≡ true)
    → is_assignment_compatible_with l r ≡ false
    → (test l && is_compatible_with l r) ≡ false
never test l r one assignable e = elim (Bool-cases (test l)) [
  | inr bad ↦ rw bad refl
  | inl good ↦ elim (Bool-cases (is_compatible_with l r)) [
    | inr bad ↦ rw (good, bad) refl
    | inl c ↦ cc (assignable-of_can_be l r one (assignable l good) c, e)
  ]
]

-- The synchronized types pass exactly if the rule holds; a type that passes the test can be
-- assigned to itself.
pub accepted-fits :
    (test : PascalType → Bool) (l r : PascalType)
    → IsCoherent l r
    → ((t : PascalType) → test t ≡ true → can_be_file_component t ≡ true)
    → accepted test (synchronize_operand_types l r) ≡ fits test l r
unfolding synchronize_operand_types
accepted-fits test l r one assignable = elim (Bool-cases (is_assignment_compatible_with l r)) [
  | inl e ↦ rw e (rw (is_compatible_with_refl r) (and-true_right (test r)))
  | inr e ↦ elim (Bool-cases (is_assignment_compatible_with r l)) [
    | inl e' ↦ rw (e, e') (rw (is_compatible_with_refl l) (and-true_right (test l)))
    | inr e' ↦ rw (e, e') (never test l r one assignable e)
  ]
]

-- What passes the tests of the operators is no file and has no file in it.
number-can_be : (t : PascalType) → is_number t ≡ true → can_be_file_component t ≡ true
unfolding is_number same_type can_be_file_component
number-can_be type_text h = cc
number-can_be (type_file a component packed) h = ground arith
number-can_be (type_array a index component packed) h = ground arith
number-can_be (type_record a own nested packed) h = ground arith
number-can_be t h = refl

set-can_be : (t : PascalType) → is_set t ≡ true → can_be_file_component t ≡ true
unfolding is_set is_assignment_compatible_with base_is_assignment_compatible_with is_compatible_with
    same_type can_be_file_component
set-can_be type_text h = cc
set-can_be (type_file a component packed) h = ground arith
set-can_be (type_array a index component packed) h = ground arith
set-can_be (type_record a own nested packed) h = ground arith
set-can_be t h = refl

pointer-can_be : (t : PascalType) → is_pointer t ≡ true → can_be_file_component t ≡ true
unfolding is_pointer is_assignment_compatible_with base_is_assignment_compatible_with
    is_compatible_with same_type can_be_file_component
pointer-can_be type_text h = cc
pointer-can_be (type_file a component packed) h = ground arith
pointer-can_be (type_array a index component packed) h = ground arith
pointer-can_be (type_record a own nested packed) h = ground arith
pointer-can_be t h = refl

simple-can_be : (t : PascalType) → is_simple_or_string t ≡ true → can_be_file_component t ≡ true
unfolding is_simple_or_string is_ordinal same_type can_be_file_component
simple-can_be type_text h = cc
simple-can_be (type_file a component packed) h = ground arith
simple-can_be (type_array a index component packed) h = string-can_be index component packed h
simple-can_be (type_record a own nested packed) h = ground arith
simple-can_be t h = refl

or-cases : {P : Type 0} (b c : Bool) → (b ≡ true → P) → (c ≡ true → P) → (b || c) ≡ true → P
or-cases true c f g h = f refl
or-cases false c f g h = g h

arithmetic-can_be : (t : PascalType) → is_arithmetic t ≡ true → can_be_file_component t ≡ true
arithmetic-can_be t = or-cases (is_number t) (is_set t) (number-can_be t) (set-can_be t)

comparable-can_be :
    (op : RelationalOperator) (t : PascalType)
    → is_comparable op t ≡ true
    → can_be_file_component t ≡ true
unfolding is_comparable
comparable-can_be RelationalOperator.equal t =
    or-cases (is_simple_or_string t || is_pointer t) (is_set t)
      (or-cases (is_simple_or_string t) (is_pointer t) (simple-can_be t) (pointer-can_be t))
      (set-can_be t)
comparable-can_be RelationalOperator.not_equal t =
    or-cases (is_simple_or_string t || is_pointer t) (is_set t)
      (or-cases (is_simple_or_string t) (is_pointer t) (simple-can_be t) (pointer-can_be t))
      (set-can_be t)
comparable-can_be RelationalOperator.less t = simple-can_be t
comparable-can_be RelationalOperator.greater t = simple-can_be t
comparable-can_be RelationalOperator.less_or_equal t =
    or-cases (is_simple_or_string t) (is_set t) (simple-can_be t) (set-can_be t)
comparable-can_be RelationalOperator.greater_or_equal t =
    or-cases (is_simple_or_string t) (is_set t) (simple-can_be t) (set-can_be t)
comparable-can_be RelationalOperator.is_in t = λ h. cc h

-- How a step with synchronized types ends: the operator, with no report, or the recovery, with one
-- type mismatch at one of the operands.
pub data Checked (good : Bool) (l r : Operand) (made recovery : SemExpression) (s : AnalysisState)
    : Option (SemExpression × AnalysisState) → Type 0 where
  accepts : good ≡ true → Checked good l r made recovery s (some (made, s))
  rejects :
      (location : ℕ)
      → good ≡ false
      → (location ≡ l.location) ⊎ (location ≡ r.location)
      → Checked good l r made recovery s
          (some (recovery, record s { reporter = err location type_mismatch [] s.reporter }))

abbrev choose :
    Bool → Bool → Operand → Operand → SemExpression → SemExpression → Analysis SemExpression
choose passes compatible l r made recovery = elim passes [
  | false ↦ do report l.location type_mismatch []; pure recovery
  | true ↦ elim compatible [
    | false ↦ do report r.location type_mismatch []; pure recovery
    | true ↦ pure made
  ]
]

checked :
    (good : Bool) (l r : Operand) (made recovery : SemExpression) (s : AnalysisState)
    → (passes compatible : Bool) → (passes && compatible) ≡ good
    → Checked good l r made recovery s (choose passes compatible l r made recovery s)
unfolding report
checked good l r made recovery s true true h = accepts (sym h)
checked good l r made recovery s true false h = rejects r.location (sym h) (inr refl)
checked good l r made recovery s false c h = rejects l.location (sym h) (inl refl)

-- A step for `*`, `+` or `-` ends in any case. It makes the operator, and reports nothing, exactly in
-- one of two cases: the left type can be assigned to the right one, and the right one is a number or a
-- set; or it cannot, but the right type can be assigned to the left one, which is a number or a set.
-- (So an integer with a subrange of integer on its right is rejected.) Else it reports one type
-- mismatch, at one of the operands, and goes on with the left one. The types are single objects.
pub common_operator-Checked :
    (op : BinaryOperator) (l r : Operand) (s : AnalysisState)
    → IsCoherent l.type r.type
    → Checked
        (fits is_arithmetic l.type r.type)
        l
        r
        (expression_binary op l.value r.value)
        l.value
        s
        (common_operator op l r s)
unfolding common_operator
common_operator-Checked op l r s one =
    let types = synchronize_operand_types l.type r.type in
    checked (fits is_arithmetic l.type r.type) l r (expression_binary op l.value r.value) l.value s
      (is_arithmetic types.0) (is_compatible_with types.0 types.1)
      (accepted-fits is_arithmetic l.type r.type one arithmetic-can_be)

-- A comparison ends in any case. It makes the operator, and reports nothing, exactly in one of two
-- cases: the left type can be assigned to the right one, which the operator compares; or it cannot,
-- but the right type can be assigned to the left one, which the operator compares. Else it reports
-- one type mismatch, at one of the operands, and is false. The types are single objects.
pub compare_step-Checked :
    (op : RelationalOperator) (l r : Operand) (s : AnalysisState)
    → IsCoherent l.type r.type
    → Checked
        (fits (is_comparable op) l.type r.type)
        l
        r
        (expression_binary (relational_operator op) l.value r.value)
        constant_false
        s
        (compare_step op l r s)
unfolding compare_step relational_error
compare_step-Checked op l r s one =
    let types = synchronize_operand_types l.type r.type in
    checked (fits (is_comparable op) l.type r.type) l r
      (expression_binary (relational_operator op) l.value r.value) constant_false s
      (is_comparable op types.0) (is_compatible_with types.0 types.1)
      (accepted-fits (is_comparable op) l.type r.type one (comparable-can_be op))
