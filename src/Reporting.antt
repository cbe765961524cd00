-- ===== src/Reporting.antt =====
-- src/reporting.ixx: `LineIndexer`, which turns offsets into lines and columns, and `Reporter`,
-- which prints diagnostics or holds them back. A `const char *` location is its offset in the
-- source. What std::format makes of a message is left out: a message keeps its arguments.
use waspas.Base.{
  ℕ, zero, suc, ◌+◌, ◌-◌, Bool, true, false, List, [], ◌∷◌, ◌++◌, Option, none, some, length,
  get_elem?, drop, leb, ◌==◌, if◌then◌else◌,
}
use mathlib.Core.Option
use waspas.Utilities.{Text}
pub mod Locate
pub mod Hold

-- The codes of `namespace ec`.
pub data ErrorCode : Type 0 where
  ambiguous_label circular_definition disallowed_file_component disallowed_goto_target : ErrorCode
  disallowed_parameter_form disallowed_parameter_type disallowed_result_type : ErrorCode
  duplicate_case duplicate_identifier duplicate_label duplicate_program_parameter : ErrorCode
  duplicate_subroutine_declaration invalid_component_access invalid_directive : ErrorCode
  invalid_integer invalid_label invalid_real invalid_token inverted_subrange_bounds : ErrorCode
  mismatched_subroutine_declaration missing_case missing_delayed_declaration : ErrorCode
  missing_forward_declaration missing_program_parameter_variable : ErrorCode
  missing_result_assignment missing_separator non_array_type non_ascii_char : ErrorCode
  non_boolean_type non_integer_type non_numeric_type non_ordinal_type non_record_type : ErrorCode
  non_set_type out_of_range parameter_count_mismatch threatened_control_variable : ErrorCode
  too_many_elements type_mismatch undefined_identifier undefined_label : ErrorCode
  unexpected_token unused_label use_before_definition wrong_identifier_kind : ErrorCode
  unsupported_feature : ErrorCode

pub record Locus : Type 0 where
  pub line : ℕ
  pub column : ℕ

-- `std::string_view::find` of one character, from the position `at`, in the text from there on.
unfoldable pub find_in : ℕ → ℕ → Text → Option ℕ
find_in at c [] = none
find_in at c (d ∷ s) = if d == c then some at else find_in (at + 1) c s

unfoldable pub find_from : Text → ℕ → ℕ → Option ℕ
unfolding find_in
find_from source c pos = find_in pos c (drop pos source)

-- The loop of the constructor of `LineIndexer`; each round finds one more newline.
unfoldable pub line_starts_loop : ℕ → Text → ℕ → List ℕ
unfolding find_from
line_starts_loop zero source line_start = []
line_starts_loop (suc fuel) source line_start = elim (find_from source 10 line_start) [
  | none ↦ []
  | some newline_index ↦ (newline_index + 1) ∷ line_starts_loop fuel source (newline_index + 1)
]

unfoldable pub line_starts : Text → List ℕ
unfolding line_starts_loop
line_starts source = 0 ∷ line_starts_loop (length source) source 0

-- `std::ranges::upper_bound` of a sorted range: how many elements are not above the value.
unfoldable pub upper_bound : List ℕ → ℕ → ℕ
upper_bound [] v = 0
upper_bound (x ∷ xs) v = elim (leb x v) [ true ↦ suc (upper_bound xs v) | false ↦ 0 ]

unfoldable pub get_locus_for_offset : List ℕ → ℕ → Option Locus
unfolding upper_bound
get_locus_for_offset starts offset =
    let it = upper_bound starts offset - 1 in
    Option.map (λ start. record { line = it; column = offset - start }) (get_elem? starts it)

pub data Argument : Type 0 where
  text : Text → Argument
  number : ℕ → Argument

pub data Message : Type 0 where
  error : ℕ → ErrorCode → List Argument → Message
  note : ℕ → List Argument → Message

-- `printed` is what has gone to the standard error stream, the oldest message first.
pub record Reporter : Type 0 where
  pub had_errors : Bool
  pub holding : Bool
  pub held_messages : List Message
  pub held_had_errors : Bool
  pub printed : List Message

unfoldable pub initial_reporter : Reporter
initial_reporter = record {
  had_errors = false;
  holding = false;
  held_messages = [];
  held_had_errors = false;
  printed = [];
}

unfoldable pub emit : Message → Reporter → Reporter
emit m r =
    if r.holding
    then record r { held_messages = r.held_messages ++ m ∷ [] }
    else record r { printed = r.printed ++ m ∷ [] }

unfoldable pub err : ℕ → ErrorCode → List Argument → Reporter → Reporter
unfolding emit
err location code arguments r =
    let s = emit (error location code arguments) r in
    if s.holding then record s { held_had_errors = true } else record s { had_errors = true }

unfoldable pub note_raw : ℕ → List Argument → Reporter → Reporter
unfolding emit
note_raw location arguments r = emit (note location arguments) r

-- `none` is a failed assertion.
unfoldable pub hold : Reporter → Option Reporter
hold r = if r.holding then none else some (record r { holding = true })

unfoldable pub unhold_discard : Reporter → Option Reporter
unhold_discard r =
    if r.holding
    then some (record r { held_messages = []; held_had_errors = false; holding = false })
    else none

unfoldable pub unhold : Reporter → Option Reporter
unfolding unhold_discard
unhold r =
    if r.holding
    then unhold_discard (record r {
      printed = r.printed ++ r.held_messages;
      had_errors = if r.held_had_errors then true else r.had_errors;
    })
    else none
