-- ===== src/Analysis.antt =====
-- src/semantics-analyze.cxx: the analysis of a program. A step takes the state, reports what is
-- wrong, and returns what it makes; `none` is a failed assertion. The printed forms of types
-- are left out of the arguments of the messages.
use waspas.Base.{ℕ, ◌+◌, List, Option, none, some, Bool, ◌==◌, if◌then◌else◌}
use waspas.Reporting.{Reporter, ErrorCode, Argument, err, note_raw}
use waspas.Semantics.Types.{PascalType}
use waspas.Semantics.Blocks.{Block}
pub mod Running
pub mod Constants
pub mod Values
pub mod Operators
pub mod Identifiers
pub mod Access
pub mod Builder
pub mod Subroutines
pub mod Parameters
pub mod Sections
pub mod Factors
pub mod Expressions
pub mod Labels
pub mod Cases
pub mod Steps
pub mod Loops
pub mod Statements

-- The reporter, the address that the next type gets, the blocks by their numbers, and the types of
-- the variables of the with statements so far, by their numbers.
pub record AnalysisState : Type 0 where
  pub reporter : Reporter
  pub next_address : ℕ
  pub blocks : ℕ → Block
  pub withs : List PascalType

abbrev pub Analysis : Type 0 → Type 0
Analysis A = AnalysisState → Option (A × AnalysisState)

abbrev pub pure : {A : Type 0} → A → Analysis A
pure a s = some (a, s)

infixl 5 ◌>>=◌ ◌>>◌
abbrev pub ◌>>=◌ : {A B : Type 0} → Analysis A → (A → Analysis B) → Analysis B
◌>>=◌ m f s = elim (m s) [ none ↦ none | some (a, s') ↦ f a s' ]

abbrev pub ◌>>◌ : {B : Type 0} → Analysis (Unit {0}) → Analysis B → Analysis B
m >> k = m >>= λ _. k

-- A value that the code asserts is there.
abbrev pub asserted : {A : Type 0} → Option A → Analysis A
asserted none s = none
asserted (some a) s = some (a, s)

abbrev pub gets : {A : Type 0} → (AnalysisState → A) → Analysis A
gets f s = some (f s, s)

abbrev pub when : Bool → Analysis (Unit {0}) → Analysis (Unit {0})
when c m s = if c then m s else some (tt, s)

-- `reporter_.err` and `reporter_.note`.
unfoldable pub report : ℕ → ErrorCode → List Argument → Analysis (Unit {0})
unfolding err
report location code arguments s =
    some (tt, record s { reporter = err location code arguments s.reporter })

unfoldable pub report_note : ℕ → List Argument → Analysis (Unit {0})
unfolding note_raw
report_note location arguments s =
    some (tt, record s { reporter = note_raw location arguments s.reporter })

-- `std::make_shared` of a type that takes `size` addresses.
unfoldable pub allocate : ℕ → Analysis ℕ
allocate size s = some (s.next_address, record s { next_address = s.next_address + size })

unfoldable pub change_block : ℕ → (Block → Block) → Analysis (Unit {0})
change_block n f s =
    some (tt, record s { blocks = λ m. if m == n then f (s.blocks m) else s.blocks m })
