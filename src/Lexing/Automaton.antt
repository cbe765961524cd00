-- ===== src/Lexing/Automaton.antt =====
-- src/lexing.cxx: `lexOne`, a run of one of the two table-driven automata. The tables are made by
-- the build, so they are a parameter; a class `T` whose `makeResult<T>` a state points to is a
-- value of the type `K`.
use waspas.Base.{
  ℕ, suc, ◌+◌, ◌-◌, ◌≡◌, ◌≢◌, Bool, true, false, List, [], ◌∷◌, Option, none, some, length,
  get_elem?, take, drop, ltb, ◌==◌, ◌||◌, if◌then◌else◌,
}
use waspas.Utilities.{Text, to_upper}
use waspas.Lexing.Tokens.{StringView}
pub mod Munch

-- `State<R>` of the generated tables; `result` is the class of its `result_factory`.
pub record State (K : Type 0) : Type 0 where
  pub transition_min_c : ℕ
  pub transition_max_c : ℕ
  pub transitions_offset : ℕ
  pub result : Option K

pub record Automaton (K : Type 0) : Type 0 where
  pub states : List (State K)
  pub transitions : List ℕ

unfoldable pub remove_prefix : ℕ → StringView → StringView
remove_prefix n v = record { location = v.location + n; text = drop n v.text }

unfoldable pub substr : StringView → ℕ → StringView
substr v n = record { location = v.location; text = take n v.text }

module _ {K : Type 0} (a : Automaton K) where
  -- The entry of the transition table: `none` reads outside it, `some none` leaves the loop.
  unfoldable pub new_state_index : State K → ℕ → Option (Option ℕ)
  new_state_index state char =
      let c = to_upper char in
      if ltb c state.transition_min_c || ltb state.transition_max_c c
      then some none
      else elim (get_elem? a.transitions
          (state.transitions_offset + (c - state.transition_min_c))) [
            | none ↦ none
            | some index ↦ if index == 255 then some none else some (some index)
          ]

  unfoldable pub enter : Option (Option ℕ) → Option (Option (State K))
  enter none = none
  enter (some none) = some none
  enter (some (some index)) = elim (get_elem? a.states index) [
    | none ↦ none
    | some new_state ↦ some (some new_state)
  ]

  -- One round of the loop: `none` reads outside a table, `some none` leaves the loop.
  unfoldable pub transition : State K → ℕ → Option (Option (State K))
  unfolding new_state_index enter
  transition state char = enter (new_state_index state char)

  -- The loop, at the index `i`, with what stands before it in `result` and `token_end_index`.
  unfoldable pub scan : Text → ℕ → State K → Option K → ℕ → Option (Option K × ℕ)
  scan [] i state result token_end_index = some (result, token_end_index)
  scan (c ∷ rest) i state result token_end_index = elim (transition state c) [
    | none ↦ none
    | some none ↦ some (result, token_end_index)
    | some (some new_state) ↦ elim new_state.result [
      | none ↦ scan rest (i + 1) new_state result token_end_index
      | some k ↦ scan rest (i + 1) new_state (some k) (i + 1)
    ]
  ]

  -- The generator's tables: there is an initial state, and no run leaves the tables.
  pub record IsClosed : Type 0 where
    pub initial : State K
    pub initial_lem : get_elem? a.states 0 ≡ some initial
    pub inside :
        (i : ℕ) (s : State K) → get_elem? a.states i ≡ some s → (c : ℕ) → transition s c ≢ none

-- `R{}` is `default`, and `make` is `makeResult`.
unfoldable pub lex_one :
    {K R : Type 0} → Automaton K → (K → StringView → R) → R → StringView → Option R
unfolding scan substr
lex_one a make default source_fragment = elim (get_elem? a.states 0) [
  | none ↦ none
  | some state ↦ elim (scan a source_fragment.text 0 state state.result 0) [
    | none ↦ none
    | some (none, _) ↦ some default
    | some (some k, token_end_index) ↦ some (make k (substr source_fragment token_end_index))
  ]
]
