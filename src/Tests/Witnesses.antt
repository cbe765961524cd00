-- ===== src/Tests/Witnesses.antt =====
-- The theorems at concrete inputs: tables for a one-token language, a small source text, and the
-- tokens of the smallest program.
use waspas.Base.{
  ℕ, zero, suc, ◌-◌, ◌≡◌, ◌≢◌, refl, subst, inl, inr, Bool-cases, true, List, [], ◌∷◌, ◌++◌, Option,
  none, some, get_elem?, take, codes, arith, ltb, ◌||◌,
}
use waspas.Utilities.{to_upper, cisref_eq, cisref_hash}
use waspas.Utilities.Cisref.{cisref_hash-congruent}
use waspas.Reporting.{
  Reporter, initial_reporter, ErrorCode, get_locus_for_offset, line_starts, unhold, unhold_discard,
  text,
}
use waspas.Reporting.Locate.{get_locus_for_offset-walk, locus_after}
use waspas.Reporting.Hold.{
  Report, an_error, a_note, report_all, IsIdle, held_run, unhold-transparent, unhold_discard-silent,
}
use waspas.Lexing.Tokens.{
  StringView, Token, TokenKind, semicolon, character_string, eof, string_value,
}
use waspas.Lexing.Tokens.Values.{quoted, string_value-quoted}
use waspas.Lexing.Automaton.{
  State, Automaton, transition, new_state_index, enter, IsClosed, lex_one,
}
use waspas.Lexing.Automaton.Munch.{Munch, returned, lex_one-Munch}
use waspas.Lexing.Loop.{separator_whitespace, Tables, make_token, eof_token, lex}
use waspas.Lexing.Loop.Separators.{IsGenerated}
use waspas.Lexing.Loop.Reading.{accepted-IsListed, InOrder}
use waspas.Lexing.Loop.Tiles.{lex-InOrder}
use waspas.Parsing.Terminated.{Terminated}
use waspas.Driver.{front_end}
use waspas.Driver.Status.{Honest, front_end-Honest}

-- An automaton for runs of one character.
abbrev before_one : {K : Type 0} → ℕ → State K
before_one c = record {
  transition_min_c = c;
  transition_max_c = c;
  transitions_offset = 0;
  result = none;
}

abbrev after_one : {K : Type 0} → ℕ → K → State K
after_one c k = record {
  transition_min_c = c;
  transition_max_c = c;
  transitions_offset = 0;
  result = some k;
}

abbrev runs_of : {K : Type 0} → ℕ → K → Automaton K
runs_of c k = record { states = before_one c ∷ after_one c k ∷ []; transitions = 1 ∷ [] }

-- A state of such an automaton leaves on its character only, and then stays inside.
abbrev state_of : {K : Type 0} → ℕ → Option K → State K
state_of c r = record {
  transition_min_c = c;
  transition_max_c = c;
  transitions_offset = 0;
  result = r;
}

transition-inside :
    {K : Type 0} (c : ℕ) (k : K) (r : Option K) (d : ℕ)
    → transition (runs_of c k) (state_of c r) d ≢ none
unfolding transition new_state_index enter
transition-inside c k r d e = elim (Bool-cases (ltb (to_upper d) c || ltb c (to_upper d))) [
  | inl away ↦ cc (rw (away, new_state_index) at e)
  | inr here ↦
      let zero_lem : to_upper d - c ≡ 0 = ground arith in
      cc (rw (zero_lem, new_state_index) at (rw (here, new_state_index) at e))
]

unfoldable runs_of-IsClosed : {K : Type 0} (c : ℕ) (k : K) → IsClosed (runs_of c k)
runs_of-IsClosed {K} c k = record {
  initial = before_one c;
  initial_lem = refl;
  inside = λ i s e d. go i s e d;
}
  where
    go :
        (i : ℕ) (s : State K)
        → get_elem? (runs_of c k).states i ≡ some s
        → (d : ℕ) → transition (runs_of c k) s d ≢ none
    go zero s e d =
        let same : before_one c ≡ s = cc e in
        subst (λ x. transition (runs_of c k) x d ≢ none) same (transition-inside c k none d)
    go (suc zero) s e d =
        let same : after_one c k ≡ s = cc e in
        subst (λ x. transition (runs_of c k) x d ≢ none) same (transition-inside c k (some k) d)
    go (suc (suc i)) s e d = cc

-- Spaces between semicolons.
abbrev tables : Tables
tables = record { separators = runs_of 32 separator_whitespace; tokens = runs_of 59 semicolon }

tables-IsGenerated : IsGenerated tables
unfolding runs_of-IsClosed
tables-IsGenerated = record {
  separators = runs_of-IsClosed 32 separator_whitespace;
  tokens = runs_of-IsClosed 59 semicolon;
  no_empty_token = refl;
  no_eof = λ i s e. go i s e;
  quoted = λ text n e.
      let (j, s, at, r) =
        accepted-IsListed tables.tokens text n 0 (before_one 59) character_string refl e in
      absurd (no_string j s at r);
}
  where
    no_string :
        (i : ℕ) (s : State TokenKind)
        → get_elem? tables.tokens.states i ≡ some s
        → s.result ≢ some character_string
    no_string zero s e f = cc
    no_string (suc zero) s e f = cc
    no_string (suc (suc i)) s e f = cc

    go :
        (i : ℕ) (s : State TokenKind)
        → get_elem? tables.tokens.states i ≡ some s
        → s.result ≢ some eof
    go zero s e f = cc
    go (suc zero) s e f = cc
    go (suc (suc i)) s e f = cc

same_words : cisref_eq (codes "Begin") (codes "bEGIN") ≡ true
unfolding cisref_eq
same_words = refl

cisref_hash-congruent_example : cisref_hash (codes "Begin") ≡ cisref_hash (codes "bEGIN")
cisref_hash-congruent_example = cisref_hash-congruent (codes "Begin") (codes "bEGIN") same_words

get_locus_for_offset-walk_example :
    get_locus_for_offset (line_starts (codes "ab\nc")) 4
    ≡ some (locus_after (record { line = 0; column = 0 }) (take 4 (codes "ab\nc")))
get_locus_for_offset-walk_example = get_locus_for_offset-walk (codes "ab\nc") 4 (omega arith)

idle : IsIdle initial_reporter
unfolding initial_reporter
idle = record { not_holding = refl; no_messages = refl; no_errors = refl }

abbrev two_reports : List Report
two_reports = an_error 3 ErrorCode.type_mismatch [] ∷ a_note 5 (text (codes "x") ∷ []) ∷ []

unhold-transparent_example :
    held_run unhold two_reports initial_reporter ≡ some (report_all two_reports initial_reporter)
unhold-transparent_example = unhold-transparent two_reports initial_reporter idle

unhold_discard-silent_example :
    held_run unhold_discard two_reports initial_reporter ≡ some initial_reporter
unhold_discard-silent_example = unhold_discard-silent two_reports initial_reporter idle

abbrev view : StringView
view = record { location = 0; text = codes ";;x" }

lex_one-Munch_example :
    (decision : Option (TokenKind × ℕ)) × Munch tables.tokens
      (runs_of-IsClosed 59 semicolon).initial
      (codes ";;x")
      decision
    × (lex_one tables.tokens make_token none view ≡ some (returned make_token none view decision))
lex_one-Munch_example =
    lex_one-Munch tables.tokens (runs_of-IsClosed 59 semicolon) make_token none view

lex-InOrder_example :
    (ts : List Token) × (reporter : Reporter) × (lex tables (codes "; x;") initial_reporter
      ≡ some (ts ++ eof_token (record { location = 4; text = [] }) ∷ [], reporter))
    × InOrder (codes "; x;") 0 ts
    × (reporter.holding ≡ initial_reporter.holding)
lex-InOrder_example = lex-InOrder tables-IsGenerated (codes "; x;") initial_reporter

string_value-quoted_example : string_value (quoted (codes "it's")) ≡ some (codes "it's")
string_value-quoted_example = string_value-quoted (codes "it's")

front_end-Honest_example : Honest (front_end tables (λ s. none) (codes "; ;"))
front_end-Honest_example = front_end-Honest tables-IsGenerated (λ s. none) (codes "; ;")
