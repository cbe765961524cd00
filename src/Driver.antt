-- ===== src/Driver.antt =====
-- src/main.cxx: the phases of `main` up to the parse tree. The file has been read and the tree is
-- neither dumped nor analyzed: both lie outside this library.
use waspas.Base.{ℕ, ◌+◌, Bool, true, false, List, [], ◌∷◌, Option, none, some, leb, if◌then◌else◌}
use waspas.Utilities.{Text}
use waspas.Reporting.{Reporter, ErrorCode, err, number, initial_reporter}
use waspas.Lexing.Tokens.{Token}
use waspas.Lexing.Loop.{Tables, lex}
use waspas.Parsing.Reader.{Input}
use waspas.Parsing.Nodes.Statements.{Program}
use waspas.Parsing.Grammar.Blocks.{Parsed, accepted, rejected, faulty, parse}
pub mod Status

-- `std::find_if` of the first byte that is not ASCII, with its offset.
unfoldable pub find_non_ascii : ℕ → Text → Option (ℕ × ℕ)
find_non_ascii at [] = none
find_non_ascii at (c ∷ s) = if leb 128 c then some (at, c) else find_non_ascii (at + 1) s

-- `main` returns 1 after it has reported, or it goes on with a tree; or it did something undefined.
pub data FrontEnd : Type 0 where
  failed : Reporter → FrontEnd
  tree : Program → Reporter → FrontEnd
  crashed : FrontEnd

-- Behind `parse`. A program that `parse` has given up on is never read, since there is an error.
unfoldable pub after_parse : Parsed → FrontEnd
after_parse (accepted program reporter) =
    if reporter.had_errors then failed reporter else tree program reporter
after_parse (rejected reporter) = if reporter.had_errors then failed reporter else crashed
after_parse faulty = crashed

-- Behind `lex`.
unfoldable pub after_lex : (Text → Option ℕ) → Option (List Token × Reporter) → FrontEnd
unfolding after_parse parse
after_lex real_value none = crashed
after_lex real_value (some (tokens, reporter)) =
    if reporter.had_errors
    then failed reporter
    else after_parse (parse (record { tokens = tokens; real_value = real_value }) reporter)

unfoldable pub front_end : Tables → (Text → Option ℕ) → Text → FrontEnd
unfolding find_non_ascii err after_lex lex
front_end t real_value source = elim (find_non_ascii 0 source) [
  | some (at, c) ↦ failed (err at ErrorCode.non_ascii_char (number c ∷ []) initial_reporter)
  | none ↦ after_lex real_value (lex t source initial_reporter)
]
