-- ===== src/Driver/Status.antt =====
-- src/main.cxx: the status with which the phases up to the parse tree end.
use waspas.Base.{
  ℕ, ◌≡◌, refl, inl, inr, Bool, true, false, List, [], ◌∷◌, ◌++◌, Option, some, length,
  Option-cases, if◌then◌else◌, arith,
}
use waspas.Utilities.{Text}
use waspas.Reporting.{Reporter, ErrorCode, Argument, err, number, initial_reporter}
use waspas.Lexing.Tokens.{Token}
use waspas.Lexing.Loop.{Tables, lex, eof_token}
use waspas.Lexing.Loop.Separators.{IsGenerated}
use waspas.Lexing.Loop.Tiles.{lex-InOrder}
use waspas.Parsing.Reader.{Input, error_code}
use waspas.Parsing.Nodes.Statements.{Program}
use waspas.Parsing.Grammar.Blocks.{Parsed, parse}
use waspas.Parsing.Terminated.{Terminated-IsInput, InOrder-Terminated}
use waspas.Parsing.Total.{Decided, by_program, by_error, parse-Decided}
use waspas.Driver.{
  find_non_ascii, FrontEnd, failed, tree, crashed, after_parse, after_lex, front_end,
}

-- Either the program is rejected and an error has been reported, or there is a tree and none has.
pub data Honest : FrontEnd → Type 0 where
  told : {r : Reporter} → r.had_errors ≡ true → Honest (failed r)
  silent : {program : Program} {r : Reporter} → r.had_errors ≡ false → Honest (tree program r)

err-had_errors :
    (l : ℕ) (c : ErrorCode) (as_ : List Argument) (r : Reporter)
    → r.holding ≡ false
    → (err l c as_ r).had_errors ≡ true
unfolding err
err-had_errors l c as_ r h = ground arith

-- `if (reporter.hadErrors()) return 1;`, in front of what comes next.
if-Honest :
    (r : Reporter) (next : FrontEnd)
    → (r.had_errors ≡ false → Honest next)
    → Honest (if r.had_errors then failed r else next)
if-Honest r next h = go r.had_errors refl
  where
    go : (b : Bool) → r.had_errors ≡ b → Honest (if b then failed r else next)
    go true e = told e
    go false e = h e

after_parse-Honest :
    (i : Input) (r : Reporter) {p : Parsed}
    → r.holding ≡ false
    → Decided i r p
    → Honest (after_parse p)
unfolding after_parse
after_parse-Honest i r held (by_program program) =
    if-Honest r (tree program r) (λ clean. silent clean)
after_parse-Honest i r held (by_error e j t reprs arguments at wrong lists) =
    if-Honest (err t.view.location (error_code e) arguments r) crashed
      (λ clean. absurd (cc (clean, err-had_errors t.view.location (error_code e) arguments r held)))

after_lex-Honest :
    (real_value : Text → Option ℕ) (tokens : List Token) (r : Reporter)
    → r.holding ≡ false
    → Decided
        (record { tokens = tokens; real_value = real_value })
        r
        (parse (record { tokens = tokens; real_value = real_value }) r)
    → Honest (after_lex real_value (some (tokens, r)))
unfolding after_lex
after_lex-Honest real_value tokens r held d =
    if-Honest r (after_parse (parse (record { tokens = tokens; real_value = real_value }) r))
      (λ clean. after_parse-Honest (record { tokens = tokens; real_value = real_value }) r held d)

lexed-Honest :
    {t : Tables} (g : IsGenerated t) (real_value : Text → Option ℕ) (source : Text)
    → Honest (after_lex real_value (lex t source initial_reporter))
unfolding initial_reporter
lexed-Honest g real_value source =
    let (ts, r, e, order, held) = lex-InOrder g source initial_reporter in
    let last = eof_token (record { location = length source; text = [] }) in
    let i : Input = record { tokens = ts ++ last ∷ []; real_value = real_value } in
    rw e (
      after_lex-Honest real_value (ts ++ last ∷ []) r held
        (parse-Decided i r (Terminated-IsInput i (InOrder-Terminated source 0 ts last order refl))))

-- For every source text, on the tables of the generator and whatever `std::from_chars` gives, the
-- phases end without undefined behaviour: the status is 1 and an error has been reported, or there
-- is a parse tree and no error has been reported.
pub front_end-Honest :
    {t : Tables} (g : IsGenerated t) (real_value : Text → Option ℕ) (source : Text)
    → Honest (front_end t real_value source)
unfolding front_end initial_reporter
front_end-Honest g real_value source = elim (Option-cases (find_non_ascii 0 source)) [
  | inl e ↦ rw (e, front_end) (lexed-Honest g real_value source)
  | inr (x, e) ↦
      rw (e, front_end)
        (told (err-had_errors x.0 ErrorCode.non_ascii_char (number x.1 ∷ []) initial_reporter refl))
]
