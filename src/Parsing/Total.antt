-- ===== src/Parsing/Total.antt =====
-- src/parsing.cxx: `parse` as a whole.
use waspas.Base.{
  ℕ, suc, ◌<◌, ◌≡◌, refl, subst, inl, List, [], ◌∷◌, ◌++◌, some, length, get_elem?, get_elem?-total,
  arith,
}
use waspas.Reporting.{Reporter, Argument, err, text, number}
use waspas.Utilities.{Text}
use waspas.Lexing.Tokens.{Token, eof, human_representation, pascal_integer_max}
use waspas.Parsing.Reader.{
  Input, TokenReader, initial_reader, ReaderError, unexpected, bad_directive, bad_label,
  bad_integer, bad_real, Outcome, bind, ◌>>◌, pure, max_label_value, consume, join_middle,
  build_expected_representations_string, report_unexpected, report_token, report, error_code,
  error_position,
}
use waspas.Parsing.Nodes.Statements.{Program}
use waspas.Parsing.Grammar.Blocks.{
  Parsed, accepted, rejected, parse_all, rejected_if, decided, parse,
}
use waspas.Parsing.Reads.{
  IsInput, IsReader, After, CanReport, IsWrong, Post, returns, throws, Raised, Ends, After-trans,
}
use waspas.Parsing.Reads.Reader.{consume_eof-Raised}
use waspas.Parsing.Reads.Blocks.{parse_program-Reads}

-- The text of an unexpected token lists the classes that were expected.
abbrev pub Lists : ReaderError → List Text → Token → List Argument → Type 0
Lists unexpected reprs t arguments =
    (expected : Text) × (build_expected_representations_string reprs ≡ some expected)
    × (arguments ≡ text expected ∷ text (human_representation t.kind) ∷ [])
Lists _ reprs t arguments = Unit

-- `parse` gives a program and leaves the reporter as it is, or it reports one more error at a token
-- of the input, which is wrong in the way that the error's code says.
pub data Decided (i : Input) (reporter : Reporter) : Parsed → Type 0 where
  by_program : (program : Program) → Decided i reporter (accepted program reporter)
  by_error :
      (e : ReaderError) (j : ℕ) (t : Token) (reprs : List Text) (arguments : List Argument)
      → get_elem? i.tokens j ≡ some t
      → IsWrong i e reprs t
      → Lists e reprs t arguments
      → Decided i reporter (rejected (err t.view.location (error_code e) arguments reporter))

build-some :
    (l : List Text) → 0 < length l → (s : Text) × (build_expected_representations_string l ≡ some s)
unfolding build_expected_representations_string
build-some [] h = absurd (omega arith)
build-some (s ∷ l) h = (s ++ join_middle l, refl)

report_token-some :
    (e : ReaderError) (i : Input) (t : Token) (r : TokenReader) (reporter : Reporter)
    → CanReport i e r
    → (arguments : List Argument) × Lists e r.unsuccessful_token_reprs t arguments
      × (report_token e t r reporter ≡ some (err t.view.location (error_code e) arguments reporter))
unfolding report_token report_unexpected error_code
report_token-some unexpected i t r reporter ready =
    let (expected, e) = build-some r.unsuccessful_token_reprs ready.expected in
    (
      text expected ∷ text (human_representation t.kind) ∷ [],
      (expected, e, refl),
      rw (e, report_unexpected) refl,
    )
report_token-some (bad_directive expected) i t r reporter _ =
    (text expected ∷ text t.view.text ∷ [], tt, refl)
report_token-some bad_label i t r reporter _ =
    (text t.view.text ∷ number max_label_value ∷ [], tt, refl)
report_token-some bad_integer i t r reporter _ =
    (text t.view.text ∷ number pascal_integer_max ∷ [], tt, refl)
report_token-some bad_real i t r reporter _ = (text t.view.text ∷ [], tt, refl)

error_position-inside :
    (e : ReaderError) {i : Input} {r : TokenReader}
    → IsReader i r
    → error_position e r < length i.tokens
error_position-inside unexpected h = h.unexpected_inside
error_position-inside (bad_directive _) h = h.inside
error_position-inside bad_label h = h.inside
error_position-inside bad_integer h = h.inside
error_position-inside bad_real h = h.inside

wrong_at :
    (i : Input) {P : Token → Type 0} (n : ℕ) (t : Token)
    → (u : Token) × (get_elem? i.tokens n ≡ some u) × P u
    → get_elem? i.tokens n ≡ some t
    → P t
wrong_at i {P} n t (u, at, wrong) now = let same : u ≡ t = cc (at, now) in subst P same wrong

error_position-IsWrong :
    (e : ReaderError) {i : Input} {r : TokenReader} (t : Token)
    → IsReader i r
    → CanReport i e r
    → get_elem? i.tokens (error_position e r) ≡ some t
    → IsWrong i e r.unsuccessful_token_reprs t
error_position-IsWrong unexpected t h ready now = (ready.expected, h.others t now)
error_position-IsWrong (bad_directive expected) {i} {r} t h can now =
    wrong_at i {P = IsWrong i (bad_directive expected) []} r.tokens_it t can now
error_position-IsWrong bad_label {i} {r} t h can now =
    wrong_at i {P = IsWrong i bad_label []} r.tokens_it t can now
error_position-IsWrong bad_integer {i} {r} t h can now =
    wrong_at i {P = IsWrong i bad_integer []} r.tokens_it t can now
error_position-IsWrong bad_real {i} {r} t h can now =
    wrong_at i {P = IsWrong i bad_real []} r.tokens_it t can now

-- The `report` of an exception that can be reported.
report-Decided :
    (e : ReaderError) {i : Input} {r : TokenReader} (reporter : Reporter)
    → IsReader i r
    → CanReport i e r
    → Decided i reporter (rejected_if (report e i r reporter))
unfolding report
report-Decided e {i} {r} reporter h can =
    let (t, at) = get_elem?-total i.tokens (error_position e r) (error_position-inside e h) in
    let (arguments, lists, same) = report_token-some e i t r reporter can in
    rw (at, report)
      (rw same (
        by_error e (error_position e r) t r.unsuccessful_token_reprs arguments at
          (error_position-IsWrong e t h can at) lists))

parse_all-Raised :
    (i : Input)
    → IsInput i
    → Post
        (λ _ _. Unit)
        (Raised i initial_reader)
        (parse_all (suc (length i.tokens)) i initial_reader)
unfolding parse_all
parse_all-Raised i input =
    go
      ((parse_program-Reads (suc (length i.tokens))).run i initial_reader input first (omega arith))
  where
    first : IsReader i initial_reader
    first =
        let h = input.some_token in
        record { inside = h; unexpected_inside = h; reported = inl refl; others = λ t e. tt }

    finish :
        {s : TokenReader} (program : Program) {o : Outcome Token}
        → After i initial_reader s
        → Post (λ _ _. Unit) (Raised i s) o
        → Post (λ _ _. Unit) (Raised i initial_reader) (bind o λ _. pure program i)
    finish program h (returns _) = returns tt
    finish program h (throws (after, can)) = throws (After-trans h after, can)

    go :
        {o : Outcome Program}
        → Ends i initial_reader 1 o
        → Post
            (λ _ _. Unit)
            (Raised i initial_reader)
            (bind o λ program. (do consume eof; pure program) i)
    go (returns {a = program} {r = s} (after, _)) =
        finish program after (consume_eof-Raised i s after.reader)
    go (throws h) = throws h

pub parse-Decided :
    (i : Input) (reporter : Reporter) → IsInput i → Decided i reporter (parse i reporter)
unfolding parse
parse-Decided i reporter input = go (parse_all-Raised i input)
  where
    go :
        {o : Outcome Program}
        → Post (λ _ _. Unit) (Raised i initial_reader) o
        → Decided i reporter (decided i reporter o)
    go (returns {a = program} _) = by_program program
    go (throws {e} {r} (after, can)) = report-Decided e reporter after.reader can
