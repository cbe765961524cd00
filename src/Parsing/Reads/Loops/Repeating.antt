-- ===== src/Parsing/Reads/Loops/Repeating.antt =====
-- src/parsing.cxx: what `ViewRecorder`, `tryParse`, `parseList` and `parseSeparatedList` guarantee,
-- given what the productions that they are used on do.
use waspas.Base.{
  ℕ, zero, suc, ◌+◌, ◌-◌, ◌≤◌, ◌<◌, ◌≡◌, refl, inl, inr, true, ◌∷◌, Option, none, some, length,
  get_elem?-total, arith, Bool-cases, leb, ◌==◌,
}
use waspas.Lexing.Tokens.{Token, TokenKind}
use waspas.Parsing.Reader.{
  Input, TokenReader, unexpected, bad_directive, bad_label, bad_integer, bad_real, Outcome, Parser,
  bind, backtrack,
}
use waspas.Parsing.Combinators.{
  View, recorded, record_view, view_recorder, caught, try_parse, rounds, rounds_left, parse_list,
  separated_round, append_next, caught_if, separated_rest, parse_separated_list, parse_optional,
}
use waspas.Parsing.Reads.{
  IsInput, IsReader, After, Post, returns, throws, Raised, Ends, Reads, After-refl, Ends-bind,
  Ends-earlier, pure-Reads, ◌⟫◌,
}
use waspas.Parsing.Reads.Reader.{IsReal, Tried, try_consume-Tried}

-- The destructor stays in the token array.
recorded-total :
    {i : Input} {s : TokenReader} (from start : ℕ)
    → IsReader i s
    → (view : View) × (recorded from start i s ≡ some view)
unfolding recorded
recorded-total {i} {s} from start reader =
    let (t, e) = get_elem?-total i.tokens s.tokens_it reader.inside in
    let (p, e') =
      get_elem?-total i.tokens (s.tokens_it - 1) (let h = reader.inside in omega arith) in
    rw (e, recorded)
      (elim (Bool-cases (s.tokens_it == from)) [
        | inl same ↦ rw same (_, refl)
        | inr moved ↦ rw moved (rw (e', recorded) (_, refl))
      ])

record_view-Ends :
    {N : Type 0} {i : Input} {r : TokenReader} {o : Outcome (View → N)} (d from start : ℕ)
    → Ends i r d o
    → Ends i r d (record_view from start i o)
unfolding record_view
record_view-Ends d from start (returns {a = make} {r = s} (after, more)) =
    let (view, e) = recorded-total from start after.reader in
    rw (e, record_view) (returns (after, more))
record_view-Ends d from start (throws {e} {r = s} (after, can)) =
    let (view, e') = recorded-total from start after.reader in
    rw (e', record_view) (throws (after, can))

pub view_recorder-Reads :
    {N : Type 0} {d b : ℕ} {p : Parser (View → N)} → Reads d b p → Reads d b (view_recorder p)
unfolding view_recorder
view_recorder-Reads {d} h = record {
  run = λ i r input reader left.
      let (t, e) = get_elem?-total i.tokens r.tokens_it reader.inside in
      rw (e, view_recorder)
        (record_view-Ends d r.tokens_it t.view.location (h.run i r input reader left));
}

-- What a round reads when it gives something.
abbrev pub Gain : {A : Type 0} → ℕ → Option A → TokenReader → TokenReader → Type 0
Gain d none r s = Unit
Gain d (some _) r s = r.tokens_it + d ≤ s.tokens_it

abbrev pub Rounds : {A : Type 0} → Input → TokenReader → ℕ → Outcome (Option A) → Type 0
Rounds i r d = Post (λ o s. After i r s × Gain d o r s) (Raised i r)

-- A handler undoes what an unexpected token stopped, and passes other exceptions on.
pub caught-Rounds :
    {A : Type 0} {i : Input} {r : TokenReader} {o : Outcome A} (d : ℕ)
    → IsReader i r
    → Ends i r d o
    → Rounds i r d (caught r.tokens_it i o)
unfolding caught
caught-Rounds d reader (returns (after, more)) = returns (after, more)
caught-Rounds {i} {r} d reader (throws {e = unexpected} {r = s} (after, _)) =
    let known = after.reader in
    let above : leb r.tokens_it s.tokens_it ≡ true = let h = after.forward in ground arith in
    let undone : After i r (record s { tokens_it = r.tokens_it }) = record {
      reader = record {
        inside = reader.inside;
        unexpected_inside = known.unexpected_inside;
        reported = known.reported;
        others = known.others;
      };
      forward = omega arith;
      farther = after.farther;
    } in
    rw (above, backtrack) (returns (undone, tt))
caught-Rounds d reader (throws {e = bad_directive _} h) = throws h
caught-Rounds d reader (throws {e = bad_label} h) = throws h
caught-Rounds d reader (throws {e = bad_integer} h) = throws h
caught-Rounds d reader (throws {e = bad_real} h) = throws h

-- A parser of rounds that reads a token whenever it gives something.
pub record Repeats {A : Type 0} (d b : ℕ) (p : Parser (Option A)) : Type 0 where
  pub run :
      (i : Input) (r : TokenReader)
      → IsInput i
      → IsReader i r
      → length i.tokens < r.tokens_it + b
      → Rounds i r d (p i r)

pub try_parse-Repeats :
    {A : Type 0} {d b : ℕ} {p : Parser A} → Reads d b p → Repeats d b (try_parse p)
unfolding try_parse
try_parse-Repeats {d} h = record {
  run = λ i r input reader left. caught-Rounds d reader (h.run i r input reader left);
}

pub Rounds-Ends :
    {A : Type 0} {i : Input} {r : TokenReader} {o : Outcome (Option A)} (d : ℕ)
    → Rounds i r d o
    → Ends i r 0 o
Rounds-Ends d (returns (after, _)) = returns (after, let h = after.forward in omega arith)
Rounds-Ends d (throws h) = throws h

pub try_parse-Reads : {A : Type 0} {d b : ℕ} {p : Parser A} → Reads d b p → Reads 0 b (try_parse p)
try_parse-Reads {d} h = record {
  run = λ i r input reader left. Rounds-Ends d ((try_parse-Repeats h).run i r input reader left);
}

pub parse_optional-Reads :
    {A : Type 0} {d b : ℕ} {p : Parser A} → Reads d b p → Reads 0 b (parse_optional p)
unfolding parse_optional
parse_optional-Reads h = try_parse-Reads h

-- The fuel of a loop is enough if it is more than the tokens left.
rounds-Ends :
    {A : Type 0} {b : ℕ} {p : Parser (Option A)}
    → Repeats 1 b p
    → (fuel : ℕ) (i : Input) (r : TokenReader) → IsInput i
    → IsReader i r
    → length i.tokens < r.tokens_it + b
    → length i.tokens < r.tokens_it + fuel
    → Ends i r 0 (rounds fuel p i r)
unfolding rounds
rounds-Ends h zero i r input reader left enough = absurd (let inside = reader.inside in omega arith)
rounds-Ends {A} {b} {p} h (suc fuel) i r input reader left enough =
    go (h.run i r input reader left)
      (λ s after more. rounds-Ends h fuel i s input after.reader (omega arith) (omega arith))
  where
    go :
        {o : Outcome (Option A)}
        → Rounds i r 1 o
        → ((s : TokenReader)
            → After i r s
            → r.tokens_it + 1 ≤ s.tokens_it
            → Ends i s 0 (rounds fuel p i s))
        → Ends i r 0 (bind o λ x. append_next x (rounds fuel p) i)
    go (returns {a = none} (after, _)) k = returns (after, let h = after.forward in omega arith)
    go (returns {a = some a} {r = s} (after, more)) k =
        Ends-earlier 0 0 0 (omega arith) after (let h = after.forward in omega arith) (
          Ends-bind 0 0 0 (omega arith) (k s after more)
            λ l t later le. returns (After-refl later.reader, omega arith))
    go (throws h) k = throws h

pub parse_list-Reads : {A : Type 0} {b : ℕ} {p : Parser A} → Reads 1 b p → Reads 0 b (parse_list p)
unfolding parse_list
parse_list-Reads h = record {
  run = λ i r input reader left.
      rounds-Ends (try_parse-Repeats h) (rounds_left i r) i r input reader left (omega arith);
}

separated_round-Repeats :
    {A : Type 0} {d b : ℕ} {p : Parser A} (k : TokenKind)
    → IsReal k
    → Reads d b p
    → Repeats 1 b (separated_round k p)
unfolding separated_round
separated_round-Repeats {A} {d} {b} {p} k real h = record {
  run = λ i r input reader left. go i r input reader left (try_consume-Tried input reader k real);
}
  where
    go :
        (i : Input) (r : TokenReader)
        → IsInput i
        → IsReader i r
        → length i.tokens < r.tokens_it + b
        → {o : Outcome (Option Token)} → Post (Tried i r k) (Raised i r) o
        → Rounds i r 1 (bind o λ x. caught_if r.tokens_it x p i)
    go i r input reader left (returns {a = none} (after, _, _)) = returns (after, tt)
    go i r input reader left (returns {a = some t} {r = s} (after, _, _, at)) =
        caught-Rounds 1 reader (
          Ends-earlier 1 d 1 (omega arith) after (omega arith)
            (h.run i s input after.reader (omega arith)))
    go i r input reader left (throws x) = throws x

separated_rest-Reads :
    {A : Type 0} {d b : ℕ} {p : Parser A} (k : TokenKind)
    → IsReal k
    → Reads d b p
    → Reads 0 b (separated_rest k p)
unfolding separated_rest
separated_rest-Reads k real h = record {
  run = λ i r input reader left.
      rounds-Ends (separated_round-Repeats k real h) (rounds_left i r) i r input reader left
        (omega arith);
}

pub parse_separated_list-Reads :
    {A : Type 0} {d b : ℕ} {p : Parser A} (k : TokenKind)
    → IsReal k
    → Reads d b p
    → Reads d b (parse_separated_list k p)
unfolding parse_separated_list
parse_separated_list-Reads {d} k real h = record {
  run = λ i r input reader left.
      Ends-bind d 0 d (omega arith) (h.run i r input reader left) λ a s after le.
        ((separated_rest-Reads k real h) ⟫ λ l. pure-Reads (a ∷ l)).run i s input after.reader
          (omega arith);
}
