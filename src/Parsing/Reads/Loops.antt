-- ===== src/Parsing/Reads/Loops.antt =====
-- src/parsing.cxx: what the generic members of `Parser` guarantee, given what the productions that
-- they are used on do.
mod Repeating
pub use Repeating.*
use waspas.Base.{
  ℕ, zero, suc, ◌+◌, ◌-◌, ◌≤◌, ◌<◌, ◌≡◌, inl, inr, true, List, [], ◌∷◌, Option, none, some, length,
  get_elem?-total, arith, Bool-cases, leb, ◌==◌,
}
use waspas.Lexing.Tokens.{Token, TokenKind}
use waspas.Parsing.Reader.{
  Input, TokenReader, unexpected, bad_directive, bad_label, bad_integer, bad_real, Outcome, Parser,
  bind, backtrack,
}
use waspas.Parsing.Combinators.{
  View, record_view, view_recorder, caught, try_parse, rounds, rounds_left, parse_list,
  separated_round, append_next, caught_if, separated_rest, parse_separated_list, as_base,
  parse_alternatives, parse_optional, parse_enum, parse_enum_or, or_else, value_if, or_default,
  when_some, only_if, list_if,
}
use waspas.Parsing.Reads.{
  IsInput, IsReader, After, Post, returns, throws, Raised, Ends, Reads, After-refl, Ends-bind,
  Ends-earlier, weaken, pure-Reads, ◌⟫◌, ◌▸◌,
}
use waspas.Parsing.Reads.Reader.{IsReal, Tried, try_consume-Tried, consume-Reads}

pub as_base-Reads :
    {A B : Type 0} {d b : ℕ} {p : Parser A} (f : A → B) → Reads d b p → Reads d b (as_base f p)
as_base-Reads {d} f h = record {
  run = λ i r input reader left.
      Ends-bind d 0 d (omega arith) (h.run i r input reader left)
        λ a s after le. returns (After-refl after.reader, omega arith);
}

-- Every alternative reads `d` tokens.
pub data AllRead {N : Type 0} (d b : ℕ) : List (Parser N) → Type 0 where
  no_more : AllRead d b []
  also : {p : Parser N} {ps : List (Parser N)} → Reads d b p → AllRead d b ps → AllRead d b (p ∷ ps)

pub parse_alternatives-Reads :
    {N : Type 0} {d b : ℕ} {p : Parser N} {ps : List (Parser N)}
    → Reads d b p
    → AllRead d b ps
    → Reads d b (parse_alternatives p ps)
unfolding parse_alternatives
parse_alternatives-Reads h no_more = h
parse_alternatives-Reads {N} {d} {b} {p} h (also {p = q} {ps} k hs) = record {
  run = λ i r input reader left.
      go (parse_alternatives-Reads k hs) i r input reader left
        ((try_parse-Repeats h).run i r input reader left);
}
  where
    go :
        Reads d b (parse_alternatives q ps)
        → (i : Input) (r : TokenReader) → IsInput i
        → IsReader i r
        → length i.tokens < r.tokens_it + b
        → {o : Outcome (Option N)} → Rounds i r d o
        → Ends i r d (bind o λ x. or_else x (parse_alternatives q ps) i)
    go others i r input reader left (returns {a = none} {r = s} (after, _)) =
        Ends-earlier 0 d d (omega arith) after (let h = after.forward in omega arith)
          (others.run i s input after.reader (let h = after.forward in omega arith))
    go others i r input reader left (returns {a = some a} {r = s} (after, more)) =
        returns (after, more)
    go others i r input reader left (throws x) = throws x

-- Every pair of a `parseEnum` wants a real token.
pub data AllReal {E : Type 0} : List (TokenKind × E) → Type 0 where
  no_more_real : AllReal []
  also_real :
      (k : TokenKind) {e : E} {ps : List (TokenKind × E)}
      → IsReal k
      → AllReal ps
      → AllReal ((k, e) ∷ ps)

pub parse_enum-Reads :
    {E : Type 0} {b : ℕ} (k : TokenKind) (e : E) {ps : List (TokenKind × E)}
    → IsReal k
    → AllReal ps
    → Reads 1 b (parse_enum (k, e) ps)
unfolding parse_enum
parse_enum-Reads k e real no_more_real = consume-Reads k real ▸ λ _. pure-Reads e
parse_enum-Reads {E} {b} k e real (also_real k' {e = e'} {ps} next reals) = record {
  run = λ i r input reader left.
      go (parse_enum-Reads k' e' next reals) i r input reader left
        (try_consume-Tried input reader k real);
}
  where
    go :
        Reads 1 b (parse_enum (k', e') ps)
        → (i : Input) (r : TokenReader) → IsInput i
        → IsReader i r
        → length i.tokens < r.tokens_it + b
        → {o : Outcome (Option Token)} → Post (Tried i r k) (Raised i r) o
        → Ends i r 1 (bind o λ x. value_if x e (parse_enum (k', e') ps) i)
    go others i r input reader left (returns {a = none} {r = s} (after, _, at)) =
        Ends-earlier 0 1 1 (omega arith) after (omega arith)
          (others.run i s input after.reader (omega arith))
    go others i r input reader left (returns {a = some t} {r = s} (after, _, _, at)) =
        returns (after, omega arith)
    go others i r input reader left (throws x) = throws x

pub parse_enum_or-Reads :
    {E : Type 0} {b : ℕ} (default : E) (k : TokenKind) (e : E) {ps : List (TokenKind × E)}
    → IsReal k
    → AllReal ps
    → Reads 0 b (parse_enum_or default (k, e) ps)
unfolding parse_enum_or
parse_enum_or-Reads {b} default k e real reals =
    try_parse-Reads (parse_enum-Reads {b = b} k e real reals) ⟫ λ o.
    pure-Reads (or_default default o)

pub when_some-Reads :
    {A B : Type 0} {d b : ℕ} {p : Parser B} (o : Option A) → Reads d b p → Reads 0 b (when_some o p)
when_some-Reads none h = pure-Reads none
when_some-Reads (some _) h = h ⟫ λ x. pure-Reads (some x)

pub only_if-Reads :
    {A B : Type 0} {d b : ℕ} {p : Parser (Option B)} (o : Option A)
    → Reads d b p
    → Reads 0 b (only_if o p)
only_if-Reads none h = pure-Reads none
only_if-Reads {d} {b} (some _) h = weaken d b 0 b (omega arith) (omega arith) h

pub list_if-Reads :
    {A B : Type 0} {d b : ℕ} {p : Parser (List B)} (o : Option A)
    → Reads d b p
    → Reads 0 b (list_if o p)
list_if-Reads none h = pure-Reads []
list_if-Reads {d} {b} (some _) h = weaken d b 0 b (omega arith) (omega arith) h
