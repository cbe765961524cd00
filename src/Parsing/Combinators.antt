-- ===== src/Parsing/Combinators.antt =====
-- src/parsing.cxx: `ViewRecorder` and the generic member functions of `Parser`. The loops run on
-- fuel; the callers give one round more than there are tokens left.
use waspas.Base.{
  ℕ, zero, suc, ◌+◌, ◌-◌, Bool, true, false, List, [], ◌∷◌, Option, none, some, get_elem?, length,
  ◌==◌, if◌then◌else◌,
}
use waspas.Lexing.Tokens.{Token, TokenKind}
use waspas.Parsing.Reader.{
  Input, TokenReader, unexpected, Outcome, ok, thrown, undefined, out_of_fuel, Parser, bind, ◌>>=◌,
  ◌>>◌, pure, try_consume, consume, backtrack,
}

-- The part of the source that a node covers, from `start` up to `finish`.
pub record View : Type 0 where
  pub start : ℕ
  pub finish : ℕ

-- The destructor of `ViewRecorder`, for a node that began at the position `from` and the offset
-- `start`; `none` is a read outside the token array.
unfoldable pub recorded : ℕ → ℕ → Input → TokenReader → Option View
recorded from start i r = elim (get_elem? i.tokens r.tokens_it) [
  | none ↦ none
  | some current ↦
      if r.tokens_it == from
      then some (record { start = start; finish = start })
      else (elim (get_elem? i.tokens (r.tokens_it - 1)) [
        | none ↦ none
        | some previous ↦
            some (record {
              start = start;
              finish = previous.view.location + length previous.view.text;
            })
      ])
]

-- It runs when the production is left, by an exception too, which has no use for the view.
unfoldable pub record_view : {N : Type 0} → ℕ → ℕ → Input → Outcome (View → N) → Outcome N
unfolding recorded
record_view from start i (ok make r) = elim (recorded from start i r) [
  | none ↦ undefined
  | some view ↦ ok (make view) r
]
record_view from start i (thrown e r) = elim (recorded from start i r) [
  | none ↦ undefined
  | some view ↦ thrown e r
]
record_view from start i undefined = undefined
record_view from start i out_of_fuel = out_of_fuel

-- A production that opens with `auto rec = viewRecorder(node);`.
unfoldable pub view_recorder : {N : Type 0} → Parser (View → N) → Parser N
unfolding record_view
view_recorder p i r = elim (get_elem? i.tokens r.tokens_it) [
  | none ↦ undefined
  | some initial ↦ record_view r.tokens_it initial.view.location i (p i r)
]

-- The handler of `UnexpectedToken`, which goes back to `pos`.
unfoldable pub caught : {A : Type 0} → ℕ → Input → Outcome A → Outcome (Option A)
unfolding backtrack
caught pos i (ok a r) = ok (some a) r
caught pos i (thrown unexpected r) = bind (backtrack pos i r) (λ _ r'. ok none r')
caught pos i (thrown e r) = thrown e r
caught pos i undefined = undefined
caught pos i out_of_fuel = out_of_fuel

-- `tryParse`: `none` stands for `false`.
unfoldable pub try_parse : {A : Type 0} → Parser A → Parser (Option A)
unfolding caught
try_parse p i r = caught r.tokens_it i (p i r)

-- Rounds until one gives nothing.
abbrev pub append_next : {A : Type 0} → Option A → Parser (List A) → Parser (List A)
append_next none more = pure []
append_next (some a) more = do l ← more; pure (a ∷ l)

unfoldable pub rounds : {A : Type 0} → ℕ → Parser (Option A) → Parser (List A)
rounds zero round i r = out_of_fuel
rounds (suc fuel) round i r = bind (round i r) λ o. append_next o (rounds fuel round) i

abbrev pub rounds_left : Input → TokenReader → ℕ
rounds_left i r = suc (length i.tokens - r.tokens_it)

unfoldable pub parse_list : {A : Type 0} → Parser A → Parser (List A)
unfolding rounds try_parse
parse_list item i r = rounds (rounds_left i r) (try_parse item) i r

-- A round of the loop of `parseSeparatedList`: an item only behind a separator.
abbrev pub caught_if : {A : Type 0} → ℕ → Option Token → Parser A → Parser (Option A)
caught_if pos none item i r = ok none r
caught_if pos (some _) item i r = caught pos i (item i r)

unfoldable pub separated_round : {A : Type 0} → TokenKind → Parser A → Parser (Option A)
unfolding try_consume caught
separated_round separator item i r =
    bind (try_consume separator i r) λ o. caught_if r.tokens_it o item i

unfoldable pub separated_rest : {A : Type 0} → TokenKind → Parser A → Parser (List A)
unfolding rounds separated_round
separated_rest separator item i r = rounds (rounds_left i r) (separated_round separator item) i r

unfoldable pub parse_separated_list : {A : Type 0} → TokenKind → Parser A → Parser (List A)
unfolding separated_rest
parse_separated_list separator item = do a ← item; l ← separated_rest separator item; pure (a ∷ l)

-- `parseAlternative`: the node is moved into the pointer to its base class.
abbrev pub as_base : {A B : Type 0} → (A → B) → Parser A → Parser B
as_base f p = do a ← p; pure (f a)

abbrev pub or_else : {N : Type 0} → Option N → Parser N → Parser N
or_else none p = p
or_else (some a) p = pure a

-- `parseAlternatives`: all but the last are tried.
unfoldable pub parse_alternatives : {N : Type 0} → Parser N → List (Parser N) → Parser N
unfolding try_parse
parse_alternatives p [] = p
parse_alternatives p (q ∷ qs) = do o ← try_parse p; or_else o (parse_alternatives q qs)

unfoldable pub parse_optional : {A : Type 0} → Parser A → Parser (Option A)
unfolding try_parse
parse_optional p = try_parse p

abbrev pub value_if : {E : Type 0} → Option Token → E → Parser E → Parser E
value_if none e p = p
value_if (some _) e p = pure e

-- `parseEnum` over pairs of a token class and a value.
unfoldable pub parse_enum : {E : Type 0} → TokenKind × E → List (TokenKind × E) → Parser E
unfolding try_consume consume
parse_enum (k, e) [] = do consume k; pure e
parse_enum (k, e) (p ∷ ps) = do o ← try_consume k; value_if o e (parse_enum p ps)

-- The overload of `parseEnum` with a default value.
abbrev pub or_default : {E : Type 0} → E → Option E → E
or_default d none = d
or_default d (some e) = e

unfoldable pub parse_enum_or : {E : Type 0} → E → TokenKind × E → List (TokenKind × E) → Parser E
unfolding try_parse parse_enum
parse_enum_or default p ps = do o ← try_parse (parse_enum p ps); pure (or_default default o)

-- A flag for an optional token, and what follows one.
abbrev pub is_some : {A : Type 0} → Option A → Bool
is_some none = false
is_some (some _) = true

abbrev pub when_some : {A B : Type 0} → Option A → Parser B → Parser (Option B)
when_some none p = pure none
when_some (some _) p = do b ← p; pure (some b)

abbrev pub only_if : {A B : Type 0} → Option A → Parser (Option B) → Parser (Option B)
only_if none p = pure none
only_if (some _) p = p

-- A list that is only there after a token.
abbrev pub list_if : {A B : Type 0} → Option A → Parser (List B) → Parser (List B)
list_if none p = pure []
list_if (some _) p = p
