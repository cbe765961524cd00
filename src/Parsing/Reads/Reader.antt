-- ===== src/Parsing/Reads/Reader.antt =====
-- src/parsing.cxx: what the members of `TokenReader` guarantee.
use mathlib.Core.Logic.{if_neg}
use waspas.Base.{
  ℕ, ◌+◌, ◌-◌, ◌<◌, ◌≡◌, ◌≢◌, refl, sym, ◌∙◌, subst, inl, inr, true, false, List, [], ◌∷◌, Option,
  none, some, length, get_elem?, get_elem?-total, arith, Bool-cases, ltb, leb,
}
use waspas.Utilities.{Text, cisref_eq}
use waspas.Lexing.Tokens.{
  Token, TokenKind, TokenKind-discrete, eof, identifier, character_string, unsigned_integer,
  unsigned_real, human_representation, integer_value,
}
use waspas.Parsing.Reader.{
  Input, TokenReader, ReaderError, bad_label, bad_integer, bad_real, bad_directive, max_label_value,
  Outcome, text_less, insert_repr, same_kind, note_unexpected, try_consume, consume, or_throw,
  step_back_and_throw, consume_id, consume_directive_forward, check_directive, consume_label,
  check_label, consume_int, or_step_back, consume_real, string_of, consume_string, bind,
}
use waspas.Parsing.Reads.{
  IsOther, AreOthers, IsNoLabel, IsInput, IsReader, After, IsReady, CanReport, After-refl, Post,
  returns, throws, Raised, Ends, Reads, pure-Reads, ◌▸◌,
}

-- Every class but the end of file.
abbrev pub IsReal : TokenKind → Type 0
IsReal eof = ⊥
IsReal _ = Unit

same_kind-eq : (a b : TokenKind) → same_kind a b ≡ true → a ≡ b
unfolding same_kind
same_kind-eq a b h = elim (TokenKind-discrete a b) [
  | yes e ↦ e
  | no ne ↦ cc (rw (if_neg _ ne) at h)
]

IsReal-ne : (k : TokenKind) → IsReal k → k ≢ eof
IsReal-ne k h e = subst IsReal e h

length-insert_repr_pos : (s : Text) (l : List Text) → 0 < length (insert_repr s l)
unfolding insert_repr
length-insert_repr_pos s [] = omega arith
length-insert_repr_pos s (t ∷ l) = ground arith

insert_repr-AreOthers :
    (t : Token) (s : Text) (l : List Text)
    → IsOther t s
    → AreOthers t l
    → AreOthers t (insert_repr s l)
unfolding insert_repr
insert_repr-AreOthers t s [] h hs = (h, tt)
insert_repr-AreOthers t s (u ∷ l) h (h', hs) =
    let rest = insert_repr-AreOthers t s l h hs in
    elim (Bool-cases (text_less s u)) [
      | inl before ↦ rw (before, insert_repr) (h, (h', hs))
      | inr behind ↦ elim (Bool-cases (text_less u s)) [
        | inl after ↦ rw (behind, after, insert_repr) (h', rest)
        | inr same ↦ rw (behind, same, insert_repr) (h', hs)
      ]
    ]

-- What a failed `tryConsume` leaves behind.
module _ (k : TokenKind) {i : Input} {r : TokenReader} (t : Token) (h : IsReader i r)
    (at : get_elem? i.tokens r.tokens_it ≡ some t) (differs : same_kind t.kind k ≡ false) where
  other : (u : Token) → get_elem? i.tokens r.tokens_it ≡ some u → IsOther u (human_representation k)
  other u e =
      let same : t ≡ u = cc (at, e) in
      subst (λ (x : Token). IsOther x (human_representation k)) same (k, refl, differs)

  note_unexpected-IsReady :
      After i r (note_unexpected k r)
      × IsReady (note_unexpected k r)
      × ((note_unexpected k r).tokens_it ≡ r.tokens_it)
  unfolding note_unexpected insert_repr
  note_unexpected-IsReady = elim (Bool-cases (leb r.unexpected_token_it r.tokens_it)) [
    | inr before ↦
        rw (before, note_unexpected)
          (
            After-refl h,
            record { expected = let known = h.reported in ground arith; farthest = ground arith },
            refl,
          )
    | inl front ↦ elim (Bool-cases (ltb r.unexpected_token_it r.tokens_it)) [
      | inl new ↦
          rw (front, new, note_unexpected)
            (
              record {
                reader = record {
                  inside = h.inside;
                  unexpected_inside = h.inside;
                  reported = inr (omega arith);
                  others = λ u e. (other u e, tt);
                };
                forward = omega arith;
                farther = ground arith;
              },
              record { expected = omega arith; farthest = omega arith },
              refl,
            )
      | inr old ↦
          let here : r.unexpected_token_it ≡ r.tokens_it = ground arith in
          let some_expected =
            length-insert_repr_pos (human_representation k) r.unsuccessful_token_reprs in
          rw (front, old, note_unexpected)
            (
              record {
                reader = record {
                  inside = h.inside;
                  unexpected_inside = h.unexpected_inside;
                  reported = inr some_expected;
                  others = λ u e.
                      insert_repr-AreOthers u (human_representation k) r.unsuccessful_token_reprs
                        (other u (rw here at e)) (h.others u e);
                };
                forward = omega arith;
                farther = omega arith;
              },
              record { expected = some_expected; farthest = omega arith },
              refl,
            )
    ]
  ]

-- What `tryConsume<T>` gives: the next token if it is a `T`, and else what a report needs.
abbrev pub Tried : Input → TokenReader → TokenKind → Option Token → TokenReader → Type 0
Tried i r k none r' = After i r r' × IsReady r' × (r'.tokens_it ≡ r.tokens_it)
Tried i r k (some t) r' =
    After i r r'
    × (t.kind ≡ k)
    × (get_elem? i.tokens r.tokens_it ≡ some t)
    × (r'.tokens_it ≡ r.tokens_it + 1)

module _ {i : Input} {r : TokenReader} (input : IsInput i) (reader : IsReader i r) where
  step-After :
      (t : Token)
      → get_elem? i.tokens r.tokens_it ≡ some t
      → t.kind ≢ eof
      → After i r (record r { tokens_it = r.tokens_it + 1 })
  step-After t e ne =
      let next = input.terminated r.tokens_it t e ne in
      record {
        reader = record {
          inside = omega arith;
          unexpected_inside = reader.unexpected_inside;
          reported = reader.reported;
          others = reader.others;
        };
        forward = omega arith;
        farther = omega arith;
      }

  pub try_consume-Tried :
      (k : TokenKind) → IsReal k → Post (Tried i r k) (Raised i r) (try_consume k i r)
  unfolding try_consume
  try_consume-Tried k real =
      let (t, e) = get_elem?-total i.tokens r.tokens_it reader.inside in
      elim (Bool-cases (same_kind t.kind k)) [
        | inl same ↦
            let kind = same_kind-eq t.kind k same in
            rw (e, try_consume)
              (rw same
                (returns (step-After t e (λ x. IsReal-ne k real (sym kind ∙ x)), kind, e, refl)))
        | inr differ ↦
            rw (e, try_consume) (rw differ (returns (note_unexpected-IsReady k t reader e differ)))
      ]

-- A token that is read for certain.
pub consume-Tried :
    (k : TokenKind) (i : Input) (r : TokenReader)
    → IsReal k
    → IsInput i
    → IsReader i r
    → Post (λ t r'. Tried i r k (some t) r') (Raised i r) (consume k i r)
unfolding consume
consume-Tried k i r real input reader = go (try_consume-Tried input reader k real)
  where
    go :
        {o : Outcome (Option Token)}
        → Post (Tried i r k) (Raised i r) o
        → Post (λ t r'. Tried i r k (some t) r') (Raised i r) (bind o (λ a. or_throw a i))
    go (returns {a = none} (after, ready, _)) = throws (after, ready)
    go (returns {a = some t} h) = returns h
    go (throws h) = throws h

pub consume-Reads : {b : ℕ} (k : TokenKind) → IsReal k → Reads 1 b (consume k)
consume-Reads k real = record {
  run = λ i r input reader left. go (consume-Tried k i r real input reader);
}
  where
    go :
        {i : Input} {r : TokenReader} {o : Outcome Token}
        → Post (λ t r'. Tried i r k (some t) r') (Raised i r) o
        → Ends i r 1 o
    go (returns (after, _, _, e)) = returns (after, omega arith)
    go (throws h) = throws h

pub try_consume-Reads : {b : ℕ} (k : TokenKind) → IsReal k → Reads 0 b (try_consume k)
try_consume-Reads k real = record {
  run = λ i r input reader left. go (try_consume-Tried input reader k real);
}
  where
    go :
        {i : Input} {r : TokenReader} {o : Outcome (Option Token)}
        → Post (Tried i r k) (Raised i r) o
        → Ends i r 0 o
    go (returns {a = none} (after, _, _)) = returns (after, omega arith)
    go (returns {a = some t} (after, _, _, _)) = returns (after, omega arith)
    go (throws h) = throws h

-- A token that is read and then looked at.
Post-bind :
    {A B : Type 0} {P : A → TokenReader → Type 0} {i : Input} {r : TokenReader} {o : Outcome A}
    {f : A → TokenReader → Outcome B}
    → Post P (Raised i r) o
    → ((a : A) (s : TokenReader) → P a s → Ends i r 1 (f a s))
    → Ends i r 1 (bind o f)
Post-bind (returns {a} {r = s} h) k = k a s h
Post-bind (throws h) k = throws h

above : (n : ℕ) → leb n max_label_value ≡ false → max_label_value < n
above n h = ground arith

module _ {i : Input} {r s : TokenReader} (reader : IsReader i r) (after : After i r s)
    (at : s.tokens_it ≡ r.tokens_it + 1) (token : Token)
    (here : get_elem? i.tokens r.tokens_it ≡ some token) where
  -- The exceptions about the value of a token are thrown with that token as the next one.
  step_back_and_throw-Ends :
      {A : Type 0} (e : ReaderError)
      → ((t : TokenReader) → get_elem? i.tokens t.tokens_it ≡ some token → CanReport i e t)
      → Ends {A = A} i r 1 (step_back_and_throw e i s)
  unfolding step_back_and_throw
  step_back_and_throw-Ends e can =
      let pos : ltb 0 s.tokens_it ≡ true = ground arith in
      let known = after.reader in
      let stepped : r.tokens_it ≡ s.tokens_it - 1 = omega arith in
      let back : After i r (record s { tokens_it = s.tokens_it - 1 }) = record {
        reader = record {
          inside = let h = reader.inside in omega arith;
          unexpected_inside = known.unexpected_inside;
          reported = known.reported;
          others = known.others;
        };
        forward = omega arith;
        farther = after.farther;
      } in
      rw (pos, step_back_and_throw)
        (throws (back, can _ (subst (λ n. get_elem? i.tokens n ≡ some token) stepped here)))

  check_label-Ends :
      (o : Option ℕ)
      → token.kind ≡ unsigned_integer
      → integer_value token.view.text ≡ o
      → Ends i r 1 (check_label o i s)
  unfolding check_label
  check_label-Ends none kind value =
      step_back_and_throw-Ends bad_label λ t e. (token, e, (kind, subst IsNoLabel (sym value) tt))
  check_label-Ends (some n) kind value = elim (Bool-cases (leb n max_label_value)) [
    | inl small ↦ rw (small, check_label) (returns (after, omega arith))
    | inr big ↦
        rw (big, check_label)
          (step_back_and_throw-Ends bad_label
            λ t e. (token, e, (kind, subst IsNoLabel (sym value) (above n big))))
  ]

  or_step_back-Ends :
      {A : Type 0} (e : ReaderError) (o : Option A)
      → (o ≡ none
          → (t : TokenReader) → get_elem? i.tokens t.tokens_it ≡ some token
          → CanReport i e t)
      → Ends i r 1 (or_step_back e o i s)
  unfolding or_step_back
  or_step_back-Ends e none can = step_back_and_throw-Ends e (can refl)
  or_step_back-Ends e (some a) can = returns (after, omega arith)

  check_directive-Ends :
      (expected : Text)
      → token.kind ≡ identifier
      → Ends i r 1 (check_directive expected token.view.text i s)
  unfolding check_directive
  check_directive-Ends expected kind = elim (Bool-cases (cisref_eq token.view.text expected)) [
    | inl same ↦ rw (same, check_directive) (returns (after, omega arith))
    | inr differ ↦
        rw (differ, check_directive)
          (step_back_and_throw-Ends (bad_directive expected) λ t e. (token, e, (kind, differ)))
  ]

pub consume_id-Reads : {b : ℕ} → Reads 1 b consume_id
unfolding consume_id
consume_id-Reads = consume-Reads identifier tt ▸ λ t. pure-Reads t.view.text

pub consume_directive_forward-Reads : {b : ℕ} → Reads 1 b consume_directive_forward
unfolding consume_directive_forward
consume_directive_forward-Reads = record {
  run = λ i r input reader left.
      Post-bind (consume-Tried identifier i r tt input reader)
        λ t s (after, kind, e, at). check_directive-Ends reader after at t e _ kind;
}

pub consume_label-Reads : {b : ℕ} → Reads 1 b consume_label
unfolding consume_label
consume_label-Reads = record {
  run = λ i r input reader left.
      Post-bind (consume-Tried unsigned_integer i r tt input reader) λ t s (after, kind, e, at).
        check_label-Ends reader after at t e (integer_value t.view.text) kind refl;
}

pub consume_int-Reads : {b : ℕ} → Reads 1 b consume_int
unfolding consume_int
consume_int-Reads = record {
  run = λ i r input reader left.
      Post-bind (consume-Tried unsigned_integer i r tt input reader) λ t s (after, kind, e, at).
        or_step_back-Ends reader after at t e bad_integer (integer_value t.view.text)
          λ value u e'. (t, e', (kind, value));
}

pub consume_real-Reads : {b : ℕ} → Reads 1 b consume_real
unfolding consume_real
consume_real-Reads = record {
  run = λ i r input reader left.
      Post-bind (consume-Tried unsigned_real i r tt input reader) λ t s (after, kind, e, at).
        or_step_back-Ends reader after at t e bad_real (i.real_value t.view.text)
          λ value u e'. (t, e', (kind, value));
}

pub consume_string-Reads : {b : ℕ} → Reads 1 b consume_string
unfolding consume_string
consume_string-Reads = record {
  run = λ i r input reader left.
      Post-bind (consume-Tried character_string i r tt input reader) λ t s (after, kind, e, at).
        let (text, known) = input.strings r.tokens_it t e kind in
        rw (known, string_of) (returns (after, omega arith));
}

-- The end of file, which the array cannot be read beyond.
pub consume_eof-Raised :
    (i : Input) (r : TokenReader) → IsReader i r → Post (λ _ _. Unit) (Raised i r) (consume eof i r)
unfolding consume try_consume
consume_eof-Raised i r reader =
    let (t, e) = get_elem?-total i.tokens r.tokens_it reader.inside in
    elim (Bool-cases (same_kind t.kind eof)) [
      | inl same ↦ rw (e, consume, try_consume) (rw same (returns tt))
      | inr differ ↦
          let (after, ready, _) = note_unexpected-IsReady eof t reader e differ in
          rw (e, consume, try_consume) (rw differ (throws (after, ready)))
    ]
