-- ===== src/Parsing/Reads.antt =====
-- src/parsing.cxx: what each part of the parser guarantees. A parser that starts in a good state
-- ends in one, has not gone back, and throws only exceptions that can be reported; it neither
-- leaves the token array nor runs out of fuel.
use waspas.Base.{
  ℕ, zero, suc, ◌+◌, ◌≤◌, ◌<◌, ◌≡◌, ◌≢◌, ◌⊎◌, inl, inr, false, List, [], ◌∷◌, Option, none, some,
  length, get_elem?, arith,
}
use waspas.Utilities.{Text, cisref_eq}
use waspas.Lexing.Tokens.{
  Token, TokenKind, eof, character_string, string_value, identifier, unsigned_integer,
  unsigned_real, human_representation, integer_value,
}
use waspas.Parsing.Reader.{
  Input, TokenReader, ReaderError, unexpected, bad_directive, bad_label, bad_integer, bad_real,
  Outcome, ok, thrown, Parser, bind, ◌>>=◌, pure, same_kind, max_label_value,
}
pub mod Reader
pub mod Loops
pub mod Constants
pub mod Types
pub mod Parameters
pub mod Expressions
pub mod Statements
pub mod Blocks

-- What the lexer promises of its tokens: the last one, and no other, is the end of file, and a
-- character string is one with its apostrophes.
pub record IsInput (i : Input) : Type 0 where
  pub some_token : 0 < length i.tokens
  pub terminated :
      (j : ℕ) (t : Token) → get_elem? i.tokens j ≡ some t → t.kind ≢ eof → suc j < length i.tokens
  pub strings :
      (j : ℕ) (t : Token)
      → get_elem? i.tokens j ≡ some t
      → t.kind ≡ character_string
      → (s : Text) × (string_value t.view.text ≡ some s)

-- What a text in the report of an unexpected token stands for: a class that the token is not of.
abbrev pub IsOther : Token → Text → Type 0
IsOther t s = (k : TokenKind) × (s ≡ human_representation k) × (same_kind t.kind k ≡ false)

abbrev pub AreOthers : Token → List Text → Type 0
AreOthers t [] = Unit
AreOthers t (s ∷ l) = IsOther t s × AreOthers t l

-- Both positions lie in the array, and what was expected is known wherever something was: classes
-- of which the token there is not.
pub record IsReader (i : Input) (r : TokenReader) : Type 0 where
  pub inside : r.tokens_it < length i.tokens
  pub unexpected_inside : r.unexpected_token_it < length i.tokens
  pub reported : (r.unexpected_token_it ≡ 0) ⊎ (0 < length r.unsuccessful_token_reprs)
  pub others :
      (t : Token)
      → get_elem? i.tokens r.unexpected_token_it ≡ some t
      → AreOthers t r.unsuccessful_token_reprs

pub record After (i : Input) (r r' : TokenReader) : Type 0 where
  pub reader : IsReader i r'
  pub forward : r.tokens_it ≤ r'.tokens_it
  pub farther : r.unexpected_token_it ≤ r'.unexpected_token_it

-- `UnexpectedToken` can be reported: there is something that was expected, and the token that the
-- report names is no earlier than where the parser gave up.
pub record IsReady (r : TokenReader) : Type 0 where
  pub expected : 0 < length r.unsuccessful_token_reprs
  pub farthest : r.tokens_it ≤ r.unexpected_token_it

abbrev pub IsNoLabel : Option ℕ → Type 0
IsNoLabel none = Unit
IsNoLabel (some n) = max_label_value < n

-- What is wrong with the token that an exception is about.
abbrev pub IsWrong : Input → ReaderError → List Text → Token → Type 0
IsWrong i unexpected reprs t = (0 < length reprs) × AreOthers t reprs
IsWrong i (bad_directive expected) reprs t =
    (t.kind ≡ identifier) × (cisref_eq t.view.text expected ≡ false)
IsWrong i bad_label reprs t = (t.kind ≡ unsigned_integer) × IsNoLabel (integer_value t.view.text)
IsWrong i bad_integer reprs t = (t.kind ≡ unsigned_integer) × (integer_value t.view.text ≡ none)
IsWrong i bad_real reprs t = (t.kind ≡ unsigned_real) × (i.real_value t.view.text ≡ none)

-- The next token is the wrong one.
abbrev pub IsNextWrong : Input → ReaderError → TokenReader → Type 0
IsNextWrong i e r = (t : Token) × (get_elem? i.tokens r.tokens_it ≡ some t) × IsWrong i e [] t

abbrev pub CanReport : Input → ReaderError → TokenReader → Type 0
CanReport i unexpected r = IsReady r
CanReport i e r = IsNextWrong i e r

-- A run that ends, by a value with `P` or by an exception with `E`.
pub data Post {A : Type 0} (P : A → TokenReader → Type 0) (E : ReaderError → TokenReader → Type 0)
    : Outcome A → Type 0 where
  returns : {a : A} {r : TokenReader} → P a r → Post P E (ok a r)
  throws : {e : ReaderError} {r : TokenReader} → E e r → Post P E (thrown e r)

abbrev pub Raised : Input → TokenReader → ReaderError → TokenReader → Type 0
Raised i r e r' = After i r r' × CanReport i e r'

abbrev pub Ends : {A : Type 0} → Input → TokenReader → ℕ → Outcome A → Type 0
Ends i r d = Post (λ _ r'. After i r r' × (r.tokens_it + d ≤ r'.tokens_it)) (Raised i r)

-- With fewer than `b` tokens left the parser ends, and it has read at least `d` of them.
pub record Reads {A : Type 0} (d b : ℕ) (p : Parser A) : Type 0 where
  pub run :
      (i : Input) (r : TokenReader)
      → IsInput i
      → IsReader i r
      → length i.tokens < r.tokens_it + b
      → Ends i r d (p i r)

pub After-refl : {i : Input} {r : TokenReader} → IsReader i r → After i r r
After-refl h = record { reader = h; forward = omega arith; farther = omega arith }

pub After-trans : {i : Input} {r s t : TokenReader} → After i r s → After i s t → After i r t
After-trans h k = record { reader = k.reader; forward = omega arith; farther = omega arith }

module _ {A : Type 0} {i : Input} {r s : TokenReader} where
  -- A run from a later state, seen from an earlier one that was at least `d` tokens before it.
  pub Ends-earlier :
      {o : Outcome A} (d e n : ℕ)
      → n ≤ d + e
      → After i r s
      → r.tokens_it + d ≤ s.tokens_it
      → Ends i s e o
      → Ends i r n o
  Ends-earlier d e n sum h le (returns (k, more)) = returns (After-trans h k, omega arith)
  Ends-earlier d e n sum h le (throws (k, report)) = throws (After-trans h k, report)

-- The rule for a sequence.
pub Ends-bind :
    {A B : Type 0} {i : Input} {r : TokenReader} (d e n : ℕ) {o : Outcome A}
    {f : A → TokenReader → Outcome B}
    → n ≤ d + e
    → Ends i r d o
    → ((a : A) (s : TokenReader) → After i r s → r.tokens_it + d ≤ s.tokens_it → Ends i s e (f a s))
    → Ends i r n (bind o f)
Ends-bind d e n sum (returns {a} {r = s} (h, le)) k = Ends-earlier d e n sum h le (k a s h le)
Ends-bind d e n sum (throws h) k = throws h

-- A parser that reads on reads less, and one that copes with more tokens copes with fewer.
pub weaken :
    {A : Type 0} {p : Parser A} (d b d' b' : ℕ) → d' ≤ d → b' ≤ b → Reads d b p → Reads d' b' p
weaken d b d' b' hd hb h = record {
  run = λ i r input reader left.
      Ends-earlier 0 d d' (omega arith) (After-refl reader) (omega arith)
        (h.run i r input reader (omega arith));
}

pub pure-Reads : {A : Type 0} {b : ℕ} (a : A) → Reads 0 b (pure a)
pure-Reads a = record { run = λ i r input reader left. returns (After-refl reader, omega arith) }

module _ {A B : Type 0} {b : ℕ} {p : Parser A} {k : A → Parser B} where
  -- A part, and then the rest.
  infixl 1 ◌⟫◌ ◌▸◌ ◌▹◌
  pub ◌⟫◌ : {c d : ℕ} → Reads c b p → ((a : A) → Reads d b (k a)) → Reads d b (p >>= k)
  ◌⟫◌ {c} {d} h f = record {
    run = λ i r input reader left.
        Ends-bind c d d (omega arith) (h.run i r input reader left)
          λ a s after le. (f a).run i s input after.reader (omega arith);
  }

  -- A part that reads a token, and then the rest.
  pub ◌▸◌ : Reads 1 b p → ((a : A) → Reads 0 b (k a)) → Reads 1 b (p >>= k)
  h ▸ f = record {
    run = λ i r input reader left.
        Ends-bind 1 0 1 (omega arith) (h.run i r input reader left)
          λ a s after le. (f a).run i s input after.reader (omega arith);
  }

  -- The same, where the rest counts on having one token less.
  pub ◌▹◌ : Reads 1 (suc b) p → ((a : A) → Reads 0 b (k a)) → Reads 1 (suc b) (p >>= k)
  h ▹ f = record {
    run = λ i r input reader left.
        Ends-bind 1 0 1 (omega arith) (h.run i r input reader left)
          λ a s after le. (f a).run i s input after.reader (omega arith);
  }
