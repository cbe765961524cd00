-- ===== src/Parsing/Reader.antt =====
-- src/parsing.cxx: `TokenReader` and its exceptions. A position in the token array is an index;
-- a read outside the array is the outcome `undefined`, and so is a failed assertion.
use mathlib.Core.Logic.{ite}
use waspas.Base.{
  ℕ, ◌+◌, ◌-◌, Bool, true, false, List, [], ◌∷◌, ◌++◌, Option, none, some, get_elem?, ltb, leb,
  ◌==◌, ◌&&◌, ◌||◌, if◌then◌else◌, codes,
}
use waspas.Utilities.{Text, cisref_eq}
use waspas.Reporting.{Reporter, err, text, number, ErrorCode}
use waspas.Lexing.Tokens.{
  Token, TokenKind, TokenKind-discrete, identifier, unsigned_integer, unsigned_real,
  character_string, human_representation, integer_value, string_value, pascal_integer_max,
}

-- The tokens, and `std::from_chars` for a `double`: the bits of the nearest binary64 number, or
-- `none` if the value is out of range.
pub record Input : Type 0 where
  pub tokens : List Token
  pub real_value : Text → Option ℕ

pub record TokenReader : Type 0 where
  pub tokens_it : ℕ
  pub unexpected_token_it : ℕ
  pub unsuccessful_token_reprs : List Text

abbrev pub initial_reader : TokenReader
initial_reader = record { tokens_it = 0; unexpected_token_it = 0; unsuccessful_token_reprs = [] }

-- The classes derived from `TokenReader::Error`.
pub data ReaderError : Type 0 where
  unexpected : ReaderError
  bad_directive : Text → ReaderError
  bad_label bad_integer bad_real : ReaderError

pub data Outcome (A : Type 0) : Type 0 where
  ok : A → TokenReader → Outcome A
  thrown : ReaderError → TokenReader → Outcome A
  undefined : Outcome A
  out_of_fuel : Outcome A

abbrev pub Parser : Type 0 → Type 0
Parser A = Input → TokenReader → Outcome A

abbrev pub bind : {A B : Type 0} → Outcome A → (A → TokenReader → Outcome B) → Outcome B
bind (ok a r) f = f a r
bind (thrown e r) f = thrown e r
bind undefined f = undefined
bind out_of_fuel f = out_of_fuel

infixl 5 ◌>>=◌ ◌>>◌
abbrev pub ◌>>=◌ : {A B : Type 0} → Parser A → (A → Parser B) → Parser B
◌>>=◌ p f i r = bind (p i r) (λ a. f a i)

abbrev pub ◌>>◌ : {A B : Type 0} → Parser A → Parser B → Parser B
p >> q = p >>= λ _. q

abbrev pub pure : {A : Type 0} → A → Parser A
pure a i r = ok a r

abbrev pub throw : {A : Type 0} → ReaderError → Parser A
throw e i r = thrown e r

-- `operator<` of `std::string_view`, and the insertion into a `std::set` of such.
unfoldable pub text_less : Text → Text → Bool
text_less [] [] = false
text_less [] (_ ∷ _) = true
text_less (_ ∷ _) [] = false
text_less (a ∷ s) (b ∷ t) = ltb a b || (a == b && text_less s t)

unfoldable pub insert_repr : Text → List Text → List Text
unfolding text_less
insert_repr s [] = s ∷ []
insert_repr s (t ∷ ts) =
    if text_less s t then s ∷ t ∷ ts else (if text_less t s then t ∷ insert_repr s ts else t ∷ ts)

unfoldable pub same_kind : TokenKind → TokenKind → Bool
unfolding TokenKind-discrete
same_kind a b = ite (TokenKind-discrete a b) true false

-- What `tryConsume` records when the next token is not of the class that it wants.
unfoldable pub note_unexpected : TokenKind → TokenReader → TokenReader
unfolding insert_repr
note_unexpected k r =
    if leb r.unexpected_token_it r.tokens_it
    then (if ltb r.unexpected_token_it r.tokens_it
        then record r {
          unexpected_token_it = r.tokens_it;
          unsuccessful_token_reprs = insert_repr (human_representation k) [];
        }
        else record r {
          unsuccessful_token_reprs =
              insert_repr (human_representation k) r.unsuccessful_token_reprs;
        })
    else r

unfoldable pub try_consume : TokenKind → Parser (Option Token)
unfolding same_kind note_unexpected
try_consume k i r = elim (get_elem? i.tokens r.tokens_it) [
  | none ↦ undefined
  | some t ↦
      if same_kind t.kind k
      then ok (some t) (record r { tokens_it = r.tokens_it + 1 })
      else ok none (note_unexpected k r)
]

abbrev pub or_throw : {A : Type 0} → Option A → Parser A
or_throw none = throw unexpected
or_throw (some a) = pure a

unfoldable pub consume : TokenKind → Parser Token
unfolding try_consume
consume k = do o ← try_consume k; or_throw o

-- `backtrack`, with its assertion.
unfoldable pub backtrack : ℕ → Parser (Unit {0})
backtrack pos i r = if leb pos r.tokens_it then ok tt (record r { tokens_it = pos }) else undefined

-- `--tokens_it_`, followed by a `throw`.
unfoldable pub step_back_and_throw : {A : Type 0} → ReaderError → Parser A
step_back_and_throw e i r =
    if ltb 0 r.tokens_it then thrown e (record r { tokens_it = r.tokens_it - 1 }) else undefined

unfoldable pub consume_id : Parser Text
unfolding consume
consume_id = do t ← consume identifier; pure t.view.text

unfoldable pub check_directive : Text → Text → Parser (Unit {0})
unfolding step_back_and_throw
check_directive expected s =
    if cisref_eq s expected then pure tt else step_back_and_throw (bad_directive expected)

unfoldable pub consume_directive_forward : Parser (Unit {0})
unfolding consume check_directive
consume_directive_forward = do t ← consume identifier; check_directive (codes "forward") t.view.text

abbrev pub max_label_value : ℕ
max_label_value = 9999

unfoldable pub check_label : Option ℕ → Parser ℕ
unfolding step_back_and_throw
check_label none = step_back_and_throw bad_label
check_label (some n) = if leb n max_label_value then pure n else step_back_and_throw bad_label

unfoldable pub consume_label : Parser ℕ
unfolding consume check_label
consume_label = do t ← consume unsigned_integer; check_label (integer_value t.view.text)

unfoldable pub or_step_back : {A : Type 0} → ReaderError → Option A → Parser A
unfolding step_back_and_throw
or_step_back e none = step_back_and_throw e
or_step_back e (some a) = pure a

unfoldable pub consume_int : Parser ℕ
unfolding consume or_step_back
consume_int = do t ← consume unsigned_integer; or_step_back bad_integer (integer_value t.view.text)

abbrev pub real_of : Text → Parser (Option ℕ)
real_of s i = pure (i.real_value s) i

unfoldable pub consume_real : Parser ℕ
unfolding consume or_step_back
consume_real = do t ← consume unsigned_real; v ← real_of t.view.text; or_step_back bad_real v

-- `consume<TokenCharacterString>().value()`.
abbrev pub string_of : Option Text → Parser Text
string_of none i r = undefined
string_of (some s) i r = ok s r

unfoldable pub consume_string : Parser Text
unfolding consume
consume_string = do t ← consume character_string; string_of (string_value t.view.text)

-- `buildExpectedRepresentationsString`: "a", "a or b", "a, b or c"; `none` if there is nothing.
unfoldable pub join_middle : List Text → Text
join_middle [] = []
join_middle (last ∷ []) = codes " or " ++ last
join_middle (s ∷ t ∷ ts) = codes ", " ++ (s ++ join_middle (t ∷ ts))

unfoldable pub build_expected_representations_string : List Text → Option Text
unfolding join_middle
build_expected_representations_string [] = none
build_expected_representations_string (s ∷ ts) = some (s ++ join_middle ts)

-- The `report` of each exception; `none` is a failed assertion or a read outside the array.
unfoldable pub report_unexpected : Token → List Text → Reporter → Option Reporter
unfolding build_expected_representations_string err
report_unexpected t reprs reporter = elim (build_expected_representations_string reprs) [
  | none ↦ none
  | some expected ↦ some (
      err t.view.location ErrorCode.unexpected_token
        (text expected ∷ text (human_representation t.kind) ∷ []) reporter)
]

unfoldable pub error_code : ReaderError → ErrorCode
error_code unexpected = ErrorCode.unexpected_token
error_code (bad_directive _) = ErrorCode.invalid_directive
error_code bad_label = ErrorCode.invalid_label
error_code bad_integer = ErrorCode.invalid_integer
error_code bad_real = ErrorCode.invalid_real

-- The token that an exception is about.
abbrev pub error_position : ReaderError → TokenReader → ℕ
error_position unexpected r = r.unexpected_token_it
error_position _ r = r.tokens_it

unfoldable pub report_token : ReaderError → Token → TokenReader → Reporter → Option Reporter
unfolding report_unexpected err
report_token unexpected t r reporter = report_unexpected t r.unsuccessful_token_reprs reporter
report_token (bad_directive expected) t r reporter = some (
    err t.view.location ErrorCode.invalid_directive (text expected ∷ text t.view.text ∷ [])
      reporter)
report_token bad_label t r reporter = some (
    err t.view.location ErrorCode.invalid_label (text t.view.text ∷ number max_label_value ∷ [])
      reporter)
report_token bad_integer t r reporter = some (
    err t.view.location ErrorCode.invalid_integer
      (text t.view.text ∷ number pascal_integer_max ∷ []) reporter)
report_token bad_real t r reporter =
    some (err t.view.location ErrorCode.invalid_real (text t.view.text ∷ []) reporter)

unfoldable pub report : ReaderError → Input → TokenReader → Reporter → Option Reporter
unfolding report_token
report e i r reporter = elim (get_elem? i.tokens (error_position e r)) [
  | none ↦ none
  | some t ↦ report_token e t r reporter
]
