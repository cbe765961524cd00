-- ===== src/Lexing/Tokens.antt =====
-- src/lexing-tokens.ixx and src/lexing.cxx: the token classes. The class of a token is its kind,
-- a `std::string_view` its location in the source with its text.
use waspas.Base.{
  ℕ, suc, ◌+◌, ◌-◌, ◌*◌, Bool, true, false, List, [], ◌∷◌, ◌++◌, Option, none, some, map, length,
  leb, ◌==◌, if◌then◌else◌, codes,
}
use Prim.Native.String.{String}
use waspas.Utilities.{Text, to_lower}
pub mod Values

pub record StringView : Type 0 where
  pub location : ℕ
  pub text : Text

-- The classes derived from `Token`.
pub data TokenKind : Type 0 where
  plus minus asterisk slash equal less_than greater_than : TokenKind
  left_bracket right_bracket dot comma colon semicolon caret : TokenKind
  left_parenthesis right_parenthesis not_equal less_than_or_equal : TokenKind
  greater_than_or_equal assign dot_dot : TokenKind
  ws_and ws_array ws_begin ws_case ws_const ws_div ws_do ws_downto ws_else ws_end : TokenKind
  ws_file ws_for ws_function ws_goto ws_if ws_in ws_label ws_mod ws_nil ws_not : TokenKind
  ws_of ws_or ws_packed ws_procedure ws_program ws_record ws_repeat ws_set ws_then : TokenKind
  ws_to ws_type ws_until ws_var ws_while ws_with : TokenKind
  identifier unsigned_integer unsigned_real character_string eof : TokenKind

unfoldable pub TokenKind-discrete : Discrete TokenKind
TokenKind-discrete = hlevel

pub record Token : Type 0 where
  pub kind : TokenKind
  pub view : StringView

-- Special symbols, character strings and the end of file may touch their neighbours.
unfoldable pub requires_separation : TokenKind → Bool
requires_separation plus = false
requires_separation minus = false
requires_separation asterisk = false
requires_separation slash = false
requires_separation equal = false
requires_separation less_than = false
requires_separation greater_than = false
requires_separation left_bracket = false
requires_separation right_bracket = false
requires_separation dot = false
requires_separation comma = false
requires_separation colon = false
requires_separation semicolon = false
requires_separation caret = false
requires_separation left_parenthesis = false
requires_separation right_parenthesis = false
requires_separation not_equal = false
requires_separation less_than_or_equal = false
requires_separation greater_than_or_equal = false
requires_separation assign = false
requires_separation dot_dot = false
requires_separation character_string = false
requires_separation eof = false
requires_separation _ = true

-- `quoteStringLiteral`.
unfoldable pub quote_string_literal : String → Text
unfolding to_lower
quote_string_literal s = map to_lower (34 ∷ (codes s ++ 34 ∷ []))

-- `HUMAN_REPRESENTATION` of each class.
unfoldable pub human_representation : TokenKind → Text
unfolding quote_string_literal
human_representation plus = quote_string_literal "+"
human_representation minus = quote_string_literal "-"
human_representation asterisk = quote_string_literal "*"
human_representation slash = quote_string_literal "/"
human_representation equal = quote_string_literal "="
human_representation less_than = quote_string_literal "<"
human_representation greater_than = quote_string_literal ">"
human_representation left_bracket = quote_string_literal "["
human_representation right_bracket = quote_string_literal "]"
human_representation dot = quote_string_literal "."
human_representation comma = quote_string_literal ","
human_representation colon = quote_string_literal ":"
human_representation semicolon = quote_string_literal ";"
human_representation caret = quote_string_literal "^"
human_representation left_parenthesis = quote_string_literal "("
human_representation right_parenthesis = quote_string_literal ")"
human_representation not_equal = quote_string_literal "<>"
human_representation less_than_or_equal = quote_string_literal "<="
human_representation greater_than_or_equal = quote_string_literal ">="
human_representation assign = quote_string_literal ":="
human_representation dot_dot = quote_string_literal ".."
human_representation ws_and = quote_string_literal "And"
human_representation ws_array = quote_string_literal "Array"
human_representation ws_begin = quote_string_literal "Begin"
human_representation ws_case = quote_string_literal "Case"
human_representation ws_const = quote_string_literal "Const"
human_representation ws_div = quote_string_literal "Div"
human_representation ws_do = quote_string_literal "Do"
human_representation ws_downto = quote_string_literal "Downto"
human_representation ws_else = quote_string_literal "Else"
human_representation ws_end = quote_string_literal "End"
human_representation ws_file = quote_string_literal "File"
human_representation ws_for = quote_string_literal "For"
human_representation ws_function = quote_string_literal "Function"
human_representation ws_goto = quote_string_literal "Goto"
human_representation ws_if = quote_string_literal "If"
human_representation ws_in = quote_string_literal "In"
human_representation ws_label = quote_string_literal "Label"
human_representation ws_mod = quote_string_literal "Mod"
human_representation ws_nil = quote_string_literal "Nil"
human_representation ws_not = quote_string_literal "Not"
human_representation ws_of = quote_string_literal "Of"
human_representation ws_or = quote_string_literal "Or"
human_representation ws_packed = quote_string_literal "Packed"
human_representation ws_procedure = quote_string_literal "Procedure"
human_representation ws_program = quote_string_literal "Program"
human_representation ws_record = quote_string_literal "Record"
human_representation ws_repeat = quote_string_literal "Repeat"
human_representation ws_set = quote_string_literal "Set"
human_representation ws_then = quote_string_literal "Then"
human_representation ws_to = quote_string_literal "To"
human_representation ws_type = quote_string_literal "Type"
human_representation ws_until = quote_string_literal "Until"
human_representation ws_var = quote_string_literal "Var"
human_representation ws_while = quote_string_literal "While"
human_representation ws_with = quote_string_literal "With"
human_representation identifier = codes "ID"
human_representation unsigned_integer = codes "INT"
human_representation unsigned_real = codes "REAL"
human_representation character_string = codes "STR"
human_representation eof = codes "EOF"

abbrev pub pascal_integer_max : ℕ
pascal_integer_max = 2147483647

-- The value of a run of decimal digits, read from the left.
unfoldable pub decimal : ℕ → Text → ℕ
decimal acc [] = acc
decimal acc (c ∷ s) = decimal (acc * 10 + (c - b'0')) s

-- `TokenUnsignedInteger::value<pascal_integer_t>`: `std::from_chars` of the whole text, `none` if
-- the value is out of range.
unfoldable pub integer_value : Text → Option ℕ
unfolding decimal
integer_value s = let n = decimal 0 s in if leb n pascal_integer_max then some n else none

-- The loop of `TokenCharacterString::value` over what stands between the apostrophes; of each
-- pair of apostrophes it keeps one. `none` is a step past the end.
unfoldable pub unescape : Text → Option Text
unescape [] = some []
unescape (c ∷ []) = if c == 39 then none else some (c ∷ [])
unescape (c ∷ d ∷ s) =
    let after_one = unescape (d ∷ s) in
    let after_two = unescape s in
    if c == 39
    then (elim after_two [ none ↦ none | some r ↦ some (c ∷ r) ])
    else (elim after_one [ none ↦ none | some r ↦ some (c ∷ r) ])

-- What is left of a view without its last character.
unfoldable pub without_last : Text → Option Text
without_last [] = none
without_last (c ∷ []) = some []
without_last (c ∷ d ∷ s) = elim (without_last (d ∷ s)) [ none ↦ none | some r ↦ some (c ∷ r) ]

unfoldable pub string_value : Text → Option Text
unfolding unescape without_last
string_value [] = none
string_value (_ ∷ s) = elim (without_last s) [ none ↦ none | some inner ↦ unescape inner ]
