-- ===== src/Tests/Parsing.antt =====
-- The parser on small programs.
use waspas.Base.{Bool, true, false, ◌≡◌, refl, List, ℕ, [], ◌∷◌, none, codes}
use waspas.Utilities.{Text}
use waspas.Reporting.{initial_reporter, Message, ErrorCode, text}
use waspas.Parsing.Grammar.Blocks.{Parsed, accepted, rejected, faulty, parse}
use waspas.Lexing.Tokens.{
  Token, TokenKind, ws_program, identifier, semicolon, ws_begin, ws_end, dot, eof,
  human_representation,
}
use waspas.Parsing.Reader.{Input}

abbrev tok : TokenKind → ℕ → Text → Token
tok k at s = record { kind = k; view = record { location = at; text = s } }

-- program p; begin end.
abbrev pub minimal : Input
minimal = record {
  tokens =
      tok ws_program 0 (codes "program")
      ∷ tok identifier 8 (codes "p")
      ∷ tok semicolon 9 (codes ";")
      ∷ tok ws_begin 11 (codes "begin")
      ∷ tok ws_end 17 (codes "end")
      ∷ tok dot 20 (codes ".")
      ∷ tok eof 21 []
      ∷ [];
  real_value = λ s. none;
}

-- program p begin end.
abbrev no_semicolon : Input
no_semicolon = record {
  tokens =
      tok ws_program 0 (codes "program")
      ∷ tok identifier 8 (codes "p")
      ∷ tok ws_begin 10 (codes "begin")
      ∷ tok ws_end 16 (codes "end")
      ∷ tok dot 19 (codes ".")
      ∷ tok eof 20 []
      ∷ [];
  real_value = λ s. none;
}

abbrev is_accepted : Parsed → Bool
is_accepted (accepted _ _) = true
is_accepted (rejected _) = false
is_accepted faulty = false

abbrev messages : Parsed → List Message
messages (accepted _ r) = r.printed
messages (rejected r) = r.printed
messages faulty = []

minimal_accepted : is_accepted (parse minimal initial_reporter) ≡ true
unfolding parse
minimal_accepted = refl

-- Two classes of tokens were possible where the semicolon is missing.
semicolon_missing :
    messages (parse no_semicolon initial_reporter)
    ≡ Message.error 10 ErrorCode.unexpected_token
        (text (codes "\"(\" or \";\"") ∷ text (codes "\"begin\"") ∷ [])
      ∷ []
unfolding parse initial_reporter human_representation
semicolon_missing = refl
