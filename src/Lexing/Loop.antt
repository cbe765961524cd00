-- ===== src/Lexing/Loop.antt =====
-- src/lexing.cxx: `lex`. A `std::string_view` of what is left of the source is what the program's
-- iterator `it` stands for. `none` is an access outside a table or an empty container, or fuel
-- that ran out; Loop/Tiles.antt shows that neither happens.
use waspas.Base.{
  ℕ, zero, suc, ◌+◌, Bool, true, false, not, ◌&&◌, List, [], ◌∷◌, ◌++◌, Option, none, some, length,
  if◌then◌else◌,
}
use waspas.Utilities.{Text, is_print}
use waspas.Reporting.{Reporter, err, text, number, missing_separator, invalid_token}
use waspas.Lexing.Tokens.{
  StringView, Token, TokenKind, eof, requires_separation, human_representation,
}
use waspas.Lexing.Automaton.{Automaton, lex_one, remove_prefix}
pub mod Separators
pub mod Reading
pub mod Tiles

-- The classes of the separator grammar.
pub data Separator : Type 0 where
  separator_whitespace separator_comment : Separator

-- SEPARATOR_STATES with SEPARATOR_TRANSITIONS, and TOKEN_STATES with TOKEN_TRANSITIONS.
pub record Tables : Type 0 where
  pub separators : Automaton Separator
  pub tokens : Automaton TokenKind

-- `GrammarSeparator::makeResult` and `GrammarToken::makeResult`.
abbrev pub make_separator : Separator → StringView → ℕ
make_separator k v = length v.text

abbrev pub make_token : TokenKind → StringView → Option Token
make_token k v = some (record { kind = k; view = v })

-- The inner loop: what is left after the separators, and whether there was one.
unfoldable pub skip_separators : ℕ → Tables → StringView → Bool → Option (StringView × Bool)
unfolding lex_one remove_prefix
skip_separators zero t it had_separation = none
skip_separators (suc fuel) t it had_separation = elim (lex_one t.separators make_separator 0 it) [
  | none ↦ none
  | some zero ↦ some (it, had_separation)
  | some (suc n) ↦ skip_separators fuel t (remove_prefix (suc n) it) true
]

-- The local variables of `lex`, with the reporter.
pub record Lexer : Type 0 where
  pub tokens : List Token
  pub it : StringView
  pub previous_required_separation : Bool
  pub reporter : Reporter

-- `tokens.back()`.
unfoldable pub back : List Token → Option Token
back [] = none
back (t ∷ []) = some t
back (t ∷ u ∷ ts) = back (u ∷ ts)

-- The check that a token is told apart from its predecessor.
unfoldable pub check_separation : Lexer → Token → Bool → Option Reporter
unfolding back
check_separation s token had_separation =
    if s.previous_required_separation && (requires_separation token.kind && not had_separation)
    then elim (back s.tokens) [
      | none ↦ none
      | some previous ↦ some (
          err s.it.location missing_separator
            (text (human_representation token.kind)
              ∷ text (human_representation previous.kind)
              ∷ [])
            s.reporter)
    ]
    else some s.reporter

-- The round for a token.
unfoldable pub after_token : Lexer → Token → Reporter → Lexer
unfolding remove_prefix
after_token s token reporter = record {
  tokens = s.tokens ++ token ∷ [];
  it = remove_prefix (length token.view.text) s.it;
  previous_required_separation = requires_separation token.kind;
  reporter = reporter;
}

unfoldable pub push_token : Lexer → Token → Bool → Option Lexer
unfolding check_separation
push_token s token had_separation = elim (check_separation s token had_separation) [
  | none ↦ none
  | some reporter ↦ some (after_token s token reporter)
]

-- The round for a character that begins no token.
unfoldable pub skip_invalid : Lexer → ℕ → Lexer
unfolding remove_prefix
skip_invalid s c = record {
  tokens = s.tokens;
  it = remove_prefix 1 s.it;
  previous_required_separation = false;
  reporter =
      err s.it.location invalid_token ((if is_print c then text (c ∷ []) else number c) ∷ [])
        s.reporter;
}

-- The outer loop.
unfoldable pub lex_loop : ℕ → Tables → Lexer → Option Lexer
unfolding skip_separators lex_one push_token after_token skip_invalid
lex_loop zero t s = none
lex_loop (suc fuel) t s = elim (skip_separators (suc (length s.it.text)) t s.it false) [
  | none ↦ none
  | some (it, had_separation) ↦
      let s' = record s { it = it } in
      elim it.text [
        | [] ↦ some s'
        | c ∷ _ ↦ elim (lex_one t.tokens make_token none it) [
          | none ↦ none
          | some none ↦ lex_loop fuel t (skip_invalid s' c)
          | some (some token) ↦ elim (push_token s' token had_separation) [
            | none ↦ none
            | some next ↦ lex_loop fuel t next
          ]
        ]
      ]
]

abbrev pub eof_token : StringView → Token
eof_token it = record { kind = eof; view = it }

unfoldable pub lex : Tables → Text → Reporter → Option (List Token × Reporter)
unfolding lex_loop
lex t source reporter =
    elim (lex_loop (suc (length source)) t (record {
      tokens = [];
      it = record { location = 0; text = source };
      previous_required_separation = false;
      reporter = reporter;
    })) [ none ↦ none | some s ↦ some (s.tokens ++ eof_token s.it ∷ [], s.reporter) ]
