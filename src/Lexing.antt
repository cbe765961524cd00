-- ===== src/Lexing.antt =====
-- src/lexing-tokens.ixx and src/lexing.cxx: the tokens and the lexer, in child modules.
pub mod Tokens
pub mod Automaton
pub mod Loop
