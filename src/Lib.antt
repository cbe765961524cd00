-- ===== src/Lib.antt =====
-- Waspas, a compiler for ISO 7185 Pascal (src/main.cxx): the lexer, the parser, the diagnostics that
-- they share, and of the analyzer the types, scopes and blocks, and the analysis of constants,
-- expressions and statements.
--
-- The parts and the files that model them:
--   src/utilities.ixx     Utilities.antt           `Cisref`, its equality and hash
--   src/reporting.ixx     Reporting.antt           `LineIndexer` and `Reporter`
--   src/lexing-tokens.ixx Lexing/Tokens.antt       the token classes and their values
--   src/lexing.cxx        Lexing/Automaton.antt    `lexOne`
--                         Lexing/Loop.antt         `lex`
--   src/parsing.cxx       Parsing/Reader.antt      `TokenReader` and its exceptions
--                         Parsing/Combinators.antt `ViewRecorder` and the generic members of
--                                                  `Parser`
--                         Parsing/Grammar/*.antt   the productions, and `parse`
--   generate-parsing-nodes.py  Parsing/Nodes.antt  the classes of the parse tree
--   src/semantics-core.ixx, src/semantics-types.ixx, src/semantics.cxx
--                         Semantics/Types.antt     the classes of types
--                         Semantics/Types/Relations.antt  the relations between types
--   src/semantics-core.ixx  Semantics/Scopes.antt  `Scope`
--   src/semantics-constants.ixx  Semantics/Constants.antt   the values of constants
--   src/semantics.ixx     Semantics/Signatures.antt `Signature`
--                         Semantics/Blocks.antt    `Block` and `Subroutine`
--   src/semantics-expressions.ixx  Semantics/Expressions.antt  what expressions resolve to
--   src/semantics-statements.ixx   Semantics/Statements.antt   what statements resolve to
--   src/semantics-analyze.cxx  Analysis.antt       the state, and how steps follow each other
--                         Analysis/Constants.antt  `Builder`
--                         Analysis/Values.antt     `valueType` (src/semantics.cxx)
--                         Analysis/Operators.antt  the operators, on resolved operands
--                         Analysis/Identifiers.antt, Access.antt  variable accesses
--                         Analysis/Builder.antt    `StatementBuilder`, control variables
--                         Analysis/Subroutines.antt, Parameters.antt, Sections.antt  calls
--                         Analysis/Factors.antt, Expressions.antt  factors up to expressions
--                         Analysis/Labels.antt, Cases.antt, Steps.antt, Loops.antt,
--                         Statements.antt          the kinds of statements, `resolveStatement`
--   src/main.cxx          Driver.antt              the phases up to the parse tree
-- `main` gives the source to `lex`, and the tokens to `parse`; both report to one `Reporter`, which
-- asks the `LineIndexer` where an offset lies. The other files hold proofs: Utilities/Cisref,
-- Reporting/Locate and Reporting/Hold, Lexing/Automaton/Munch and Lexing/Loop/Tiles (with
-- Lexing/Loop/Reading and Lexing/Loop/Separators),
-- Lexing/Tokens/Values, Driver/Status, Semantics/Types/Relations/Laws and Fitting, Semantics/Scopes/Lookup and Adding,
-- Semantics/Signatures/Congruity, the files in the folders of Analysis, and Analysis/Running,
-- Parsing/Reads with a file for each file of the grammar, Parsing/Terminated and Parsing/Total.
-- Base.antt passes on the names that all share, and Tests.antt runs the definitions on small
-- inputs.
--
-- Functions keep the program's names, in this library's spelling: `parseLabel` is `parse_label`. A
-- character is its code and a text a list of them; a pointer into the source is an offset. State is
-- passed explicitly. In the lexer `none` is an access outside a table or container, or fuel that
-- ran out. A parser gives an `Outcome`: a value, a thrown exception, undefined behaviour (a read
-- outside the token array, a failed assertion), or fuel that ran out.
--
-- Fuel: the loops of the lexer have one round more than there are characters left, the loops of the
-- parser one more than there are tokens left, and the recursion of the productions one level more
-- than there are tokens. A round takes a character or a token, or is the last; between two levels
-- of the recursion a token is read. The analysis of an expression has fuel for the expressions inside
-- expressions; statements are analysed by recursion on their tree.
--
-- The analyzer passes one state: the reporter, the blocks by number, the types of the with statements
-- so far, and the next address. A step gives `none` where an assertion of the code fails.
--
-- Parameters: the automaton tables, which generate-lexing-tables.py makes (`Tables`, with
-- `IsGenerated` for what the lexer needs of them), and `std::from_chars` for a `double`
-- (`Input.real_value`). The functions of src/semantics-builtins.ixx, which blocks hold by pointer, are
-- the record `Builtins`.
--
-- Types are compared by address in the program, and here by a number that stands for it; the
-- instances that exist once have fixed numbers.
--
-- Not modelled: the builtin procedures and functions and the declarations (the rest of
-- src/semantics-analyze.cxx), the printed forms of types, options and files (src/main.cxx), console
-- output (src/io.cxx), the dump of the tree, and the text that std::format makes of a diagnostic.
pub mod Base
pub mod Utilities
pub mod Reporting
pub mod Lexing
pub mod Parsing
pub mod Semantics
pub mod Analysis
pub mod Driver
pub mod Tests
