-- ===== src/Parsing/Grammar.antt =====
-- src/parsing.cxx: the productions of the class `Parser`. A production that needs another one
-- above it in the recursion takes that one as an argument; the knots are tied on fuel, which
-- `parse` gives as one more than the number of tokens.
pub mod Constants
pub mod Types
pub mod Parameters
pub mod Expressions
pub mod Statements
pub mod Blocks
