-- ===== src/Parsing.antt =====
-- src/parsing-core.ixx, src/parsing.ixx and src/parsing.cxx: the recursive-descent parser, in child
-- modules. `Reader` is the token reader, `Combinators` the generic parts of the class `Parser`,
-- `Nodes` the parse tree, `Grammar` the productions, and `Reads` what each of them guarantees.
pub mod Reader
pub mod Combinators
pub mod Nodes
pub mod Grammar
pub mod Reads
pub mod Terminated
pub mod Total
