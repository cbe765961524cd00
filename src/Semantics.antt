-- ===== src/Semantics.antt =====
-- src/semantics*: the meaning of programs: types, constants, signatures, scopes and blocks, and
-- the expressions and statements that the analysis makes.
pub mod Types
pub mod Scopes
pub mod Constants
pub mod Signatures
pub mod Expressions
pub mod Statements
pub mod Blocks
