-- ===== src/Tests.antt =====
-- The definitions on concrete inputs, and the theorems at such inputs.
mod Parsing
mod Witnesses
mod Semantics
mod Analysis
mod Samples
mod Resolution
mod Values
mod Statements
mod Loops
