-- ===== src/Tests/Loops.antt =====
-- The theorems on for statements at concrete inputs.
use waspas.Base.{[], ◌∷◌, List}
use waspas.Semantics.Scopes.{Scope}
use waspas.Analysis.Access.{Resolver}
use waspas.Analysis.Expressions.{resolve_expression}
use waspas.Analysis.Builder.{StatementBuilder}
use waspas.Tests.Samples.{block_scope, no_builtins}

abbrev resolver : StatementBuilder → Resolver
resolver builder = resolve_expression no_builtins builder 5

abbrev scopes : List Scope
scopes = block_scope 0 ∷ []

-- A procedure of the block changes n, and then the block has the statement for N := 1 to 9 do.
abbrev inner_scopes : List Scope
inner_scopes = block_scope 1 ∷ block_scope 0 ∷ []
