-- ===== src/Tests/Samples.antt =====
-- A block, a scope and a state for the theorems on the analysis.
use waspas.Base.{ℕ, false, ◌+◌, [], ◌∷◌, none, some, codes}
use waspas.Base.Integers.{pos}
use Prim.Native.String.{String}
use waspas.Reporting.{initial_reporter}
use waspas.Parsing.Combinators.{View}
use waspas.Parsing.Nodes.{Identifier, Label, no_sign}
use waspas.Parsing.Nodes.Expressions.{
  Expression, expression, no_modifier, simple_expression, no_simple_modifiers, term,
  no_term_modifiers, nil,
}
use waspas.Semantics.Types.{
  PascalType, no_fields, more_fields, no_variants, type_integer, type_real, type_record,
}
use waspas.Semantics.Constants.{constant_integer}
use waspas.Semantics.Scopes.{Scope, block_region, DefiningOccurrence, OccurrenceKind}
use waspas.Semantics.Blocks.{Block}
use waspas.Semantics.Expressions.{expression_constant}
use waspas.Analysis.{AnalysisState}
use waspas.Analysis.Operators.{Operand}
use waspas.Analysis.Builder.{StatementBuilder}
use waspas.Analysis.Factors.{Builtins}

abbrev pub at_offset : ℕ → View
at_offset n = record { start = n; finish = n + 1 }

abbrev pub named : String → ℕ → Identifier
named name n = record { view = at_offset n; spelling = codes name }

-- label 1; const size = 10; var n: integer;
abbrev pub some_block : Block
some_block = record {
  labels = (1, record { defining_occurrence = 6; prefixing_occurrence = none }) ∷ [];
  constants = (codes "size", some (constant_integer (pos 10))) ∷ [];
  types = [];
  variables = (codes "n", record { type = type_integer; subroutine_threat_location = none }) ∷ [];
  subroutines = [];
  builtin_functions = [];
  builtin_procedures = [];
  containing_signature = none;
}

abbrev pub defined_at : ℕ → DefiningOccurrence
defined_at n = record { location = some n; kind = OccurrenceKind.not_type }

abbrev pub block_scope : ℕ → Scope
block_scope b = record {
  region = block_region b;
  dos = (codes "size", defined_at 15) ∷ (codes "n", defined_at 30) ∷ [];
}

abbrev pub record_type : PascalType
record_type = type_record 0 (more_fields (codes "x") type_real false no_fields) no_variants false

abbrev pub some_state : AnalysisState
some_state = record {
  reporter = initial_reporter;
  next_address = 1;
  blocks = λ _. some_block;
  withs = record_type ∷ [];
}

abbrev pub integer_operand : ℕ → ℕ → Operand
integer_operand location n = record {
  location = location;
  value = expression_constant (constant_integer (pos n));
  type = type_integer;
}

abbrev pub no_builtins : Builtins
no_builtins = record {
  function = λ builder resolver name scopes nodes location s. none;
  procedure = λ builder resolver name scopes nodes location s. none;
}

-- for n at offset 40, with label 1 on a statement around.
abbrev pub some_builder : StatementBuilder
some_builder = record {
  allowed_goto_targets = (1 ∷ []) ∷ [];
  used_control_variables = record { name = codes "n"; location = 40 } ∷ [];
}

abbrev pub nil_node : Expression
nil_node =
    expression (at_offset 60)
      (simple_expression (at_offset 60) no_sign
        (term (at_offset 60) (nil (at_offset 60)) no_term_modifiers) no_simple_modifiers)
      no_modifier

abbrev pub label_one : ℕ → Label
label_one n = record { view = at_offset n; value = 1 }
