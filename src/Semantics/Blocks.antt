-- ===== src/Semantics/Blocks.antt =====
-- src/semantics.ixx: `Block` and `Subroutine`, as the analysis of statements reads and writes them.
use waspas.Base.{ℕ, Bool, true, false, List, [], ◌∷◌, Option, none, some, ◌==◌, if◌then◌else◌}
use waspas.Utilities.{Text, cisref_eq}
use waspas.Semantics.Types.{PascalType}
use waspas.Semantics.Constants.{Constant}
use waspas.Semantics.Signatures.{Signature}

-- `Block::Label`: the second location is null until a statement has the label.
pub record LabelEntry : Type 0 where
  pub defining_occurrence : ℕ
  pub prefixing_occurrence : Option ℕ

-- `Block::Variable`.
pub record VariableEntry : Type 0 where
  pub type : PascalType
  pub subroutine_threat_location : Option ℕ

-- `Subroutine`, with its block by number.
pub record Subroutine : Type 0 where
  pub last_declaration_location : ℕ
  pub signature : Signature
  pub block : ℕ
  pub contains_result_assignment : Bool

-- An unordered map is a list of its entries. A constant that is being defined is null. Of the
-- subroutine that contains the block, only the signature is used; there is none in the block of
-- the program and the builtin one. The builtin functions and procedures are given by name.
pub record Block : Type 0 where
  pub labels : List (ℕ × LabelEntry)
  pub constants : List (Text × Option Constant)
  pub types : List (Text × PascalType)
  pub variables : List (Text × VariableEntry)
  pub subroutines : List (Text × Subroutine)
  pub builtin_functions : List (Text × Text)
  pub builtin_procedures : List (Text × Text)
  pub containing_signature : Option Signature

-- `find` of a map whose keys are references.
unfoldable pub find_name : {T : Type 0} → Text → List (Text × T) → Option T
find_name id [] = none
find_name id ((key, t) ∷ entries) =
    let rest = find_name id entries in if cisref_eq id key then some t else rest

unfoldable pub contains_name : {T : Type 0} → Text → List (Text × T) → Bool
unfolding find_name
contains_name id entries = elim (find_name id entries) [ none ↦ false | some _ ↦ true ]

-- A change of the entry that `find` leads to.
unfoldable pub change_name : {T : Type 0} → Text → (T → T) → List (Text × T) → List (Text × T)
change_name id f [] = []
change_name id f ((key, t) ∷ entries) =
    let rest = change_name id f entries in
    if cisref_eq id key then (key, f t) ∷ entries else (key, t) ∷ rest

-- The same for the map of labels.
unfoldable pub find_label : ℕ → List (ℕ × LabelEntry) → Option LabelEntry
find_label label [] = none
find_label label ((key, l) ∷ entries) =
    let rest = find_label label entries in if label == key then some l else rest

unfoldable pub change_label :
    ℕ → (LabelEntry → LabelEntry) → List (ℕ × LabelEntry) → List (ℕ × LabelEntry)
change_label label f [] = []
change_label label f ((key, l) ∷ entries) =
    let rest = change_label label f entries in
    if label == key then (key, f l) ∷ entries else (key, l) ∷ rest
