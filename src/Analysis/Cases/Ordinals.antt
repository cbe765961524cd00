-- ===== src/Analysis/Cases/Ordinals.antt =====
-- src/semantics-analyze.cxx: the check of one constant of a case statement.
use waspas.Base.{
  ℕ, ◌+◌, ◌<◌, ◌≡◌, refl, subst, true, false, List, [], ◌∷◌, Option, none, some, ◌==◌, Bool-cases,
  inl, inr, arith,
}
use waspas.Base.Integers.{ℤ, pos}
use waspas.Reporting.{duplicate_case}
use waspas.Semantics.Types.{
  type_real, type_boolean, type_enumerated, type_subrange, PascalType, same_type, address,
  is_ordinal,
}
use waspas.Semantics.Constants.{
  Constant, constant_boolean, constant_integer, constant_real, constant_char, constant_string,
  constant_enumerated, constant_type, ordinal_number, string_type,
}
use waspas.Analysis.{Analysis, AnalysisState, ◌>>=◌, ◌>>◌, pure, report, report_note, asserted}
use waspas.Analysis.Cases.{
  UsedOrdinals, find_ordinal, check_ordinal, check_case_constant, kept, used_with,
}

abbrev pub AreDistinct : UsedOrdinals → Type 0
AreDistinct [] = Unit
AreDistinct ((n, _) ∷ used) = (find_ordinal n used ≡ none) × AreDistinct used

-- The constants that are kept, one after the other: each is of the type of the case index, and has
-- an ordinal that none of those before it has.
pub data Adds (t : PascalType) : UsedOrdinals → List Constant → UsedOrdinals → Type 0 where
  adds_none : (used : UsedOrdinals) → Adds t used [] used
  adds_one :
      (used used' : UsedOrdinals) (c : Constant) (constants : List Constant) (n : ℤ) (location : ℕ)
      → same_type (constant_type c) t ≡ true
      → ordinal_number c ≡ some n
      → find_ordinal n used ≡ none
      → Adds t ((n, location) ∷ used) constants used'
      → Adds t used (c ∷ constants) used'

-- Integers, characters and Booleans have ordinals.
abbrev pub IsBuiltinOrdinal : PascalType → Type 0
IsBuiltinOrdinal t = (is_ordinal t ≡ true) × (address t < 7)

string_differs : (a b : ℕ) → b < 7 → ((7 + a) == b) ≡ true → true ≡ false
string_differs a b h e = ground arith

real_differs : (t : PascalType) → is_ordinal t ≡ true → same_type type_real t ≡ true → true ≡ false
unfolding is_ordinal same_type address
real_differs type_real h e = cc h
real_differs type_boolean h e = ground arith
real_differs (type_enumerated a n) h e = ground arith
real_differs (type_subrange a host smallest largest) h e = ground arith
real_differs t h e = ground arith

has_ordinal :
    (t : PascalType) (c : Constant)
    → IsBuiltinOrdinal t
    → same_type (constant_type c) t ≡ true
    → (n : ℤ) × (ordinal_number c ≡ some n)
unfolding constant_type ordinal_number same_type string_type address is_ordinal
has_ordinal t (constant_boolean value) h e = (_, refl)
has_ordinal t (constant_integer value) h e = (_, refl)
has_ordinal t (constant_char value) h e = (_, refl)
has_ordinal t (constant_enumerated type n name) h e = (_, refl)
has_ordinal t (constant_string a value) h e =
    (pos 0, cc (string_differs (ℕ.suc a) (address t) h.1 e))
has_ordinal t (constant_real negative value) h e = (pos 0, cc (real_differs t h.0 e))

-- The checks of one constant.
pub data Checks (t : PascalType) (used : UsedOrdinals) (o : Option Constant) (s : AnalysisState)
    : Option (Option ℤ × AnalysisState) → Type 0 where
  drops : (s' : AnalysisState) → s'.blocks ≡ s.blocks → Checks t used o s (some (none, s'))
  keeps :
      (c : Constant) (n : ℤ)
      → o ≡ some c
      → same_type (constant_type c) t ≡ true
      → ordinal_number c ≡ some n
      → find_ordinal n used ≡ none
      → Checks t used o s (some (some n, s))

some_inj : {c d : Constant} → some d ≡ some c → c ≡ d
some_inj h = cc h

module _ (t : PascalType) (used : UsedOrdinals) (location : ℕ) (s : AnalysisState) where
  ordinal-Checks :
      (c : Constant) (n : ℤ)
      → same_type (constant_type c) t ≡ true
      → ordinal_number c ≡ some n
      → (o : Option ℕ) → find_ordinal n used ≡ o
      → Checks t used (some c) s (
          (elim o as (λ _. Analysis (Option ℤ)) [
            | none ↦ pure (some n)
            | some previous ↦ do
              report location duplicate_case []
              report_note previous []
              pure none
          ])
            s)
  unfolding report report_note
  ordinal-Checks c n same e none h = keeps c n refl same e h
  ordinal-Checks c n same e (some previous) h = drops _ refl

  pub constant-Checks :
      (o : Option Constant)
      → IsBuiltinOrdinal t
      → Checks t used o s (check_case_constant t location used o s)
  unfolding check_case_constant check_ordinal report
  constant-Checks none h = drops s refl
  constant-Checks (some c) h = elim (Bool-cases (same_type (constant_type c) t)) [
    | inr differ ↦ rw (differ, check_case_constant) (drops _ refl)
    | inl same ↦
        let (n, e) = has_ordinal t c h same in
        rw (same, check_case_constant)
          (rw (e, asserted, ◌>>=◌) (ordinal-Checks c n same e (find_ordinal n used) refl))
  ]

  -- What is kept of a constant, and the ordinals after it, before the rest of the constants.
  pub added :
      (o : Option Constant) (n : Option ℤ) (s' : AnalysisState) (rest : List Constant)
      (used' : UsedOrdinals)
      → Checks t used o s (some (n, s'))
      → Adds t (used_with n location used) rest used'
      → Adds t used (kept n o rest) used'
  added none (some n) s' rest used' (keeps c _ it same e new) h = cc it
  added (some d) (some n) s' rest used' (keeps c _ it same e new) h =
      let this : c ≡ d = some_inj it in
      adds_one used used' d rest n location
        (subst (λ x. same_type (constant_type x) t ≡ true) this same)
        (subst (λ x. ordinal_number x ≡ some n) this e) new h
  added o none s' rest used' (drops _ e) h = h

  pub still_distinct :
      (o : Option Constant) (n : Option ℤ) (s' : AnalysisState)
      → Checks t used o s (some (n, s'))
      → AreDistinct used
      → AreDistinct (used_with n location used)
  still_distinct o (some n) s' (keeps c _ same t e new) d = (new, d)
  still_distinct o none s' (drops _ e) d = d
