-- ===== src/Analysis/Cases/Distinct.antt =====
-- src/semantics-analyze.cxx: the constants that a case statement keeps are all different.
use waspas.Base.{ℕ, ◌≡◌, refl, sym, subst, ◌∙◌, List, [], ◌∷◌, Option, none, some}
use waspas.Base.Integers.{ℤ}
use waspas.Parsing.Nodes
use waspas.Semantics.Types.{PascalType}
use waspas.Semantics.Constants.{Constant}
use waspas.Semantics.Scopes.{Scope}
use waspas.Analysis.{Analysis, AnalysisState, ◌>>=◌, pure}
use waspas.Analysis.Constants.{resolve_constant}
use waspas.Analysis.Constants.Ranges.{
  Resolves, resolves, rejects, IsRead, AreInRange, AreProper, resolve_constant-Resolves,
}
use waspas.Analysis.Cases.{
  UsedOrdinals, constant_view, check_case_constant, kept, used_with, resolve_case_constants,
}
use waspas.Analysis.Cases.Ordinals.{
  AreDistinct, Adds, adds_none, IsBuiltinOrdinal, Checks, drops, keeps, constant-Checks, added,
  still_distinct,
}

-- How the loop over the constants of an element ends.
pub data CasesEnd (t : PascalType) (used : UsedOrdinals) (s : AnalysisState)
    : Option ((List Constant × UsedOrdinals) × AnalysisState) → Type 0 where
  cases_end :
      (constants : List Constant) (used' : UsedOrdinals) (s' : AnalysisState)
      → Adds t used constants used'
      → AreDistinct used'
      → s'.blocks ≡ s.blocks
      → CasesEnd t used s (some ((constants, used'), s'))

checked_blocks :
    {t : PascalType} {used : UsedOrdinals} {o : Option Constant} {s s' : AnalysisState}
    {n : Option ℤ}
    → Checks t used o s (some (n, s'))
    → s'.blocks ≡ s.blocks
checked_blocks (drops _ e) = e
checked_blocks (keeps c n it same e new) = refl

-- One round of the loop, given what the rest of the loop does.
module _ (t : PascalType) (location : ℕ) (h : IsBuiltinOrdinal t)
    (loop : UsedOrdinals → Analysis (List Constant × UsedOrdinals))
    (rest_ends : (used : UsedOrdinals) (s : AnalysisState)
      → AreInRange s.blocks
      → AreDistinct used
      → CasesEnd t used s (loop used s))
    (used : UsedOrdinals) (distinct : AreDistinct used) (s : AnalysisState)
    (known : AreInRange s.blocks) where
  after_rest :
      (o : Option Constant) (n : Option ℤ) (s1 s2 : AnalysisState)
      → s1.blocks ≡ s.blocks
      → Checks t used o s1 (some (n, s2))
      → (r : Option ((List Constant × UsedOrdinals) × AnalysisState))
      → CasesEnd t (used_with n location used) s2 r
      → CasesEnd t used s
          (elim r as (λ _. Option ((List Constant × UsedOrdinals) × AnalysisState)) [
            | none ↦ none
            | some (rest, s3) ↦ some ((kept n o rest.0, rest.1), s3)
          ])
  after_rest o n s1 s2 e c none r = elim r [ ]
  after_rest o n s1 s2 e c (some ((rest, used'), s3)) (cases_end _ _ _ a d e') =
      cases_end (kept n o rest) used' s3 (added t used location s1 o n s2 rest used' c a) d
        (e' ∙ checked_blocks c ∙ e)

  after_check :
      (o : Option Constant) (s1 : AnalysisState)
      → s1.blocks ≡ s.blocks
      → (r : Option (Option ℤ × AnalysisState)) → Checks t used o s1 r
      → CasesEnd t used s
          (elim r as (λ _. Option ((List Constant × UsedOrdinals) × AnalysisState)) [
            | none ↦ none
            | some (n, s2) ↦
                (loop (used_with n location used) >>= λ rest. pure (kept n o rest.0, rest.1)) s2
          ])
  after_check o s1 e none r = elim r [ ]
  after_check o s1 e (some (n, s2)) c =
      after_rest o n s1 s2 e c (loop (used_with n location used) s2) (
        rest_ends (used_with n location used) s2
          (subst AreInRange (sym (checked_blocks c ∙ e)) known)
          (still_distinct t used location s1 o n s2 c distinct))

  after_constant :
      (r : Option (Option Constant × AnalysisState))
      → Resolves s r
      → CasesEnd t used s
          (elim r as (λ _. Option ((List Constant × UsedOrdinals) × AnalysisState)) [
            | none ↦ none
            | some (o, s1) ↦
                (check_case_constant t location used o >>= λ n.
                loop (used_with n location used) >>= λ rest. pure (kept n o rest.0, rest.1))
                  s1
          ])
  after_constant none r = elim r [ ]
  after_constant (some (some c, s1)) (resolves _ _ i e) =
      after_check (some c) s1 e (check_case_constant t location used (some c) s1)
        (constant-Checks t used location s1 (some c) h)
  after_constant (some (none, s1)) (rejects _ i e) =
      after_check none s1 e (check_case_constant t location used none s1)
        (constant-Checks t used location s1 none h)

abbrev pub AllRead : List Nodes.Constant → Type 0
AllRead [] = Unit
AllRead (node ∷ nodes) = IsRead node × AllRead nodes

-- The constants of one element of a case statement, whose index has the type integer, char or
-- Boolean: the analysis of them always ends, and leaves the blocks as they are. The constants that
-- it keeps are of that type, and no two of them, nor of the ones before, have the same ordinal.
-- Integers that are read are at most maxint, the blocks have constants in range, only
-- scopes of blocks define types, and the ordinals before are distinct.
pub resolve_case_constants-CasesEnd :
    (scopes : List Scope) (t : PascalType) (nodes : List Nodes.Constant) (used : UsedOrdinals)
    (s : AnalysisState)
    → IsBuiltinOrdinal t
    → AreProper scopes
    → AreInRange s.blocks
    → AllRead nodes
    → AreDistinct used
    → CasesEnd t used s (resolve_case_constants scopes t used nodes s)
unfolding resolve_case_constants
resolve_case_constants-CasesEnd scopes t [] used s h proper known read distinct =
    cases_end [] used s (adds_none used) distinct refl
resolve_case_constants-CasesEnd scopes t (node ∷ nodes) used s h proper known read distinct =
    after_constant t (constant_view node).start h (λ u. resolve_case_constants scopes t u nodes)
      (λ u s' k d. resolve_case_constants-CasesEnd scopes t nodes u s' h proper k read.1 d) used
      distinct s known (resolve_constant scopes node s)
      (resolve_constant-Resolves s scopes node known proper read.0)
