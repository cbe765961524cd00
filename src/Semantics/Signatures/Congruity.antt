-- ===== src/Semantics/Signatures/Congruity.antt =====
-- src/semantics.cxx: `Signature::isCongruousWith`.
use waspas.Base.{ℕ, ◌≡◌, refl, true, Option, none, some, length, ◌==◌, arith}
use waspas.Semantics.Types.{PascalType}
use waspas.Semantics.Types.Relations.Laws.{
  is_equivalent_refl, same_type_refl, same_flag_refl, and-true,
}
use waspas.Semantics.Signatures.{
  Signature, signature, ParameterSections, no_sections, regular_section, subroutine_section,
  count_sections, same_result, result_type, is_congruous_with, sections_match,
}

==_refl : (n : ℕ) → (n == n) ≡ true
==_refl n = ground arith

pub same_result_refl : (t : Option PascalType) → same_result t t ≡ true
unfolding same_result
same_result_refl none = refl
same_result_refl (some t) = same_type_refl t

sections_match_refl : (sections : ParameterSections) → sections_match sections sections ≡ true
unfolding is_congruous_with sections_match result_type
sections_match_refl no_sections = refl
sections_match_refl (regular_section is_variable names type rest) =
    and-true
      (and-true (same_flag_refl is_variable)
        (and-true (==_refl (length names)) (is_equivalent_refl type)))
      (sections_match_refl rest)
sections_match_refl (subroutine_section name (signature inner result) rest) =
    and-true
      (and-true (and-true (==_refl (count_sections inner)) (sections_match_refl inner))
        (same_result_refl result))
      (sections_match_refl rest)

-- A formal parameter list is congruous with itself, at every depth of subroutine parameters.
pub is_congruous_with_refl : (s : Signature) → is_congruous_with s s ≡ true
unfolding is_congruous_with
is_congruous_with_refl (signature sections result) =
    and-true (==_refl (count_sections sections)) (sections_match_refl sections)
