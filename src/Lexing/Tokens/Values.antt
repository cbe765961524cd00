-- ===== src/Lexing/Tokens/Values.antt =====
-- src/lexing.cxx: the values of character strings and of unsigned integers.
use waspas.Base.{
  ℕ, ◌≡◌, refl, Bool-cases, inl, inr, true, false, [], ◌∷◌, ◌++◌, some, ◌==◌, if◌then◌else◌,
}
use waspas.Utilities.{Text}
use waspas.Lexing.Tokens.{unescape, without_last, string_value}

-- How a string is written in Pascal: each apostrophe twice, and the whole between apostrophes.
abbrev pub escape : Text → Text
escape [] = []
escape (c ∷ s) = let rest = escape s in if c == 39 then c ∷ c ∷ rest else c ∷ rest

abbrev pub quoted : Text → Text
quoted s = 39 ∷ (escape s ++ 39 ∷ [])

without_last-append : (s : Text) (c : ℕ) → without_last (s ++ c ∷ []) ≡ some s
unfolding without_last
without_last-append [] c = refl
without_last-append (d ∷ []) c = refl
without_last-append (d ∷ e ∷ s) c = rw (without_last-append (e ∷ s) c, without_last) refl

unescape-pair :
    (c : ℕ) (s r : Text)
    → (c == 39) ≡ true
    → unescape s ≡ some r
    → unescape (c ∷ c ∷ s) ≡ some (c ∷ r)
unfolding unescape
unescape-pair c s r h e = rw (h, unescape) (rw (e, unescape) refl)

unescape-single :
    (c : ℕ) (s r : Text) → (c == 39) ≡ false → unescape s ≡ some r → unescape (c ∷ s) ≡ some (c ∷ r)
unfolding unescape
unescape-single c [] r h e = rw (h, unescape) cc
unescape-single c (d ∷ s) r h e = rw (h, unescape) (rw (e, unescape) refl)

unescape-escape : (s : Text) → unescape (escape s) ≡ some s
unescape-escape [] = unfold unescape in refl
unescape-escape (c ∷ s) = elim (Bool-cases (c == 39)) [
  | inl h ↦ rw (h, escape) (unescape-pair c (escape s) s h (unescape-escape s))
  | inr h ↦ rw (h, escape) (unescape-single c (escape s) s h (unescape-escape s))
]

-- The value of a character string is the text that it was written for, apostrophes included.
pub string_value-quoted : (s : Text) → string_value (quoted s) ≡ some s
unfolding string_value
string_value-quoted s = rw (without_last-append (escape s) 39, string_value) (unescape-escape s)
