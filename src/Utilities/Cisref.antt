-- ===== src/Utilities/Cisref.antt =====
-- src/utilities.ixx: `Cisref` as the key of an unordered map. The laws that such a map relies on:
-- its equality is an equivalence, and equal keys have equal hashes.
use waspas.Base.{ℕ, ◌≡◌, refl, ◌↔◌, true, [], ◌∷◌, map, arith}
use waspas.Utilities.{Text, to_lower, cisref_eq, fnv_loop, cisref_hash}

lowered_of_eq : (s t : Text) → cisref_eq s t ≡ true → map to_lower s ≡ map to_lower t
unfolding cisref_eq
lowered_of_eq [] [] h = refl
lowered_of_eq [] (b ∷ t) h = cc
lowered_of_eq (a ∷ s) [] h = cc
lowered_of_eq (a ∷ s) (b ∷ t) h = ground (arith, lowered_of_eq s t)

eq_of_lowered : (s t : Text) → map to_lower s ≡ map to_lower t → cisref_eq s t ≡ true
unfolding cisref_eq
eq_of_lowered [] [] h = refl
eq_of_lowered [] (b ∷ t) h = cc
eq_of_lowered (a ∷ s) [] h = cc
eq_of_lowered (a ∷ s) (b ∷ t) h = ground (arith, eq_of_lowered s t)

-- Two references are equal exactly when their lower-cased texts are the same.
pub cisref_eq_iff : (s t : Text) → (cisref_eq s t ≡ true) ↔ (map to_lower s ≡ map to_lower t)
cisref_eq_iff s t = (lowered_of_eq s t, eq_of_lowered s t)

pub cisref_eq_refl : (s : Text) → cisref_eq s s ≡ true
cisref_eq_refl s = eq_of_lowered s s refl

pub cisref_eq_sym : (s t : Text) → cisref_eq s t ≡ true → cisref_eq t s ≡ true
cisref_eq_sym s t h = eq_of_lowered t s (cc (lowered_of_eq s t h))

pub cisref_eq_trans :
    (s t u : Text) → cisref_eq s t ≡ true → cisref_eq t u ≡ true → cisref_eq s u ≡ true
cisref_eq_trans s t u h k = eq_of_lowered s u (cc (lowered_of_eq s t h, lowered_of_eq t u k))

cons_parts :
    (a b : ℕ) (s t : Text)
    → cisref_eq (a ∷ s) (b ∷ t) ≡ true
    → (to_lower a ≡ to_lower b) × (cisref_eq s t ≡ true)
unfolding cisref_eq
cons_parts a b s t e = ground arith

fnv_loop-congruent : (s t : Text) (h : ℕ) → cisref_eq s t ≡ true → fnv_loop h s ≡ fnv_loop h t
unfolding cisref_eq fnv_loop
fnv_loop-congruent [] [] h e = refl
fnv_loop-congruent [] (b ∷ t) h e = cc
fnv_loop-congruent (a ∷ s) [] h e = cc
fnv_loop-congruent (a ∷ s) (b ∷ t) h e =
    let (heads, tails) = cons_parts a b s t e in rw heads (fnv_loop-congruent s t _ tails)

-- References that are equal have the same hash, as an unordered map requires of its keys.
pub cisref_hash-congruent : (s t : Text) → cisref_eq s t ≡ true → cisref_hash s ≡ cisref_hash t
unfolding cisref_hash
cisref_hash-congruent s t e = fnv_loop-congruent s t _ e
