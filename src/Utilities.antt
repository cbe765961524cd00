-- ===== src/Utilities.antt =====
-- src/utilities.ixx: `Cisref`, the case-insensitive reference to a piece of source text, with its
-- equality and its hash, and the character functions of <cctype> (in the "C" locale) that it uses.
-- A `char` is its code; the program only ever holds ASCII text, so a code is below 128.
use waspas.Base.{
  ℕ, ◌+◌, ◌-◌, ◌*◌, ◌%◌, ◌^◌, Bool, true, false, ◌&&◌, List, [], ◌∷◌, leb, ◌==◌, if◌then◌else◌,
}
use Prim.Native.Nat.{bit_xor}
pub mod Cisref

abbrev pub Text : Type 0
Text = List ℕ

unfoldable pub is_upper : ℕ → Bool
is_upper c = leb b'A' c && leb c b'Z'

unfoldable pub is_lower : ℕ → Bool
is_lower c = leb b'a' c && leb c b'z'

unfoldable pub to_lower : ℕ → ℕ
unfolding is_upper
to_lower c = if is_upper c then c + 32 else c

unfoldable pub to_upper : ℕ → ℕ
unfolding is_lower
to_upper c = if is_lower c then c - 32 else c

unfoldable pub is_print : ℕ → Bool
is_print c = leb 32 c && leb c 126

-- `operator==` of `Cisref`: `std::ranges::equal` of the two lower-cased views.
unfoldable pub cisref_eq : Text → Text → Bool
unfolding to_lower
cisref_eq [] [] = true
cisref_eq [] (_ ∷ _) = false
cisref_eq (_ ∷ _) [] = false
cisref_eq (a ∷ s) (b ∷ t) = to_lower a == to_lower b && cisref_eq s t

abbrev pub uint64_mod : ℕ
uint64_mod = 2 ^ 64

-- The loop of `std::hash<Cisref>`: 64-bit FNV-1a from the state `h`.
unfoldable pub fnv_loop : ℕ → Text → ℕ
unfolding to_lower
fnv_loop h [] = h
fnv_loop h (c ∷ s) = fnv_loop (bit_xor h (to_lower c) * 0x10000_0001b3 % uint64_mod) s

unfoldable pub cisref_hash : Text → ℕ
unfolding fnv_loop
cisref_hash s = fnv_loop 0xcbf29ce4_84222325 s
