-- ===== src/Base/Integers.antt =====
-- Integers over the native naturals, with the tests that the library uses.
use Prim.Native.Nat.{ℕ}
use mathlib.Core.Bool.{Bool, true, false}
use waspas.Base.Tests.{ltb, ◌==◌}

pub data ℤ : Type 0 where
  pos negsuc : ℕ → ℤ

-- `a < b` and `a == b`.
unfoldable pub less_ℤ : ℤ → ℤ → Bool
less_ℤ (pos a) (pos b) = ltb a b
less_ℤ (pos a) (negsuc b) = false
less_ℤ (negsuc a) (pos b) = true
less_ℤ (negsuc a) (negsuc b) = ltb b a

unfoldable pub equal_ℤ : ℤ → ℤ → Bool
equal_ℤ (pos a) (pos b) = a == b
equal_ℤ (pos a) (negsuc b) = false
equal_ℤ (negsuc a) (pos b) = false
equal_ℤ (negsuc a) (negsuc b) = a == b
