-- ===== src/Analysis/Running.antt =====
-- src/semantics-analyze.cxx: how a run of several steps is put together.
use waspas.Base.{◌≡◌, refl, Option, some, Option-cases, inl, inr}
use waspas.Analysis.{Analysis, AnalysisState, ◌>>=◌, asserted}

module _ {A B : Type 0} (m : Analysis A) (f : A → Analysis B) (s : AnalysisState) where
  -- A step that succeeds goes on with its value, in the state that it leaves.
  pub bind-some : (a : A) (s' : AnalysisState) → m s ≡ some (a, s') → (m >>= f) s ≡ f a s'
  bind-some a s' h = rw (h, ◌>>=◌) refl

pub asserted-some :
    {A : Type 0} (o : Option A) (a : A) (s : AnalysisState)
    → o ≡ some a
    → asserted o s ≡ some (a, s)
asserted-some o a s h = rw h refl

module _ {A B : Type 0} where
  -- A run of two steps that ends is one of each.
  pub bind-inv :
      (m : Analysis A) (f : A → Analysis B) (s : AnalysisState) (b : B × AnalysisState)
      → (m >>= f) s ≡ some b
      → (a : A) × (s' : AnalysisState) × (m s ≡ some (a, s')) × (f a s' ≡ some b)
  bind-inv m f s b h = elim (Option-cases (m s)) [
    | inl e ↦ absurd (cc (rw (e, ◌>>=◌) at h))
    | inr ((a, s'), e) ↦ (a, s', e, rw (e, ◌>>=◌) at h)
  ]

-- A step that only gives a value gives that one.
pub pure-inv :
    {A : Type 0} {a b : A} {s s' : AnalysisState}
    → ◌≡◌ {A = Option (A × AnalysisState)} (some (a, s)) (some (b, s'))
    → a ≡ b
pure-inv h = cc h
