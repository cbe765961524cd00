-- ===== src/Semantics/Scopes/Lookup.antt =====
-- src/semantics-core.ixx: what a lookup finds.
use waspas.Base.{
  ℕ, zero, suc, ◌+◌, ◌<◌, ◌≡◌, refl, subst, inl, inr, Option-cases, List, [], ◌∷◌, Option, none,
  some, arith,
}
use waspas.Utilities.{Text}
use waspas.Semantics.Scopes.{Scope, find_occurrence, parent, LookupResult, lookup_from, lookup}

-- The scope that a lookup names by its index, and how it came to be the one.
pub record IsInnermost (id : Text) (scopes : List Scope) (r : LookupResult) (n : ℕ) : Type 0 where
  pub outer : List Scope
  pub reached : parent n scopes ≡ some (r.scope ∷ outer)
  pub defined : find_occurrence id r.scope.dos ≡ some r.defining_occurrence
  pub innermost :
      (m : ℕ)
      → m < n
      → (s : Scope) × (more : List Scope) × (parent m scopes ≡ some (s ∷ more))
        × (find_occurrence id s.dos ≡ none)

-- The result of a loop that began at the index `from`.
pub data Looked (id : Text) (from : ℕ) (scopes : List Scope) : Option LookupResult → Type 0 where
  absent :
      ((m : ℕ) (s : Scope) (more : List Scope)
        → parent m scopes ≡ some (s ∷ more)
        → find_occurrence id s.dos ≡ none)
      → Looked id from scopes none
  present :
      {r : LookupResult} (n : ℕ)
      → r.scope_index ≡ from + n
      → IsInnermost id scopes r n
      → Looked id from scopes (some r)

-- A scope in which the name is not defined.
module _ (id : Text) (s t : Scope) (ts : List Scope) (e : find_occurrence id s.dos ≡ none) where
  missed-Looked :
      {from : ℕ} {o : Option LookupResult}
      → Looked id (from + 1) (t ∷ ts) o
      → Looked id from (s ∷ t ∷ ts) o
  unfolding parent
  missed-Looked (absent h) = absent go
    where
      go :
          (m : ℕ) (u : Scope) (more : List Scope)
          → parent m (s ∷ t ∷ ts) ≡ some (u ∷ more)
          → find_occurrence id u.dos ≡ none
      go zero u more at =
          let same : s ≡ u = cc at in subst (λ (x : Scope). find_occurrence id x.dos ≡ none) same e
      go (suc m) u more at = h m u more at
  missed-Looked (present n index inner) = present (suc n) (omega arith) (record {
    outer = inner.outer;
    reached = inner.reached;
    defined = inner.defined;
    innermost = go;
  })
    where
      go :
          (m : ℕ)
          → m < suc n
          → (u : Scope) × (more : List Scope) × (parent m (s ∷ t ∷ ts) ≡ some (u ∷ more))
            × (find_occurrence id u.dos ≡ none)
      go zero lt = (s, t ∷ ts, refl, e)
      go (suc m) lt = inner.innermost m (omega arith)

alone-Looked :
    (id : Text) (from : ℕ) (s : Scope)
    → find_occurrence id s.dos ≡ none
    → Looked id from (s ∷ []) none
unfolding parent
alone-Looked id from s e = absent go
  where
    go :
        (m : ℕ) (u : Scope) (more : List Scope)
        → parent m (s ∷ []) ≡ some (u ∷ more)
        → find_occurrence id u.dos ≡ none
    go zero u more at =
        let same : s ≡ u = cc at in subst (λ (x : Scope). find_occurrence id x.dos ≡ none) same e
    go (suc m) u more at = cc

lookup_from-Looked :
    (id : Text) (from : ℕ) (scopes : List Scope)
    → Looked id from scopes (lookup_from id from scopes)
unfolding lookup_from parent
lookup_from-Looked id from [] = absent none_there
  where
    none_there :
        (m : ℕ) (u : Scope) (more : List Scope)
        → parent m [] ≡ some (u ∷ more)
        → find_occurrence id u.dos ≡ none
    none_there zero u more at = cc at
    none_there (suc m) u more at = cc at
lookup_from-Looked id from (s ∷ scopes) = elim (Option-cases (find_occurrence id s.dos)) [
  | inr (d, e) ↦
      rw (e, lookup_from)
        (present 0 (omega arith) (record {
          outer = scopes;
          reached = refl;
          defined = e;
          innermost = λ m lt. absurd (omega arith);
        }))
  | inl e ↦ rw (e, lookup_from) (missed scopes (lookup_from-Looked id (from + 1) scopes) e)
]
  where
    missed :
        (rest : List Scope)
        → Looked id (from + 1) rest (lookup_from id (from + 1) rest)
        → find_occurrence id s.dos ≡ none
        → Looked id from (s ∷ rest) (lookup_from id (from + 1) rest)
    missed [] h e = alone-Looked id from s e
    missed (t ∷ ts) h e = missed-Looked id s t ts e h

-- A lookup finds the innermost of the scopes that define the name, with the index by which
-- `parent` reaches it from the scope of the lookup; it finds nothing only if no scope defines it.
pub lookup-Looked : (id : Text) (scopes : List Scope) → Looked id 0 scopes (lookup id scopes)
unfolding lookup
lookup-Looked id scopes = lookup_from-Looked id 0 scopes
