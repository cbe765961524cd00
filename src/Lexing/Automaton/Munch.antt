-- ===== src/Lexing/Automaton/Munch.antt =====
-- src/lexing.cxx: `lexOne` takes the longest prefix that the automaton accepts.
use waspas.Base.{
  ℕ, zero, suc, ◌+◌, ◌≤◌, ◌<◌, ◌≡◌, ◌≢◌, refl, ◌⊎◌, inl, inr, [], ◌∷◌, Option, none, some, length,
  get_elem?, arith, sym, ◌∙◌, Option-cases,
}
use waspas.Utilities.{Text}
use waspas.Lexing.Tokens.{StringView}
use waspas.Lexing.Automaton.{
  State, Automaton, transition, scan, IsClosed, lex_one, substr, enter, new_state_index,
}

-- The result of the state that is reached from `s` on the first `n` characters of a text; `none`
-- if that state has none, or if there is no way.
abbrev pub accepted : {K : Type 0} → Automaton K → State K → Text → ℕ → Option K
accepted a s text zero = s.result
accepted a s [] (suc n) = none
accepted a s (c ∷ text) (suc n) = elim (transition a s c) [
  | none ↦ none
  | some none ↦ none
  | some (some t) ↦ accepted a t text n
]

pub data Transition {K : Type 0} (o : Option (Option (State K))) : Type 0 where
  outside : o ≡ none → Transition o
  stop : o ≡ some none → Transition o
  go : (t : State K) → o ≡ some (some t) → Transition o

pub Transition-cases : {K : Type 0} (o : Option (Option (State K))) → Transition o
Transition-cases none = outside refl
Transition-cases (some none) = stop refl
Transition-cases (some (some t)) = go t refl

-- The outcome `(k, n)` of a run from `s` with the candidate `(k', n')`, which began `i` earlier.
record Outcome {K : Type 0} (a : Automaton K) (s : State K) (text : Text) (i : ℕ) (k' : Option K)
    (n' : ℕ) (k : Option K) (n : ℕ) : Type 0 where
  steps : ℕ
  inside : steps ≤ length text
  longest : (m : ℕ) → steps < m → accepted a s text m ≡ none
  last :
      (0 < steps) × (n ≡ i + steps) × (k ≢ none) × (accepted a s text steps ≡ k)
      ⊎ (steps ≡ 0) × (n ≡ n') × (k ≡ k')

module _ {K : Type 0} (a : Automaton K) where
  accepted-nil : (s : State K) (m : ℕ) → 0 < m → accepted a s [] m ≡ none
  accepted-nil s zero h = absurd (omega arith)
  accepted-nil s (suc m) h = refl

  accepted-stuck :
      (s : State K) (c : ℕ) (text : Text)
      → transition a s c ≡ some none
      → (m : ℕ) → 0 < m
      → accepted a s (c ∷ text) m ≡ none
  accepted-stuck s c text q zero h = absurd (omega arith)
  accepted-stuck s c text q (suc m) h = rw (q, accepted)

  module _ (s : State K) (c : ℕ) (text : Text) (t : State K)
      (q : transition a s c ≡ some (some t)) where
    accepted-step : (m : ℕ) → accepted a s (c ∷ text) (suc m) ≡ accepted a t text m
    accepted-step m = rw (q, accepted)

    scan-quiet :
        (i : ℕ) (k' : Option K) (n' : ℕ)
        → t.result ≡ none
        → scan a (c ∷ text) i s k' n' ≡ scan a text (i + 1) t k' n'
    unfolding scan
    scan-quiet i k' n' r = rw (q, scan) (simp r)

    scan-hit :
        (i : ℕ) (k' : Option K) (n' : ℕ) (g : K)
        → t.result ≡ some g
        → scan a (c ∷ text) i s k' n' ≡ scan a text (i + 1) t (some g) (i + 1)
    unfolding scan
    scan-hit i k' n' g r = rw (q, scan) (simp r)

    later :
        (b : ℕ)
        → ((m : ℕ) → b < m → accepted a t text m ≡ none)
        → (m : ℕ) → suc b < m
        → accepted a s (c ∷ text) m ≡ none
    later b h zero lt = absurd (omega arith)
    later b h (suc m) lt = accepted-step m ∙ h m (omega arith)

    later_quiet :
        t.result ≡ none
        → ((m : ℕ) → 0 < m → accepted a t text m ≡ none)
        → (m : ℕ) → 0 < m
        → accepted a s (c ∷ text) m ≡ none
    later_quiet r h zero lt = absurd (omega arith)
    later_quiet r h (suc zero) lt = accepted-step 0 ∙ r
    later_quiet r h (suc (suc m)) lt = accepted-step (suc m) ∙ h (suc m) (omega arith)

    -- A run that finds something from `t` on found it one character later from `s` on.
    found-Outcome :
        {i : ℕ} {k' k'' k : Option K} {n' n'' n : ℕ} (o : Outcome a t text (i + 1) k'' n'' k n)
        → (0 < o.steps) × (n ≡ i + 1 + o.steps) × (k ≢ none) × (accepted a t text o.steps ≡ k)
        → Outcome a s (c ∷ text) i k' n' k n
    found-Outcome {i} o (pos, at, real, acc) = record {
      steps = suc o.steps;
      inside = let h = o.inside in omega arith;
      longest = later o.steps o.longest;
      last = inl (omega arith, omega arith, real, accepted-step o.steps ∙ acc);
    }

    quiet-Outcome :
        {i : ℕ} {k' k : Option K} {n' n : ℕ}
        → t.result ≡ none
        → Outcome a t text (i + 1) k' n' k n
        → Outcome a s (c ∷ text) i k' n' k n
    quiet-Outcome r o = elim o.last [
      | inl found ↦ found-Outcome o found
      | inr (none_taken, same_n, same_k) ↦ record {
        steps = 0;
        inside = omega arith;
        longest = later_quiet r (λ m h. o.longest m (omega arith));
        last = inr (refl, same_n, same_k);
      }
    ]

    hit-Outcome :
        {i : ℕ} {k' k : Option K} {n' n : ℕ} {g : K}
        → t.result ≡ some g
        → Outcome a t text (i + 1) (some g) (i + 1) k n
        → Outcome a s (c ∷ text) i k' n' k n
    hit-Outcome r o = elim o.last [
      | inl found ↦ found-Outcome o found
      | inr (none_taken, same_n, same_k) ↦ record {
        steps = 1;
        inside = omega arith;
        longest = later 0 (λ m h. o.longest m (omega arith));
        last = inl (omega arith, same_n, (λ e. cc), accepted-step 0 ∙ (r ∙ sym same_k));
      }
    ]

  scan-Outcome :
      (text : Text) (i : ℕ) (s : State K) (k' : Option K) (n' : ℕ) (k : Option K) (n : ℕ)
      → scan a text i s k' n' ≡ some (k, n)
      → Outcome a s text i k' n' k n
  unfolding scan
  scan-Outcome [] i s k' n' k n e = record {
    steps = 0;
    inside = omega arith;
    longest = accepted-nil s;
    last = inr (refl, cc, cc);
  }
  scan-Outcome (c ∷ text) i s k' n' k n e = elim (Transition-cases (transition a s c)) [
    | outside q ↦ cc (rw (q, scan) at e)
    | stop q ↦ record {
      steps = 0;
      inside = omega arith;
      longest = accepted-stuck s c text q;
      last = let e' = rw (q, scan) at e in inr (refl, cc, cc);
    }
    | go t q ↦ elim (Option-cases t.result) [
      | inl r ↦
          quiet-Outcome s c text t q r
            (scan-Outcome text (i + 1) t k' n' k n (sym (scan-quiet s c text t q i k' n' r) ∙ e))
      | inr (g, r) ↦ hit-Outcome s c text t q r (
          scan-Outcome text (i + 1) t (some g) (i + 1) k n
            (sym (scan-hit s c text t q i k' n' g r) ∙ e))
    ]
  ]

  abbrev pub IsListed : State K → Type 0
  IsListed s = (i : ℕ) × (get_elem? a.states i ≡ some s)

  enter-IsListed : (o : Option (Option ℕ)) (t : State K) → enter a o ≡ some (some t) → IsListed t
  unfolding enter
  enter-IsListed none t e = cc
  enter-IsListed (some none) t e = cc
  enter-IsListed (some (some index)) t e = (index, ground arith)

  pub transition-IsListed : (s t : State K) (c : ℕ) → transition a s c ≡ some (some t) → IsListed t
  unfolding transition
  transition-IsListed s t c e = enter-IsListed (new_state_index a s c) t e

  -- A run on closed tables comes to its end.
  scan-total :
      IsClosed a
      → (text : Text) (i : ℕ) (s : State K) (k' : Option K) (n' : ℕ) → IsListed s
      → (k : Option K) × (n : ℕ) × (scan a text i s k' n' ≡ some (k, n))
  scan-total closed [] i s k' n' h = (k', n', unfold scan in refl)
  scan-total closed (c ∷ text) i s k' n' (j, h) = elim (Transition-cases (transition a s c)) [
    | outside q ↦ absurd (closed.inside j s h c q)
    | stop q ↦ (k', n', unfold scan in rw (q, scan))
    | go t q ↦ elim (Option-cases t.result) [
      | inl r ↦
          let (k, n, e) = scan-total closed text (i + 1) t k' n' (transition-IsListed s t c q) in
          (k, n, scan-quiet s c text t q i k' n' r ∙ e)
      | inr (g, r) ↦
          let (k, n, e) =
            scan-total closed text (i + 1) t (some g) (i + 1) (transition-IsListed s t c q) in
          (k, n, scan-hit s c text t q i k' n' g r ∙ e)
    ]
  ]

-- What one call decides: nothing, or a class with the length of its text.
pub data Munch {K : Type 0} (a : Automaton K) (s : State K) (text : Text)
    : Option (K × ℕ) → Type 0 where
  nothing : ((m : ℕ) → accepted a s text m ≡ none) → Munch a s text none
  taken :
      {k : K} {n : ℕ}
      → n ≤ length text
      → accepted a s text n ≡ some k
      → ((m : ℕ) → n < m → accepted a s text m ≡ none)
      → Munch a s text (some (k, n))

abbrev chosen : {K : Type 0} → Option K × ℕ → Option (K × ℕ)
chosen (none, n) = none
chosen (some k, n) = some (k, n)

module _ {K : Type 0} (a : Automaton K) (s : State K) (text : Text) where
  nowhere :
      (steps : ℕ)
      → (steps ≡ 0)
      → s.result ≡ none
      → ((m : ℕ) → steps < m → accepted a s text m ≡ none)
      → (m : ℕ) → accepted a s text m ≡ none
  nowhere steps e r h zero = r
  nowhere steps e r h (suc m) = h (suc m) (omega arith)

  Outcome-Munch :
      (k : Option K) (n : ℕ) → Outcome a s text 0 s.result 0 k n → Munch a s text (chosen (k, n))
  Outcome-Munch none n o = elim o.last [
    | inl found ↦ absurd (found.2 refl)
    | inr (z, _, e) ↦ nothing (nowhere o.steps z (sym e) o.longest)
  ]
  Outcome-Munch (some k) n o = elim o.last [
    | inl (_, e, _, acc) ↦
        let same : o.steps ≡ n = omega arith in
        let inside = o.inside in
        taken (omega arith) (rw same at acc) (λ m h. o.longest m (omega arith))
    | inr (z, e, r) ↦ rw e (taken (omega arith) (sym r) (λ m h. o.longest m (omega arith)))
  ]

-- What a call returns for what it decides.
abbrev pub returned : {K R : Type 0} → (K → StringView → R) → R → StringView → Option (K × ℕ) → R
returned make default v none = default
returned make default v (some (k, n)) = make k (substr v n)

lex_one-returned :
    {K R : Type 0} (a : Automaton K) (s : State K) (make : K → StringView → R) (default : R)
    (v : StringView) (k : Option K) (n : ℕ)
    → get_elem? a.states 0 ≡ some s
    → scan a v.text 0 s s.result 0 ≡ some (k, n)
    → lex_one a make default v ≡ some (returned make default v (chosen (k, n)))
unfolding lex_one
lex_one-returned a s make default v none n p e = rw (p, lex_one) (rw (e, lex_one))
lex_one-returned a s make default v (some k) n p e = rw (p, lex_one) (rw (e, lex_one))

-- On closed tables a call reads inside the tables and returns, and the text that it takes is the
-- longest prefix that the automaton accepts; it takes nothing only if no prefix is accepted.
pub lex_one-Munch :
    {K R : Type 0} (a : Automaton K) (closed : IsClosed a) (make : K → StringView → R) (default : R)
    (v : StringView)
    → (decision : Option (K × ℕ)) × Munch a closed.initial v.text decision
      × (lex_one a make default v ≡ some (returned make default v decision))
lex_one-Munch a closed make default v =
    let s = closed.initial in
    let (k, n, e) = scan-total a closed v.text 0 s s.result 0 (0, closed.initial_lem) in
    (
      chosen (k, n),
      Outcome-Munch a s v.text k n (scan-Outcome a v.text 0 s s.result 0 k n e),
      lex_one-returned a s make default v k n closed.initial_lem e,
    )
