-- ===== src/Lexing/Loop/Reading.antt =====
-- src/lexing.cxx: the token that is read in a round of `lex`, and the state that it leaves.
use waspas.Base.{
  ℕ, zero, suc, ◌+◌, ◌≤◌, ◌<◌, ◌≡◌, ◌≢◌, refl, ◌∙◌, ap, inl, inr, ◌⊎◌, Bool, false, List, [], ◌∷◌,
  ◌++◌, Option, none, some, length, get_elem?, take, drop, length-take, arith, Option-cases,
}
use waspas.Utilities.{Text}
use waspas.Reporting.{Reporter, ErrorCode, Argument, err}
use waspas.Lexing.Tokens.{StringView, Token, TokenKind}
use waspas.Lexing.Automaton.{transition, State, Automaton, lex_one, remove_prefix, substr}
use waspas.Lexing.Automaton.Munch.{
  Transition-cases, outside, stop, go, transition-IsListed, accepted, Munch, nothing, taken,
  returned, lex_one-Munch,
}
use waspas.Lexing.Loop.{
  Tables, Lexer, make_token, check_separation, push_token, skip_invalid, back, after_token,
}
use waspas.Lexing.Loop.Separators.{IsGenerated, IsInner}

-- A token that is read off the view.
abbrev pub TokenOf : StringView → Option Token → Type 0
TokenOf v none = Unit
TokenOf v (some t) =
    IsInner t
    × (t.view.location ≡ v.location)
    × (0 < length t.view.text)
    × (length t.view.text ≤ length v.text)
    × (t.view.text ≡ take (length t.view.text) v.text)

-- A class that a run can end with is the result of a state of the tables.
pub accepted-IsListed :
    {K : Type 0} (a : Automaton K) (text : Text) (n : ℕ) (i : ℕ) (s : State K) (k : K)
    → get_elem? a.states i ≡ some s
    → accepted a s text n ≡ some k
    → (j : ℕ) × (t : State K) × (get_elem? a.states j ≡ some t) × (t.result ≡ some k)
accepted-IsListed a text zero i s k h e = (i, s, h, e)
accepted-IsListed a [] (suc n) i s k h e = cc
accepted-IsListed a (c ∷ text) (suc n) i s k h e = elim (Transition-cases (transition a s c)) [
  | outside q ↦ cc (rw (q, accepted) at e)
  | stop q ↦ cc (rw (q, accepted) at e)
  | go t q ↦
      let (j, l) = transition-IsListed a s t c q in
      accepted-IsListed a text n j t k l (rw (q, accepted) at e)
]

module _ {t : Tables} (g : IsGenerated t) where
  take-take : (n : ℕ) (s : Text) → n ≤ length s → take n s ≡ take (length (take n s)) s
  take-take n s h = ap (λ m. take m s) (omega (arith, length-take n s))

  decision-TokenOf :
      (v : StringView) {d : Option (TokenKind × ℕ)}
      → Munch t.tokens g.tokens.initial v.text d
      → TokenOf v (returned make_token none v d)
  unfolding substr
  decision-TokenOf v (nothing h) = tt
  decision-TokenOf v (taken {k} {n = zero} inside e l) = absurd (cc (e, g.no_empty_token))
  decision-TokenOf v (taken {k} {n = suc n} inside e l) =
      let (j, s, at, r) =
        accepted-IsListed t.tokens v.text (suc n) 0 g.tokens.initial k g.tokens.initial_lem e in
      let len = length-take (suc n) v.text in
      (
        record {
          real = λ same. g.no_eof j s at (r ∙ ap some same);
          string = λ same. g.quoted v.text (suc n) (e ∙ ap some same);
        },
        refl,
        omega arith,
        omega arith,
        take-take (suc n) v.text inside,
      )

  pub lex_one-TokenOf :
      (v : StringView)
      → (o : Option Token) × (lex_one t.tokens make_token none v ≡ some o) × TokenOf v o
  lex_one-TokenOf v =
      let (d, m, e) = lex_one-Munch t.tokens g.tokens make_token none v in
      (returned make_token none v d, e, decision-TokenOf v m)

-- Tokens that lie in the source from an offset on, in order, none of them empty or an end of file.
abbrev pub InOrder : Text → ℕ → List Token → Type 0
InOrder source from [] = from ≤ length source
InOrder source from (t ∷ ts) =
    (from ≤ t.view.location)
    × IsInner t
    × (0 < length t.view.text)
    × (t.view.text ≡ take (length t.view.text) (drop t.view.location source))
    × InOrder source (t.view.location + length t.view.text) ts

pub InOrder-mono :
    (source : Text) (from from' : ℕ) (ts : List Token)
    → from ≤ from'
    → InOrder source from' ts
    → InOrder source from ts
InOrder-mono source from from' [] h o = omega arith
InOrder-mono source from from' (t ∷ ts) h (a, b, c, d, e) = (omega arith, b, c, d, e)

-- While a token needs to be told apart, there is one.
abbrev pub IsOrderly : Lexer → Type 0
IsOrderly s = (s.previous_required_separation ≡ false) ⊎ ((t : Token) × (back s.tokens ≡ some t))

back-append : (ts : List Token) (t : Token) → back (ts ++ t ∷ []) ≡ some t
unfolding back
back-append [] t = refl
back-append (u ∷ []) t = refl
back-append (u ∷ v ∷ ts) t = back-append (v ∷ ts) t

check_separation-ne-none :
    (s : Lexer) (token : Token) (had : Bool) → IsOrderly s → check_separation s token had ≢ none
unfolding check_separation
check_separation-ne-none s token had (inl h) e = ground arith
check_separation-ne-none s token had (inr (u, h)) e = ground arith

err-holding :
    (l : ℕ) (c : ErrorCode) (as_ : List Argument) (r : Reporter)
    → (err l c as_ r).holding ≡ r.holding
unfolding err
err-holding l c as_ r = ground arith

check_separation-holding :
    (s : Lexer) (token : Token) (had : Bool) (r : Reporter)
    → check_separation s token had ≡ some r
    → r.holding ≡ s.reporter.holding
unfolding check_separation err
check_separation-holding s token had r e = ground arith

pub skip_invalid-holding :
    (s : Lexer) (c : ℕ) → (skip_invalid s c).reporter.holding ≡ s.reporter.holding
unfolding skip_invalid
skip_invalid-holding s c = err-holding _ _ _ s.reporter

-- The state after a token has been pushed.
pub record Pushed (s : Lexer) (token : Token) (s' : Lexer) : Type 0 where
  pub tokens : s'.tokens ≡ s.tokens ++ token ∷ []
  pub it : s'.it ≡ remove_prefix (length token.view.text) s.it
  pub holding : s'.reporter.holding ≡ s.reporter.holding

pub push_token-Pushed :
    (s : Lexer) (token : Token) (had : Bool)
    → IsOrderly s
    → (s' : Lexer) × (push_token s token had ≡ some s') × Pushed s token s'
unfolding push_token
push_token-Pushed s token had o = elim (Option-cases (check_separation s token had)) [
  | inl e ↦ absurd (check_separation-ne-none s token had o e)
  | inr (r, e) ↦ (
    after_token s token r,
    rw (e, push_token),
    unfold after_token in
        record { tokens = refl; it = refl; holding = check_separation-holding s token had r e },
  )
]

pub Pushed-IsOrderly : {s s' : Lexer} {token : Token} → Pushed s token s' → IsOrderly s'
Pushed-IsOrderly {s} {token} p = inr (token, ap back p.tokens ∙ back-append s.tokens token)
