-- ===== src/Lexing/Loop/Tiles.antt =====
-- src/lexing.cxx: the tokens lie in the source one after another, and the lexer comes to its end.
use waspas.Base.{
  ℕ, zero, suc, ◌+◌, ◌≤◌, ◌<◌, ◌≡◌, refl, sym, ◌∙◌, ap, subst, inl, Bool, false, List, [], ◌∷◌,
  ◌++◌, Option, none, some, length, take, drop, length-drop, append_assoc, append-nil, arith,
}
use waspas.Utilities.{Text}
use waspas.Reporting.{Reporter}
use waspas.Lexing.Tokens.{StringView, Token}
use waspas.Lexing.Automaton.{lex_one, remove_prefix}
use waspas.Lexing.Loop.{
  Tables, Lexer, make_token, skip_separators, push_token, skip_invalid, lex_loop, lex, eof_token,
}
use waspas.Lexing.Loop.Separators.{
  IsGenerated, IsRest, remove_prefix-IsRest, location-remove_prefix, length-remove_prefix,
  skip_separators-Skipped,
}
use waspas.Lexing.Loop.Reading.{
  TokenOf, InOrder, InOrder-mono, IsOrderly, push_token-Pushed, Pushed-IsOrderly,
  skip_invalid-holding, lex_one-TokenOf,
}

-- The three ways in which a round goes on.
module _ (f : ℕ) (t : Tables) (s : Lexer) (at : ℕ) (had : Bool) where
  lex_loop-end :
      skip_separators (suc (length s.it.text)) t s.it false
        ≡ some (record { location = at; text = [] }, had)
      → lex_loop (suc f) t s ≡ some (record s { it = record { location = at; text = [] } })
  unfolding lex_loop
  lex_loop-end q = rw (q, lex_loop)

  module _ (c : ℕ) (rest : Text)
      (q : skip_separators (suc (length s.it.text)) t s.it false
        ≡ some (record { location = at; text = c ∷ rest }, had)) where
    abbrev here : Lexer
    here = record s { it = record { location = at; text = c ∷ rest } }

    lex_loop-invalid :
        lex_one t.tokens make_token none here.it ≡ some none
        → lex_loop (suc f) t s ≡ lex_loop f t (skip_invalid here c)
    unfolding lex_loop
    lex_loop-invalid l = rw (q, lex_loop) (rw (l, lex_loop))

    lex_loop-token :
        {token : Token} {next : Lexer}
        → lex_one t.tokens make_token none here.it ≡ some (some token)
        → push_token here token had ≡ some next
        → lex_loop (suc f) t s ≡ lex_loop f t next
    unfolding lex_loop
    lex_loop-token l p = rw (q, lex_loop) (rw (l, lex_loop) (rw (p, lex_loop)))

-- The loop from `s` on comes to the end of the source, with more tokens in order.
abbrev Lexed : Text → Lexer → Option Lexer → Type 0
Lexed source s o =
    (s' : Lexer) × (ts : List Token) × (o ≡ some s')
    × (s'.tokens ≡ s.tokens ++ ts)
    × InOrder source s.it.location ts
    × (s'.it ≡ record { location = length source; text = [] })
    × (s'.reporter.holding ≡ s.reporter.holding)

abbrev Continues : Text → Tables → ℕ → Type 0
Continues source t fuel =
    (s : Lexer)
    → length s.it.text < fuel
    → IsRest source s.it
    → IsOrderly s
    → Lexed source s (lex_loop fuel t s)

module _ {t : Tables} (g : IsGenerated t) (source : Text) (fuel : ℕ)
    (ih : Continues source t fuel) where
  after_invalid :
      (s : Lexer) (at : ℕ) (c : ℕ) (rest : Text) (had : Bool)
      → (suc (length rest) ≤ fuel)
      → skip_separators (suc (length s.it.text)) t s.it false
        ≡ some (record { location = at; text = c ∷ rest }, had)
      → IsRest source (record { location = at; text = c ∷ rest })
      → s.it.location ≤ at
      → lex_one t.tokens make_token none (record { location = at; text = c ∷ rest }) ≡ some none
      → Lexed source s (lex_loop (suc fuel) t s)
  unfolding skip_invalid remove_prefix
  after_invalid s at c rest had short q r le l =
      let s₁ = here fuel t s at had c rest q in
      let s₂ = skip_invalid s₁ c in
      let (s', ts, e, toks, order, done, held) =
        ih s₂ (omega arith) (remove_prefix-IsRest 1 r (omega arith)) (inl refl) in
      (
        s',
        ts,
        lex_loop-invalid fuel t s at had c rest q l ∙ e,
        toks,
        InOrder-mono source s.it.location (at + 1) ts (omega arith) order,
        done,
        held ∙ skip_invalid-holding s₁ c,
      )

  after_token_read :
      (s : Lexer) (at : ℕ) (c : ℕ) (rest : Text) (had : Bool) (token : Token)
      → (suc (length rest) ≤ fuel)
      → skip_separators (suc (length s.it.text)) t s.it false
        ≡ some (record { location = at; text = c ∷ rest }, had)
      → IsRest source (record { location = at; text = c ∷ rest })
      → s.it.location ≤ at
      → IsOrderly s
      → lex_one t.tokens make_token none (record { location = at; text = c ∷ rest })
        ≡ some (some token)
      → TokenOf (record { location = at; text = c ∷ rest }) (some token)
      → Lexed source s (lex_loop (suc fuel) t s)
  after_token_read s at c rest had token short q r le o l (kind, loc, pos, inside, text) =
      let s₁ = here fuel t s at had c rest q in
      let n = length token.view.text in
      let (s₂, pushed, p) = push_token-Pushed s₁ token had o in
      let (s', ts, e, toks, order, done, held) =
        ih s₂
          (omega (
            arith,
            ap (λ (v : StringView). length v.text) p.it,
            length-remove_prefix n s₁.it inside,
          ))
          (subst (IsRest source) (sym p.it) (remove_prefix-IsRest n r inside))
          (Pushed-IsOrderly p) in
      let moved : s₂.it.location ≡ token.view.location + n =
        ap (λ (v : StringView). v.location) p.it
        ∙ location-remove_prefix n s₁.it
        ∙ ap (λ k. k + n) (sym loc) in
      (
        s',
        token ∷ ts,
        lex_loop-token fuel t s at had c rest q l pushed ∙ e,
        toks ∙ ap (λ l. l ++ ts) p.tokens ∙ append_assoc s.tokens (token ∷ []) ts,
        (
          omega arith,
          kind,
          pos,
          text ∙ ap (take n) r.rest ∙ ap (λ k. take n (drop k source)) (sym loc),
          subst (λ k. InOrder source k ts) moved order,
        ),
        done,
        held ∙ p.holding,
      )

  at_end :
      (s : Lexer) (at : ℕ) (had : Bool)
      → skip_separators (suc (length s.it.text)) t s.it false
        ≡ some (record { location = at; text = [] }, had)
      → IsRest source (record { location = at; text = [] })
      → s.it.location ≤ at
      → Lexed source s (lex_loop (suc fuel) t s)
  at_end s at had q r le =
      let over : at ≡ length source =
        omega (arith, ap length r.rest, length-drop at source, r.inside) in
      (
        record s { it = record { location = at; text = [] } },
        [],
        lex_loop-end fuel t s at had q,
        sym (append-nil s.tokens),
        omega arith,
        rw over,
        refl,
      )

  by_token :
      (s : Lexer) (at : ℕ) (c : ℕ) (rest : Text) (had : Bool) (o : Option Token)
      → (suc (length rest) ≤ fuel)
      → skip_separators (suc (length s.it.text)) t s.it false
        ≡ some (record { location = at; text = c ∷ rest }, had)
      → IsRest source (record { location = at; text = c ∷ rest })
      → s.it.location ≤ at
      → IsOrderly s
      → lex_one t.tokens make_token none (record { location = at; text = c ∷ rest }) ≡ some o
      → TokenOf (record { location = at; text = c ∷ rest }) o
      → Lexed source s (lex_loop (suc fuel) t s)
  by_token s at c rest had none short q r le o l h = after_invalid s at c rest had short q r le l
  by_token s at c rest had (some token) short q r le o l h =
      after_token_read s at c rest had token short q r le o l h

  round :
      (s : Lexer) (at : ℕ) (text : Text) (had : Bool)
      → length text ≤ fuel
      → skip_separators (suc (length s.it.text)) t s.it false
        ≡ some (record { location = at; text = text }, had)
      → IsRest source (record { location = at; text = text })
      → s.it.location ≤ at
      → IsOrderly s
      → Lexed source s (lex_loop (suc fuel) t s)
  round s at [] had short q r le o = at_end s at had q r le
  round s at (c ∷ rest) had short q r le o =
      let (token, l, h) = lex_one-TokenOf g (record { location = at; text = c ∷ rest }) in
      by_token s at c rest had token short q r le o l h

lex_loop-Lexed :
    {t : Tables} (g : IsGenerated t) (source : Text) (fuel : ℕ) → Continues source t fuel
lex_loop-Lexed g source zero s h r o = absurd (omega arith)
lex_loop-Lexed g source (suc fuel) s h r o =
    let (it, had, q, r', from, le) =
      skip_separators-Skipped g source (suc (length s.it.text)) s.it false (omega arith) r in
    round g source fuel (lex_loop-Lexed g source fuel) s it.location it.text had (omega arith) q r'
      from o

-- On the tables of the generator the lexer ends without a fault, whatever the source: it gives
-- tokens that stand in the source in order and without overlap, each with the text found at its
-- location, none of them empty and a character string with its apostrophes, followed by one end of
-- file at the end of the source. It does not begin or end to hold diagnostics back.
pub lex-InOrder :
    {t : Tables} (g : IsGenerated t) (source : Text) (reporter : Reporter)
    → (ts : List Token) × (reporter' : Reporter) × (lex t source reporter
        ≡ some (ts ++ eof_token (record { location = length source; text = [] }) ∷ [], reporter'))
      × InOrder source 0 ts
      × (reporter'.holding ≡ reporter.holding)
unfolding lex
lex-InOrder {t} g source reporter =
    let start : Lexer = record {
      tokens = [];
      it = record { location = 0; text = source };
      previous_required_separation = false;
      reporter = reporter;
    } in
    let (s', ts, e, toks, order, done, held) =
      lex_loop-Lexed g source (suc (length source)) start (omega arith)
        (record { inside = omega arith; rest = refl }) (inl refl) in
    (ts, s'.reporter, rw (e, lex) (cc (toks, done)), order, held)
