-- ===== src/Parsing/Terminated.antt =====
-- src/parsing.cxx: token sequences that the parser can be given.
use waspas.Base.{
  ℕ, zero, suc, ◌<◌, ◌≡◌, ◌≢◌, subst, List, [], ◌∷◌, ◌++◌, ◌+◌, some, length, get_elem?, arith,
}
use waspas.Utilities.{Text}
use waspas.Lexing.Tokens.{Token, eof, character_string, string_value}
use waspas.Lexing.Loop.Separators.{IsInner}
use waspas.Lexing.Loop.Reading.{InOrder}
use waspas.Parsing.Reader.{Input}
use waspas.Parsing.Reads.{IsInput}

pub data Terminated : List Token → Type 0 where
  final : {t : Token} → t.kind ≡ eof → Terminated (t ∷ [])
  inner : {t : Token} {ts : List Token} → IsInner t → Terminated ts → Terminated (t ∷ ts)

Terminated-pos : {ts : List Token} → Terminated ts → 0 < length ts
Terminated-pos (final e) = omega arith
Terminated-pos (inner h hs) = omega arith

Terminated-next :
    {ts : List Token} (j : ℕ) (t : Token)
    → Terminated ts
    → get_elem? ts j ≡ some t
    → t.kind ≢ eof
    → suc j < length ts
Terminated-next zero t (final h) e ne = absurd (ne (cc (h, e)))
Terminated-next (suc j) t (final h) e ne = cc
Terminated-next zero t (inner h hs) e ne = let p = Terminated-pos hs in omega arith
Terminated-next (suc j) t (inner h hs) e ne = let p = Terminated-next j t hs e ne in omega arith

Terminated-string :
    {ts : List Token} (j : ℕ) (t : Token)
    → Terminated ts
    → get_elem? ts j ≡ some t
    → t.kind ≡ character_string
    → (s : Text) × (string_value t.view.text ≡ some s)
Terminated-string zero t (final h) e k = cc
Terminated-string (suc j) t (final h) e k = cc
Terminated-string zero t (inner {t = u} h hs) e k =
    let same : u ≡ t = cc e in
    subst
      (λ (x : Token). x.kind ≡ character_string → (s : Text) × (string_value x.view.text ≡ some s))
      same h.string k
Terminated-string (suc j) t (inner h hs) e k = Terminated-string j t hs e k

pub Terminated-IsInput : (i : Input) → Terminated i.tokens → IsInput i
Terminated-IsInput i h = record {
  some_token = Terminated-pos h;
  terminated = λ j t e ne. Terminated-next j t h e ne;
  strings = λ j t e k. Terminated-string j t h e k;
}

-- What the lexer gives in front of the end of file.
pub InOrder-Terminated :
    (source : Text) (from : ℕ) (ts : List Token) (t : Token)
    → InOrder source from ts
    → t.kind ≡ eof
    → Terminated (ts ++ t ∷ [])
InOrder-Terminated source from [] t h e = final e
InOrder-Terminated source from (u ∷ ts) t (_, real, _, _, rest) e =
    inner real (InOrder-Terminated source (u.view.location + length u.view.text) ts t rest e)
