-- ===== src/Lexing/Loop/Separators.antt =====
-- src/lexing.cxx: what the lexer does between two tokens, and what the tables must promise.
use waspas.Base.{
  ℕ, zero, suc, ◌+◌, ◌≤◌, ◌<◌, ◌≡◌, ◌≢◌, refl, ◌∙◌, ap, inl, inr, Bool, true, Option, none, some,
  length, get_elem?, take, drop, drop-add, length-take, length-drop, arith, ℕ-cases,
}
use waspas.Utilities.{Text}
use waspas.Lexing.Tokens.{StringView, Token, TokenKind, eof, character_string, string_value}
use waspas.Lexing.Automaton.{State, Automaton, IsClosed, lex_one, remove_prefix, substr}
use waspas.Lexing.Automaton.Munch.{accepted, Munch, nothing, taken, returned, lex_one-Munch}
use waspas.Lexing.Loop.{Tables, make_separator, skip_separators}

-- A token in front of the end of file: a character string is one with its apostrophes.
pub record IsInner (t : Token) : Type 0 where
  pub real : t.kind ≢ eof
  pub string : t.kind ≡ character_string → (s : Text) × (string_value t.view.text ≡ some s)

-- What the generator of the tables promises: both automata are closed, no token is empty, no text
-- is the end of file, and a text that is a character string has its apostrophes.
pub record IsGenerated (t : Tables) : Type 0 where
  pub separators : IsClosed t.separators
  pub tokens : IsClosed t.tokens
  pub no_empty_token : tokens.initial.result ≡ none
  pub no_eof :
      (i : ℕ) (s : State TokenKind) → get_elem? t.tokens.states i ≡ some s → s.result ≢ some eof
  pub quoted :
      (text : Text) (n : ℕ)
      → accepted t.tokens tokens.initial text n ≡ some character_string
      → (s : Text) × (string_value (take n text) ≡ some s)

-- The view is what is left of the source from its location on.
pub record IsRest (source : Text) (v : StringView) : Type 0 where
  pub inside : v.location ≤ length source
  pub rest : v.text ≡ drop v.location source

pub remove_prefix-IsRest :
    {source : Text} {v : StringView} (n : ℕ)
    → IsRest source v
    → n ≤ length v.text
    → IsRest source (remove_prefix n v)
unfolding remove_prefix
remove_prefix-IsRest {source} {v} n r h = record {
  inside =
      let e = ap length r.rest in let i = r.inside in omega (arith, length-drop v.location source);
  rest = ap (drop n) r.rest ∙ drop-add n v.location source;
}

pub location-remove_prefix :
    (n : ℕ) (v : StringView) → (remove_prefix n v).location ≡ v.location + n
unfolding remove_prefix
location-remove_prefix n v = refl

pub length-remove_prefix :
    (n : ℕ) (v : StringView)
    → n ≤ length v.text
    → length (remove_prefix n v).text + n ≡ length v.text
unfolding remove_prefix
length-remove_prefix n v h = omega (arith, length-drop n v.text)

returned-separator :
    {K : Type 0} {a : Automaton K} {s : State K} (v : StringView) {d : Option (K × ℕ)}
    → Munch a s v.text d
    → returned (λ (k : K) (w : StringView). length w.text) 0 v d ≤ length v.text
unfolding substr
returned-separator v (nothing h) = omega arith
returned-separator v (taken {n} inside h l) = omega (arith, length-take n v.text)

-- What the separators before a token leave of the source.
abbrev pub Skipped : Text → StringView → Option (StringView × Bool) → Type 0
Skipped source v o =
    (it : StringView) × (had : Bool) × (o ≡ some (it, had))
    × IsRest source it
    × (v.location ≤ it.location)
    × (length it.text ≤ length v.text)

skip_separators-next :
    (t : Tables) (fuel : ℕ) (v : StringView) (had : Bool) {n : ℕ}
    → lex_one t.separators make_separator 0 v ≡ some (suc n)
    → skip_separators (suc fuel) t v had ≡ skip_separators fuel t (remove_prefix (suc n) v) true
unfolding skip_separators
skip_separators-next t fuel v had e = rw (e, skip_separators)

skip_separators-end :
    (t : Tables) (fuel : ℕ) (v : StringView) (had : Bool)
    → lex_one t.separators make_separator 0 v ≡ some 0
    → skip_separators (suc fuel) t v had ≡ some (v, had)
unfolding skip_separators
skip_separators-end t fuel v had e = rw (e, skip_separators)

module _ {t : Tables} (g : IsGenerated t) (source : Text) where
  pub skip_separators-Skipped :
      (fuel : ℕ) (v : StringView) (had : Bool)
      → length v.text < fuel
      → IsRest source v
      → Skipped source v (skip_separators fuel t v had)
  skip_separators-Skipped zero v had h r = absurd (omega arith)
  skip_separators-Skipped (suc fuel) v had h r =
      let (d, m, e) = lex_one-Munch t.separators g.separators make_separator 0 v in
      let bound = returned-separator v m in
      elim (ℕ-cases (returned make_separator 0 v d)) [
        | inl z ↦
            (v, had, skip_separators-end t fuel v had (e ∙ ap some z), r, omega arith, omega arith)
        | inr (n, z) ↦
            let short : suc n ≤ length v.text = omega arith in
            let len = length-remove_prefix (suc n) v short in
            let (it, had', e', r', from, le) =
              skip_separators-Skipped fuel (remove_prefix (suc n) v) true (omega arith)
                (remove_prefix-IsRest (suc n) r short) in
            let loc = location-remove_prefix (suc n) v in
            (
              it,
              had',
              skip_separators-next t fuel v had (e ∙ ap some z) ∙ e',
              r',
              omega arith,
              omega arith,
            )
      ]
