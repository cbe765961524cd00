-- ===== src/Reporting/Locate.antt =====
-- src/reporting.ixx: `LineIndexer` against a reader that counts lines and columns as it goes.
use waspas.Base.{
  ℕ, zero, suc, ◌+◌, ◌-◌, ◌≤◌, ◌<◌, ◌≡◌, refl, true, List, [], ◌∷◌, none, some, length, get_elem?,
  take, drop, leb, ◌==◌, if◌then◌else◌, arith, Bool-cases, inl, inr, ◌⊎◌, ◌∙◌, ap, sym, length-drop,
  drop-add,
}
use native.Mathlib.Nat.{add-zero}
use waspas.Utilities.{Text}
use waspas.Reporting.{
  Locus, find_in, line_starts_loop, line_starts, upper_bound, get_locus_for_offset,
}

-- Where a reader stands after the character `c`, and after a text.
abbrev pub advance : Locus → ℕ → Locus
advance l c =
    if c == 10
    then record { line = l.line + 1; column = 0 }
    else record { line = l.line; column = l.column + 1 }

abbrev pub locus_after : Locus → Text → Locus
locus_after l [] = l
locus_after l (c ∷ s) = locus_after (advance l c) s

-- The offsets that follow a newline of the text, which begins at `at`.
starts_after : ℕ → Text → List ℕ
starts_after at [] = []
starts_after at (c ∷ s) =
    if c == 10 then (at + 1) ∷ starts_after (at + 1) s else starts_after (at + 1) s

drop-suc : (at : ℕ) {c : ℕ} {t : Text} (s : Text) → drop at s ≡ c ∷ t → drop (suc at) s ≡ t
drop-suc zero [] h = cc
drop-suc zero (d ∷ s) h = cc
drop-suc (suc at) [] h = cc
drop-suc (suc at) (d ∷ s) h = drop-suc at s h

no_starts : (at : ℕ) (s : Text) → length s ≤ 0 → [] ≡ starts_after at s
unfolding starts_after
no_starts at [] h = refl
no_starts at (c ∷ s) h = absurd (omega arith)

-- What a search for a newline finds, in the text `s` that begins at `at`.
find_in-newline :
    (s : Text) (at : ℕ)
    → ((find_in at 10 s ≡ none) × (starts_after at s ≡ []))
      ⊎ ((k : ℕ) × (k < length s)
          × (find_in at 10 s ≡ some (at + k))
          × (starts_after at s ≡ (at + k + 1) ∷ starts_after (at + k + 1) (drop (suc k) s)))
unfolding find_in starts_after
find_in-newline [] at = inl (refl, refl)
find_in-newline (c ∷ s) at = elim (Bool-cases (c == 10)) [
  | inl hit ↦ rw hit (inr (0, omega arith, rw add-zero, rw add-zero))
  | inr miss ↦ rw miss (elim (find_in-newline s (at + 1)) [
    | inl nowhere ↦ inl nowhere
    | inr (k, below, found, starts) ↦
        let e : at + suc k ≡ at + 1 + k = omega arith in
        inr (suc k, omega arith, rw e found, rw e starts)
  ])
]

line_starts_loop-starts :
    (fuel : ℕ) (source : Text) (at : ℕ)
    → length (drop at source) ≤ fuel
    → line_starts_loop fuel source at ≡ starts_after at (drop at source)
unfolding line_starts_loop
line_starts_loop-starts zero source at h = no_starts at (drop at source) h
line_starts_loop-starts (suc fuel) source at h = elim (find_in-newline (drop at source) at) [
  | inl (nowhere, nothing) ↦ rw (nowhere, nothing, line_starts_loop)
  | inr (k, below, found, starts) ↦
      let e : drop (suc k) (drop at source) ≡ drop (at + k + 1) source =
        drop-add (suc k) at source ∙ ap (λ n. drop n source) (omega arith) in
      rw (found, starts, e, line_starts_loop)
        (ap (λ l. (at + k + 1) ∷ l)
          (line_starts_loop-starts fuel source (at + k + 1)
            (omega (arith, length-drop (at + k + 1) source, length-drop at source))))
]

upper_bound-starts : (s : Text) (at : ℕ) (v : ℕ) → v ≤ at → upper_bound (starts_after at s) v ≡ 0
unfolding starts_after upper_bound
upper_bound-starts [] at v h = refl
upper_bound-starts (c ∷ s) at v h = ground (arith, upper_bound-starts s (at + 1) v)

-- The search among the lines after `line`, which begins at `prev`, and a reader who walks `k`
-- characters of the text `s`, which begins at `at`.
locate-walk :
    (s : Text) (k at prev line offset : ℕ)
    → offset ≡ at + k
    → k ≤ length s
    → prev ≤ at
    → let n = upper_bound (starts_after at s) offset in
      (start : ℕ) × (get_elem? (prev ∷ starts_after at s) n ≡ some start)
      × (locus_after (record { line = line; column = at - prev }) (take k s)
          ≡ record { line = line + n; column = offset - start })
unfolding starts_after upper_bound
locate-walk s zero at prev line offset e h g =
    rw (upper_bound-starts s at offset (omega arith)) (prev, refl, ground arith)
locate-walk [] (suc k) at prev line offset e h g = absurd (omega arith)
locate-walk (c ∷ s) (suc k) at prev line offset e h g = elim (Bool-cases (c == 10)) [
  | inl hit ↦
      let here : leb (at + 1) offset ≡ true = ground arith in
      let (start, found, walk) =
        locate-walk s k (at + 1) (at + 1) (line + 1) offset (omega arith) (omega arith)
          (omega arith) in
      rw (hit, here, upper_bound)
        (start, found, ap (λ l. locus_after l (take k s)) (ground arith) ∙ walk ∙ ground arith)
  | inr miss ↦
      let (start, found, walk) =
        locate-walk s k (at + 1) prev line offset (omega arith) (omega arith) (omega arith) in
      rw miss (start, found, ap (λ l. locus_after l (take k s)) (ground arith) ∙ walk)
]

upper_bound-first : (l : List ℕ) (v : ℕ) → upper_bound (0 ∷ l) v - 1 ≡ upper_bound l v
unfolding upper_bound
upper_bound-first l v = ground arith

-- The line and column computed for an offset into the source, from the recorded line starts, are
-- those of a reader who counts newlines and characters from the beginning up to that offset.
pub get_locus_for_offset-walk :
    (source : Text) (offset : ℕ)
    → offset ≤ length source
    → get_locus_for_offset (line_starts source) offset
      ≡ some (locus_after (record { line = 0; column = 0 }) (take offset source))
unfolding get_locus_for_offset line_starts
get_locus_for_offset-walk source offset h =
    let (start, found, walk) =
      locate-walk source offset 0 0 0 offset (omega arith) h (omega arith) in
    rw (line_starts_loop-starts (length source) source 0 (omega arith), upper_bound-first, found)
      (ap some (ground arith ∙ sym walk))
