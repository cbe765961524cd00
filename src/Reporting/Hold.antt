-- ===== src/Reporting/Hold.antt =====
-- src/reporting.ixx: diagnostics that are held back, and then shown or dropped.
use waspas.Base.{
  ◌≡◌, true, false, List, [], ◌∷◌, ◌++◌, Option, some, append_assoc, append-nil, arith,
  if◌then◌else◌, ℕ,
}
use mathlib.Core.Option
use waspas.Reporting.{
  Reporter, ErrorCode, Argument, err, note_raw, hold, unhold, unhold_discard, Message,
}

-- What a client reports, one call at a time.
pub data Report : Type 0 where
  an_error : ℕ → ErrorCode → List Argument → Report
  a_note : ℕ → List Argument → Report

abbrev pub report : Report → Reporter → Reporter
report (an_error l c as_) r = err l c as_ r
report (a_note l as_) r = note_raw l as_ r

abbrev pub report_all : List Report → Reporter → Reporter
report_all [] r = r
report_all (x ∷ xs) r = report_all xs (report x r)

-- Between `hold` calls nothing is held.
pub record IsIdle (r : Reporter) : Type 0 where
  pub not_holding : r.holding ≡ false
  pub no_messages : r.held_messages ≡ []
  pub no_errors : r.held_had_errors ≡ false

-- `h` holds back what `r` has printed since `h` began to hold.
record Mirrors (h r : Reporter) : Type 0 where
  held : h.holding ≡ true
  idle : IsIdle r
  messages : r.printed ≡ h.printed ++ h.held_messages
  errors : r.had_errors ≡ (if h.held_had_errors then true else h.had_errors)

report-Mirrors : (x : Report) {h r : Reporter} → Mirrors h r → Mirrors (report x h) (report x r)
unfolding err note_raw
report-Mirrors (an_error l code arguments) {h} {r} c =
    ground (arith, append_assoc h.printed h.held_messages (Message.error l code arguments ∷ []))
report-Mirrors (a_note l arguments) {h} {r} c =
    ground (arith, append_assoc h.printed h.held_messages (Message.note l arguments ∷ []))

report_all-Mirrors :
    (xs : List Report) {h r : Reporter} → Mirrors h r → Mirrors (report_all xs h) (report_all xs r)
report_all-Mirrors [] c = c
report_all-Mirrors (x ∷ xs) c = report_all-Mirrors xs (report-Mirrors x c)

unhold-Mirrors : {h r : Reporter} → Mirrors h r → unhold h ≡ some r
unfolding unhold
unhold-Mirrors {h} {r} c = ground (arith, c.idle)

hold-Mirrors : {r h : Reporter} → IsIdle r → hold r ≡ some h → Mirrors h r
unfolding hold
hold-Mirrors {r} {h} idle e = ground (arith, append-nil r.printed)

hold-total : {r : Reporter} → IsIdle r → (h : Reporter) × (hold r ≡ some h)
unfolding hold
hold-total {r} idle = (record r { holding = true }, ground arith)

-- The whole of a held stretch: hold, report, and end by `finish`.
abbrev pub held_run : (Reporter → Option Reporter) → List Report → Reporter → Option Reporter
held_run finish xs r = Option.bind (hold r) λ h. finish (report_all xs h)

-- Diagnostics that are held and then shown leave the reporter as if they had been reported at
-- once: the same messages in the same order, and the same error flag.
pub unhold-transparent :
    (xs : List Report) (r : Reporter) → IsIdle r → held_run unhold xs r ≡ some (report_all xs r)
unfolding Option.bind unhold
unhold-transparent xs r idle =
    let (h, e) = hold-total idle in
    rw e (unhold-Mirrors (report_all-Mirrors xs (hold-Mirrors idle e)))

-- What the reporter had before it began to hold.
record Keeps (h r : Reporter) : Type 0 where
  held : h.holding ≡ true
  idle : IsIdle r
  messages : h.printed ≡ r.printed
  errors : h.had_errors ≡ r.had_errors

report-Keeps : (x : Report) {h r : Reporter} → Keeps h r → Keeps (report x h) r
unfolding err note_raw
report-Keeps (an_error l code arguments) {h} {r} c = ground arith
report-Keeps (a_note l arguments) {h} {r} c = ground arith

report_all-Keeps : (xs : List Report) {h r : Reporter} → Keeps h r → Keeps (report_all xs h) r
report_all-Keeps [] c = c
report_all-Keeps (x ∷ xs) c = report_all-Keeps xs (report-Keeps x c)

hold-Keeps : {r h : Reporter} → IsIdle r → hold r ≡ some h → Keeps h r
unfolding hold
hold-Keeps {r} {h} idle e = ground arith

unhold_discard-Keeps : {h r : Reporter} → Keeps h r → unhold_discard h ≡ some r
unfolding unhold_discard
unhold_discard-Keeps {h} {r} c = ground (arith, c.idle)

-- Diagnostics that are held and then dropped leave no trace.
pub unhold_discard-silent :
    (xs : List Report) (r : Reporter) → IsIdle r → held_run unhold_discard xs r ≡ some r
unfolding Option.bind unhold_discard
unhold_discard-silent xs r idle =
    let (h, e) = hold-total idle in
    rw e (unhold_discard-Keeps (report_all-Keeps xs (hold-Keeps idle e)))
