-- ===== src/Controller/Windows/Earliest.antt =====
-- The earliest next start that the loop of evaluateWindows keeps.
use kube_freeze_operator.Common.{
  ℕ, ◌≤◌, ◌≡◌, inl, inr, refl, Option, some, none, arith, Bool-cases, if◌then◌else◌, ltb,
}
use kube_freeze_operator.Api.Specs.{WindowSpec}
use kube_freeze_operator.Api.Objects.{WindowStatus}
use kube_freeze_operator.Policy.Window.{EvaluatedWindow}
use kube_freeze_operator.Controller.Windows.{EvaluationResult, note_active, is_earlier, note_next}

-- A reported start that is no later than an instant.
abbrev pub Upto : Option ℕ → ℕ → Type 0
Upto none t = ⊥
Upto (some b) t = b ≤ t

abbrev pub start_of : Option WindowStatus → Option ℕ
start_of none = none
start_of (some w) = some w.start_time

-- The loop's two records of the next start agree.
abbrev pub Agrees : EvaluationResult → Type 0
Agrees r = start_of r.next_window ≡ r.earliest_next

note_active-same :
    (now : ℕ) (w : WindowSpec) (s e : Option ℕ) (r : EvaluationResult)
    → ((note_active now w s e r).next_window ≡ r.next_window)
      × ((note_active now w s e r).earliest_next ≡ r.earliest_next)
note_active-same now w none none r = (refl, refl)
note_active-same now w none (some e) r = (refl, refl)
note_active-same now w (some s) none r = (refl, refl)
note_active-same now w (some s) (some e) r = (refl, refl)

-- The record before the next start is noted.
abbrev pub opened : ℕ → WindowSpec → EvaluatedWindow → EvaluationResult → EvaluationResult
opened now w res r = if res.active then note_active now w res.active_start res.active_end r else r

pub opened-same :
    (now : ℕ) (w : WindowSpec) (res : EvaluatedWindow) (r : EvaluationResult)
    → ((opened now w res r).next_window ≡ r.next_window)
      × ((opened now w res r).earliest_next ≡ r.earliest_next)
opened-same now w res r = elim (Bool-cases res.active) [
  | inl e ↦ rw e (note_active-same now w res.active_start res.active_end r)
  | inr e ↦ rw e (refl, refl)
]

pub note_next-Agrees :
    (w : WindowSpec) (t : Option ℕ) (r : EvaluationResult) → Agrees r → Agrees (note_next w t r)
note_next-Agrees w none r h = h
note_next-Agrees w (some t) r h = elim (Bool-cases (is_earlier t r.earliest_next)) [
  | inl e ↦ rw e
  | inr e ↦ rw e h
]

pub earliest-Upto :
    (w : WindowSpec) (t : ℕ) (r : EvaluationResult) (o : Option ℕ)
    → r.earliest_next ≡ o
    → Upto (note_next w (some t) r).earliest_next t
earliest-Upto w t r none e = rw e (omega arith)
earliest-Upto w t r (some b) e = elim (Bool-cases (ltb t b)) [
  | inl f ↦ rw (e, f) (omega arith)
  | inr f ↦ rw (e, f) (ground arith)
]

pub earliest_lower :
    (w : WindowSpec) (t : Option ℕ) (r : EvaluationResult) (o : Option ℕ) (u : ℕ)
    → r.earliest_next ≡ o
    → Upto r.earliest_next u
    → Upto (note_next w t r).earliest_next u
earliest_lower w none r o u e h = h
earliest_lower w (some t) r none u e h = absurd (rw e at h)
earliest_lower w (some t) r (some b) u e h = elim (Bool-cases (ltb t b)) [
  | inl f ↦ let k : b ≤ u = rw e at h in rw (e, f) (ground arith)
  | inr f ↦ rw (e, f) (rw e at h)
]
