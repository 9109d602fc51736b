-- ===== src/Controller/Windows/Laws.antt =====
-- What evaluateWindows answers, against the windows and against the evaluator of the policies.
use kube_freeze_operator.Common.{
  ℕ, ◌≡◌, ◌↔◌, sym, inl, inr, refl, ap, ◌∙◌, String, Bool, true, ◌||◌, Option, some, none, List, [],
  ◌∷◌, any, any_iff, arith, Bool-cases, Option-cases,
}
use kube_freeze_operator.Common.Results.{ok, Result-cases}
use kube_freeze_operator.Api.Kinds.{is_deny_outside}
use kube_freeze_operator.Api.Specs.{WindowSpec}
use kube_freeze_operator.Api.Objects.{MaintenanceWindow}
use kube_freeze_operator.External.{Library, add_duration}
use kube_freeze_operator.Policy.Window.{EvaluatedWindow, eval_cron_window}
use kube_freeze_operator.Policy.Window.Laws.{accepts_of_ok, eval_cron_window_sound}
use kube_freeze_operator.Policy.Candidates.{is_open}
use kube_freeze_operator.Policy.Candidates.Laws.{HasOpenWindow}
use kube_freeze_operator.Controller.Windows.{
  EvaluationResult, initial_result, note_active, is_earlier, note_next, note_window, note_windows,
  wait_for_next, evaluate_windows,
}

next-active :
    (w : WindowSpec) (t : Option ℕ) (r : EvaluationResult) → (note_next w t r).active ≡ r.active
next-active w none r = refl
next-active w (some t) r = elim (Bool-cases (is_earlier t r.earliest_next)) [
  | inl e ↦ rw e
  | inr e ↦ rw e
]

or_swap : (a b c : Bool) → ((a || b) || c) ≡ (b || (a || c))
or_swap a b c = ground arith

module _ (lib : Library) (now : ℕ) (tz : String) where
  note_window-active :
      (w : WindowSpec) (res : EvaluatedWindow) (r : EvaluationResult)
      → eval_cron_window lib now tz w.schedule w.duration ≡ ok res
      → (note_window now w res r).active ≡ (res.active || r.active)
  note_window-active w res r h = elim (Bool-cases res.active) [
    | inr e ↦ rw e (next-active w res.next_start r)
    | inl e ↦
        let a = accepts_of_ok lib now tz w.schedule w.duration res h in
        let (s, o, starts, ends) =
          eval_cron_window_sound lib now tz w.schedule w.duration a.next res a.is_parsed h e in
        rw (e, starts, ends)
          (next-active w res.next_start
            (note_active now w (some s) (some (add_duration s w.duration)) r))
  ]

  note_windows-active :
      (ws : List WindowSpec) (r r' : EvaluationResult)
      → note_windows lib now tz ws r ≡ ok r'
      → r'.active
        ≡ (r.active || any (λ w. is_open (eval_cron_window lib now tz w.schedule w.duration)) ws)
  unfolding note_windows
  note_windows-active [] r r' h = let e : r ≡ r' = cc in rw (sym e) (ground arith)
  note_windows-active (w ∷ ws) r r' h =
      elim (Result-cases (eval_cron_window lib now tz w.schedule w.duration)) [
        | inl (e, p) ↦ absurd (cc (rw (note_windows, p) at h))
        | inr (res, p) ↦
            note_windows-active ws (note_window now w res r) r' (rw (note_windows, p) at h)
            ∙ rw (p, note_window-active w res r p)
                (or_swap res.active r.active
                  (any (λ w. is_open (eval_cron_window lib now tz w.schedule w.duration)) ws))
      ]

wait_for_next-active : (now : ℕ) (r : EvaluationResult) → (wait_for_next now r).active ≡ r.active
wait_for_next-active now r = elim (Option-cases r.earliest_next) [
  | inl e ↦ rw e
  | inr (t, e) ↦ rw e (elim (Bool-cases r.active) [ inl a ↦ rw a | inr a ↦ rw a ])
]

-- The result without the last step.
pub noted_of_ok :
    (lib : Library) (now : ℕ) (mw : MaintenanceWindow) (result : EvaluationResult)
    → evaluate_windows lib now mw ≡ ok result
    → (is_deny_outside mw.spec.window_mode ≡ true)
      × (r : EvaluationResult) × (note_windows lib now mw.spec.timezone mw.spec.windows
            initial_result
          ≡ ok r)
      × (result ≡ wait_for_next now r)
unfolding evaluate_windows
noted_of_ok lib now mw result h = elim (Bool-cases (is_deny_outside mw.spec.window_mode)) [
  | inr e ↦ absurd (cc (rw e at h))
  | inl e ↦
      elim (Result-cases (note_windows lib now mw.spec.timezone mw.spec.windows initial_result)) [
        | inl (x, p) ↦ absurd (cc (rw (e, p) at h))
        | inr (r, p) ↦ (e, r, p, cc (rw (e, p) at h))
      ]
]

-- If the evaluation of a MaintenanceWindow succeeds, it is active exactly when one of its windows is
-- open, by the same evaluation that the admission webhook uses.
pub evaluate_windows-active :
    (lib : Library) (now : ℕ) (mw : MaintenanceWindow) (result : EvaluationResult)
    → evaluate_windows lib now mw ≡ ok result
    → (result.active ≡ true) ↔ HasOpenWindow lib now mw.spec.timezone mw.spec.windows
evaluate_windows-active lib now mw result h =
    let (_, r, p, q) = noted_of_ok lib now mw result h in
    let e : result.active
        ≡ any (λ w. is_open (eval_cron_window lib now mw.spec.timezone w.schedule w.duration))
            mw.spec.windows =
      ap (λ x. x.active) q
      ∙ wait_for_next-active now r
      ∙ note_windows-active lib now mw.spec.timezone mw.spec.windows initial_result r p in
    rw e (
      any_iff (λ w. is_open (eval_cron_window lib now mw.spec.timezone w.schedule w.duration))
        mw.spec.windows)
