-- ===== src/Controller/Windows/Next.antt =====
-- The next window that evaluateWindows reports.
use kube_freeze_operator.Common.{
  ℕ, ◌≡◌, ◌⊎◌, inl, inr, refl, sym, ap, ◌∙◌, subst, String, Option, some, none, List, [], ◌∷◌, All,
  Some, Bool-cases, Option-cases,
}
use kube_freeze_operator.Common.Results.{ok, Result-cases}
use kube_freeze_operator.Api.Specs.{WindowSpec}
use kube_freeze_operator.Api.Objects.{MaintenanceWindow, WindowStatus}
use kube_freeze_operator.External.{Library, add_duration}
use kube_freeze_operator.Policy.Window.{EvaluatedWindow, eval_cron_window}
use kube_freeze_operator.Controller.Windows.{
  EvaluationResult, initial_result, is_earlier, note_next, note_window, note_windows, wait_for_next,
  evaluate_windows,
}
use kube_freeze_operator.Controller.Windows.Laws.{noted_of_ok}
use kube_freeze_operator.Controller.Windows.Earliest.{
  Upto, start_of, Agrees, opened, opened-same, note_next-Agrees, earliest-Upto, earliest_lower,
}

module _ (lib : Library) (now : ℕ) (tz : String) where
  -- A reported window is the next one of a window of the spec.
  pub record IsNextOf (x : WindowStatus) (w : WindowSpec) : Type 0 where
    pub evaluation : EvaluatedWindow
    pub evaluates : eval_cron_window lib now tz w.schedule w.duration ≡ ok evaluation
    pub starts : evaluation.next_start ≡ some x.start_time
    pub same_name : x.name ≡ w.name
    pub ends : x.end_time ≡ add_duration x.start_time w.duration

  -- The next start of the window, if it has one, is not before the reported one.
  abbrev pub NotEarlier : Option ℕ → WindowSpec → Type 0
  NotEarlier reported w =
      (res : EvaluatedWindow) (t : ℕ)
      → eval_cron_window lib now tz w.schedule w.duration ≡ ok res
      → res.next_start ≡ some t
      → Upto reported t

  note_window-lower :
      (w : WindowSpec) (res : EvaluatedWindow) (r : EvaluationResult) (u : ℕ)
      → Upto r.earliest_next u
      → Upto (note_window now w res r).earliest_next u
  note_window-lower w res r u h =
      earliest_lower w res.next_start (opened now w res r) (opened now w res r).earliest_next u refl
        (rw ((opened-same now w res r).1) h)

  note_window-Upto :
      (w : WindowSpec) (res : EvaluatedWindow) (r : EvaluationResult) (t : ℕ)
      → res.next_start ≡ some t
      → Upto (note_window now w res r).earliest_next t
  note_window-Upto w res r t h =
      rw h (earliest-Upto w t (opened now w res r) (opened now w res r).earliest_next refl)

  note_window-Agrees :
      (w : WindowSpec) (res : EvaluatedWindow) (r : EvaluationResult)
      → Agrees r
      → Agrees (note_window now w res r)
  note_window-Agrees w res r h =
      note_next-Agrees w res.next_start (opened now w res r)
        (rw ((opened-same now w res r).0, (opened-same now w res r).1) h)

  note_windows-lower :
      (ws : List WindowSpec) (r r' : EvaluationResult) (u : ℕ)
      → note_windows lib now tz ws r ≡ ok r'
      → Upto r.earliest_next u
      → Upto r'.earliest_next u
  unfolding note_windows
  note_windows-lower [] r r' u h k = let e : r ≡ r' = cc in rw (sym e) k
  note_windows-lower (w ∷ ws) r r' u h k =
      elim (Result-cases (eval_cron_window lib now tz w.schedule w.duration)) [
        | inl (e, p) ↦ absurd (cc (rw (note_windows, p) at h))
        | inr (res, p) ↦
            note_windows-lower ws (note_window now w res r) r' u (rw (note_windows, p) at h)
              (note_window-lower w res r u k)
      ]

  note_windows-earliest :
      (ws : List WindowSpec) (r r' : EvaluationResult)
      → note_windows lib now tz ws r ≡ ok r'
      → All (NotEarlier r'.earliest_next) ws
  unfolding note_windows
  note_windows-earliest [] r r' h = tt
  note_windows-earliest (w ∷ ws) r r' h =
      elim (Result-cases (eval_cron_window lib now tz w.schedule w.duration)) [
        | inl (e, p) ↦ absurd (cc (rw (note_windows, p) at h))
        | inr (res, p) ↦
            let k : note_windows lib now tz ws (note_window now w res r) ≡ ok r' =
              rw (note_windows, p) at h in
            (
              λ x t q n.
                  let same : res ≡ x = cc in
                  note_windows-lower ws (note_window now w res r) r' t k
                    (note_window-Upto w res r t (rw same n)),
              note_windows-earliest ws (note_window now w res r) r' k,
            )
      ]

  note_windows-Agrees :
      (ws : List WindowSpec) (r r' : EvaluationResult)
      → note_windows lib now tz ws r ≡ ok r'
      → Agrees r
      → Agrees r'
  unfolding note_windows
  note_windows-Agrees [] r r' h k = let e : r ≡ r' = cc in subst Agrees e k
  note_windows-Agrees (w ∷ ws) r r' h k =
      elim (Result-cases (eval_cron_window lib now tz w.schedule w.duration)) [
        | inl (e, p) ↦ absurd (cc (rw (note_windows, p) at h))
        | inr (res, p) ↦
            note_windows-Agrees ws (note_window now w res r) r' (rw (note_windows, p) at h)
              (note_window-Agrees w res r k)
      ]

  note_next-source :
      (w : WindowSpec) (res : EvaluatedWindow) (x : WindowStatus) (r : EvaluationResult)
      (o : Option ℕ)
      → eval_cron_window lib now tz w.schedule w.duration ≡ ok res
      → res.next_start ≡ o
      → (note_next w o r).next_window ≡ some x
      → (r.next_window ≡ some x) ⊎ IsNextOf x w
  note_next-source w res x r none p q h = inl h
  note_next-source w res x r (some t) p q h = elim (Bool-cases (is_earlier t r.earliest_next)) [
    | inr e ↦ inl (rw e at h)
    | inl e ↦
        let same : record { name = w.name; start_time = t; end_time = add_duration t w.duration }
            ≡ x =
          cc (rw e at h) in
        subst (λ y. (r.next_window ≡ some y) ⊎ IsNextOf y w) same
          (inr
            (record { evaluation = res; evaluates = p; starts = q; same_name = refl; ends = refl }))
  ]

  note_windows-source :
      (ws : List WindowSpec) (r r' : EvaluationResult) (x : WindowStatus)
      → note_windows lib now tz ws r ≡ ok r'
      → r'.next_window ≡ some x
      → (r.next_window ≡ some x) ⊎ Some (IsNextOf x) ws
  unfolding note_windows
  note_windows-source [] r r' x h k = let e : r ≡ r' = cc in inl (rw e k)
  note_windows-source (w ∷ ws) r r' x h k =
      elim (Result-cases (eval_cron_window lib now tz w.schedule w.duration)) [
        | inl (e, p) ↦ absurd (cc (rw (note_windows, p) at h))
        | inr (res, p) ↦
            elim (note_windows-source ws (note_window now w res r) r' x (rw (note_windows, p) at h)
              k) [
                | inr m ↦ inr (inr m)
                | inl m ↦
                    elim (note_next-source w res x (opened now w res r) res.next_start p refl m) [
                      | inl n ↦ inl (rw ((opened-same now w res r).0) at n)
                      | inr n ↦ inr (inl n)
                    ]
              ]
      ]

wait_for_next-next :
    (now : ℕ) (r : EvaluationResult) → (wait_for_next now r).next_window ≡ r.next_window
wait_for_next-next now r = elim (Option-cases r.earliest_next) [
  | inl e ↦ rw e
  | inr (t, e) ↦ rw e (elim (Bool-cases r.active) [ inl a ↦ rw a | inr a ↦ rw a ])
]

-- If the evaluation of a MaintenanceWindow succeeds, the next window that it reports is the next one of
-- a window of the spec, under its name and with its duration, and no window of the spec starts next
-- before it.
pub evaluate_windows-next :
    (lib : Library) (now : ℕ) (mw : MaintenanceWindow) (result : EvaluationResult)
    → evaluate_windows lib now mw ≡ ok result
    → All (NotEarlier lib now mw.spec.timezone (start_of result.next_window)) mw.spec.windows
      × ((x : WindowStatus)
          → result.next_window ≡ some x
          → Some (IsNextOf lib now mw.spec.timezone x) mw.spec.windows)
evaluate_windows-next lib now mw result h =
    let (_, r, p, q) = noted_of_ok lib now mw result h in
    let tz = mw.spec.timezone in
    let same : result.next_window ≡ r.next_window =
      ap (λ y. y.next_window) q ∙ wait_for_next-next now r in
    (
      rw (same, note_windows-Agrees lib now tz mw.spec.windows initial_result r p refl)
          (note_windows-earliest lib now tz mw.spec.windows initial_result r p),
      λ x e.
          elim (note_windows-source lib now tz mw.spec.windows initial_result r x p
            (sym same ∙ e)) [ inl bad ↦ absurd (cc) | inr m ↦ m ],
    )
