-- ===== src/Controller/Windows/Requeue.antt =====
-- When the MaintenanceWindow controller looks again.
use kube_freeze_operator.Common.{
  ℕ, ◌+◌, ◌*◌, ◌≤◌, ◌<◌, ◌≡◌, inl, inr, refl, sym, String, true, Option, some, none, List, [], ◌∷◌,
  length, arith, Bool-cases, Option-cases, ◌&&◌,
}
use kube_freeze_operator.Common.Int.{ℤ, pos, negsuc, ltb_ℤ, add_int64, max_int64}
use kube_freeze_operator.Common.Results.{ok, Result-cases}
use kube_freeze_operator.Api.Specs.{WindowSpec}
use kube_freeze_operator.Api.Objects.{MaintenanceWindow}
use kube_freeze_operator.External.{Library, one_second, one_minute, sub_time}
use kube_freeze_operator.Policy.Window.{EvaluatedWindow, eval_cron_window}
use kube_freeze_operator.Controller.Windows.{
  EvaluationResult, initial_result, sooner, note_active, is_earlier, note_next, note_window,
  note_windows, wait_for_next, evaluate_windows,
}
use kube_freeze_operator.Controller.Windows.Laws.{noted_of_ok}

-- A wait of at least a second and at most a bound.
pub record Within (bound : ℕ) (wait : ℤ) : Type 0 where
  pub duration : ℕ
  pub is_wait : wait ≡ pos duration
  pub is_least : one_second ≤ duration
  pub is_most : duration ≤ bound

sooner_taken :
    (d bound n : ℕ)
    → bound + one_second ≤ max_int64
    → (0 < d)
    → d < n
    → n ≤ bound
    → Within (bound + one_second) (add_int64 (pos d) (pos one_second))
sooner_taken d bound n h a b c = record {
  duration = d + one_second;
  is_wait = ground arith;
  is_least = omega arith;
  is_most = omega arith;
}

weaken : (bound : ℕ) (r : ℤ) → Within bound r → Within (bound + one_second) r
weaken bound r w = record {
  duration = w.duration;
  is_wait = w.is_wait;
  is_least = w.is_least;
  is_most = ground (arith, w.is_most);
}

sooner-Within :
    (bound : ℕ) (d r : ℤ)
    → bound + one_second ≤ max_int64
    → Within bound r
    → Within (bound + one_second) (sooner d r)
sooner-Within bound (negsuc d) r h w =
    elim (Bool-cases (ltb_ℤ (pos 0) (negsuc d) && ltb_ℤ (negsuc d) r)) [
      | inr e ↦ rw e (weaken bound r w)
      | inl e ↦ absurd (ground arith)
    ]
sooner-Within bound (pos d) r h w = elim (Bool-cases (ltb_ℤ (pos 0) (pos d) && ltb_ℤ (pos d) r)) [
  | inr e ↦ rw e (weaken bound r w)
  | inl e ↦
      let f : ltb_ℤ (pos 0) (pos d) && ltb_ℤ (pos d) (pos w.duration) ≡ true = rw w.is_wait at e in
      rw e (sooner_taken d bound w.duration h (ground arith) (ground arith) w.is_most)
]

note_next-requeue :
    (w : WindowSpec) (t : Option ℕ) (r : EvaluationResult)
    → (note_next w t r).requeue_after ≡ r.requeue_after
note_next-requeue w none r = refl
note_next-requeue w (some t) r = elim (Bool-cases (is_earlier t r.earliest_next)) [
  | inl e ↦ rw e
  | inr e ↦ rw e
]

note_active-Within :
    (now bound : ℕ) (w : WindowSpec) (s e : Option ℕ) (r : EvaluationResult)
    → bound + one_second ≤ max_int64
    → Within bound r.requeue_after
    → Within (bound + one_second) (note_active now w s e r).requeue_after
note_active-Within now bound w (some s) (some e) r h k =
    sooner-Within bound (sub_time e now) r.requeue_after h k
note_active-Within now bound w none none r h k = weaken bound r.requeue_after k
note_active-Within now bound w none (some e) r h k = weaken bound r.requeue_after k
note_active-Within now bound w (some s) none r h k = weaken bound r.requeue_after k

note_window-Within :
    (now bound : ℕ) (w : WindowSpec) (res : EvaluatedWindow) (r : EvaluationResult)
    → bound + one_second ≤ max_int64
    → Within bound r.requeue_after
    → Within (bound + one_second) (note_window now w res r).requeue_after
note_window-Within now bound w res r h k = elim (Bool-cases res.active) [
  | inl e ↦
      rw
        (
          e,
          note_next-requeue w res.next_start (note_active now w res.active_start res.active_end r),
        )
        (note_active-Within now bound w res.active_start res.active_end r h k)
  | inr e ↦ rw (e, note_next-requeue w res.next_start r) (weaken bound r.requeue_after k)
]

note_windows-Within :
    (lib : Library) (now bound : ℕ) (tz : String) (ws : List WindowSpec) (r r' : EvaluationResult)
    → bound + length ws * one_second ≤ max_int64
    → note_windows lib now tz ws r ≡ ok r'
    → Within bound r.requeue_after
    → Within (bound + length ws * one_second) r'.requeue_after
unfolding note_windows
note_windows-Within lib now bound tz [] r r' h e k =
    let same : r ≡ r' = cc in
    let b : bound + 0 * one_second ≡ bound = omega arith in rw (sym same, b) k
note_windows-Within lib now bound tz (w ∷ ws) r r' h e k =
    elim (Result-cases (eval_cron_window lib now tz w.schedule w.duration)) [
      | inl (x, p) ↦ absurd (cc (rw (note_windows, p) at e))
      | inr (res, p) ↦
          let b : bound + length (w ∷ ws) * one_second
              ≡ (bound + one_second) + length ws * one_second =
            omega arith in
          rw b (
            note_windows-Within lib now (bound + one_second) tz ws (note_window now w res r) r'
              (omega arith) (rw (note_windows, p) at e)
              (note_window-Within now bound w res r (omega arith) k))
    ]

-- A MaintenanceWindow whose evaluation succeeds, with at most a thousand million windows, is looked at
-- again after at least a second, and at most five minutes and a second for each window and one more.
pub evaluate_windows-requeue :
    (lib : Library) (now : ℕ) (mw : MaintenanceWindow) (result : EvaluationResult)
    → length mw.spec.windows ≤ 1000000000
    → evaluate_windows lib now mw ≡ ok result
    → Within (5 * one_minute + (length mw.spec.windows + 1) * one_second) result.requeue_after
evaluate_windows-requeue lib now mw result few h =
    let (_, r, p, q) = noted_of_ok lib now mw result h in
    let n = length mw.spec.windows in
    let start : Within (5 * one_minute) initial_result.requeue_after = record {
      duration = 5 * one_minute;
      is_wait = refl;
      is_least = omega arith;
      is_most = omega arith;
    } in
    let noted =
      note_windows-Within lib now (5 * one_minute) mw.spec.timezone mw.spec.windows initial_result r
        (omega arith) p start in
    let b : 5 * one_minute + (n + 1) * one_second ≡ (5 * one_minute + n * one_second) + one_second =
      omega arith in
    rw (q, b) (waited r (5 * one_minute + n * one_second) (omega arith) noted)
  where
    waited :
        (r : EvaluationResult) (bound : ℕ)
        → bound + one_second ≤ max_int64
        → Within bound r.requeue_after
        → Within (bound + one_second) (wait_for_next now r).requeue_after
    waited r bound h k = elim (Option-cases r.earliest_next) [
      | inl e ↦ rw e (weaken bound r.requeue_after k)
      | inr (t, e) ↦ elim (Bool-cases r.active) [
        | inl a ↦ rw (e, a) (weaken bound r.requeue_after k)
        | inr a ↦ rw (e, a) (sooner-Within bound (sub_time t now) r.requeue_after h k)
      ]
    ]
