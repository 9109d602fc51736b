-- ===== src/Controller/Windows.antt =====
-- evaluateWindows of internal/controller/maintenancewindow_controller.go: is a window open, which one opens
-- next, and when does the controller look again.
pub mod Laws
pub mod Earliest
pub mod Next
pub mod Requeue
use kube_freeze_operator.Common.{
  ℕ, ◌*◌, String, Bool, true, false, not, ◌&&◌, Option, some, none, List, [], ◌∷◌, ltb,
  if◌then◌else◌,
}
use kube_freeze_operator.Common.Int.{ℤ, pos, ltb_ℤ, add_int64}
use kube_freeze_operator.Common.Results.{Result, ok, err}
use kube_freeze_operator.Api.Kinds.{is_deny_outside}
use kube_freeze_operator.Api.Specs.{WindowSpec}
use kube_freeze_operator.Api.Objects.{MaintenanceWindow, WindowStatus}
use kube_freeze_operator.External.{Library, add_duration, sub_time, one_second, one_minute}
use kube_freeze_operator.Policy.Window.{EvaluatedWindow, eval_cron_window}
use kube_freeze_operator.Controller.Status.{WindowsError, unsupported_mode, window_failed}

pub record EvaluationResult : Type 0 where
  pub active : Bool
  pub active_window : Option WindowStatus
  pub next_window : Option WindowStatus
  pub requeue_after : ℤ
  -- The loop's earliestNext.
  pub earliest_next : Option ℕ

abbrev pub initial_result : EvaluationResult
initial_result = record {
  active = false;
  active_window = none;
  next_window = none;
  requeue_after = pos (5 * one_minute);
  earliest_next = none;
}

-- `d > 0 && d < RequeueAfter`: the time to wait for an instant, a second after it.
abbrev pub sooner : ℤ → ℤ → ℤ
sooner d requeue_after =
    if ltb_ℤ (pos 0) d && ltb_ℤ d requeue_after then add_int64 d (pos one_second) else requeue_after

-- The part of the loop's body about a window that is open, with its two ends.
abbrev pub note_active : ℕ → WindowSpec → Option ℕ → Option ℕ → EvaluationResult → EvaluationResult
note_active now w (some active_start) (some active_end) result = record result {
  active = true;
  active_window = some (record { name = w.name; start_time = active_start; end_time = active_end });
  requeue_after = sooner (sub_time active_end now) result.requeue_after;
}
note_active now w _ _ result = result

-- `earliestNext == nil || NextStart.Before(*earliestNext)`.
abbrev pub is_earlier : ℕ → Option ℕ → Bool
is_earlier t none = true
is_earlier t (some best) = ltb t best

-- The part about the next start.
abbrev pub note_next : WindowSpec → Option ℕ → EvaluationResult → EvaluationResult
note_next w none result = result
note_next w (some t) result =
    if is_earlier t result.earliest_next
    then record result {
      next_window =
          some (record { name = w.name; start_time = t; end_time = add_duration t w.duration });
      earliest_next = some t;
    }
    else result

-- The loop's body for a window that evaluates.
abbrev pub note_window : ℕ → WindowSpec → EvaluatedWindow → EvaluationResult → EvaluationResult
note_window now w res result =
    note_next w res.next_start
      (if res.active then note_active now w res.active_start res.active_end result else result)

unfoldable pub note_windows :
    Library → ℕ → String → List WindowSpec → EvaluationResult → Result WindowsError EvaluationResult
note_windows lib now tz [] result = ok result
note_windows lib now tz (w ∷ ws) result = elim (eval_cron_window lib now tz w.schedule w.duration) [
  | err e ↦ err (window_failed w.name e)
  | ok res ↦ note_windows lib now tz ws (note_window now w res result)
]

-- The wait for the next start, if no window is open.
abbrev pub wait_for_next : ℕ → EvaluationResult → EvaluationResult
wait_for_next now result = elim result.earliest_next [
  | none ↦ result
  | some t ↦
      if result.active
      then result
      else record result { requeue_after = sooner (sub_time t now) result.requeue_after }
]

abbrev pub finish : ℕ → Result WindowsError EvaluationResult → Result WindowsError EvaluationResult
finish now (err e) = err e
finish now (ok result) = ok (wait_for_next now result)

unfoldable pub evaluate_windows :
    Library → ℕ → MaintenanceWindow → Result WindowsError EvaluationResult
evaluate_windows lib now mw =
    if not (is_deny_outside mw.spec.window_mode)
    then err unsupported_mode
    else finish now (note_windows lib now mw.spec.timezone mw.spec.windows initial_result)
