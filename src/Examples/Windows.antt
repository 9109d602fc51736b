-- ===== src/Examples/Windows.antt =====
-- The theorems about windows at the test data.
use kube_freeze_operator.Common.{
  ℕ, zero, suc, ◌+◌, ◌-◌, ◌*◌, ◌/◌, ◌<◌, ◌≡◌, refl, true, false, some, arith,
}
use kube_freeze_operator.Common.Int.{pos}
use kube_freeze_operator.Common.Results.{ok}
use kube_freeze_operator.External.{one_minute, add_duration, fourteen_days}
use kube_freeze_operator.Policy.Window.{EvaluatedWindow, eval_cron_window, max_rounds}
use kube_freeze_operator.Policy.Window.Search.{IsSchedule, step_starts}
use kube_freeze_operator.Policy.Window.Laws.{
  IsOpen, Accepts, eval_cron_window_sound, eval_cron_window_complete, every_minute,
  every_minute_missed,
}
use kube_freeze_operator.Controller.Interval.{requeue_after}
use kube_freeze_operator.Controller.Interval.Laws.{LooksAgain, requeue_after_steady}
use kube_freeze_operator.Controller.Windows.{EvaluationResult, evaluate_windows}
use kube_freeze_operator.Examples.{library, now, one_hour, every_hour, window, freeze}

-- Five minutes after an hour.
abbrev pub soon : ℕ
soon = 34128300000000000

abbrev pub opened : EvaluatedWindow
opened = record {
  active = true;
  active_start = some 34128000000000000;
  active_end = some 34128600000000000;
  next_start = some 34131600000000000;
  next_end = some 34132200000000000;
}

pub opened_lem : eval_cron_window library soon "UTC" "0 * * * *" (pos (10 * one_minute)) ≡ ok opened
unfolding eval_cron_window kube_freeze_operator.Policy.Window.evaluated
    kube_freeze_operator.Policy.Window.last_start kube_freeze_operator.Policy.Window.scan
opened_lem = refl

eval_cron_window_sound_example :
    (s : ℕ) × IsOpen every_hour soon (pos (10 * one_minute)) s
    × (opened.active_start ≡ some s)
    × (opened.active_end ≡ some (add_duration s (pos (10 * one_minute))))
eval_cron_window_sound_example =
    eval_cron_window_sound library soon "UTC" "0 * * * *" (pos (10 * one_minute)) (λ tz. every_hour)
      opened refl opened_lem refl

abbrev accepts_hourly : Accepts library "UTC" "0 * * * *" (pos (10 * one_minute))
accepts_hourly = record {
  is_known = refl;
  is_positive = refl;
  next = λ tz. every_hour;
  is_parsed = refl;
}

every_hour-IsSchedule : IsSchedule every_hour
every_hour-IsSchedule = record { is_later = λ t. omega arith; is_earliest = λ t u h. omega arith }

step_starts-every_hour : (k m : ℕ) → step_starts every_hour k (m * one_hour) ≡ (m + k) * one_hour
step_starts-every_hour zero m = omega arith
step_starts-every_hour (suc k) m =
    let e : every_hour (m * one_hour) ≡ suc m * one_hour = omega arith in
    rw e (omega (arith, step_starts-every_hour k (suc m)))

few_starts : soon < step_starts every_hour max_rounds (every_hour (soon - fourteen_days))
few_starts =
    ground (arith, step_starts-every_hour max_rounds ((soon - fourteen_days) / one_hour + 1))

eval_cron_window_complete_example :
    (w : EvaluatedWindow) × (eval_cron_window library soon "UTC" "0 * * * *" (pos (10 * one_minute))
      ≡ ok w)
    × (w.active ≡ true)
eval_cron_window_complete_example =
    eval_cron_window_complete library soon "UTC" "0 * * * *" (10 * one_minute) 34128000000000000
      accepts_hourly every_hour-IsSchedule (omega arith) few_starts
      ((34127999999999999, omega arith), omega arith, omega arith) (omega arith)

abbrev accepts_minutely : Accepts library "UTC" "* * * * *" (pos one_minute)
accepts_minutely = record {
  is_known = refl;
  is_positive = refl;
  next = λ tz. every_minute;
  is_parsed = refl;
}

every_minute_missed_example :
    ((s : ℕ) × IsOpen every_minute now (pos one_minute) s)
    × ((w : EvaluatedWindow) × (eval_cron_window library now "UTC" "* * * * *" (pos one_minute)
          ≡ ok w)
        × (w.active ≡ false))
every_minute_missed_example =
    every_minute_missed library now "UTC" "* * * * *" one_minute accepts_minutely refl (omega arith)
      (omega arith) (omega arith)

requeue_after_steady_example :
    LooksAgain freeze.spec.start_time freeze.spec.end_time now
      (requeue_after freeze.spec.start_time freeze.spec.end_time now)
requeue_after_steady_example =
    requeue_after_steady freeze.spec.start_time freeze.spec.end_time now (omega arith) (omega arith)

abbrev pub evaluation : EvaluationResult
evaluation = record {
  active = true;
  active_window =
      some
        (record { name = "hourly"; start_time = 34128000000000000; end_time = 34128600000000000 });
  next_window =
      some
        (record { name = "hourly"; start_time = 34131600000000000; end_time = 34132200000000000 });
  requeue_after = pos 300000000000;
  earliest_next = some 34131600000000000;
}

pub evaluation_lem : evaluate_windows library soon window ≡ ok evaluation
unfolding evaluate_windows kube_freeze_operator.Controller.Windows.note_windows eval_cron_window
    kube_freeze_operator.Policy.Window.evaluated kube_freeze_operator.Policy.Window.last_start
    kube_freeze_operator.Policy.Window.scan
evaluation_lem = refl
