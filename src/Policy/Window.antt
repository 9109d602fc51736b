-- ===== src/Policy/Window.antt =====
-- internal/policy/windows.go: is a recurring window open now, and when does it open next.
pub mod Search
pub mod Laws
use kube_freeze_operator.Common.{
  ℕ, zero, suc, ◌-◌, String, Bool, not, ◌&&◌, Option, none, some, leb, ltb, if◌then◌else◌,
}
use kube_freeze_operator.Common.Int.{ℤ, pos, leb_ℤ}
use kube_freeze_operator.Common.Results.{Result, ok, guard, or_fail, ◌>>=◌, ◌>>◌}
use kube_freeze_operator.External.{Library, zero_time, is_zero_time, add_duration, fourteen_days}

pub record EvaluatedWindow : Type 0 where
  pub active : Bool
  pub active_start : Option ℕ
  pub active_end : Option ℕ
  pub next_start : Option ℕ
  pub next_end : Option ℕ

pub data WindowError : Type 0 where
  invalid_timezone invalid_schedule : String → WindowError
  duration_not_positive : WindowError

-- The loop `for t := sch.Next(searchStart); !t.After(nowLoc); t = sch.Next(t)`. The number counts
-- the rounds that the test `iter > 10000` leaves: after the last of them the loop breaks.
unfoldable pub scan : (ℕ → ℕ) → ℕ → ℕ → ℕ → ℕ → ℕ
scan next now zero t prev = prev
scan next now (suc rounds) t prev =
    let rest = scan next now rounds (next t) t in if leb t now then rest else prev

abbrev pub max_rounds : ℕ
max_rounds = 10001

-- The start that the search ends with, and the zero time if it meets none.
unfoldable pub last_start : (ℕ → ℕ) → ℕ → ℕ
last_start next now = scan next now max_rounds (next (now - fourteen_days)) zero_time

abbrev pub is_active : ℕ → ℕ → ℤ → Bool
is_active prev now duration =
    not (is_zero_time prev) && (not (ltb now prev) && ltb now (add_duration prev duration))

unfoldable pub evaluated : (ℕ → ℕ) → ℕ → ℤ → EvaluatedWindow
evaluated next now duration =
    let prev = last_start next now in
    let active = is_active prev now duration in
    record {
      active = active;
      active_start = if active then some prev else none;
      active_end = if active then some (add_duration prev duration) else none;
      next_start = some (next now);
      next_end = some (add_duration (next now) duration);
    }

unfoldable pub eval_cron_window :
    Library → ℕ → String → String → ℤ → Result WindowError EvaluatedWindow
eval_cron_window lib now tz schedule duration = do
  guard (lib.load_location tz) (invalid_timezone tz)
  guard (not (leb_ℤ duration (pos 0))) duration_not_positive
  next ← or_fail (lib.parse_schedule schedule) (invalid_schedule schedule)
  ok (evaluated (next tz) now duration)
