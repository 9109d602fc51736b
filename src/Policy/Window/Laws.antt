-- ===== src/Policy/Window/Laws.antt =====
-- What EvalCronWindow answers, against the windows that a schedule and a duration stand for.
use kube_freeze_operator.Common.{
  ℕ, zero, suc, ◌+◌, ◌-◌, ◌*◌, ◌/◌, ◌≤◌, ◌<◌, ◌≡◌, ◌⊎◌, ◌↔◌, inl, inr, refl, true, false, String,
  some, none, arith, Option-cases, ◌∙◌,
}
use kube_freeze_operator.Common.Int.{ℤ, pos, leb_ℤ}
use kube_freeze_operator.Common.Results.{ok, is_err}
use kube_freeze_operator.External.{Library, zero_time, fourteen_days, one_minute, add_duration}
use kube_freeze_operator.Policy.Window.{
  EvaluatedWindow, scan, last_start, max_rounds, evaluated, eval_cron_window,
}
use kube_freeze_operator.Policy.Window.Search.{
  IsStart, IsSchedule, step_starts, scan_latest, scan_capped, last_start_sound,
}

-- The instants that a window covers: a start up to now that the duration carries past now.
abbrev pub IsOpen : (ℕ → ℕ) → ℕ → ℤ → ℕ → Type 0
IsOpen next now duration s = IsStart next s × (s ≤ now) × (now < add_duration s duration)

evaluated_sound :
    (next : ℕ → ℕ) (now : ℕ) (duration : ℤ)
    → (evaluated next now duration).active ≡ true
    → (s : ℕ) × IsOpen next now duration s
      × ((evaluated next now duration).active_start ≡ some s)
      × ((evaluated next now duration).active_end ≡ some (add_duration s duration))
unfolding evaluated
evaluated_sound next now duration h = elim (last_start_sound next now) [
  | inl none_found ↦ absurd (ground arith)
  | inr (start, upto) ↦
      (last_start next now, (start, upto, ground arith), ground arith, ground arith)
]

-- When EvalCronWindow answers: the zone is known, the duration is positive and the schedule parses.
pub record Accepts (lib : Library) (tz schedule : String) (duration : ℤ) : Type 0 where
  pub is_known : lib.load_location tz ≡ true
  pub is_positive : leb_ℤ duration (pos 0) ≡ false
  pub next : String → ℕ → ℕ
  pub is_parsed : lib.parse_schedule schedule ≡ some next

pub eval_cron_window-eq_of_accepts :
    (lib : Library) (now : ℕ) (tz schedule : String) (duration : ℤ)
    (a : Accepts lib tz schedule duration)
    → eval_cron_window lib now tz schedule duration ≡ ok (evaluated (a.next tz) now duration)
unfolding eval_cron_window
eval_cron_window-eq_of_accepts lib now tz schedule duration a =
    rw (a.is_known, a.is_positive, a.is_parsed)

pub accepts_of_ok :
    (lib : Library) (now : ℕ) (tz schedule : String) (duration : ℤ) (w : EvaluatedWindow)
    → eval_cron_window lib now tz schedule duration ≡ ok w
    → Accepts lib tz schedule duration
unfolding eval_cron_window
accepts_of_ok lib now tz schedule duration w h = elim (Option-cases (lib.parse_schedule schedule)) [
  | inl bad ↦ absurd (ground arith)
  | inr (next, good) ↦ record {
    is_known = ground arith;
    is_positive = ground arith;
    next = next;
    is_parsed = good;
  }
]

evaluated_of_ok :
    (lib : Library) (now : ℕ) (tz schedule : String) (duration : ℤ) (next : String → ℕ → ℕ)
    (w : EvaluatedWindow)
    → lib.parse_schedule schedule ≡ some next
    → eval_cron_window lib now tz schedule duration ≡ ok w
    → w ≡ evaluated (next tz) now duration
unfolding eval_cron_window
evaluated_of_ok lib now tz schedule duration next w parsed h = ground arith

-- A window is reported active only if a start of its schedule, in its zone, lies no later than now and
-- less than the duration before now; the reported interval is from that start to its end.
pub eval_cron_window_sound :
    (lib : Library) (now : ℕ) (tz schedule : String) (duration : ℤ) (next : String → ℕ → ℕ)
    (w : EvaluatedWindow)
    → lib.parse_schedule schedule ≡ some next
    → eval_cron_window lib now tz schedule duration ≡ ok w
    → w.active ≡ true
    → (s : ℕ) × IsOpen (next tz) now duration s
      × (w.active_start ≡ some s)
      × (w.active_end ≡ some (add_duration s duration))
eval_cron_window_sound lib now tz schedule duration next w parsed h a =
    let e = evaluated_of_ok lib now tz schedule duration next w parsed h in
    rw e (evaluated_sound (next tz) now duration (rw e at a))

-- EvalCronWindow fails exactly when the zone is unknown, the duration is not positive or the schedule
-- does not parse.
pub eval_cron_window_err_iff :
    (lib : Library) (now : ℕ) (tz schedule : String) (duration : ℤ)
    → (is_err (eval_cron_window lib now tz schedule duration) ≡ true) ↔ (
        (lib.load_location tz ≡ false)
        ⊎ (leb_ℤ duration (pos 0) ≡ true)
        ⊎ (lib.parse_schedule schedule ≡ none))
unfolding eval_cron_window
eval_cron_window_err_iff lib now tz schedule duration = ground arith

-- A start up to now and after the search's beginning is not after the search's answer, where at most
-- 10001 starts fit between.
latest_of_few :
    (next : ℕ → ℕ) (now s : ℕ)
    → IsSchedule next
    → now < step_starts next max_rounds (next (now - fourteen_days))
    → IsStart next s
    → now - fourteen_days < s
    → s ≤ now
    → s ≤ last_start next now
unfolding last_start
latest_of_few next now s sch few (u, e) recent upto = rw e (
    scan_latest next sch now max_rounds (next (now - fourteen_days)) zero_time u few
      (sch.is_earliest _ u (rw e at recent)) (rw e at upto))

-- For a schedule that recurs for ever with at most 10001 starts in the last fourteen days, at a time at
-- least fourteen days after the zero time, with a known zone and a positive duration: a window that
-- began within the fourteen days and whose duration reaches past now is reported active.
pub eval_cron_window_complete :
    (lib : Library) (now : ℕ) (tz schedule : String) (length s : ℕ)
    (a : Accepts lib tz schedule (pos length))
    → IsSchedule (a.next tz)
    → zero_time + fourteen_days ≤ now
    → now < step_starts (a.next tz) max_rounds (a.next tz (now - fourteen_days))
    → IsOpen (a.next tz) now (pos length) s
    → now - fourteen_days < s
    → (w : EvaluatedWindow) × (eval_cron_window lib now tz schedule (pos length) ≡ ok w)
      × (w.active ≡ true)
unfolding evaluated
eval_cron_window_complete lib now tz schedule length s a sch late few covers recent = (
  evaluated (a.next tz) now (pos length),
  eval_cron_window-eq_of_accepts lib now tz schedule (pos length) a,
  ground (
    arith,
    latest_of_few (a.next tz) now s sch few covers.0 recent covers.1,
    last_start_sound (a.next tz) now,
  ),
)

-- The start of every minute.
abbrev pub every_minute : ℕ → ℕ
every_minute t = (t / one_minute + 1) * one_minute

pub every_minute-IsSchedule : IsSchedule every_minute
every_minute-IsSchedule = record { is_later = λ t. omega arith; is_earliest = λ t u h. omega arith }

step_starts-every_minute :
    (k m : ℕ) → step_starts every_minute k (m * one_minute) ≡ (m + k) * one_minute
step_starts-every_minute zero m = omega arith
step_starts-every_minute (suc k) m =
    let e : every_minute (m * one_minute) ≡ suc m * one_minute = omega arith in
    rw e (omega (arith, step_starts-every_minute k (suc m)))

scan-every_minute :
    (k m now prev : ℕ)
    → (m + k) * one_minute ≤ now
    → scan every_minute now (suc k) (m * one_minute) prev ≡ (m + k) * one_minute
scan-every_minute k m now prev h =
    let e = step_starts-every_minute k m in
    scan_capped every_minute every_minute-IsSchedule now k (m * one_minute) prev (rw e h) ∙ e

every_minute-last_start :
    (now : ℕ)
    → zero_time + fourteen_days ≤ now
    → last_start every_minute now ≡ ((now - fourteen_days) / one_minute + 1 + 10000) * one_minute
unfolding last_start
every_minute-last_start now late =
    scan-every_minute 10000 ((now - fourteen_days) / one_minute + 1) now zero_time (omega arith)

-- The latest minute up to now.
every_minute-IsOpen :
    (now length : ℕ)
    → one_minute ≤ now
    → one_minute ≤ length
    → IsOpen every_minute now (pos length) (now / one_minute * one_minute)
every_minute-IsOpen now length late long =
    ((now - one_minute, omega arith), omega arith, omega arith)

-- The search stops after 10001 starts, so a window that opens every minute of the zone and lasts from
-- one minute up to 10159 is always open and always reported closed.
pub every_minute_missed :
    (lib : Library) (now : ℕ) (tz schedule : String) (length : ℕ)
    (a : Accepts lib tz schedule (pos length))
    → a.next tz ≡ every_minute
    → zero_time + fourteen_days ≤ now
    → one_minute ≤ length
    → length ≤ 10159 * one_minute
    → ((s : ℕ) × IsOpen (a.next tz) now (pos length) s)
      × ((w : EvaluatedWindow) × (eval_cron_window lib now tz schedule (pos length) ≡ ok w)
          × (w.active ≡ false))
unfolding evaluated
every_minute_missed lib now tz schedule length a minutely late long short =
    rw (eval_cron_window-eq_of_accepts lib now tz schedule (pos length) a) (
      rw minutely (
        (now / one_minute * one_minute, every_minute-IsOpen now length (omega arith) long),
        (
          evaluated every_minute now (pos length),
          refl,
          ground (arith, every_minute-last_start now late),
        ),
      ))
