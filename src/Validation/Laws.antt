-- ===== src/Validation/Laws.antt =====
-- What an admitted policy guarantees.
use kube_freeze_operator.Common.{
  ◌≢◌, inl, inr, ap, All-map, ℕ, suc, ◌<◌, ◌≡◌, ◌↔◌, refl, String, true, false, some, List, [], ◌∷◌,
  All, is_some, is_nil, arith, Bool-cases,
}
use kube_freeze_operator.Common.Int.{pos, leb_ℤ}
use kube_freeze_operator.Common.Texts.{eq_iff}
use kube_freeze_operator.Common.Results.{ok, is_err}
use kube_freeze_operator.Api.Specs.{WindowSpec}
use kube_freeze_operator.Api.Objects.{ChangeFreeze, MaintenanceWindow, FreezeException}
use kube_freeze_operator.External.{Library}
use kube_freeze_operator.Policy.Window.{eval_cron_window}
use kube_freeze_operator.Policy.Window.Laws.{eval_cron_window_err_iff}
use kube_freeze_operator.Validation.{
  zone_ok, Event, creation, update, deletion, validate_windows, validate_change_freeze,
  validate_maintenance_window, validate_freeze_exception, admit_maintenance_window,
  admit_change_freeze, admit_freeze_exception,
}

abbrev pub WindowIsValid : Library → WindowSpec → Type 0
WindowIsValid lib w =
    (is_some (lib.parse_schedule w.schedule) ≡ true) × (leb_ℤ w.duration (pos 0) ≡ false)

validate_windows_iff :
    (lib : Library) (i : ℕ) (ws : List WindowSpec)
    → (validate_windows lib i ws ≡ ok tt) ↔ All (WindowIsValid lib) ws
unfolding validate_windows
validate_windows_iff lib i [] = (λ _. tt, λ _. refl)
validate_windows_iff lib i (w ∷ ws) =
    let rest = validate_windows_iff lib (suc i) ws in
    elim (Bool-cases (is_some (lib.parse_schedule w.schedule))) [
      | inr p ↦ rw p (λ h. absurd (cc), λ h. absurd (cc (h.0.0)))
      | inl p ↦ rw p (elim (Bool-cases (leb_ℤ w.duration (pos 0))) [
        | inl d ↦ rw d (λ h. absurd (cc), λ h. absurd (cc (h.0.1)))
        | inr d ↦ rw d (λ h. ((refl, refl), rest.0 h), λ h. rest.1 h.1)
      ])
    ]

validate_maintenance_window_iff :
    (lib : Library) (obj : MaintenanceWindow) (ws : List WindowSpec)
    → obj.spec.windows ≡ ws
    → (validate_maintenance_window lib obj ≡ ok tt) ↔ (
        (zone_ok lib (some obj.spec.timezone) ≡ true)
        × (is_nil obj.spec.windows ≡ false)
        × All (WindowIsValid lib) obj.spec.windows)
unfolding validate_maintenance_window
validate_maintenance_window_iff lib obj [] e =
    (λ h. absurd (ground arith), λ h. absurd (cc (h.1, ap is_nil e)))
validate_maintenance_window_iff lib obj (w ∷ ws) e =
    elim (Bool-cases (zone_ok lib (some obj.spec.timezone))) [
      | inr z ↦ rw z (λ h. absurd (cc), λ h. absurd (cc (h.0)))
      | inl z ↦
          let all = validate_windows_iff lib 0 (w ∷ ws) in
          rw (z, e) (λ h. (refl, refl, all.0 h), λ h. all.1 h.2)
    ]

window_evaluates :
    (lib : Library) (now : ℕ) (tz : String) (w : WindowSpec)
    → lib.load_location "" ≡ true
    → zone_ok lib (some tz) ≡ true
    → WindowIsValid lib w
    → is_err (eval_cron_window lib now tz w.schedule w.duration) ≡ false
window_evaluates lib now tz w utc zone v =
    let known : lib.load_location tz ≡ true = ground (arith, eq_iff tz "") in
    elim (Bool-cases (is_err (eval_cron_window lib now tz w.schedule w.duration))) [
      | inr e ↦ e
      | inl e ↦ ground (arith, (eval_cron_window_err_iff lib now tz w.schedule w.duration).0 e)
    ]

-- A MaintenanceWindow is admitted, when created or updated, exactly if its zone is empty or loads, it
-- has a window, and every window has a schedule that parses and a positive duration.
pub admit_maintenance_window_iff :
    (lib : Library) (e : Event) (obj : MaintenanceWindow)
    → e ≢ deletion
    → (admit_maintenance_window lib e obj ≡ ok tt) ↔ (
        (zone_ok lib (some obj.spec.timezone) ≡ true)
        × (is_nil obj.spec.windows ≡ false)
        × All (WindowIsValid lib) obj.spec.windows)
unfolding admit_maintenance_window
admit_maintenance_window_iff lib creation obj h =
    validate_maintenance_window_iff lib obj obj.spec.windows refl
admit_maintenance_window_iff lib update obj h =
    validate_maintenance_window_iff lib obj obj.spec.windows refl
admit_maintenance_window_iff lib deletion obj h = absurd (h refl)

-- Every window of an admitted MaintenanceWindow evaluates at every time, if the empty name of a zone
-- loads (time.LoadLocation documents it as UTC).
pub admitted_windows_evaluate :
    (lib : Library) (e : Event) (obj : MaintenanceWindow) (now : ℕ)
    → e ≢ deletion
    → lib.load_location "" ≡ true
    → admit_maintenance_window lib e obj ≡ ok tt
    → All
        (λ w. is_err (eval_cron_window lib now obj.spec.timezone w.schedule w.duration) ≡ false)
        obj.spec.windows
admitted_windows_evaluate lib e obj now h utc admitted =
    let (zone, some_window, valid) = (admit_maintenance_window_iff lib e obj h).0 admitted in
    All-map (WindowIsValid lib) _ (λ w v. window_evaluates lib now obj.spec.timezone w utc zone v)
      obj.spec.windows valid

-- A ChangeFreeze is admitted, when created or updated, exactly if it names no zone, the empty one or one
-- that loads, and it starts before it ends.
pub admit_change_freeze_iff :
    (lib : Library) (e : Event) (obj : ChangeFreeze)
    → e ≢ deletion
    → (admit_change_freeze lib e obj ≡ ok tt)
      ↔ ((zone_ok lib obj.spec.timezone ≡ true) × (obj.spec.start_time < obj.spec.end_time))
unfolding admit_change_freeze validate_change_freeze
admit_change_freeze_iff lib creation obj h = ground arith
admit_change_freeze_iff lib update obj h = ground arith
admit_change_freeze_iff lib deletion obj h = absurd (h refl)

-- A FreezeException is admitted, when created or updated, exactly if it begins before it ends and allows
-- some action.
pub admit_freeze_exception_iff :
    (e : Event) (obj : FreezeException)
    → e ≢ deletion
    → (admit_freeze_exception e obj ≡ ok tt)
      ↔ ((obj.spec.active_from < obj.spec.active_to) × (is_nil obj.spec.allow ≡ false))
unfolding admit_freeze_exception validate_freeze_exception
admit_freeze_exception_iff creation obj h = ground arith
admit_freeze_exception_iff update obj h = ground arith
admit_freeze_exception_iff deletion obj h = absurd (h refl)
