-- ===== src/Examples/Admissions.antt =====
-- The theorems about the validating webhooks at the test data.
use kube_freeze_operator.Common.{◌≡◌, ◌≢◌, ◌↔◌, refl, true, false, is_nil, All, ◌∷◌, []}
use kube_freeze_operator.Common.Results.{ok}
use kube_freeze_operator.Validation.{
  Event, creation, update, deletion, zone_ok, admit_maintenance_window, admit_change_freeze,
  admit_freeze_exception,
}
use kube_freeze_operator.Validation.Laws.{WindowIsValid, admit_maintenance_window_iff}
use kube_freeze_operator.Common.{some}
use kube_freeze_operator.Controller.Windows.{EvaluationResult, evaluate_windows}
use kube_freeze_operator.Controller.Effects.{evaluate_windows-admitted}
use kube_freeze_operator.Examples.{library, window, hourly, now}

not_deletion : creation ≢ deletion
not_deletion e = absurd (cc)

admit_maintenance_window_iff_example :
    (admit_maintenance_window library creation window ≡ ok tt) ↔ (
      (zone_ok library (some "UTC") ≡ true)
      × (is_nil window.spec.windows ≡ false)
      × All (WindowIsValid library) (hourly ∷ []))
admit_maintenance_window_iff_example =
    admit_maintenance_window_iff library creation window not_deletion

window_admitted : admit_maintenance_window library creation window ≡ ok tt
unfolding admit_maintenance_window kube_freeze_operator.Validation.validate_maintenance_window
    kube_freeze_operator.Validation.validate_windows
window_admitted = refl

evaluate_windows-admitted_example :
    (result : EvaluationResult) × (evaluate_windows library now window ≡ ok result)
evaluate_windows-admitted_example =
    evaluate_windows-admitted library creation window now not_deletion refl refl window_admitted
