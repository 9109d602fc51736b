-- ===== src/Examples/CallRuns.antt =====
-- The theorems about calls of the controllers on a cluster with CronJobs and an Application.
use kube_freeze_operator.Common.{◌≢◌, String, true, some, ◌∷◌}
use kube_freeze_operator.Common.Texts.{eq_iff}
use kube_freeze_operator.Api.Objects.{ChangeFreeze}
use kube_freeze_operator.Controller.CronJobs.{CronJob, managed_annotations}
use kube_freeze_operator.Controller.Status.{Surroundings, Cluster, found}
use kube_freeze_operator.Controller.ChangeFreeze.{reconcile_change_freeze}
use kube_freeze_operator.Controller.Windows.{evaluate_windows}
use kube_freeze_operator.Controller.MaintenanceWindow.{reconcile_maintenance_window}
use kube_freeze_operator.Controller.Footprint.{
  Footprint, WindowFootprint, reconcile_change_freeze-Footprint,
  reconcile_maintenance_window-Footprint,
}
use kube_freeze_operator.Controller.Calls.{no_call, then_freeze, then_window}
use kube_freeze_operator.Controller.Calls.Claims.{KeepsClaims, Calls-KeepsClaims}
use kube_freeze_operator.Controller.Calls.Identity.{SameObjects, Calls-SameObjects}
use kube_freeze_operator.Controller.CronJobs.Enforce.{Enforced}
use kube_freeze_operator.Controller.Enforcement.{Enforces, reconcile_change_freeze_lifecycle}
use kube_freeze_operator.Common.{All2, arith, refl, [], false}
use kube_freeze_operator.Examples.{freeze, window, target, library, prod}
use kube_freeze_operator.Examples.CronRuns.{report, crons, cron_api}
use kube_freeze_operator.Examples.GitOpsRuns.{git_ops_api, git_ops_spec, git_ops_store, trips}
use kube_freeze_operator.Examples.Reconciles.{surroundings, in_window}

-- A freeze that pauses the Applications too.
abbrev full_freeze : ChangeFreeze
full_freeze = record freeze {
  spec = record freeze.spec {
    behavior = record freeze.spec.behavior { gitops = some git_ops_spec };
  };
}

abbrev during : Surroundings
during = record surroundings { git_ops_api = git_ops_api }

abbrev at_night : Surroundings
at_night = record in_window { git_ops_api = git_ops_api }

-- One CronJob is managed by "release" already.
abbrev claimed : CronJob
claimed = record report {
  annotations = some (managed_annotations report "release");
  suspend = some true;
}

abbrev start : Cluster
start = record { cron_jobs = claimed ∷ crons; git_ops = git_ops_store }

reconcile_change_freeze-Footprint_example :
    Footprint during target full_freeze.spec.behavior "release" true start
      (reconcile_change_freeze during (λ cf. true) (found full_freeze) start).cluster
reconcile_change_freeze-Footprint_example =
    reconcile_change_freeze-Footprint during (λ cf. true) full_freeze start trips

reconcile_maintenance_window-Footprint_example :
    WindowFootprint at_night window
      (evaluate_windows at_night.lib at_night.now window)
      start
      (reconcile_maintenance_window at_night (λ e. "") (λ mw. true) (found window) start).cluster
reconcile_maintenance_window-Footprint_example =
    reconcile_maintenance_window-Footprint at_night (λ e. "") (λ mw. true) window start trips

release_named : ◌≢◌ {A = String} "release" ""
release_named e = absurd (cc)

window_differs : ◌≢◌ {A = String} "nightly" "release"
window_differs e = absurd (cc ((eq_iff "nightly" "release").1 e))

Calls-KeepsClaims_example :
    KeepsClaims "release" start
      (reconcile_maintenance_window at_night (λ e. "") (λ mw. true) (found window) start).cluster
Calls-KeepsClaims_example =
    Calls-KeepsClaims "release" start release_named
      (then_window at_night (λ e. "") (λ mw. true) (found window) trips window_differs no_call)

-- A call for the freeze, and then one for the window.
Calls-SameObjects_example :
    SameObjects start
      (reconcile_maintenance_window at_night
        (λ e. "")
        (λ mw. true)
        (found window)
        (reconcile_change_freeze during (λ cf. true) (found full_freeze) start).cluster).cluster
Calls-SameObjects_example =
    Calls-SameObjects (λ cf. Unit) (λ mw. Unit) start
      (then_window at_night (λ e. "") (λ mw. true) (found window) trips tt
        (then_freeze during (λ cf. true) (found full_freeze) trips tt no_call))

enforces : Enforces during full_freeze (prod ∷ [])
enforces = record {
  answering = record { lists = λ ns. refl; takes = λ cron. refl };
  listed = refl;
  suspends = refl;
  covers = refl;
}

-- A call in the freeze, and one an hour after its end.
reconcile_change_freeze_lifecycle_example :
    let middle = (reconcile_change_freeze during (λ cf. true) (found full_freeze) start).cluster in
    let after =
      (reconcile_change_freeze
        (record during { now = 34135200000000000 })
        (λ cf. true)
        (found full_freeze)
        middle).cluster in
    All2
      (Enforced library cron_api target "release" true (prod ∷ []))
      (claimed ∷ crons)
      middle.cron_jobs
    × All2
        (Enforced library cron_api target "release" false (prod ∷ []))
        (claimed ∷ crons)
        after.cron_jobs
reconcile_change_freeze_lifecycle_example =
    reconcile_change_freeze_lifecycle during (λ cf. true) (λ cf. true) full_freeze freeze.status
      start (prod ∷ []) 34135200000000000 enforces (omega arith) (omega arith) (omega arith)
