-- ===== src/Controller/Calls.antt =====
-- The calls of Reconcile of changefreeze_controller.go and maintenancewindow_controller.go of
-- internal/controller, one after the other, on the objects of one cluster.
pub mod Claims
pub mod Identity
use kube_freeze_operator.Common.{String, Bool, not, subst, sym}
use kube_freeze_operator.Common.Results.{Result, ok, err}
use kube_freeze_operator.Controller.Windows.{EvaluationResult, evaluate_windows}
use kube_freeze_operator.Api.Objects.{ChangeFreeze, MaintenanceWindow}
use kube_freeze_operator.GitOps.ArgoCd.Switch.{RoundTrips}
use kube_freeze_operator.Controller.Status.{
  Surroundings, Cluster, Fetched, found, not_found, fetch_failed, WindowsError,
}
use kube_freeze_operator.Controller.ChangeFreeze.{reconcile_change_freeze}
use kube_freeze_operator.Controller.Interval.{interval_active}
use kube_freeze_operator.Controller.Footprint.{
  Footprint, WindowFootprint, reconcile_change_freeze-Footprint,
  reconcile_maintenance_window-Footprint,
}
use kube_freeze_operator.Controller.MaintenanceWindow.{reconcile_maintenance_window}

-- A call on a fetched object only if it may be called.
abbrev pub MayFetch : {A : Type 0} → (A → Type 0) → Fetched A → Type 0
MayFetch May (found x) = May x
MayFetch May not_found = Unit
MayFetch May fetch_failed = Unit

-- Each call has its own time, its own answers of the API server and its own object, which may have been
-- edited since the last call; the JSON codec reads back what it writes. `MayFreeze` and `MayWindow` tell
-- on which policies the controllers are called.
pub data Calls (MayFreeze : ChangeFreeze → Type 0) (MayWindow : MaintenanceWindow → Type 0)
    (start : Cluster) : Cluster → Type 0 where
  no_call : Calls MayFreeze MayWindow start start
  then_freeze :
      {before : Cluster}
      → (s : Surroundings) (takes : ChangeFreeze → Bool) (fetched : Fetched ChangeFreeze)
      → RoundTrips s.git_ops_api.codec
      → MayFetch MayFreeze fetched
      → Calls MayFreeze MayWindow start before
      → Calls MayFreeze MayWindow start (reconcile_change_freeze s takes fetched before).cluster
  then_window :
      {before : Cluster}
      → (s : Surroundings) (error_text : WindowsError → String)
      → (takes : MaintenanceWindow → Bool) (fetched : Fetched MaintenanceWindow)
      → RoundTrips s.git_ops_api.codec
      → MayFetch MayWindow fetched
      → Calls MayFreeze MayWindow start before
      → Calls MayFreeze MayWindow start
          (reconcile_maintenance_window s error_text takes fetched before).cluster

window_step :
    (R : Cluster → Cluster → Type 0) (s : Surroundings) (mw : MaintenanceWindow)
    (answer : Result WindowsError EvaluationResult) (a b : Cluster)
    → R a a
    → ((active : Bool) → Footprint s mw.spec.target mw.spec.behavior mw.name active a b → R a b)
    → WindowFootprint s mw answer a b
    → R a b
window_step R s mw (err e) a b same keep h = subst (R a) (sym h) same
window_step R s mw (ok result) a b same keep h = keep (not result.active) h

-- What every footprint of the policies keeps, and what is reflexive and transitive, holds of the cluster
-- at the start and at the end of any sequence of calls.
pub Calls-keep :
    {MayFreeze : ChangeFreeze → Type 0} {MayWindow : MaintenanceWindow → Type 0}
    (R : Cluster → Cluster → Type 0) (start : Cluster) {after : Cluster}
    → ((c : Cluster) → R c c)
    → ((a b c : Cluster) → R a b → R b c → R a c)
    → ((s : Surroundings) (cf : ChangeFreeze) (active : Bool) (a b : Cluster)
        → MayFreeze cf
        → Footprint s cf.spec.target cf.spec.behavior cf.name active a b
        → R a b)
    → ((s : Surroundings) (mw : MaintenanceWindow) (active : Bool) (a b : Cluster)
        → MayWindow mw
        → Footprint s mw.spec.target mw.spec.behavior mw.name active a b
        → R a b)
    → Calls MayFreeze MayWindow start after
    → R start after
unfolding reconcile_change_freeze reconcile_maintenance_window
Calls-keep R start same trans freeze window no_call = same start
Calls-keep R start same trans freeze window
      (then_freeze {before} s takes (found cf) trips may calls) =
    trans start before _ (Calls-keep R start same trans freeze window calls) (
      freeze s cf (interval_active cf.spec.start_time cf.spec.end_time s.now) before _ may
        (reconcile_change_freeze-Footprint s takes cf before trips))
Calls-keep R start same trans freeze window (then_freeze s takes not_found trips may calls) =
    Calls-keep R start same trans freeze window calls
Calls-keep R start same trans freeze window (then_freeze s takes fetch_failed trips may calls) =
    Calls-keep R start same trans freeze window calls
Calls-keep R start same trans freeze window
      (then_window {before} s text takes (found mw) trips may calls) =
    trans start before _ (Calls-keep R start same trans freeze window calls) (
      window_step R s mw (evaluate_windows s.lib s.now mw) before
        (reconcile_maintenance_window s text takes (found mw) before).cluster (same before)
        (λ active. window s mw active before _ may)
        (reconcile_maintenance_window-Footprint s text takes mw before trips))
Calls-keep R start same trans freeze window (then_window s text takes not_found trips may calls) =
    Calls-keep R start same trans freeze window calls
Calls-keep R start same trans freeze window
      (then_window s text takes fetch_failed trips may calls) =
    Calls-keep R start same trans freeze window calls
