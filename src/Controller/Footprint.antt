-- ===== src/Controller/Footprint.antt =====
-- What a call of Reconcile of changefreeze_controller.go and maintenancewindow_controller.go of
-- internal/controller leaves of the CronJobs and of the GitOps objects.
use kube_freeze_operator.Common.{
  ◌≡◌, refl, String, Bool, not, List, Option, none, some, inl, inr, Bool-cases,
}
use kube_freeze_operator.Common.Results.{Result, ok, err, Result-cases}
use kube_freeze_operator.Api.Specs.{TargetSpec, PolicyBehaviorSpec, GitOpsSpec}
use kube_freeze_operator.Api.Objects.{ChangeFreeze, MaintenanceWindow}
use kube_freeze_operator.GitOps.ArgoCd.Switch.{RoundTrips}
use kube_freeze_operator.GitOps.Reconciler.{GitOpsStore}
use kube_freeze_operator.GitOps.Reconciler.Frame.{
  Kept, KeepsObjects, uses_argocd, uses_flux, reconcile_git_ops-frame,
}
use kube_freeze_operator.Controller.CronJobs.{CronJob}
use kube_freeze_operator.Controller.CronJobs.Frame.{Touched, update_cron_jobs-Touched}
use kube_freeze_operator.Controller.Interval.{interval_active}
use kube_freeze_operator.Controller.Status.{Surroundings, Cluster, found, WindowsError}
use kube_freeze_operator.Controller.ChangeFreeze.{
  freeze_cron_jobs, git_ops_run, store_after, reconcile_change_freeze,
}
use kube_freeze_operator.Controller.Windows.{EvaluationResult, evaluate_windows}
use kube_freeze_operator.Controller.MaintenanceWindow.{
  update_cron_jobs, window_cron_jobs, window_success, reconcile_maintenance_window,
}

-- The cluster after a policy with this target, behaviour and name took effect or ended: CronJobs are
-- touched only if the policy suspends CronJobs, and GitOps objects only by the providers that it uses.
pub record Footprint (s : Surroundings) (target : TargetSpec) (behavior : PolicyBehaviorSpec)
    (name : String) (active : Bool) (before after : Cluster) : Type 0 where
  pub on_cron_jobs :
      Kept behavior.suspend_cron_jobs
        (Touched s.lib s.cron_api target name active)
        before.cron_jobs
        after.cron_jobs
  pub on_git_ops :
      KeepsObjects name active before.git_ops
        (uses_argocd behavior.gitops)
        (uses_flux behavior.gitops)
        after.git_ops

git_ops_run-keeps :
    (s : Surroundings) (trips : RoundTrips s.git_ops_api.codec) (gitops : Option GitOpsSpec)
    (name : String) (active : Bool) (store : GitOpsStore)
    → KeepsObjects name active store
        (uses_argocd gitops)
        (uses_flux gitops)
        (store_after (git_ops_run s gitops name active store) store)
unfolding git_ops_run
git_ops_run-keeps s trips none name active store = (refl, refl, refl)
git_ops_run-keeps s trips (some g) name active store = elim (Bool-cases g.enabled) [
  | inr e ↦ rw e (refl, refl, refl)
  | inl e ↦
      let k =
        reconcile_git_ops-frame s.lib s.reader s.git_ops_api trips s.git_ops_now (some g) name
          active store in
      rw e (rw e at k)
]

freeze_cron_jobs-Kept :
    (s : Surroundings) (cf : ChangeFreeze) (active : Bool) (crons : List CronJob)
    → Kept cf.spec.behavior.suspend_cron_jobs
        (Touched s.lib s.cron_api cf.spec.target cf.name active)
        crons
        (freeze_cron_jobs s cf active crons).0
unfolding freeze_cron_jobs
    kube_freeze_operator.Controller.CronJobs.update_cron_jobs_for_change_freeze
freeze_cron_jobs-Kept s cf active crons = elim (Bool-cases cf.spec.behavior.suspend_cron_jobs) [
  | inl e ↦
      rw e (update_cron_jobs-Touched s.lib s.cron_api cf.spec.target cf.name active s.reader crons)
  | inr e ↦ rw e refl
]

window_cron_jobs-Kept :
    (s : Surroundings) (mw : MaintenanceWindow) (active : Bool) (crons : List CronJob)
    → Kept mw.spec.behavior.suspend_cron_jobs
        (Touched s.lib s.cron_api mw.spec.target mw.name (not active))
        crons
        (window_cron_jobs s mw active crons).0
unfolding window_cron_jobs update_cron_jobs
window_cron_jobs-Kept s mw active crons = elim (Bool-cases mw.spec.behavior.suspend_cron_jobs) [
  | inl e ↦
      rw e (
        update_cron_jobs-Touched s.lib s.cron_api mw.spec.target mw.name (not active) s.reader
          crons)
  | inr e ↦ rw e refl
]

-- With a JSON codec that reads back what it writes, a call of the ChangeFreeze controller on a freeze,
-- also one that fails, touches CronJobs only if the freeze suspends them, and GitOps objects only of the
-- providers that it uses, each for the state of the freeze: a CronJob stays as it was, or it was
-- selected and not managed by another policy and is now managed by this one, suspended if the freeze is
-- active and not suspended otherwise; a GitOps object stays as it was, or it moved into the management
-- of the freeze if it is active, and out of it otherwise.
pub reconcile_change_freeze-Footprint :
    (s : Surroundings) (takes : ChangeFreeze → Bool) (cf : ChangeFreeze) (cluster : Cluster)
    → RoundTrips s.git_ops_api.codec
    → Footprint s cf.spec.target cf.spec.behavior cf.name
        (interval_active cf.spec.start_time cf.spec.end_time s.now)
        cluster
        (reconcile_change_freeze s takes (found cf) cluster).cluster
unfolding reconcile_change_freeze
reconcile_change_freeze-Footprint s takes cf cluster trips = record {
  on_cron_jobs =
      freeze_cron_jobs-Kept s cf (interval_active cf.spec.start_time cf.spec.end_time s.now)
        cluster.cron_jobs;
  on_git_ops =
      git_ops_run-keeps s trips cf.spec.behavior.gitops cf.name
        (interval_active cf.spec.start_time cf.spec.end_time s.now) cluster.git_ops;
}

-- What a call of the MaintenanceWindow controller owes, by the answer of its evaluation: nothing
-- changes after an error.
abbrev pub WindowFootprint :
    Surroundings
    → MaintenanceWindow
    → Result WindowsError EvaluationResult
    → Cluster
    → Cluster
    → Type 0
WindowFootprint s mw (err e) before after = after ≡ before
WindowFootprint s mw (ok result) before after =
    Footprint s mw.spec.target mw.spec.behavior mw.name (not result.active) before after

-- With a JSON codec that reads back what it writes, a call of the MaintenanceWindow controller changes
-- nothing if the evaluation of the windows fails; else, also if the call fails later, it touches
-- CronJobs only if the policy suspends them, and GitOps objects only of the providers that it uses, as
-- the ChangeFreeze controller does: they are held while no window is open, and let go otherwise.
pub reconcile_maintenance_window-Footprint :
    (s : Surroundings) (error_text : WindowsError → String) (takes : MaintenanceWindow → Bool)
    → (mw : MaintenanceWindow) (cluster : Cluster) → RoundTrips s.git_ops_api.codec
    → WindowFootprint s mw
        (evaluate_windows s.lib s.now mw)
        cluster
        (reconcile_maintenance_window s error_text takes (found mw) cluster).cluster
unfolding reconcile_maintenance_window window_success
reconcile_maintenance_window-Footprint s error_text takes mw cluster trips =
    elim (Result-cases (evaluate_windows s.lib s.now mw)) [
      | inl (e, h) ↦ rw (reconcile_maintenance_window, h) refl
      | inr (result, h) ↦
          rw (reconcile_maintenance_window, h)
            (record {
              on_cron_jobs = window_cron_jobs-Kept s mw result.active cluster.cron_jobs;
              on_git_ops =
                  git_ops_run-keeps s trips mw.spec.behavior.gitops mw.name (not result.active)
                    cluster.git_ops;
            })
    ]
