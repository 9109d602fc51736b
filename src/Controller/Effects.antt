-- ===== src/Controller/Effects.antt =====
-- What a call of Reconcile of internal/controller does to the CronJobs, and when it can fail.
use kube_freeze_operator.Common.{
  ℕ, String, ◌≡◌, ◌≢◌, refl, Bool, true, false, not, List, [], ◌∷◌, All, All2, All2-refl, inl, inr,
  Bool-cases,
}
use kube_freeze_operator.Common.Results.{ok, is_err, Result-cases}
use kube_freeze_operator.Api.Kinds.{is_deny_outside}
use kube_freeze_operator.Api.Specs.{WindowSpec}
use kube_freeze_operator.Api.Objects.{ChangeFreeze, MaintenanceWindow}
use kube_freeze_operator.External.{Library}
use kube_freeze_operator.Policy.Window.{eval_cron_window}
use kube_freeze_operator.Validation.{Event, deletion, admit_maintenance_window}
use kube_freeze_operator.Validation.Laws.{admitted_windows_evaluate}
use kube_freeze_operator.Controller.CronJobs.{CronJob}
use kube_freeze_operator.Controller.CronJobs.Frame.{Touched, update_cron_jobs-Touched}
use kube_freeze_operator.Controller.Interval.{interval_active}
use kube_freeze_operator.Controller.Status.{Surroundings, Cluster, found, WindowsError}
use kube_freeze_operator.Controller.ChangeFreeze.{freeze_cron_jobs, reconcile_change_freeze}
use kube_freeze_operator.Controller.Windows.{
  EvaluationResult, initial_result, note_window, note_windows, wait_for_next, evaluate_windows,
}
use kube_freeze_operator.Controller.MaintenanceWindow.{
  update_cron_jobs, window_cron_jobs, window_success, reconcile_maintenance_window,
}

-- A call of the ChangeFreeze controller leaves every CronJob as it was, or the freeze suspends CronJobs,
-- the CronJob is selected and no other policy manages it, and it is suspended if the freeze is active
-- and not suspended otherwise; also when the call fails.
pub reconcile_change_freeze-cron_jobs :
    (s : Surroundings) (takes : ChangeFreeze → Bool) (cf : ChangeFreeze) (cluster : Cluster)
    → All2
        (Touched s.lib s.cron_api cf.spec.target cf.name
          (interval_active cf.spec.start_time cf.spec.end_time s.now))
        cluster.cron_jobs
        (reconcile_change_freeze s takes (found cf) cluster).cluster.cron_jobs
unfolding reconcile_change_freeze freeze_cron_jobs
    kube_freeze_operator.Controller.CronJobs.update_cron_jobs_for_change_freeze
reconcile_change_freeze-cron_jobs s takes cf cluster =
    let active = interval_active cf.spec.start_time cf.spec.end_time s.now in
    elim (Bool-cases cf.spec.behavior.suspend_cron_jobs) [
      | inl e ↦ rw e (
          update_cron_jobs-Touched s.lib s.cron_api cf.spec.target cf.name active s.reader
            cluster.cron_jobs)
      | inr e ↦ rw e (
          All2-refl (Touched s.lib s.cron_api cf.spec.target cf.name active) (λ _. inl refl)
            cluster.cron_jobs)
    ]

-- A call of the MaintenanceWindow controller whose evaluation succeeds leaves every CronJob as it was,
-- or the CronJob is selected and no other policy manages it, and it is suspended if no window is open
-- and not suspended otherwise; also when the call fails.
pub reconcile_maintenance_window-cron_jobs :
    (s : Surroundings) (error_text : WindowsError → String) (takes : MaintenanceWindow → Bool)
    → (mw : MaintenanceWindow) (cluster : Cluster) (result : EvaluationResult)
    → evaluate_windows s.lib s.now mw ≡ ok result
    → All2
        (Touched s.lib s.cron_api mw.spec.target mw.name (not result.active))
        cluster.cron_jobs
        (reconcile_maintenance_window s error_text takes (found mw) cluster).cluster.cron_jobs
unfolding reconcile_maintenance_window window_success window_cron_jobs update_cron_jobs
reconcile_maintenance_window-cron_jobs s error_text takes mw cluster result h =
    elim (Bool-cases mw.spec.behavior.suspend_cron_jobs) [
      | inl e ↦
          rw (reconcile_maintenance_window, h, e)
            (update_cron_jobs-Touched s.lib s.cron_api mw.spec.target mw.name (not result.active)
              s.reader cluster.cron_jobs)
      | inr e ↦
          rw (reconcile_maintenance_window, h, e)
            (All2-refl (Touched s.lib s.cron_api mw.spec.target mw.name (not result.active))
              (λ _. inl refl) cluster.cron_jobs)
    ]

note_windows_total :
    (lib : Library) (now : ℕ) (tz : String) (ws : List WindowSpec) (r : EvaluationResult)
    → All (λ w. is_err (eval_cron_window lib now tz w.schedule w.duration) ≡ false) ws
    → (r' : EvaluationResult) × (note_windows lib now tz ws r ≡ ok r')
unfolding note_windows
note_windows_total lib now tz [] r h = (r, refl)
note_windows_total lib now tz (w ∷ ws) r h =
    elim (Result-cases (eval_cron_window lib now tz w.schedule w.duration)) [
      | inl (e, p) ↦ absurd (cc (rw p at h.0))
      | inr (res, p) ↦
          let (r', k) = note_windows_total lib now tz ws (note_window now w res r) h.1 in
          (r', rw (note_windows, p) k)
    ]

-- The controller can evaluate every MaintenanceWindow that the webhook admits, when created or updated,
-- at every time, if its mode is to deny outside the windows and the empty name of a zone loads
-- (time.LoadLocation documents it as UTC).
pub evaluate_windows-admitted :
    (lib : Library) (e : Event) (mw : MaintenanceWindow) (now : ℕ)
    → e ≢ deletion
    → lib.load_location "" ≡ true
    → is_deny_outside mw.spec.window_mode ≡ true
    → admit_maintenance_window lib e mw ≡ ok tt
    → (result : EvaluationResult) × (evaluate_windows lib now mw ≡ ok result)
unfolding evaluate_windows
evaluate_windows-admitted lib e mw now h utc mode admitted =
    let (r, k) =
      note_windows_total lib now mw.spec.timezone mw.spec.windows initial_result
        (admitted_windows_evaluate lib e mw now h utc admitted) in
    (wait_for_next now r, rw (mode, k))
