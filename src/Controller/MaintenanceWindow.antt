-- ===== src/Controller/MaintenanceWindow.antt =====
-- internal/controller/maintenancewindow_controller.go: the status of a MaintenanceWindow and the objects
-- that it suspends outside its windows.
use Prim.Native.String.{◌++◌ as ◌<>◌}
use kube_freeze_operator.Common.{
  String, Bool, true, false, not, ◌&&◌, Option, some, none, List, [], ◌++◌, if◌then◌else◌,
}
use kube_freeze_operator.Common.Int.{pos}
use kube_freeze_operator.Common.Results.{ok, err}
use kube_freeze_operator.Api.Objects.{MaintenanceWindow, WindowStatus}
use kube_freeze_operator.External.{one_minute}
use kube_freeze_operator.Controller.CronJobs.{
  CronJob, CronError, bool_text, update_cron_jobs_for_policy,
}
use kube_freeze_operator.GitOps.Reconciler.{GitOpsResult}
use kube_freeze_operator.Controller.ChangeFreeze.{
  cron_events, git_ops_run, store_after, events_after,
}
use kube_freeze_operator.Controller.Windows.{EvaluationResult, evaluate_windows}
use kube_freeze_operator.Controller.Status.{
  Event, normal, warning, text, of_windows, WindowsError, Fetched, found, not_found, fetch_failed,
  Surroundings, Cluster, Outcome, fetched_nothing, emit, set_conditions, condition,
  condition_type_ready, reason_activated, reason_deactivated, reason_evaluation_failed,
}

-- The name in the messages about the open window.
abbrev pub window_name : Option WindowStatus → String
window_name none = ""
window_name (some w) = w.name

abbrev pub window_message : EvaluationResult → Bool → String
window_message result true = "Window '" <> (window_name result.active_window <> "' is active")
window_message result false = "No active window"

abbrev pub window_events : Surroundings → MaintenanceWindow → EvaluationResult → List Event
window_events s mw result =
    if result.active && not mw.status.active
    then emit s.has_recorder normal reason_activated
        (text ("Maintenance window '" <> (window_name result.active_window <> "' activated")))
    else if not result.active && mw.status.active
    then emit s.has_recorder normal reason_deactivated (text "Maintenance window deactivated")
    else []

abbrev pub window_evaluated :
    Surroundings → MaintenanceWindow → EvaluationResult → MaintenanceWindow
window_evaluated s mw result = record mw {
  status = record mw.status {
    active = result.active;
    active_window = result.active_window;
    next_window = result.next_window;
    observed_generation = mw.generation;
    conditions =
        set_conditions s.lib mw.status.conditions mw.generation result.active
          (window_message result result.active) "Successfully evaluated windows";
  };
}

-- updateCronJobs: outside the windows, the CronJobs are suspended.
unfoldable pub update_cron_jobs :
    Surroundings → MaintenanceWindow → Bool → List CronJob → List CronJob × Option CronError
update_cron_jobs s mw active crons =
    let should_suspend = not active in
    update_cron_jobs_for_policy s.lib s.reader s.cron_api mw.spec.target mw.name should_suspend
      crons

unfoldable pub window_cron_jobs :
    Surroundings → MaintenanceWindow → Bool → List CronJob → List CronJob × List Event
window_cron_jobs s mw active crons =
    let updated = update_cron_jobs s mw active crons in
    if mw.spec.behavior.suspend_cron_jobs
    then (
      updated.0,
      cron_events s.has_recorder
          ("CronJobs suspend status updated (active=" <> (bool_text active <> ")")) updated.1,
    )
    else (crons, [])

abbrev pub window_with_git_ops : MaintenanceWindow → Option GitOpsResult → MaintenanceWindow
window_with_git_ops mw none = mw
window_with_git_ops mw (some result) = record mw {
  status = record mw.status {
    gitops_paused_count = result.paused_count;
    gitops_last_reconcile_time = some result.reconcile_time;
  };
}

-- The end after an evaluation that fails: a condition that is not Ready, and another try in a minute. The
-- text of the error stands in the condition.
abbrev pub window_failure :
    Surroundings
    → (WindowsError → String)
    → MaintenanceWindow
    → WindowsError
    → Cluster
    → Outcome MaintenanceWindow
window_failure s error_text mw e cluster = record {
  cluster = cluster;
  sent = some (record mw {
    status = record mw.status {
      conditions = s.lib.set_status_condition mw.status.conditions (
          condition condition_type_ready false mw.generation reason_evaluation_failed
            (error_text e));
    };
  });
  events = emit s.has_recorder warning reason_evaluation_failed (of_windows e);
  gauge = none;
  requeue_after = pos one_minute;
  is_failed = true;
}

-- The rest of Reconcile after an evaluation.
unfoldable pub window_success :
    Surroundings
    → (MaintenanceWindow → Bool)
    → MaintenanceWindow
    → EvaluationResult
    → Cluster
    → Outcome MaintenanceWindow
window_success s takes mw result cluster =
    let crons = window_cron_jobs s mw result.active cluster.cron_jobs in
    let run = git_ops_run s mw.spec.behavior.gitops mw.name (not result.active) cluster.git_ops in
    let mw' = window_with_git_ops (window_evaluated s mw result) run in
    record {
      cluster = record { cron_jobs = crons.0; git_ops = store_after run cluster.git_ops };
      sent = some mw';
      events = window_events s mw result ++ (crons.1 ++ events_after s.has_recorder run);
      gauge = if takes mw' then some result.active else none;
      requeue_after = if takes mw' then result.requeue_after else pos 0;
      is_failed = not (takes mw');
    }

unfoldable pub reconcile_maintenance_window :
    Surroundings
    → (WindowsError → String)
    → (MaintenanceWindow → Bool)
    → Fetched MaintenanceWindow
    → Cluster
    → Outcome MaintenanceWindow
reconcile_maintenance_window s error_text takes not_found cluster = fetched_nothing cluster false
reconcile_maintenance_window s error_text takes fetch_failed cluster = fetched_nothing cluster true
reconcile_maintenance_window s error_text takes (found mw) cluster =
    elim (evaluate_windows s.lib s.now mw) [
      | err e ↦ window_failure s error_text mw e cluster
      | ok result ↦ window_success s takes mw result cluster
    ]
