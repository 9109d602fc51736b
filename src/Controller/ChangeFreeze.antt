-- ===== src/Controller/ChangeFreeze.antt =====
-- internal/controller/changefreeze_controller.go: the status of a ChangeFreeze and the objects that it
-- suspends.
use Prim.Native.String.{◌++◌ as ◌<>◌}
use kube_freeze_operator.Common.{
  String, Bool, true, false, not, ◌&&◌, Option, some, none, List, [], ◌++◌, is_nil, if◌then◌else◌,
}
use kube_freeze_operator.Common.Int.{pos}
use kube_freeze_operator.Api.Specs.{GitOpsSpec}
use kube_freeze_operator.Api.Objects.{ChangeFreeze}
use kube_freeze_operator.External.{Library, sub_time}
use kube_freeze_operator.Controller.CronJobs.{
  CronJob, CronError, bool_text, update_cron_jobs_for_change_freeze,
}
use kube_freeze_operator.Controller.Interval.{interval_active, requeue_after}
use kube_freeze_operator.GitOps.Reconciler.{GitOpsResult, reconcile_git_ops, GitOpsStore}
use kube_freeze_operator.Controller.Status.{
  Event, normal, warning, text, of_cron_jobs, of_git_ops, Fetched, found, not_found, fetch_failed,
  Surroundings, Cluster, Outcome, fetched_nothing, emit, set_conditions, reason_activated,
  reason_deactivated, reason_cron_jobs_updated, reason_cron_job_update_fail,
}

abbrev pub freeze_message : Library → ChangeFreeze → Bool → String
freeze_message lib cf true = "Freeze active until " <> lib.format_rfc3339 cf.spec.end_time
freeze_message lib cf false = "Freeze not active"

abbrev pub freeze_events : Surroundings → ChangeFreeze → Bool → List Event
freeze_events s cf active =
    if active && not cf.status.active
    then emit s.has_recorder warning reason_activated
        (text ("Change freeze activated until " <> s.lib.format_rfc3339 cf.spec.end_time))
    else if not active && cf.status.active
    then emit s.has_recorder normal reason_deactivated (text "Change freeze deactivated")
    else []

abbrev pub freeze_evaluated : Surroundings → ChangeFreeze → Bool → ChangeFreeze
freeze_evaluated s cf active = record cf {
  status = record cf.status {
    active = active;
    observed_generation = cf.generation;
    time_remaining = if active then some (sub_time cf.spec.end_time s.now) else none;
    conditions =
        set_conditions s.lib cf.status.conditions cf.generation active
          (freeze_message s.lib cf active) "Successfully evaluated freeze period";
  };
}

-- The CronJobs, if the policy suspends them: what is left of them, and the event.
abbrev pub cron_events : Bool → String → Option CronError → List Event
cron_events has_recorder message (some e) =
    emit has_recorder warning reason_cron_job_update_fail (of_cron_jobs e)
cron_events has_recorder message none =
    emit has_recorder normal reason_cron_jobs_updated (text message)

unfoldable pub freeze_cron_jobs :
    Surroundings → ChangeFreeze → Bool → List CronJob → List CronJob × List Event
freeze_cron_jobs s cf active crons =
    let updated =
      update_cron_jobs_for_change_freeze s.lib s.reader s.cron_api cf.spec.target cf.name active
        crons in
    if cf.spec.behavior.suspend_cron_jobs
    then (
      updated.0,
      cron_events s.has_recorder
          ("CronJobs suspend status updated (suspend=" <> (bool_text active <> ")")) updated.1,
    )
    else (crons, [])

-- `GitOps != nil && GitOps.Enabled`.
abbrev pub has_git_ops : Option GitOpsSpec → Bool
has_git_ops none = false
has_git_ops (some gitops) = gitops.enabled

abbrev pub git_ops_events : Bool → GitOpsResult → List Event
git_ops_events has_recorder result =
    if is_nil result.errors
    then []
    else emit has_recorder warning "GitOpsReconcileFailed" (of_git_ops result.errors)

-- The GitOps objects, if the policy pauses them: the run's result.
unfoldable pub git_ops_run :
    Surroundings → Option GitOpsSpec → String → Bool → GitOpsStore → Option GitOpsResult
git_ops_run s gitops name active store =
    if has_git_ops gitops
    then some
        (reconcile_git_ops s.lib s.reader s.git_ops_api s.git_ops_now gitops name active store)
    else none

abbrev pub freeze_with_git_ops : ChangeFreeze → Option GitOpsResult → ChangeFreeze
freeze_with_git_ops cf none = cf
freeze_with_git_ops cf (some result) = record cf {
  status = record cf.status {
    gitops_paused_count = result.paused_count;
    gitops_last_reconcile_time = some result.reconcile_time;
  };
}

abbrev pub store_after : Option GitOpsResult → GitOpsStore → GitOpsStore
store_after none store = store
store_after (some result) store = result.store

abbrev pub events_after : Bool → Option GitOpsResult → List Event
events_after has_recorder none = []
events_after has_recorder (some result) = git_ops_events has_recorder result

unfoldable pub reconcile_change_freeze :
    Surroundings → (ChangeFreeze → Bool) → Fetched ChangeFreeze → Cluster → Outcome ChangeFreeze
reconcile_change_freeze s takes not_found cluster = fetched_nothing cluster false
reconcile_change_freeze s takes fetch_failed cluster = fetched_nothing cluster true
reconcile_change_freeze s takes (found cf) cluster =
    let active = interval_active cf.spec.start_time cf.spec.end_time s.now in
    let crons = freeze_cron_jobs s cf active cluster.cron_jobs in
    let run = git_ops_run s cf.spec.behavior.gitops cf.name active cluster.git_ops in
    let cf' = freeze_with_git_ops (freeze_evaluated s cf active) run in
    record {
      cluster = record { cron_jobs = crons.0; git_ops = store_after run cluster.git_ops };
      sent = some cf';
      events = freeze_events s cf active ++ (crons.1 ++ events_after s.has_recorder run);
      gauge = if takes cf' then some active else none;
      requeue_after =
          if takes cf' then requeue_after cf.spec.start_time cf.spec.end_time s.now else pos 0;
      is_failed = not (takes cf');
    }
