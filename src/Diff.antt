-- ===== src/Diff.antt =====
-- internal/diff/classify.go: which action an update of a workload is.
pub mod Laws
use kube_freeze_operator.Common.{String, Bool, not, if◌then◌else◌, Option}
use kube_freeze_operator.Common.Int.{ℤ}
use kube_freeze_operator.Common.Dict.{Dict}
use kube_freeze_operator.Common.Results.{Result, ok, err}
use kube_freeze_operator.Api.Kinds.{
  Action, rollout, scale, TargetKind, deployment, stateful_set, daemon_set, cron_job, other_kind,
}
use kube_freeze_operator.External.{DeepEqual}

-- What is read of a Deployment, StatefulSet or DaemonSet. A pod template is only compared, so it is
-- kept as its text.
pub record Workload : Type 0 where
  pub labels : Option Dict
  pub template : String
  pub replicas : Option ℤ

-- What is read of a CronJob, the rest of its spec as its text.
pub record CronWorkload : Type 0 where
  pub labels : Option Dict
  pub spec : String

-- runtime.Object, with the Go types that the code casts to.
pub data Object : Type 0 where
  deployment_object stateful_set_object daemon_set_object : Workload → Object
  cron_job_object : CronWorkload → Object

pub data ClassifyError : Type 0 where
  expected_deployment expected_stateful_set expected_daemon_set expected_cron_job : ClassifyError
  unsupported_kind : String → ClassifyError

unfoldable classify_scalable : DeepEqual → Workload → Workload → Action
classify_scalable eq old new =
    let template_changed = not (eq.same_template old.template new.template) in
    let replicas_changed = not (eq.same_replicas old.replicas new.replicas) in
    if template_changed then rollout else if replicas_changed then scale else rollout

unfoldable pub classify_update :
    DeepEqual → TargetKind → Object → Object → Result ClassifyError Action
unfolding classify_scalable
classify_update eq deployment (deployment_object old) (deployment_object new) =
    ok (classify_scalable eq old new)
classify_update eq deployment old new = err expected_deployment
classify_update eq stateful_set (stateful_set_object old) (stateful_set_object new) =
    ok (classify_scalable eq old new)
classify_update eq stateful_set old new = err expected_stateful_set
classify_update eq daemon_set (daemon_set_object old) (daemon_set_object new) =
    if not (eq.same_template old.template new.template) then ok rollout else ok rollout
classify_update eq daemon_set old new = err expected_daemon_set
classify_update eq cron_job (cron_job_object old) (cron_job_object new) =
    if not (eq.same_cron_job_spec old.spec new.spec) then ok rollout else ok rollout
classify_update eq cron_job old new = err expected_cron_job
classify_update eq (other_kind s) old new = err (unsupported_kind s)
