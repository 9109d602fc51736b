-- ===== src/Workloads/Request.antt =====
-- internal/webhook/workloads/validator.go: the request, and what kind, action and labels it stands
-- for.
pub mod Kinds
use kube_freeze_operator.Common.{String, ◌&&◌, Option, none, some, List, if◌then◌else◌}
use kube_freeze_operator.Common.Texts.{◌==◌}
use kube_freeze_operator.Common.Dict.{Dict}
use kube_freeze_operator.Common.Results.{Result, ok, err, map_error, ◌>>=◌}
use kube_freeze_operator.Api.Kinds.{
  Action, create, delete, TargetKind, deployment, stateful_set, daemon_set, cron_job, other_kind,
}
use kube_freeze_operator.External.{DeepEqual}
use kube_freeze_operator.Diff.{
  Workload, CronWorkload, Object, deployment_object, stateful_set_object, daemon_set_object,
  cron_job_object, ClassifyError, classify_update,
}

pub data Operation : Type 0 where
  create_operation update_operation delete_operation : Operation
  other_operation : String → Operation

-- The fields of admission.Request that the handler reads; a raw object is its text.
pub record Request : Type 0 where
  pub sub_resource : String
  pub resource_group : String
  pub resource_name : String
  pub kind_group : String
  pub kind_text : String
  pub operation : Operation
  pub namespace : String
  pub name : String
  pub object : String
  pub old_object : String
  pub username : String
  pub groups : List String

-- admission.Decoder's DecodeRaw into the Go type of a kind; `none` is an error.
pub record Decoder : Type 0 where
  pub decode_workload : TargetKind → String → Option Workload
  pub decode_cron_job : String → Option CronWorkload

pub data RequestError : Type 0 where
  decoder_is_nil decode_failed : RequestError
  undecodable_kind unsupported_operation : String → RequestError
  not_classified : ClassifyError → RequestError

unfoldable pub map_gvk_to_target_kind : String → String → Option TargetKind
map_gvk_to_target_kind group kind =
    if group == "apps" && kind == "Deployment"
    then some deployment
    else if group == "apps" && kind == "StatefulSet"
    then some stateful_set
    else if group == "apps" && kind == "DaemonSet"
    then some daemon_set
    else if group == "batch" && kind == "CronJob"
    then some cron_job
    else none

abbrev as_object {ℓ} : {A : Type ℓ} → (A → Object) → Option A → Result RequestError Object
as_object f none = err decode_failed
as_object f (some w) = ok (f w)

unfoldable pub decode : Option Decoder → String → TargetKind → Result RequestError Object
decode none raw kind = err decoder_is_nil
decode (some d) raw deployment = as_object deployment_object (d.decode_workload deployment raw)
decode (some d) raw stateful_set =
    as_object stateful_set_object (d.decode_workload stateful_set raw)
decode (some d) raw daemon_set = as_object daemon_set_object (d.decode_workload daemon_set raw)
decode (some d) raw cron_job = as_object cron_job_object (d.decode_cron_job raw)
decode (some d) raw (other_kind s) = err (undecodable_kind s)

-- metaAccessor's GetLabels; every object of these types has them.
abbrev pub object_labels : Object → Option Dict
object_labels (deployment_object w) = w.labels
object_labels (stateful_set_object w) = w.labels
object_labels (daemon_set_object w) = w.labels
object_labels (cron_job_object w) = w.labels

unfoldable pub decode_labels :
    Option Decoder → String → TargetKind → Result RequestError (Option Dict)
decode_labels decoder raw kind = do obj ← decode decoder raw kind; ok (object_labels obj)

unfoldable pub decode_old_new :
    Option Decoder → Request → TargetKind → Result RequestError (Object × Object × Option Dict)
decode_old_new decoder req kind = do
  old_obj ← decode decoder req.old_object kind
  new_obj ← decode decoder req.object kind
  ok (old_obj, new_obj, object_labels new_obj)

unfoldable pub classify :
    DeepEqual → Option Decoder → Request → TargetKind → Result RequestError (Action × Option Dict)
classify eq decoder req kind = elim req.operation [
  | create_operation ↦ do labels ← decode_labels decoder req.object kind; ok (create, labels)
  | delete_operation ↦ do labels ← decode_labels decoder req.old_object kind; ok (delete, labels)
  | update_operation ↦ do
    found ← decode_old_new decoder req kind
    action ← map_error not_classified (classify_update eq kind found.0 found.1)
    ok (action, found.2)
  | other_operation s ↦ err (unsupported_operation s)
]
