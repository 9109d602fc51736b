-- ===== src/Workloads/Request/Kinds.antt =====
-- The kinds, actions and labels that a request of internal/webhook/workloads/validator.go stands for.
use kube_freeze_operator.Common.{◌≡◌, ◌↔◌, ◌⊎◌, String, some, arith}
use kube_freeze_operator.Common.Texts.{eq_iff}
use kube_freeze_operator.Common.Results.{err}
use kube_freeze_operator.Api.Kinds.{
  TargetKind, deployment, stateful_set, daemon_set, cron_job, other_kind, kind_name,
}
use kube_freeze_operator.External.{DeepEqual}
use kube_freeze_operator.Diff.{classify_update}
use kube_freeze_operator.Workloads.Request.{
  other_operation, Request, Decoder, RequestError, decode_failed, unsupported_operation,
  map_gvk_to_target_kind, decode, decode_labels, decode_old_new, classify,
}

-- The API group of an enforced kind.
abbrev pub group_name : TargetKind → String
group_name cron_job = "batch"
group_name _ = "apps"

-- The kinds that the webhook enforces.
abbrev pub IsEnforced : TargetKind → Type 0
IsEnforced (other_kind s) = ⊥
IsEnforced _ = Unit

-- A group and a kind of a request name an enforced kind exactly if they are that kind's group and name.
pub map_gvk_to_target_kind_iff :
    (group kind : String) (k : TargetKind)
    → (map_gvk_to_target_kind group kind ≡ some k)
      ↔ (IsEnforced k × (group ≡ group_name k) × (kind ≡ kind_name k))
unfolding map_gvk_to_target_kind
map_gvk_to_target_kind_iff group kind deployment = (
  λ h. ground (
    arith,
    eq_iff group "apps",
    eq_iff group "batch",
    eq_iff kind "Deployment",
    eq_iff kind "StatefulSet",
    eq_iff kind "DaemonSet",
    eq_iff kind "CronJob",
  ),
  λ h. rw (h.1, h.2),
)
map_gvk_to_target_kind_iff group kind stateful_set = (
  λ h. ground (
    arith,
    eq_iff group "apps",
    eq_iff group "batch",
    eq_iff kind "Deployment",
    eq_iff kind "StatefulSet",
    eq_iff kind "DaemonSet",
    eq_iff kind "CronJob",
  ),
  λ h. rw (h.1, h.2),
)
map_gvk_to_target_kind_iff group kind daemon_set = (
  λ h. ground (
    arith,
    eq_iff group "apps",
    eq_iff group "batch",
    eq_iff kind "Deployment",
    eq_iff kind "StatefulSet",
    eq_iff kind "DaemonSet",
    eq_iff kind "CronJob",
  ),
  λ h. rw (h.1, h.2),
)
map_gvk_to_target_kind_iff group kind cron_job = (
  λ h. ground (
    arith,
    eq_iff group "apps",
    eq_iff group "batch",
    eq_iff kind "Deployment",
    eq_iff kind "StatefulSet",
    eq_iff kind "DaemonSet",
    eq_iff kind "CronJob",
  ),
  λ h. rw (h.1, h.2),
)
map_gvk_to_target_kind_iff group kind (other_kind s) = (
  λ h. ground (
    arith,
    eq_iff group "apps",
    eq_iff group "batch",
    eq_iff kind "Deployment",
    eq_iff kind "StatefulSet",
    eq_iff kind "DaemonSet",
    eq_iff kind "CronJob",
  ),
  λ h. absurd h.0,
)

-- A request for an enforced kind is classified, if there is a decoder, unless an object does not decode
-- or the operation is none of create, update and delete: old and new object are never of different
-- types.
pub classify_errors :
    (eq : DeepEqual) (d : Decoder) (req : Request) (kind : TargetKind) (e : RequestError)
    → IsEnforced kind
    → classify eq (some d) req kind ≡ err e
    → (e ≡ decode_failed)
      ⊎ ((s : String) × (req.operation ≡ other_operation s) × (e ≡ unsupported_operation s))
unfolding classify decode_labels decode_old_new decode classify_update
classify_errors eq d req deployment e k h = ground arith
classify_errors eq d req stateful_set e k h = ground arith
classify_errors eq d req daemon_set e k h = ground arith
classify_errors eq d req cron_job e k h = ground arith
classify_errors eq d req (other_kind s) e k h = absurd k
