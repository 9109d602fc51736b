-- ===== src/Workloads/Handler.antt =====
-- internal/webhook/workloads/validator.go: Validator.Handle, with the counters that it increments.
pub mod Reach
pub mod Denial
pub mod Counting
pub mod Explains
pub mod Known
use Prim.Native.String.{◌++◌}
use kube_freeze_operator.Common.{
  ℕ, String, Bool, true, false, ◌&&◌, ◌||◌, not, Option, none, some, List, [], ◌∷◌, any,
  if◌then◌else◌,
}
use kube_freeze_operator.Common.Texts.{◌==◌, contains}
use kube_freeze_operator.Common.Dict.{Dict}
use kube_freeze_operator.Common.Results.{Result, ok, err}
use kube_freeze_operator.Api.Kinds.{
  Action, scale, TargetKind, deployment, stateful_set, kind_name, action_name, policy_kind_name,
}
use kube_freeze_operator.Api.Objects.{Namespace}
use kube_freeze_operator.External.{Library, DeepEqual, Reader}
use kube_freeze_operator.Policy.Types.{Input, Decision, EvalError}
use kube_freeze_operator.Policy.Evaluator.{evaluate}
use kube_freeze_operator.Workloads.Request.{
  Request, Operation, update_operation, Decoder, RequestError, map_gvk_to_target_kind, classify,
}
use kube_freeze_operator.Workloads.Message.{format_deny_message}

pub data HandleError : Type 0 where
  client_is_nil : HandleError
  get_workload_failed : String → String → HandleError
  get_namespace_failed : String → HandleError
  bad_request : RequestError → HandleError
  evaluation_failed : EvalError → HandleError

-- admission.Allowed, Denied and Errored.
pub data Response : Type 0 where
  allowed denied : String → Response
  errored : ℕ → HandleError → Response

-- The counters of internal/metrics that the handler increments, with their labels.
pub data Metric : Type 0 where
  allowed_requests : String → String → String → Metric
  exception_overrides : String → String → String → Metric
  denied_requests : String → String → String → String → String → Metric

pub record Validator : Type 0 where
  pub client : Option Reader
  pub api_reader : Option Reader
  pub decoder : Option Decoder
  pub operator_namespace : String

-- What the process reads from its surroundings: POD_NAMESPACE and the clock.
pub record Surroundings : Type 0 where
  pub pod_namespace : String
  pub clock : ℕ

-- A request as the evaluator sees it.
pub record Target : Type 0 where
  pub kind : TargetKind
  pub action : Action
  pub labels : Option Dict

abbrev pub operator_ns : Validator → Surroundings → String
operator_ns v env = if v.operator_namespace == "" then env.pod_namespace else v.operator_namespace

unfoldable pub is_operator : Validator → Surroundings → Request → Bool
is_operator v env req =
    not (operator_ns v env == "")
    && contains req.groups ("system:serviceaccounts:" ++ operator_ns v env)

abbrev pub is_git_ops : Request → Bool
is_git_ops req =
    any (λ g. g == "system:serviceaccounts:argocd" || g == "system:serviceaccounts:flux-system")
      req.groups

abbrev is_update : Operation → Bool
is_update update_operation = true
is_update _ = false

abbrev scaled_kind : String → Option TargetKind
scaled_kind resource =
    if resource == "deployments"
    then some deployment
    else if resource == "statefulsets"
    then some stateful_set
    else none

-- The workload whose labels a scale request needs.
abbrev scaled_labels : Reader → TargetKind → String → String → Option (Option Dict)
scaled_labels reader stateful_set ns name = reader.get_stateful_set_labels ns name
scaled_labels reader _ ns name = reader.get_deployment_labels ns name

-- The branch for the scale subresource; `err` is an early return.
unfoldable pub scale_target : Reader → Request → Result Response Target
scale_target reader req =
    if not (is_update req.operation)
    then err (allowed "scale subresource non-update")
    else elim (scaled_kind req.resource_name) [
      | none ↦ err (allowed "scale subresource not enforced")
      | some kind ↦
          if req.namespace == "" || req.name == ""
          then err (allowed "scale request missing namespace or name")
          else elim (scaled_labels reader kind req.namespace req.name) [
            | none ↦ err (errored 500 (get_workload_failed req.namespace req.name))
            | some labels ↦ ok (record { kind = kind; action = scale; labels = labels })
          ]
    ]

-- The branch for the workloads themselves.
unfoldable pub workload_target : DeepEqual → Option Decoder → Request → Result Response Target
workload_target eq decoder req = elim (map_gvk_to_target_kind req.kind_group req.kind_text) [
  | none ↦ err (allowed "kind not enforced")
  | some kind ↦ elim (classify eq decoder req kind) [
    | err e ↦ err (errored 400 (bad_request e))
    | ok found ↦ ok (record { kind = kind; action = found.0; labels = found.1 })
  ]
]

unfoldable pub request_target :
    DeepEqual → Option Decoder → Reader → Request → Result Response Target
request_target eq decoder reader req =
    if req.sub_resource == "scale" && req.resource_group == "apps"
    then scale_target reader req
    else workload_target eq decoder req

-- The policy.Input of a request in its namespace.
abbrev pub request_input : ℕ → Request → Target → Namespace → Input
request_input clock req target ns = record {
  now = clock;
  namespace = req.namespace;
  namespace_tags = ns.labels;
  kind = target.kind;
  action = target.action;
  object_labels = target.labels;
  username = req.username;
  groups = req.groups;
}

abbrev override_metric : Decision → List Metric
override_metric dec = elim dec.matched_override [
  | none ↦ []
  | some o ↦ elim dec.matched_policy [
    | none ↦ exception_overrides o.name "" "" ∷ []
    | some p ↦ exception_overrides o.name (policy_kind_name p.kind) p.name ∷ []
  ]
]

abbrev denied_metric : Decision → String → Target → List Metric
denied_metric dec ns target = elim dec.matched_policy [
  | none ↦ []
  | some p ↦
      denied_requests (policy_kind_name p.kind) p.name ns (kind_name target.kind)
        (action_name target.action)
      ∷ []
]

-- The end of the handler, from the decision.
unfoldable pub respond : Library → Request → Target → Decision → Response × List Metric
respond lib req target dec =
    if dec.allowed
    then (
      allowed "allowed by policy",
      allowed_requests req.namespace (kind_name target.kind) (action_name target.action)
          ∷ override_metric dec,
    )
    else (
      denied (format_deny_message lib dec (is_git_ops req)),
      denied_metric dec req.namespace target,
    )

-- The handler from the point where the kind, action and labels are known.
unfoldable pub handle_target :
    Library → Reader → Surroundings → Request → Target → Response × List Metric
handle_target lib client env req target =
    if req.namespace == ""
    then (allowed "cluster-scoped request", [])
    else elim (client.get_namespace req.namespace) [
      | none ↦ (errored 500 (get_namespace_failed req.namespace), [])
      | some ns ↦
          if ns.is_terminating
          then (allowed "namespace is terminating: bypass freeze policies", [])
          else elim (evaluate lib (some client) env.clock (request_input env.clock req target ns)) [
            | err e ↦ (errored 500 (evaluation_failed e), [])
            | ok dec ↦ respond lib req target dec
          ]
    ]

abbrev pub reader_of : Validator → Reader → Reader
reader_of v client = elim v.api_reader [ none ↦ client | some reader ↦ reader ]

unfoldable pub handle :
    Library → DeepEqual → Surroundings → Validator → Request → Response × List Metric
handle lib eq env v req = elim v.client [
  | none ↦ (errored 500 client_is_nil, [])
  | some client ↦
      if is_operator v env req
      then (allowed "operator serviceaccount bypass", [])
      else elim (request_target eq v.decoder (reader_of v client) req) [
        | err early ↦ (early, [])
        | ok target ↦ handle_target lib client env req target
      ]
]
