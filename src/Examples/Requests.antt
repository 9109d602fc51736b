-- ===== src/Examples/Requests.antt =====
-- The theorems about admission requests at the cluster of the test data.
use kube_freeze_operator.Common.{
  ◌≡◌, ◌≢◌, ◌↔◌, All, refl, true, false, none, some, [], ◌∷◌, Some, ◌&&◌, if◌then◌else◌, is_some,
}
use kube_freeze_operator.Common.Texts.{◌==◌}
use kube_freeze_operator.Common.Results.{ok}
use kube_freeze_operator.Api.Kinds.{deployment, rollout, policy_kind_name}
use kube_freeze_operator.External.{DeepEqual}
use kube_freeze_operator.Policy.Types.{Decision}
use kube_freeze_operator.Policy.Evaluator.{evaluate}
use kube_freeze_operator.Policy.Evaluator.Laws.{IsBlocked, ExceptionCovers, denials}
use kube_freeze_operator.Policy.Candidates.{DenyCandidate}
use kube_freeze_operator.Policy.Choice.Order.{NotAfter}
use kube_freeze_operator.Diff.{Object, deployment_object, classify_update}
use kube_freeze_operator.Workloads.Request.{
  Request, Decoder, RequestError, decode_failed, unsupported_operation, update_operation,
  other_operation, map_gvk_to_target_kind, classify,
}
use kube_freeze_operator.Workloads.Handler.{
  denied, denied_requests, Validator, Surroundings, Target, is_operator, request_target,
  request_input, handle,
}
use kube_freeze_operator.Workloads.Handler.Reach.{is_denied, Reaches, handle_reached}
use kube_freeze_operator.Workloads.Handler.Denial.{
  handle_denies_iff, handle_denies_by_policy, respond-is_denied,
}
use kube_freeze_operator.Workloads.Handler.Explains.{explanation, handle_explains}
use kube_freeze_operator.Examples.{library, reader, now, input, freeze, exception, labels, prod}
use kube_freeze_operator.Examples.Decisions.{answers, decision, decision_lem}

abbrev pub deep_equal : DeepEqual
deep_equal = record {
  same_template = λ a b. a == b;
  same_replicas = λ a b. is_some a && is_some b;
  same_cron_job_spec = λ a b. a == b;
}

abbrev pub decoder : Decoder
decoder = record {
  decode_workload = λ kind s.
      if s == "bad" then none else some (record { labels = labels; template = s; replicas = none });
  decode_cron_job = λ s. none;
}

abbrev pub surroundings : Surroundings
surroundings = record { pod_namespace = ""; clock = now }

abbrev pub validator : Validator
validator = record {
  client = some reader;
  api_reader = none;
  decoder = some decoder;
  operator_namespace = "freeze";
}

abbrev pub request : Request
request = record {
  sub_resource = "";
  resource_group = "apps";
  resource_name = "deployments";
  kind_group = "apps";
  kind_text = "Deployment";
  operation = update_operation;
  namespace = "prod";
  name = "shop";
  object = "new";
  old_object = "old";
  username = "jane";
  groups = [];
}

abbrev pub update_target : Target
update_target = record { kind = deployment; action = rollout; labels = labels }

not_operator : is_operator validator surroundings request ≡ false
unfolding is_operator
not_operator = refl

has_target : request_target deep_equal (some decoder) reader request ≡ ok update_target
unfolding request_target kube_freeze_operator.Workloads.Handler.workload_target
    map_gvk_to_target_kind classify kube_freeze_operator.Workloads.Request.decode_old_new
    kube_freeze_operator.Workloads.Request.decode classify_update
has_target = refl

abbrev reaches : Reaches deep_equal surroundings validator request
reaches = record {
  client = reader;
  has_client = refl;
  not_operator = not_operator;
  target = update_target;
  has_target = has_target;
  is_namespaced = refl;
  ns = prod;
  has_namespace = refl;
  not_terminating = refl;
}

handle_denies_by_policy_example :
    (is_denied (handle library deep_equal surroundings validator request).0 ≡ true) ↔ (
      IsBlocked library input (some []) (freeze ∷ []) []
      × ¬ Some (ExceptionCovers library input (some [])) (exception ∷ []))
handle_denies_by_policy_example =
    handle_denies_by_policy library deep_equal surroundings validator request reaches answers

handle_denies_iff_example :
    (is_denied (handle library deep_equal surroundings validator request).0 ≡ true) ↔ (
      (c : Reaches deep_equal surroundings validator request) × (dec : Decision) × (evaluate library
          (some c.client)
          now
          (request_input now request c.target c.ns)
        ≡ ok dec)
      × (dec.allowed ≡ false))
handle_denies_iff_example = handle_denies_iff library deep_equal surroundings validator request

request_denied : is_denied (handle library deep_equal surroundings validator request).0 ≡ true
request_denied = rw (
  handle_reached library deep_equal surroundings validator request reaches decision decision_lem,
  respond-is_denied library request update_target decision,
)

handle_explains_example :
    (x : DenyCandidate) × Some (λ y. y ≡ x) (denials library input (some []) (freeze ∷ []) [])
    × All (NotAfter x) (denials library input (some []) (freeze ∷ []) [])
    × (x.reason ≢ "")
    × (handle library deep_equal surroundings validator request ≡ (
      denied (explanation library false x),
      denied_requests (policy_kind_name x.ref.kind) x.ref.name "prod" "Deployment" "ROLL_OUT" ∷ [],
    ))
handle_explains_example =
    handle_explains library deep_equal surroundings validator request reaches answers request_denied

abbrev old_deployment : Object
old_deployment = deployment_object (record { labels = labels; template = "t"; replicas = none })
