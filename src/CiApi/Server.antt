-- ===== src/CiApi/Server.antt =====
-- internal/api/server.go: the handler of POST and GET /v1/evaluate, with the metrics that it records.
use kube_freeze_operator.Common.{
  ℕ, String, Bool, not, ◌||◌, Option, none, some, List, [], ◌∷◌, if◌then◌else◌,
}
use kube_freeze_operator.Common.Texts.{◌==◌}
use kube_freeze_operator.Common.Results.{ok, err}
use kube_freeze_operator.Api.Kinds.{
  Action, create, delete, rollout, scale, TargetKind, deployment, stateful_set, daemon_set,
  cron_job, policy_kind_name,
}
use kube_freeze_operator.External.{Library, Reader}
use kube_freeze_operator.Policy.Types.{Input, Decision, EvalError, PolicyRef}
use kube_freeze_operator.Policy.Evaluator.{evaluate}

pub record EvaluateRequest : Type 0 where
  pub namespace : String
  pub kind : String
  pub action : String
  pub name : String

pub record EvaluateResponse : Type 0 where
  pub allow : Bool
  pub reason : String
  pub matched_policy : String
  pub policy_kind : String
  pub freeze_end_time : Option String
  pub next_allowed : Option String
  pub evaluated_at : String

-- The text of an error answer, by its cause.
pub data ApiError : Type 0 where
  invalid_json fields_required : ApiError
  unsupported_kind unsupported_action : String → ApiError
  evaluation_error : EvalError → ApiError

pub data Body : Type 0 where
  response : EvaluateResponse → Body
  error_text : ApiError → Body

-- The HTTP status and the body.
pub record Answer : Type 0 where
  pub status : ℕ
  pub body : Body

-- The counters of internal/metrics, with their labels, and an observation of the latency without its value.
pub data ApiMetric : Type 0 where
  api_errors : String → ApiMetric
  api_latency : ApiMetric
  api_requests : String → String → String → String → ApiMetric

unfoldable pub parse_kind : String → Option TargetKind
parse_kind s =
    if s == "Deployment"
    then some deployment
    else if s == "StatefulSet"
    then some stateful_set
    else if s == "DaemonSet"
    then some daemon_set
    else if s == "CronJob"
    then some cron_job
    else none

unfoldable pub parse_action : String → Option Action
parse_action s =
    if s == "CREATE"
    then some create
    else if s == "DELETE"
    then some delete
    else if s == "ROLL_OUT"
    then some rollout
    else if s == "SCALE"
    then some scale
    else none

-- A policy.Input with no labels, user or groups.
abbrev pub bare_input : ℕ → String → TargetKind → Action → Input
bare_input now namespace kind action = record {
  now = now;
  namespace = namespace;
  namespace_tags = none;
  kind = kind;
  action = action;
  object_labels = none;
  username = "";
  groups = [];
}

abbrev pub write_error : ℕ → ApiError → Answer
write_error code e = record { status = code; body = error_text e }

abbrev pub policy_name_of : Option PolicyRef → String
policy_name_of none = ""
policy_name_of (some p) = p.name

abbrev pub policy_kind_of : Option PolicyRef → String
policy_kind_of none = ""
policy_kind_of (some p) = policy_kind_name p.kind

abbrev pub time_text : Library → Option ℕ → Option String
time_text lib none = none
time_text lib (some t) = some (lib.format_rfc3339 t)

unfoldable pub decision_response : Library → ℕ → Decision → EvaluateResponse
decision_response lib now dec =
    if not dec.allowed
    then record {
      allow = dec.allowed;
      reason = dec.reason;
      matched_policy = policy_name_of dec.matched_policy;
      policy_kind = policy_kind_of dec.matched_policy;
      freeze_end_time = time_text lib dec.freeze_end_time;
      next_allowed = time_text lib dec.next_allowed_time;
      evaluated_at = lib.format_rfc3339 now;
    }
    else record {
      allow = dec.allowed;
      reason = "";
      matched_policy = "";
      policy_kind = "";
      freeze_end_time = none;
      next_allowed = none;
      evaluated_at = lib.format_rfc3339 now;
    }

abbrev pub decision_word : Decision → String
decision_word dec = if not dec.allowed then "deny" else "allow"

-- evaluate from the point where the kind and the action are parsed.
unfoldable pub evaluate_parsed :
    Library → Option Reader → ℕ → EvaluateRequest → TargetKind → Action → Answer × List ApiMetric
evaluate_parsed lib client now req kind action =
    elim (evaluate lib client now (bare_input now req.namespace kind action)) [
      | err e ↦ (write_error 500 (evaluation_error e), api_errors "internal" ∷ [])
      | ok dec ↦ (
        record { status = 200; body = response (decision_response lib now dec) },
        api_latency ∷ api_requests (decision_word dec) req.namespace req.kind req.action ∷ [],
      )
    ]

unfoldable pub evaluate_request :
    Library → Option Reader → ℕ → EvaluateRequest → Answer × List ApiMetric
evaluate_request lib client now req =
    if req.namespace == "" || (req.kind == "" || req.action == "")
    then (write_error 400 fields_required, api_errors "bad_request" ∷ [])
    else elim (parse_kind req.kind) [
      | none ↦ (write_error 400 (unsupported_kind req.kind), api_errors "bad_request" ∷ [])
      | some kind ↦ elim (parse_action req.action) [
        | none ↦ (write_error 400 (unsupported_action req.action), api_errors "bad_request" ∷ [])
        | some action ↦ evaluate_parsed lib client now req kind action
      ]
    ]

-- handleEvaluate, from what the JSON decoder answers.
unfoldable pub handle_evaluate :
    Library → Option Reader → ℕ → Option EvaluateRequest → Answer × List ApiMetric
handle_evaluate lib client now none = (write_error 400 invalid_json, [])
handle_evaluate lib client now (some req) = evaluate_request lib client now req

-- handleEvaluateGET, from the query's Get.
unfoldable pub handle_evaluate_get :
    Library → Option Reader → ℕ → (String → String) → Answer × List ApiMetric
handle_evaluate_get lib client now query = evaluate_request lib client now (record {
  namespace = query "namespace";
  kind = query "kind";
  action = query "action";
  name = query "name";
})
