-- ===== src/Workloads/Handler/Reach.antt =====
-- The requests that Validator.Handle of internal/webhook/workloads/validator.go hands to the evaluator.
use kube_freeze_operator.Common.{◌≡◌, Bool, true, false, some, []}
use kube_freeze_operator.Common.Texts.{◌==◌}
use kube_freeze_operator.Common.Results.{ok, err}
use kube_freeze_operator.Api.Objects.{Namespace}
use kube_freeze_operator.External.{Library, DeepEqual, Reader}
use kube_freeze_operator.Policy.Types.{Decision, EvalError}
use kube_freeze_operator.Policy.Evaluator.{evaluate}
use kube_freeze_operator.Workloads.Request.{Request}
use kube_freeze_operator.Workloads.Handler.{
  Response, denied, errored, evaluation_failed, Validator, Surroundings, Target, is_operator,
  request_target, request_input, respond, handle_target, reader_of, handle,
}

abbrev pub is_denied : Response → Bool
is_denied (denied s) = true
is_denied _ = false

-- A request that gets as far as the evaluator: the client is there, the operator does not send it, its
-- kind, action and labels are found, and its namespace is there and not terminating.
pub record Reaches (eq : DeepEqual) (env : Surroundings) (v : Validator) (req : Request)
    : Type 0 where
  pub client : Reader
  pub has_client : v.client ≡ some client
  pub not_operator : is_operator v env req ≡ false
  pub target : Target
  pub has_target : request_target eq v.decoder (reader_of v client) req ≡ ok target
  pub is_namespaced : (req.namespace == "") ≡ false
  pub ns : Namespace
  pub has_namespace : client.get_namespace req.namespace ≡ some ns
  pub not_terminating : ns.is_terminating ≡ false

-- A request that reaches the evaluator is answered by the evaluator's decision.
pub handle_reached :
    (lib : Library) (eq : DeepEqual) (env : Surroundings) (v : Validator) (req : Request)
    → (c : Reaches eq env v req) (dec : Decision)
    → evaluate lib (some c.client) env.clock (request_input env.clock req c.target c.ns) ≡ ok dec
    → handle lib eq env v req ≡ respond lib req c.target dec
unfolding handle handle_target is_operator respond
handle_reached lib eq env v req c dec h = rw (
  c.has_client, c.not_operator, c.has_target, handle_target, c.is_namespaced, c.has_namespace,
  c.not_terminating, h,
)

-- If the evaluation fails, so does the request.
pub handle_failed :
    (lib : Library) (eq : DeepEqual) (env : Surroundings) (v : Validator) (req : Request)
    → (c : Reaches eq env v req) (e : EvalError)
    → evaluate lib (some c.client) env.clock (request_input env.clock req c.target c.ns) ≡ err e
    → handle lib eq env v req ≡ (errored 500 (evaluation_failed e), [])
unfolding handle handle_target is_operator
handle_failed lib eq env v req c e h = rw (
  c.has_client, c.not_operator, c.has_target, handle_target, c.is_namespaced, c.has_namespace,
  c.not_terminating, h,
)
