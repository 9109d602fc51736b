-- ===== src/CiApi/Agreement.antt =====
-- internal/api/server.go against internal/webhook/workloads/validator.go: what the CI helper answers about
-- an action, and what the webhook does with a request for it.
use kube_freeze_operator.Common.{◌≡◌, ◌↔◌, ℕ, refl, true, false, ◌&&◌, some, arith, inl, inr}
use kube_freeze_operator.Common.Texts.{◌==◌}
use kube_freeze_operator.Common.Results.{Result-cases}
use kube_freeze_operator.Api.Kinds.{
  Action, create, delete, rollout, scale, other_action, TargetKind, deployment, stateful_set,
  daemon_set, cron_job, other_kind, kind_name, action_name,
}
use kube_freeze_operator.External.{Library, DeepEqual}
use kube_freeze_operator.Policy.Types.{Decision}
use kube_freeze_operator.Policy.Evaluator.{evaluate}
use kube_freeze_operator.Policy.Evaluator.Bare.{PoliciesArePlain, evaluate-anonymous}
use kube_freeze_operator.Workloads.Request.{Request}
use kube_freeze_operator.Workloads.Handler.{
  Validator, Surroundings, Target, request_input, reader_of, handle,
}
use kube_freeze_operator.Workloads.Handler.Reach.{is_denied, Reaches, handle_reached, handle_failed}
use kube_freeze_operator.Workloads.Handler.Denial.{respond-is_denied}
use kube_freeze_operator.Workloads.Handler.Known.{
  is_known_kind, is_known_action, request_target-known,
}
use kube_freeze_operator.CiApi.Server.{
  EvaluateRequest, EvaluateResponse, response, parse_kind, parse_action, decision_response,
  evaluate_parsed, evaluate_request,
}

pub decision_response-allow :
    (lib : Library) (now : ℕ) (dec : Decision) → (decision_response lib now dec).allow ≡ dec.allowed
unfolding decision_response
decision_response-allow lib now dec = ground arith

parse_kind-name : (k : TargetKind) → is_known_kind k ≡ true → parse_kind (kind_name k) ≡ some k
unfolding parse_kind
parse_kind-name deployment h = refl
parse_kind-name stateful_set h = refl
parse_kind-name daemon_set h = refl
parse_kind-name cron_job h = refl
parse_kind-name (other_kind s) h = absurd (cc)

parse_action-name : (a : Action) → is_known_action a ≡ true → parse_action (action_name a) ≡ some a
unfolding parse_action
parse_action-name create h = refl
parse_action-name delete h = refl
parse_action-name rollout h = refl
parse_action-name scale h = refl
parse_action-name (other_action s) h = absurd (cc)

kind_name-not_empty : (k : TargetKind) → is_known_kind k ≡ true → (kind_name k == "") ≡ false
kind_name-not_empty deployment h = refl
kind_name-not_empty stateful_set h = refl
kind_name-not_empty daemon_set h = refl
kind_name-not_empty cron_job h = refl
kind_name-not_empty (other_kind s) h = absurd (cc)

action_name-not_empty : (a : Action) → is_known_action a ≡ true → (action_name a == "") ≡ false
action_name-not_empty create h = refl
action_name-not_empty delete h = refl
action_name-not_empty rollout h = refl
action_name-not_empty scale h = refl
action_name-not_empty (other_action s) h = absurd (cc)

-- The CI request for what a request of the webhook does.
abbrev pub ci_request : Request → Target → EvaluateRequest
ci_request req target = record {
  namespace = req.namespace;
  kind = kind_name target.kind;
  action = action_name target.action;
  name = req.name;
}

module _ (lib : Library) (eq : DeepEqual) (env : Surroundings) (v : Validator) (req : Request)
    (c : Reaches eq env v req) where
  target_known : is_known_kind c.target.kind && is_known_action c.target.action ≡ true
  target_known = request_target-known eq v.decoder (reader_of v c.client) req c.target c.has_target

  -- The server evaluates the request of the webhook without its object and its user.
  ci_request-parsed :
      evaluate_request lib (some c.client) env.clock (ci_request req c.target)
      ≡ evaluate_parsed lib
          (some c.client)
          env.clock
          (ci_request req c.target)
          c.target.kind
          c.target.action
  unfolding evaluate_request
  ci_request-parsed =
      let k : is_known_kind c.target.kind ≡ true = ground (arith, target_known) in
      let a : is_known_action c.target.action ≡ true = ground (arith, target_known) in
      rw (
        evaluate_request,
        c.is_namespaced,
        kind_name-not_empty c.target.kind k,
        action_name-not_empty c.target.action a,
        parse_kind-name c.target.kind k,
        parse_action-name c.target.action a,
      )

  -- A request that reaches the evaluator is denied exactly if the CI helper answers its action with a
  -- response that does not allow it, if no policy and no exception of the cluster selects by the labels
  -- of objects and no exception has constraints. The helper and the webhook read the same cluster at
  -- the same time.
  pub handle_agrees :
      PoliciesArePlain c.client
      → (is_denied (handle lib eq env v req).0 ≡ true) ↔ (
          (resp : EvaluateResponse) × ((evaluate_request lib
              (some c.client)
              env.clock
              (ci_request req c.target)).0
            ≡ record { status = 200; body = response resp })
          × (resp.allow ≡ false))
  unfolding evaluate_parsed
  handle_agrees plain =
      let i = request_input env.clock req c.target c.ns in
      let same =
        evaluate-anonymous lib c.client env.clock i c.ns plain c.is_namespaced c.has_namespace
          refl in
      elim (Result-cases (evaluate lib (some c.client) env.clock i)) [
        | inl (e, h) ↦
            rw (handle_failed lib eq env v req c e h, ci_request-parsed, evaluate_parsed, ← same, h)
              (λ k. absurd (cc), λ k. absurd (let q = k.1 in cc))
        | inr (dec, h) ↦
            rw
              (
                handle_reached lib eq env v req c dec h,
                respond-is_denied lib req c.target dec,
                ci_request-parsed,
                evaluate_parsed,
                ← same,
                h,
              )
              (
                λ k. (
                  decision_response lib env.clock dec,
                  refl,
                  ground (arith, decision_response-allow lib env.clock dec),
                ),
                λ k. ground (arith, k.1, k.2, decision_response-allow lib env.clock dec),
              )
      ]
