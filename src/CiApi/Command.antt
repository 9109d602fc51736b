-- ===== src/CiApi/Command.antt =====
-- cmd/kfo/main.go: the evaluation without the API server, and that it agrees with internal/api/server.go.
use kube_freeze_operator.Common.{
  ℕ, ◌≡◌, ◌↔◌, String, Bool, true, false, not, Option, none, some, arith, Option-cases, inl, inr,
  if◌then◌else◌,
}
use kube_freeze_operator.Common.Texts.{◌==◌}
use kube_freeze_operator.Common.Results.{Result, ok, err, Result-cases}
use kube_freeze_operator.External.{Library, Reader}
use kube_freeze_operator.Policy.Types.{EvalError}
use kube_freeze_operator.Policy.Evaluator.{evaluate}
use kube_freeze_operator.CiApi.Server
use kube_freeze_operator.Kfo.Parse.{parse_kind, parse_action, parse_kind_lem, parse_action_lem}
use kube_freeze_operator.CiApi.Server.{
  EvaluateRequest, EvaluateResponse, response, bare_input, decision_response, evaluate_parsed,
  evaluate_request,
}

pub data CommandError : Type 0 where
  no_config no_client : CommandError
  unsupported_kind unsupported_action : String → CommandError
  evaluation_failed : EvalError → CommandError

-- evalDirect, from whether there is a kubeconfig and a client for it.
unfoldable pub eval_direct :
    Library
    → Bool
    → Option Reader
    → ℕ
    → String
    → String
    → String
    → Result CommandError EvaluateResponse
eval_direct lib has_config client now namespace kind action =
    if not has_config then err no_config else elim client [
      | none ↦ err no_client
      | some cl ↦ elim (parse_kind kind) [
        | none ↦ err (unsupported_kind kind)
        | some parsed_kind ↦ elim (parse_action action) [
          | none ↦ err (unsupported_action action)
          | some parsed_action ↦
              elim (evaluate lib (some cl) now
                (bare_input now namespace parsed_kind parsed_action)) [
                  | err e ↦ err (evaluation_failed e)
                  | ok dec ↦ ok (decision_response lib now dec)
                ]
        ]
      ]
    ]

-- For a namespace, a kind and an action that are not empty, on the same cluster at the same time: the
-- command's direct evaluation gives a response exactly if the server answers a request for them with
-- status 200 and that response.
pub eval_direct-agrees :
    (lib : Library) (reader : Reader) (now : ℕ) (req : EvaluateRequest) (resp : EvaluateResponse)
    → (req.namespace == "") ≡ false
    → (req.kind == "") ≡ false
    → (req.action == "") ≡ false
    → (eval_direct lib true (some reader) now req.namespace req.kind req.action ≡ ok resp) ↔ (
        (evaluate_request lib (some reader) now req).0
        ≡ record { status = 200; body = response resp })
unfolding eval_direct evaluate_request evaluate_parsed
eval_direct-agrees lib reader now req resp n k a =
    elim (Option-cases (Server.parse_kind req.kind)) [
      | inl p ↦
          rw (eval_direct, evaluate_request, n, k, a, parse_kind_lem req.kind, p)
            (λ h. absurd (cc), λ h. absurd (cc))
      | inr (kind, p) ↦ elim (Option-cases (Server.parse_action req.action)) [
        | inl q ↦
            rw
              (
                eval_direct,
                evaluate_request,
                n,
                k,
                a,
                parse_kind_lem req.kind,
                p,
                parse_action_lem req.action,
                q,
              )
              (λ h. absurd (cc), λ h. absurd (cc))
        | inr (action, q) ↦
            elim (Result-cases
              (evaluate lib (some reader) now (bare_input now req.namespace kind action))) [
                | inl (e, r) ↦
                    rw
                      (
                        eval_direct,
                        evaluate_request,
                        n,
                        k,
                        a,
                        parse_kind_lem req.kind,
                        p,
                        parse_action_lem req.action,
                        q,
                        evaluate_parsed,
                        r,
                      )
                      (λ h. absurd (cc), λ h. absurd (cc))
                | inr (dec, r) ↦
                    rw
                      (
                        eval_direct,
                        evaluate_request,
                        n,
                        k,
                        a,
                        parse_kind_lem req.kind,
                        p,
                        parse_action_lem req.action,
                        q,
                        evaluate_parsed,
                        r,
                      )
                      (λ h. ground arith, λ h. ground arith)
              ]
      ]
    ]
