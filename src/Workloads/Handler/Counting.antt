-- ===== src/Workloads/Handler/Counting.antt =====
-- The counters that Validator.Handle of internal/webhook/workloads/validator.go increments.
use kube_freeze_operator.Common.{
  ℕ, subst, ap, ◌∙◌, ◌≡◌, refl, Bool, true, false, Option, some, none, is_some, any, Bool-cases,
  Option-cases, inl, inr,
}
use kube_freeze_operator.Common.Texts.{◌==◌}
use kube_freeze_operator.Common.Results.{ok, Result-cases}
use kube_freeze_operator.External.{Library, DeepEqual, Reader}
use kube_freeze_operator.Policy.Types.{Input, Decision, PolicyRef}
use kube_freeze_operator.Policy.Candidates.{DenyCandidate}
use kube_freeze_operator.Policy.Choice.{select_deny_candidate}
use kube_freeze_operator.Policy.Evaluator.{
  get_namespace_labels, collect_deny_candidates, check_exception_override, initial_decision, decide,
  with_now, evaluate,
}
use kube_freeze_operator.Workloads.Request.{Request}
use kube_freeze_operator.Workloads.Handler.{
  Metric, denied_requests, Validator, Surroundings, Target, is_operator, request_target,
  request_input, respond, handle_target, reader_of, handle,
}
use kube_freeze_operator.Workloads.Handler.Denial.{request_target-not_denied}
use kube_freeze_operator.Workloads.Handler.Reach.{is_denied}

abbrev pub counts_denial : Metric → Bool
counts_denial (denied_requests a b c d e) = true
counts_denial _ = false

decide-policy :
    (d : Decision) (chosen : Option DenyCandidate) (override : Option PolicyRef)
    → d.allowed ≡ true
    → (decide d chosen override).allowed ≡ false
    → is_some (decide d chosen override).matched_policy ≡ true
unfolding decide
decide-policy d none override h e = absurd (cc)
decide-policy d (some c) none h e = refl
decide-policy d (some c) (some o) h e = refl

evaluate-policy :
    (lib : Library) (r : Reader) (clock : ℕ) (i : Input) (d : Decision)
    → evaluate lib (some r) clock i ≡ ok d
    → d.allowed ≡ false
    → is_some d.matched_policy ≡ true
unfolding evaluate
evaluate-policy lib r clock i d h a =
    elim (Result-cases (get_namespace_labels r (with_now clock i))) [
      | inl (x, e) ↦ absurd (cc (rw (evaluate, e) at h))
      | inr (ns_labels, e) ↦
          elim (Result-cases (collect_deny_candidates lib r (with_now clock i) ns_labels)) [
            | inl (x, f) ↦ absurd (cc (rw (evaluate, e, f) at h))
            | inr (denies, f) ↦
                let same : decide (initial_decision (with_now clock i))
                      (select_deny_candidate denies)
                      (check_exception_override lib r (with_now clock i) ns_labels)
                    ≡ d =
                  cc (rw (evaluate, e, f) at h) in
                subst (λ x. is_some x.matched_policy ≡ true) same
                  (decide-policy (initial_decision (with_now clock i))
                    (select_deny_candidate denies)
                    (check_exception_override lib r (with_now clock i) ns_labels) refl
                    (ap (λ x. x.allowed) same ∙ a))
          ]
    ]

respond-counts :
    (lib : Library) (req : Request) (target : Target) (dec : Decision)
    → (dec.allowed ≡ false → is_some dec.matched_policy ≡ true)
    → any counts_denial (respond lib req target dec).1 ≡ is_denied (respond lib req target dec).0
unfolding respond
respond-counts lib req target dec h = elim (Bool-cases dec.allowed) [
  | inl e ↦ rw e (elim (Option-cases dec.matched_override) [
    | inl o ↦ rw o
    | inr (x, o) ↦
        rw o (elim (Option-cases dec.matched_policy) [ inl p ↦ rw p | inr (y, p) ↦ rw p ])
  ])
  | inr e ↦
      rw e (elim (Option-cases dec.matched_policy) [
        | inl p ↦ absurd (cc (h e, p))
        | inr (y, p) ↦ rw p
      ])
]

handle_target-counts :
    (lib : Library) (client : Reader) (env : Surroundings) (req : Request) (target : Target)
    → any counts_denial (handle_target lib client env req target).1
      ≡ is_denied (handle_target lib client env req target).0
unfolding handle_target
handle_target-counts lib client env req target = elim (Bool-cases (req.namespace == "")) [
  | inl e ↦ rw (handle_target, e)
  | inr e ↦ elim (Option-cases (client.get_namespace req.namespace)) [
    | inl n ↦ rw (handle_target, e, n)
    | inr (ns, n) ↦ elim (Bool-cases ns.is_terminating) [
      | inl t ↦ rw (handle_target, e, n, t)
      | inr t ↦
          elim (Result-cases
            (evaluate lib (some client) env.clock (request_input env.clock req target ns))) [
              | inl (x, k) ↦ rw (handle_target, e, n, t, k)
              | inr (dec, k) ↦
                  rw (handle_target, e, n, t, k)
                    (respond-counts lib req target dec (
                      evaluate-policy lib client env.clock (request_input env.clock req target ns)
                        dec k))
            ]
    ]
  ]
]

-- The counter of denied requests is incremented exactly when the answer is a denial.
pub handle_counts_denials :
    (lib : Library) (eq : DeepEqual) (env : Surroundings) (v : Validator) (req : Request)
    → any counts_denial (handle lib eq env v req).1 ≡ is_denied (handle lib eq env v req).0
unfolding handle handle_target
handle_counts_denials lib eq env v req = elim (Option-cases v.client) [
  | inl e ↦ rw (handle, e)
  | inr (client, e) ↦ elim (Bool-cases (is_operator v env req)) [
    | inl o ↦ rw (handle, e, o)
    | inr o ↦ elim (Result-cases (request_target eq v.decoder (reader_of v client) req)) [
      | inl (r, t) ↦
          rw (handle, e, o, t)
            (rw (request_target-not_denied eq v.decoder (reader_of v client) req r t))
      | inr (target, t) ↦ rw (handle, e, o, t) (handle_target-counts lib client env req target)
    ]
  ]
]
