-- ===== src/Workloads/Handler/Explains.antt =====
-- What a denial of Validator.Handle of internal/webhook/workloads/validator.go tells and counts.
use Prim.Native.String.{◌++◌}
use kube_freeze_operator.Common.{
  ℕ, ◌≡◌, ◌≢◌, String, Bool, true, false, Option, none, some, [], ◌∷◌, Some, All, All_at, arith,
  inl, inr, Option-cases,
}
use kube_freeze_operator.Common.Texts.{◌==◌, eq_iff}
use kube_freeze_operator.Api.Kinds.{policy_kind_name, kind_name, action_name}
use kube_freeze_operator.External.{Library, DeepEqual}
use kube_freeze_operator.Policy.Types.{Input, Decision}
use kube_freeze_operator.Policy.Candidates.{DenyCandidate}
use kube_freeze_operator.Policy.Choice.Order.{NotAfter}
use kube_freeze_operator.Policy.Evaluator.{initial_decision, with_now}
use kube_freeze_operator.Policy.Evaluator.Laws.{Answers, denials, evaluate_denies_iff}
use kube_freeze_operator.Policy.Evaluator.Report.{
  IsWellFormed, denials-IsWellFormed, evaluate_reports_first,
}
use kube_freeze_operator.Workloads.Message.{
  join, git_ops_message, message_parts, format_deny_message,
}
use kube_freeze_operator.Workloads.Request.{Request}
use kube_freeze_operator.Workloads.Handler.{
  denied, denied_requests, Validator, Surroundings, Target, is_git_ops, request_input, respond,
  handle,
}
use kube_freeze_operator.Workloads.Handler.Reach.{is_denied, Reaches, handle_reached}
use kube_freeze_operator.Workloads.Handler.Denial.{respond-is_denied}

-- The reason, and when the action is allowed if that is known.
abbrev pub reason_and_time : Library → DenyCandidate → Option ℕ → String
reason_and_time lib c none = c.reason
reason_and_time lib c (some t) = c.reason ++ (": " ++ ("Next allowed at " ++ lib.format_rfc3339 t))

-- The end of the freeze, for an agent of Argo CD or Flux.
abbrev pub until_end : Library → DenyCandidate → Option ℕ → String
until_end lib c none = c.ref.name
until_end lib c (some t) = c.ref.name ++ (" until " ++ lib.format_rfc3339 t)

-- What the user is told about a denial.
abbrev pub explanation : Library → Bool → DenyCandidate → String
explanation lib true c = "[freeze-operator] sync blocked by " ++ until_end lib c c.freeze_end
explanation lib false c =
    ("Denied by " ++ (policy_kind_name c.ref.kind ++ ("/" ++ c.ref.name)))
    ++ (": " ++ reason_and_time lib c c.next_allowed)

-- The decision that reports a denial.
abbrev pub reported : Input → DenyCandidate → Decision
reported i c = record (initial_decision i) {
  allowed = false;
  matched_policy = some c.ref;
  matched_override = none;
  reason = c.reason;
  next_allowed_time = c.next_allowed;
  freeze_end_time = c.freeze_end;
}

git_ops_message-reported :
    (lib : Library) (i : Input) (c : DenyCandidate)
    → git_ops_message lib (reported i c) ≡ explanation lib true c
unfolding git_ops_message
git_ops_message-reported lib i c = elim (Option-cases c.freeze_end) [
  | inl e ↦ rw e
  | inr (t, e) ↦ rw e
]

has_reason : (c : DenyCandidate) → c.reason ≢ "" → (c.reason == "") ≡ false
has_reason c h = ground (arith, eq_iff c.reason "", h)

message_parts-reported :
    (lib : Library) (i : Input) (c : DenyCandidate)
    → IsWellFormed i.now c
    → join (message_parts lib (reported i c)) ": " ≡ explanation lib false c
unfolding join message_parts
message_parts-reported lib i c w = elim w.freeze_ends [
  | inl (k, (t, e, n, l)) ↦ rw (has_reason c w.has_reason, e, n)
  | inr (k, e) ↦ elim (Option-cases c.next_allowed) [
    | inl n ↦ rw (has_reason c w.has_reason, e, n)
    | inr (t, n) ↦ rw (has_reason c w.has_reason, e, n)
  ]
]

format_deny_message-reported :
    (lib : Library) (i : Input) (c : DenyCandidate) (git_ops : Bool)
    → IsWellFormed i.now c
    → format_deny_message lib (reported i c) git_ops ≡ explanation lib git_ops c
unfolding format_deny_message
format_deny_message-reported lib i c true w = git_ops_message-reported lib i c
format_deny_message-reported lib i c false w = message_parts-reported lib i c w

respond-reported :
    (lib : Library) (req : Request) (target : Target) (i : Input) (c : DenyCandidate)
    → IsWellFormed i.now c
    → respond lib req target (reported i c) ≡ (
      denied (explanation lib (is_git_ops req) c),
      denied_requests
            (policy_kind_name c.ref.kind)
            c.ref.name
            req.namespace
            (kind_name target.kind)
            (action_name target.action)
          ∷ [],
    )
unfolding respond
respond-reported lib req target i c w = rw (format_deny_message-reported lib i c (is_git_ops req) w)

-- With every list at hand, a denial of a request that reaches the evaluator tells and counts one policy,
-- the one that comes first among those that block the request: to an agent of Argo CD or Flux its name
-- and, for a freeze, its end; to anyone else its kind and name, its reason, which is not empty, and
-- the next allowed time if there is one.
pub handle_explains :
    (lib : Library) (eq : DeepEqual) (env : Surroundings) (v : Validator) (req : Request)
    → (c : Reaches eq env v req)
    → (a : Answers lib c.client (with_now env.clock (request_input env.clock req c.target c.ns)))
    → is_denied (handle lib eq env v req).0 ≡ true
    → (x : DenyCandidate) × Some
        (λ y. y ≡ x)
        (denials lib
          (with_now env.clock (request_input env.clock req c.target c.ns))
          a.ns_labels
          a.cfs
          a.mws)
      × All (NotAfter x) (
          denials lib
            (with_now env.clock (request_input env.clock req c.target c.ns))
            a.ns_labels
            a.cfs
            a.mws)
      × (x.reason ≢ "")
      × (handle lib eq env v req ≡ (
        denied (explanation lib (is_git_ops req) x),
        denied_requests
              (policy_kind_name x.ref.kind)
              x.ref.name
              req.namespace
              (kind_name c.target.kind)
              (action_name c.target.action)
            ∷ [],
      ))
handle_explains lib eq env v req c a h =
    let i = request_input env.clock req c.target c.ns in
    let (d, k, f) = evaluate_denies_iff lib c.client env.clock i a in
    let answer = handle_reached lib eq env v req c d k in
    let n : d.allowed ≡ false =
      ground (arith, rw answer at h, respond-is_denied lib req c.target d) in
    let (x, m, first, e) = evaluate_reports_first lib c.client env.clock i a d k n in
    let w =
      All_at (IsWellFormed (with_now env.clock i).now) x _
        (denials-IsWellFormed lib (with_now env.clock i) a.ns_labels a.cfs a.mws) m in
    (
      x,
      m,
      first,
      w.has_reason,
      rw (answer, e) (respond-reported lib req c.target (with_now env.clock i) x w),
    )
