-- ===== src/Workloads/Handler/Denial.antt =====
-- Which requests Validator.Handle of internal/webhook/workloads/validator.go denies.
use kube_freeze_operator.Common.{
  ◌≡◌, ◌↔◌, true, false, not, ◌&&◌, Option, some, Some, arith, Bool-cases, Option-cases, inl, inr,
}
use kube_freeze_operator.Common.Texts.{◌==◌}
use kube_freeze_operator.Common.Results.{ok, err, Result-cases}
use kube_freeze_operator.Api.Objects.{Namespace}
use kube_freeze_operator.External.{Library, DeepEqual, Reader}
use kube_freeze_operator.Policy.Types.{Decision}
use kube_freeze_operator.Policy.Evaluator.{evaluate, with_now}
use kube_freeze_operator.Policy.Evaluator.Laws.{
  Answers, IsBlocked, ExceptionCovers, evaluate_denies_iff,
}
use kube_freeze_operator.Workloads.Request.{Request, Decoder}
use kube_freeze_operator.Workloads.Handler.Reach.{is_denied, Reaches, handle_reached}
use kube_freeze_operator.Workloads.Handler.{
  Response, Validator, Surroundings, Target, is_operator, scale_target, workload_target,
  request_target, request_input, respond, handle_target, reader_of, handle,
}

pub respond-is_denied :
    (lib : Library) (req : Request) (target : Target) (dec : Decision)
    → is_denied (respond lib req target dec).0 ≡ not dec.allowed
unfolding respond
respond-is_denied lib req target dec = elim (Bool-cases dec.allowed) [ inl e ↦ rw e | inr e ↦ rw e ]

scale_target-not_denied :
    (reader : Reader) (req : Request) (r : Response)
    → scale_target reader req ≡ err r
    → is_denied r ≡ false
unfolding scale_target
scale_target-not_denied reader req r h = ground arith

workload_target-not_denied :
    (eq : DeepEqual) (d : Option Decoder) (req : Request) (r : Response)
    → workload_target eq d req ≡ err r
    → is_denied r ≡ false
unfolding workload_target
workload_target-not_denied eq d req r h = ground arith

pub request_target-not_denied :
    (eq : DeepEqual) (d : Option Decoder) (reader : Reader) (req : Request) (r : Response)
    → request_target eq d reader req ≡ err r
    → is_denied r ≡ false
unfolding request_target
request_target-not_denied eq d reader req r h =
    elim (Bool-cases (req.sub_resource == "scale" && req.resource_group == "apps")) [
      | inl e ↦ scale_target-not_denied reader req r (rw e at h)
      | inr e ↦ workload_target-not_denied eq d req r (rw e at h)
    ]

handle_target-denies :
    (lib : Library) (client : Reader) (env : Surroundings) (req : Request) (target : Target)
    → is_denied (handle_target lib client env req target).0 ≡ true
    → ((req.namespace == "") ≡ false)
      × (ns : Namespace) × (client.get_namespace req.namespace ≡ some ns)
      × (ns.is_terminating ≡ false)
      × (dec : Decision) × (evaluate lib
            (some client)
            env.clock
            (request_input env.clock req target ns)
          ≡ ok dec)
      × (dec.allowed ≡ false)
unfolding handle_target
handle_target-denies lib client env req target h = elim (Bool-cases (req.namespace == "")) [
  | inl e ↦ absurd (cc (rw (handle_target, e) at h))
  | inr e ↦ elim (Option-cases (client.get_namespace req.namespace)) [
    | inl n ↦ absurd (cc (rw (handle_target, e, n) at h))
    | inr (ns, n) ↦ elim (Bool-cases ns.is_terminating) [
      | inl t ↦ absurd (cc (rw (handle_target, e, n, t) at h))
      | inr t ↦
          elim (Result-cases
            (evaluate lib (some client) env.clock (request_input env.clock req target ns))) [
              | inl (x, k) ↦ absurd (cc (rw (handle_target, e, n, t, k) at h))
              | inr (dec, k) ↦ (
                e,
                ns,
                n,
                t,
                dec,
                k,
                ground (
                  arith,
                  respond-is_denied lib req target dec,
                  rw (handle_target, e, n, t, k) at h,
                ),
              )
            ]
    ]
  ]
]

-- A request is denied exactly if it reaches the evaluator and the evaluator answers that it is not
-- allowed. No error, no missing object and no request of the operator is ever a denial.
pub handle_denies_iff :
    (lib : Library) (eq : DeepEqual) (env : Surroundings) (v : Validator) (req : Request)
    → (is_denied (handle lib eq env v req).0 ≡ true) ↔ (
        (c : Reaches eq env v req) × (dec : Decision) × (evaluate lib
            (some c.client)
            env.clock
            (request_input env.clock req c.target c.ns)
          ≡ ok dec)
        × (dec.allowed ≡ false))
unfolding handle
handle_denies_iff lib eq env v req = (forward, backward)
  where
    forward :
        is_denied (handle lib eq env v req).0 ≡ true
        → (c : Reaches eq env v req) × (dec : Decision) × (evaluate lib
              (some c.client)
              env.clock
              (request_input env.clock req c.target c.ns)
            ≡ ok dec)
          × (dec.allowed ≡ false)
    forward h = elim (Option-cases v.client) [
      | inl e ↦ absurd (cc (rw (handle, e) at h))
      | inr (client, e) ↦ elim (Bool-cases (is_operator v env req)) [
        | inl o ↦ absurd (cc (rw (handle, e, o) at h))
        | inr o ↦ elim (Result-cases (request_target eq v.decoder (reader_of v client) req)) [
          | inl (r, t) ↦ absurd (
              cc (
                request_target-not_denied eq v.decoder (reader_of v client) req r t,
                rw (handle, e, o, t) at h,
              ))
          | inr (target, t) ↦
              let (n, ns, m, l, dec, k, a) =
                handle_target-denies lib client env req target (rw (handle, e, o, t) at h) in
              (
                record {
                  client = client;
                  has_client = e;
                  not_operator = o;
                  target = target;
                  has_target = t;
                  is_namespaced = n;
                  ns = ns;
                  has_namespace = m;
                  not_terminating = l;
                },
                dec,
                k,
                a,
              )
        ]
      ]
    ]

    backward :
        (c : Reaches eq env v req) × (dec : Decision) × (evaluate lib
              (some c.client)
              env.clock
              (request_input env.clock req c.target c.ns)
            ≡ ok dec)
          × (dec.allowed ≡ false)
        → is_denied (handle lib eq env v req).0 ≡ true
    backward (c, dec, k, a) =
        rw (handle_reached lib eq env v req c dec k, respond-is_denied lib req c.target dec, a)

-- A request that reaches the evaluator, with the policies and exceptions of the cluster at hand, is
-- denied exactly if a ChangeFreeze or a MaintenanceWindow blocks it and no FreezeException covers it.
pub handle_denies_by_policy :
    (lib : Library) (eq : DeepEqual) (env : Surroundings) (v : Validator) (req : Request)
    → (c : Reaches eq env v req)
    → (a : Answers lib c.client (with_now env.clock (request_input env.clock req c.target c.ns)))
    → (is_denied (handle lib eq env v req).0 ≡ true) ↔ (
        IsBlocked lib
          (with_now env.clock (request_input env.clock req c.target c.ns))
          a.ns_labels
          a.cfs
          a.mws
        × ¬ Some
            (ExceptionCovers lib
              (with_now env.clock (request_input env.clock req c.target c.ns))
              a.ns_labels)
            a.exs)
handle_denies_by_policy lib eq env v req c a =
    let (d, k, f) =
      evaluate_denies_iff lib c.client env.clock (request_input env.clock req c.target c.ns) a in
    rw (handle_reached lib eq env v req c d k, respond-is_denied lib req c.target d)
      (λ h. f.0 (ground (arith, h)), λ h. ground (arith, f.1 h))
