-- ===== src/Controller/CronJobs/Enforce.antt =====
-- The loops of internal/controller/cronjob_helper.go over all CronJobs, where the API server answers.
use kube_freeze_operator.Common.{
  ◌≡◌, inl, inr, refl, subst, String, Bool, true, Option, none, some, List, [], ◌∷◌, Bool-cases,
  All, All2, any,
}
use kube_freeze_operator.Common.Texts.{◌==◌}
use kube_freeze_operator.Api.Kinds.{cron_job, kind_eq}
use kube_freeze_operator.Api.Specs.{TargetSpec}
use kube_freeze_operator.Api.Objects.{Namespace}
use kube_freeze_operator.External.{Library, Reader}
use kube_freeze_operator.Controller.CronJobs.{
  CronJob, CronApi, CronError, visit, write_back, and_then, visit_namespace, visit_namespaces,
  matching_namespaces, update_cron_jobs_for_policy,
}
use kube_freeze_operator.Controller.CronJobs.Visit.{InScope}
use kube_freeze_operator.Controller.CronJobs.Frame.{Touched, update_cron_jobs-Touched}
use kube_freeze_operator.Controller.CronJobs.Convergence.{
  InMatching, Converged, update_cron_jobs_converges,
}

-- The API server lists the CronJobs of every namespace and takes every update.
pub record IsAnswering (api : CronApi) : Type 0 where
  pub lists : (ns : String) → api.lists ns ≡ true
  pub takes : (cron : CronJob) → api.takes cron ≡ true

All2-All :
    {A : Type 0} (R S : A → A → Type 0) (P : A → Type 0)
    → ((x y : A) → R x y → P y → S x y)
    → (xs ys : List A) → All2 R xs ys
    → All P ys
    → All2 S xs ys
All2-All R S P f [] [] h k = tt
All2-All R S P f (x ∷ xs) (y ∷ ys) h k = (f x y h.0 k.0, All2-All R S P f xs ys h.1 k.1)
All2-All R S P f [] (y ∷ ys) h k = absurd h
All2-All R S P f (x ∷ xs) [] h k = absurd h

-- A CronJob before a run and after: in a matching namespace and in scope, it gets the wanted state.
abbrev pub Enforced :
    Library → CronApi → TargetSpec → String → Bool → List Namespace → CronJob → CronJob → Type 0
Enforced lib api target policy_name s items cron cron' =
    InMatching lib api target policy_name s items cron
    → InScope lib target policy_name s cron
    → cron'.suspend ≡ some s

module _ (lib : Library) (api : CronApi) (answers : IsAnswering api) (target : TargetSpec)
    (policy_name : String) (s : Bool) where
  write_back-none :
      (o : Option CronJob) (cron : CronJob) (crons : List CronJob)
      → (rest : List CronJob × Option CronError) → rest.1 ≡ none
      → (write_back api o cron crons rest).1 ≡ none
  write_back-none none cron crons (xs, e) h = h
  write_back-none (some cron') cron crons (xs, e) h = rw (answers.takes cron') h

  visit_namespace-none :
      (ns : String) (store : List CronJob)
      → (visit_namespace lib api target policy_name s ns store).1 ≡ none
  unfolding visit_namespace
  visit_namespace-none ns [] = refl
  visit_namespace-none ns (cron ∷ crons) = elim (Bool-cases (cron.namespace == ns)) [
    | inl e ↦ rw e (
        write_back-none (visit lib target policy_name s cron) cron crons
          (visit_namespace lib api target policy_name s ns crons) (visit_namespace-none ns crons))
    | inr e ↦ rw e (visit_namespace-none ns crons)
  ]

  and_then-none :
      (r : List CronJob × Option CronError) (next : List CronJob → List CronJob × Option CronError)
      → r.1 ≡ none
      → ((xs : List CronJob) → (next xs).1 ≡ none)
      → (and_then r next).1 ≡ none
  and_then-none (xs, none) next h k = k xs
  and_then-none (xs, some e) next h k = absurd (cc)

  visit_namespaces-none :
      (nss : List String) (store : List CronJob)
      → (visit_namespaces lib api target policy_name s nss store).1 ≡ none
  unfolding visit_namespaces
  visit_namespaces-none [] store = refl
  visit_namespaces-none (ns ∷ nss) store = rw (answers.lists ns) (
      and_then-none (visit_namespace lib api target policy_name s ns store)
        (visit_namespaces lib api target policy_name s nss) (visit_namespace-none ns store)
        (visit_namespaces-none nss))

  -- A run reports no error.
  pub update_cron_jobs-none :
      (reader : Reader) (items : List Namespace) (store : List CronJob)
      → reader.list_namespaces ≡ some items
      → (update_cron_jobs_for_policy lib reader api target policy_name s store).1 ≡ none
  unfolding update_cron_jobs_for_policy
  update_cron_jobs-none reader items store e =
      elim (Bool-cases (any (λ k. kind_eq k cron_job) target.kinds)) [
        | inl f ↦
            rw (e, f)
              (visit_namespaces-none (matching_namespaces lib target.namespace_selector items)
                store)
        | inr f ↦ rw (e, f)
      ]

  Touched-Enforced :
      (items : List Namespace) (cron cron' : CronJob)
      → Touched lib api target policy_name s cron cron'
      → Converged lib api target policy_name s items cron'
      → Enforced lib api target policy_name s items cron cron'
  Touched-Enforced items cron cron' (inl e) k =
      subst
        (λ c.
          InMatching lib api target policy_name s items c
          → InScope lib target policy_name s c
          → cron'.suspend ≡ some s)
        e k
  Touched-Enforced items cron cron' (inr c) k = λ m i. c.suspends

  pub update_cron_jobs-Enforced :
      (reader : Reader) (items : List Namespace) (store : List CronJob)
      → reader.list_namespaces ≡ some items
      → any (λ k. kind_eq k cron_job) target.kinds ≡ true
      → All2
          (Enforced lib api target policy_name s items)
          store
          (update_cron_jobs_for_policy lib reader api target policy_name s store).0
  update_cron_jobs-Enforced reader items store e f =
      let after = (update_cron_jobs_for_policy lib reader api target policy_name s store).0 in
      All2-All (Touched lib api target policy_name s) (Enforced lib api target policy_name s items)
        (Converged lib api target policy_name s items) (Touched-Enforced items) store after
        (update_cron_jobs-Touched lib api target policy_name s reader store)
        (update_cron_jobs_converges lib api target policy_name s reader items store e f
          (update_cron_jobs-none reader items store e))
