-- ===== src/Controller/CronJobs/Again.antt =====
-- The loops of internal/controller/cronjob_helper.go over all CronJobs: the same run once more.
use kube_freeze_operator.Common.{
  ◌≡◌, inl, inr, refl, sym, String, Bool, true, Option, none, some, List, [], ◌∷◌, Bool-cases,
  Option-cases, All, All-map, any,
}
use kube_freeze_operator.Common.Texts.{◌==◌, eq_iff}
use kube_freeze_operator.Api.Kinds.{cron_job, kind_eq}
use kube_freeze_operator.Api.Specs.{TargetSpec}
use kube_freeze_operator.External.{Library, Reader}
use kube_freeze_operator.Controller.CronJobs.{
  CronJob, CronApi, CronError, and_then, visit_namespace, visit_namespaces, matching_namespaces,
  update_cron_jobs_for_policy,
}
use kube_freeze_operator.Controller.CronJobs.Frame.{SettledIn}
use kube_freeze_operator.Controller.CronJobs.Convergence.{SettledAmong, visit_namespaces-settled}

module _ (lib : Library) (api : CronApi) (target : TargetSpec) (policy_name : String)
    (s : Bool) where
  visit_namespace_again :
      (ns : String) (store : List CronJob)
      → All (SettledIn lib api target policy_name s ns) store
      → visit_namespace lib api target policy_name s ns store ≡ (store, none)
  unfolding visit_namespace
  visit_namespace_again ns [] h = refl
  visit_namespace_again ns (cron ∷ crons) h = elim (Bool-cases (cron.namespace == ns)) [
    | inl e ↦ rw (e, h.0 ((eq_iff cron.namespace ns).0 e), visit_namespace_again ns crons h.1)
    | inr e ↦ rw (e, visit_namespace_again ns crons h.1)
  ]

  visit_namespaces_again :
      (nss : List String) (store : List CronJob)
      → All (λ ns. api.lists ns ≡ true) nss
      → All (SettledAmong lib api target policy_name s nss) store
      → visit_namespaces lib api target policy_name s nss store ≡ (store, none)
  unfolding visit_namespaces
  visit_namespaces_again [] store l h = refl
  visit_namespaces_again (ns ∷ nss) store l h = rw (
    l.0,
    visit_namespace_again ns store (
        All-map (SettledAmong lib api target policy_name s (ns ∷ nss))
          (SettledIn lib api target policy_name s ns) (λ c k p. k (inl (sym p))) store h),
    visit_namespaces_again nss store l.1 (
        All-map (SettledAmong lib api target policy_name s (ns ∷ nss))
          (SettledAmong lib api target policy_name s nss) (λ c k m. k (inr m)) store h),
  )

  and_then-none :
      (r : List CronJob × Option CronError) (next : List CronJob → List CronJob × Option CronError)
      → (and_then r next).1 ≡ none
      → (next r.0).1 ≡ none
  and_then-none (xs, none) next h = h
  and_then-none (xs, some e) next h = absurd (cc)

  visit_namespaces_lists :
      (nss : List String) (store : List CronJob)
      → (visit_namespaces lib api target policy_name s nss store).1 ≡ none
      → All (λ ns. api.lists ns ≡ true) nss
  unfolding visit_namespaces
  visit_namespaces_lists [] store h = tt
  visit_namespaces_lists (ns ∷ nss) store h = elim (Bool-cases (api.lists ns)) [
    | inr e ↦ absurd (cc (rw e at h))
    | inl e ↦ (
      e,
      visit_namespaces_lists nss (visit_namespace lib api target policy_name s ns store).0 (
          and_then-none (visit_namespace lib api target policy_name s ns store)
            (visit_namespaces lib api target policy_name s nss) (rw e at h)),
    )
  ]

  -- After a run that reports no error, the same run again changes nothing and reports no error.
  pub update_cron_jobs_idempotent :
      (reader : Reader) (store : List CronJob)
      → (update_cron_jobs_for_policy lib reader api target policy_name s store).1 ≡ none
      → update_cron_jobs_for_policy lib reader api target policy_name s
          (update_cron_jobs_for_policy lib reader api target policy_name s store).0
        ≡ ((update_cron_jobs_for_policy lib reader api target policy_name s store).0, none)
  unfolding update_cron_jobs_for_policy
  update_cron_jobs_idempotent reader store q = elim (Option-cases reader.list_namespaces) [
    | inl e ↦ absurd (cc (rw e at q))
    | inr (items, e) ↦ elim (Bool-cases (any (λ k. kind_eq k cron_job) target.kinds)) [
      | inl f ↦
          let nss = matching_namespaces lib target.namespace_selector items in
          rw (e, f)
            (visit_namespaces_again nss (visit_namespaces lib api target policy_name s nss store).0
              (visit_namespaces_lists nss store (rw (e, f) at q))
              (visit_namespaces-settled lib api target policy_name s nss store (rw (e, f) at q)))
      | inr f ↦ rw (e, f)
    ]
  ]
