-- ===== src/Controller/CronJobs/Convergence.antt =====
-- The loops of internal/controller/cronjob_helper.go over all CronJobs: what a run that succeeds gives.
use kube_freeze_operator.Common.{
  ◌≡◌, All-zip, All-every, inl, inr, refl, sym, String, Bool, true, Option, none, some, List, [],
  ◌∷◌, Bool-cases, All, Some, All-along, All-map, any,
}
use kube_freeze_operator.Common.Texts.{◌==◌, eq_iff}
use kube_freeze_operator.Api.Kinds.{cron_job, kind_eq}
use kube_freeze_operator.Api.Specs.{TargetSpec}
use kube_freeze_operator.Api.Objects.{Namespace}
use kube_freeze_operator.External.{Library, Reader}
use kube_freeze_operator.Controller.CronJobs.{
  CronJob, CronApi, CronError, matches_selector, visit, write_back, and_then, visit_namespace,
  visit_namespaces, matching_namespaces, update_cron_jobs_for_policy,
}
use kube_freeze_operator.Controller.CronJobs.Visit.{InScope, visit-Changed, visit-settled}
use kube_freeze_operator.Controller.CronJobs.Frame.{
  Touched, Settled, SettledIn, Touched-settled, Changed-Settled, visit_namespaces-Touched,
}

module _ (lib : Library) (api : CronApi) (target : TargetSpec) (policy_name : String)
    (s : Bool) where
  write_back-settled :
      (ns : String) (cron : CronJob) (crons : List CronJob)
      → (rest : List CronJob × Option CronError) (o : Option CronJob)
      → visit lib target policy_name s cron ≡ o
      → (rest.1 ≡ none → All (SettledIn lib api target policy_name s ns) rest.0)
      → (write_back api o cron crons rest).1 ≡ none
      → All (SettledIn lib api target policy_name s ns) (write_back api o cron crons rest).0
  write_back-settled ns cron crons (xs, e) none h k q = (λ _. h, k q)
  write_back-settled ns cron crons (xs, e) (some cron') h k q =
      elim (Bool-cases (api.takes cron')) [
        | inl t ↦ rw t (
          λ _.
              Changed-Settled lib api target policy_name s cron cron'
                (visit-Changed lib target policy_name s cron cron' h),
          k (rw t at q),
        )
        | inr t ↦ absurd (cc (rw t at q))
      ]

  visit_namespace-settled :
      (ns : String) (store : List CronJob)
      → (visit_namespace lib api target policy_name s ns store).1 ≡ none
      → All
          (SettledIn lib api target policy_name s ns)
          (visit_namespace lib api target policy_name s ns store).0
  unfolding visit_namespace
  visit_namespace-settled ns [] q = tt
  visit_namespace-settled ns (cron ∷ crons) q = elim (Bool-cases (cron.namespace == ns)) [
    | inl e ↦ rw e (
        write_back-settled ns cron crons (visit_namespace lib api target policy_name s ns crons)
          (visit lib target policy_name s cron) refl (visit_namespace-settled ns crons) (rw e at q))
    | inr e ↦ rw e (
      λ p. absurd (cc (e, (eq_iff cron.namespace ns).1 p)),
      visit_namespace-settled ns crons (rw e at q),
    )
  ]

  abbrev pub SettledAmong : List String → CronJob → Type 0
  SettledAmong nss cron =
      Some (λ ns. ns ≡ cron.namespace) nss → Settled lib api target policy_name s cron

  SettledAmong-cons :
      (ns : String) (nss : List String) (cron : CronJob)
      → SettledIn lib api target policy_name s ns cron
      → SettledAmong nss cron
      → SettledAmong (ns ∷ nss) cron
  SettledAmong-cons ns nss cron h k (inl p) = h (sym p)
  SettledAmong-cons ns nss cron h k (inr m) = k m

  and_then-settled :
      (ns : String) (nss : List String) (r : List CronJob × Option CronError)
      → (r.1 ≡ none → All (SettledIn lib api target policy_name s ns) r.0)
      → ((xs : List CronJob)
          → (visit_namespaces lib api target policy_name s nss xs).1 ≡ none
          → All (SettledAmong nss) (visit_namespaces lib api target policy_name s nss xs).0)
      → (and_then r (visit_namespaces lib api target policy_name s nss)).1 ≡ none
      → All
          (SettledAmong (ns ∷ nss))
          (and_then r (visit_namespaces lib api target policy_name s nss)).0
  and_then-settled ns nss (xs, some e) h f q = absurd (cc)
  and_then-settled ns nss (xs, none) h f q =
      let after = (visit_namespaces lib api target policy_name s nss xs).0 in
      All-zip (SettledIn lib api target policy_name s ns) (SettledAmong nss)
        (SettledAmong (ns ∷ nss)) (SettledAmong-cons ns nss) after
        (All-along (Touched lib api target policy_name s)
          (SettledIn lib api target policy_name s ns)
          (Touched-settled lib api target policy_name s ns) xs after
          (visit_namespaces-Touched lib api target policy_name s nss xs) (h refl))
        (f xs q)

  pub visit_namespaces-settled :
      (nss : List String) (store : List CronJob)
      → (visit_namespaces lib api target policy_name s nss store).1 ≡ none
      → All (SettledAmong nss) (visit_namespaces lib api target policy_name s nss store).0
  unfolding visit_namespaces
  visit_namespaces-settled [] store q = All-every (SettledAmong []) (λ c m. absurd m) store
  visit_namespaces-settled (ns ∷ nss) store q = elim (Bool-cases (api.lists ns)) [
    | inr e ↦ absurd (cc (rw e at q))
    | inl e ↦ rw e (
        and_then-settled ns nss (visit_namespace lib api target policy_name s ns store)
          (visit_namespace-settled ns store) (visit_namespaces-settled nss) (rw e at q))
  ]

  matching_namespaces_intro :
      (ns : String) (items : List Namespace)
      → Some
          (λ n. (n.name ≡ ns) × (matches_selector lib target.namespace_selector n.labels ≡ true))
          items
      → Some (λ m. m ≡ ns) (matching_namespaces lib target.namespace_selector items)
  unfolding matching_namespaces
  matching_namespaces_intro ns [] h = h
  matching_namespaces_intro ns (n ∷ items) (inl h) = rw h.1 (inl h.0)
  matching_namespaces_intro ns (n ∷ items) (inr h) =
      elim (Bool-cases (matches_selector lib target.namespace_selector n.labels)) [
        | inl e ↦ rw e (inr (matching_namespaces_intro ns items h))
        | inr e ↦ rw e (matching_namespaces_intro ns items h)
      ]

  -- The namespace of the CronJob is listed and its labels match the policy's namespace selector.
  abbrev pub InMatching : List Namespace → CronJob → Type 0
  InMatching items cron =
      Some
        (λ n.
          (n.name ≡ cron.namespace)
          × (matches_selector lib target.namespace_selector n.labels ≡ true))
        items

  abbrev pub Converged : List Namespace → CronJob → Type 0
  Converged items cron =
      InMatching items cron → InScope lib target policy_name s cron → cron.suspend ≡ some s

  -- If the namespaces can be listed, the policy covers CronJobs and the run reports no error, then
  -- every CronJob of a matching namespace that the policy selects and no other policy manages has
  -- the wanted suspend state.
  pub update_cron_jobs_converges :
      (reader : Reader) (items : List Namespace) (store : List CronJob)
      → reader.list_namespaces ≡ some items
      → any (λ k. kind_eq k cron_job) target.kinds ≡ true
      → (update_cron_jobs_for_policy lib reader api target policy_name s store).1 ≡ none
      → All
          (Converged items)
          (update_cron_jobs_for_policy lib reader api target policy_name s store).0
  unfolding update_cron_jobs_for_policy
  update_cron_jobs_converges reader items store e f q =
      rw (e, f)
        (All-map (SettledAmong nss) (Converged items)
          (λ cron h m k.
            visit-settled lib target policy_name s cron
              (h (matching_namespaces_intro cron.namespace items m)) k)
          (visit_namespaces lib api target policy_name s nss store).0
          (visit_namespaces-settled nss store (rw (e, f) at q)))
    where
      nss : List String
      nss = matching_namespaces lib target.namespace_selector items
