-- ===== src/Controller/CronJobs/Frame.antt =====
-- The loops of internal/controller/cronjob_helper.go over all CronJobs: what they may change.
use kube_freeze_operator.Common.{
  ◌≡◌, subst, ◌⊎◌, inl, inr, refl, sym, ◌∙◌, String, Bool, Option, none, some, List, [], ◌∷◌,
  Bool-cases, Option-cases, All2, All2-refl, All2-trans, any,
}
use kube_freeze_operator.Common.Texts.{◌==◌}
use kube_freeze_operator.Api.Kinds.{cron_job, kind_eq}
use kube_freeze_operator.Api.Specs.{TargetSpec}
use kube_freeze_operator.External.{Library, Reader}
use kube_freeze_operator.Controller.CronJobs.{
  CronJob, CronApi, CronError, visit, write_back, and_then, visit_namespace, visit_namespaces,
  matching_namespaces, update_cron_jobs_for_policy,
}
use kube_freeze_operator.Controller.CronJobs.Visit.{Changed, visit-Changed, visit-none}

module _ (lib : Library) (api : CronApi) (target : TargetSpec) (policy_name : String)
    (s : Bool) where
  -- An entry after the loop: as it was, or changed.
  abbrev pub Touched : CronJob → CronJob → Type 0
  Touched cron cron' = (cron' ≡ cron) ⊎ Changed lib target policy_name s cron cron'

  -- Nothing is left to write for the entry.
  abbrev pub Settled : CronJob → Type 0
  Settled cron = visit lib target policy_name s cron ≡ none

  abbrev pub SettledIn : String → CronJob → Type 0
  SettledIn ns cron = cron.namespace ≡ ns → Settled cron

  Touched-trans : (a b c : CronJob) → Touched a b → Touched b c → Touched a c
  Touched-trans a b c (inl p) (inl q) = inl (q ∙ p)
  Touched-trans a b c (inl p) (inr k) = inr (subst (λ x. Changed lib target policy_name s x c) p k)
  Touched-trans a b c (inr k) (inl q) = inr (subst (Changed lib target policy_name s a) (sym q) k)
  Touched-trans a b c (inr k) (inr l) = inr (record {
    in_scope = k.in_scope;
    suspends = l.suspends;
    manages = l.manages;
    same_namespace = l.same_namespace ∙ k.same_namespace;
    same_name = l.same_name ∙ k.same_name;
    same_labels = l.same_labels ∙ k.same_labels;
  })

  pub Changed-Settled : (a b : CronJob) → Changed lib target policy_name s a b → Settled b
  Changed-Settled a b k = visit-none lib target policy_name s b k.suspends

  pub Touched-settled :
      (ns : String) (a b : CronJob) → Touched a b → SettledIn ns a → SettledIn ns b
  Touched-settled ns a b (inl p) k = subst (SettledIn ns) (sym p) k
  Touched-settled ns a b (inr c) k = λ _. Changed-Settled a b c

  write_back-Touched :
      (cron : CronJob) (crons : List CronJob) (rest : List CronJob × Option CronError)
      → (o : Option CronJob) → visit lib target policy_name s cron ≡ o
      → All2 Touched crons rest.0
      → All2 Touched (cron ∷ crons) (write_back api o cron crons rest).0
  write_back-Touched cron crons (xs, e) none h k = (inl refl, k)
  write_back-Touched cron crons (xs, e) (some cron') h k = elim (Bool-cases (api.takes cron')) [
    | inl t ↦ rw t (inr (visit-Changed lib target policy_name s cron cron' h), k)
    | inr t ↦ rw t (All2-refl Touched (λ _. inl refl) (cron ∷ crons))
  ]

  visit_namespace-Touched :
      (ns : String) (store : List CronJob)
      → All2 Touched store (visit_namespace lib api target policy_name s ns store).0
  unfolding visit_namespace
  visit_namespace-Touched ns [] = tt
  visit_namespace-Touched ns (cron ∷ crons) = elim (Bool-cases (cron.namespace == ns)) [
    | inl e ↦ rw e (
        write_back-Touched cron crons (visit_namespace lib api target policy_name s ns crons)
          (visit lib target policy_name s cron) refl (visit_namespace-Touched ns crons))
    | inr e ↦ rw e (inl refl, visit_namespace-Touched ns crons)
  ]

  and_then-Touched :
      (next : List CronJob → List CronJob × Option CronError)
      → ((xs : List CronJob) → All2 Touched xs (next xs).0)
      → (store : List CronJob) (r : List CronJob × Option CronError) → All2 Touched store r.0
      → All2 Touched store (and_then r next).0
  and_then-Touched next f store (xs, some e) k = k
  and_then-Touched next f store (xs, none) k =
      All2-trans Touched Touched-trans store xs (next xs).0 k (f xs)

  pub visit_namespaces-Touched :
      (nss : List String) (store : List CronJob)
      → All2 Touched store (visit_namespaces lib api target policy_name s nss store).0
  unfolding visit_namespaces
  visit_namespaces-Touched [] store = All2-refl Touched (λ _. inl refl) store
  visit_namespaces-Touched (ns ∷ nss) store = elim (Bool-cases (api.lists ns)) [
    | inr e ↦ rw e (All2-refl Touched (λ _. inl refl) store)
    | inl e ↦ rw e (
        and_then-Touched (visit_namespaces lib api target policy_name s nss)
          (visit_namespaces-Touched nss) store
          (visit_namespace lib api target policy_name s ns store)
          (visit_namespace-Touched ns store))
  ]

  pub update_cron_jobs-Touched :
      (reader : Reader) (store : List CronJob)
      → All2 Touched store (update_cron_jobs_for_policy lib reader api target policy_name s store).0
  unfolding update_cron_jobs_for_policy
  update_cron_jobs-Touched reader store = elim (Option-cases reader.list_namespaces) [
    | inl e ↦ rw e (All2-refl Touched (λ _. inl refl) store)
    | inr (items, e) ↦ elim (Bool-cases (any (λ k. kind_eq k cron_job) target.kinds)) [
      | inl f ↦
          rw (e, f)
            (visit_namespaces-Touched (matching_namespaces lib target.namespace_selector items)
              store)
      | inr f ↦ rw (e, f) (All2-refl Touched (λ _. inl refl) store)
    ]
  ]
