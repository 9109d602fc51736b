-- ===== src/GitOps/Reconciler.antt =====
-- internal/gitops/reconciler.go: the providers of a policy, one after the other.
pub mod Frame
use kube_freeze_operator.Common.{
  ℕ, ◌+◌, String, Bool, not, Option, none, some, List, [], ◌∷◌, ◌++◌, any, if◌then◌else◌,
}
use kube_freeze_operator.Api.Kinds.{is_argocd, is_flux}
use kube_freeze_operator.Api.Specs.{GitOpsSpec}
use kube_freeze_operator.External.{Library, Reader}
use kube_freeze_operator.GitOps.{ObjectApi, GitOpsError, Reconciled}
use kube_freeze_operator.GitOps.ArgoCd.{Application, Automated, JsonCodec, reconcile_argo_cd}
use kube_freeze_operator.GitOps.Flux.{FluxStore, FluxApi, FluxReconciled, reconcile_flux}

-- The objects of both providers, and how the API server answers for them.
pub record GitOpsStore : Type 0 where
  pub applications : List Application
  pub flux : FluxStore

pub record GitOpsApi : Type 0 where
  pub application_api : ObjectApi Automated
  pub flux_api : FluxApi
  pub codec : JsonCodec

-- The names of the providers that an error comes with.
pub data ProviderError : Type 0 where
  argocd_failed : GitOpsError → ProviderError
  flux_failed : GitOpsError → ProviderError

-- The objects that are left, the count of paused objects, the time, and the errors that are joined.
pub record GitOpsResult : Type 0 where
  pub store : GitOpsStore
  pub paused_count : ℕ
  pub reconcile_time : ℕ
  pub errors : List ProviderError

abbrev pub errors_of : (GitOpsError → ProviderError) → Option GitOpsError → List ProviderError
errors_of f none = []
errors_of f (some e) = f e ∷ []

abbrev pub after_argo_cd : Reconciled Automated → GitOpsResult → GitOpsResult
after_argo_cd apps result = record {
  store = record { applications = apps.objects; flux = result.store.flux };
  paused_count = result.paused_count + apps.paused_count;
  reconcile_time = result.reconcile_time;
  errors = result.errors ++ errors_of argocd_failed apps.error;
}

abbrev pub after_flux : FluxReconciled → GitOpsResult → GitOpsResult
after_flux objects result = record {
  store = record { applications = result.store.applications; flux = objects.store };
  paused_count = result.paused_count + objects.paused_count;
  reconcile_time = result.reconcile_time;
  errors = result.errors ++ errors_of flux_failed objects.error;
}

abbrev pub started : ℕ → GitOpsStore → GitOpsResult
started now store = record { store = store; paused_count = 0; reconcile_time = now; errors = [] }

unfoldable pub reconcile_providers :
    Library → Reader → GitOpsApi → ℕ → GitOpsSpec → String → Bool → GitOpsStore → GitOpsResult
reconcile_providers lib reader api now gitops policy_ref active store =
    let apps =
      if any is_argocd gitops.providers
      then after_argo_cd
          (reconcile_argo_cd lib reader api.application_api api.codec gitops.argocd policy_ref
            active store.applications)
          (started now store)
      else started now store in
    if any is_flux gitops.providers
    then after_flux
        (reconcile_flux lib reader api.flux_api gitops.flux policy_ref active store.flux) apps
    else apps

unfoldable pub reconcile_git_ops :
    Library
    → Reader
    → GitOpsApi
    → ℕ
    → Option GitOpsSpec
    → String
    → Bool
    → GitOpsStore
    → GitOpsResult
reconcile_git_ops lib reader api now none policy_ref active store = started now store
reconcile_git_ops lib reader api now (some gitops) policy_ref active store =
    if not gitops.enabled
    then started now store
    else reconcile_providers lib reader api now gitops policy_ref active store
