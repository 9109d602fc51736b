-- ===== src/GitOps/Flux/Run.antt =====
-- reconcileFlux of internal/gitops/flux.go: a run over all Kustomizations and HelmReleases.
use kube_freeze_operator.Common.{
  refl, String, Bool, Option, none, some, List, inl, inr, Option-cases, All2, All2-refl,
}
use kube_freeze_operator.Common.Results.{Result-cases}
use kube_freeze_operator.Api.Specs.{GitOpsFluxSpec, LabelSelector}
use kube_freeze_operator.External.{Library, Reader}
use kube_freeze_operator.GitOps.{
  ObjectApi, list_matching_namespaces, listing_selector, invalid_selector,
}
use kube_freeze_operator.GitOps.Frame.{SameOrMoved, visit_namespaces-Touched}
use kube_freeze_operator.GitOps.Flux.{
  Suspension, FluxObject, FluxStore, FluxApi, reconcile_flux_object, reconcile_flux_resources,
  reconcile_flux,
}
use kube_freeze_operator.GitOps.Flux.Switch.{HasSpec, reconcile_flux_object-Moves}

module _ (lib : Library) (policy_ref : String) where
  reconcile_flux_resources-frame :
      (api : ObjectApi Suspension) (selector : Option LabelSelector) (nss : List String)
      → (active : Bool) (objects : List FluxObject)
      → All2
          (SameOrMoved HasSpec policy_ref active)
          objects
          (reconcile_flux_resources lib api selector nss policy_ref active objects).objects
  unfolding reconcile_flux_resources
  reconcile_flux_resources-frame api selector nss active objects =
      elim (Result-cases (listing_selector lib selector invalid_selector)) [
        | inl (e, k) ↦
            rw (reconcile_flux_resources, k)
              (All2-refl (SameOrMoved HasSpec policy_ref active) (λ _. inl refl) objects)
        | inr (sel, k) ↦
            rw (reconcile_flux_resources, k)
              (visit_namespaces-Touched HasSpec api sel (reconcile_flux_object policy_ref active)
                policy_ref active (reconcile_flux_object-Moves policy_ref active) nss 0 objects)
      ]

  -- Whatever happens, errors included, a run leaves every Kustomization and every HelmRelease in its
  -- place as it was, or moves it: an active run from outside the policy's management into it, another
  -- run out of it. The name, namespace and labels stay.
  pub reconcile_flux-frame :
      (reader : Reader) (api : FluxApi) (spec : Option GitOpsFluxSpec) (active : Bool)
      (store : FluxStore)
      → All2
          (SameOrMoved HasSpec policy_ref active)
          store.kustomizations
          (reconcile_flux lib reader api spec policy_ref active store).store.kustomizations
        × All2
            (SameOrMoved HasSpec policy_ref active)
            store.helm_releases
            (reconcile_flux lib reader api spec policy_ref active store).store.helm_releases
  unfolding reconcile_flux
  reconcile_flux-frame reader api none active store =
      (same store.kustomizations, same store.helm_releases)
    where
      same : (os : List FluxObject) → All2 (SameOrMoved HasSpec policy_ref active) os os
      same = All2-refl (SameOrMoved HasSpec policy_ref active) (λ _. inl refl)
  reconcile_flux-frame reader api (some spec) active store =
      elim (Result-cases (list_matching_namespaces lib reader spec.namespace_selector)) [
        | inl (e, h) ↦ rw (reconcile_flux, h) (same store.kustomizations, same store.helm_releases)
        | inr (nss, h) ↦
            let ks =
              reconcile_flux_resources lib api.kustomization_api spec.kustomization_selector nss
                policy_ref active store.kustomizations in
            let frame =
              reconcile_flux_resources-frame api.kustomization_api spec.kustomization_selector nss
                active store.kustomizations in
            elim (Option-cases ks.error) [
              | inl k ↦
                  rw (reconcile_flux, h, k)
                    (
                      frame,
                      reconcile_flux_resources-frame api.helm_release_api spec.helm_release_selector
                          nss active store.helm_releases,
                    )
              | inr (e, k) ↦ rw (reconcile_flux, h, k) (frame, same store.helm_releases)
            ]
      ]
    where
      same : (os : List FluxObject) → All2 (SameOrMoved HasSpec policy_ref active) os os
      same = All2-refl (SameOrMoved HasSpec policy_ref active) (λ _. inl refl)
