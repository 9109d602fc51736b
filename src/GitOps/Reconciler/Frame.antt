-- ===== src/GitOps/Reconciler/Frame.antt =====
-- Reconcile of internal/gitops/reconciler.go: what a run leaves of all GitOps objects.
use kube_freeze_operator.Common.{
  ℕ, ◌+◌, ◌≡◌, refl, inl, inr, String, Bool, true, false, Option, none, some, List, ◌++◌, any, All2,
  All2-refl, All2-map, subst, sym, arith, Bool-cases, if◌then◌else◌,
}
use kube_freeze_operator.Api.Kinds.{is_argocd, is_flux}
use kube_freeze_operator.Api.Specs.{GitOpsSpec}
use kube_freeze_operator.External.{Library, Reader}
use kube_freeze_operator.GitOps.Frame.{SameOrMoved}
use kube_freeze_operator.GitOps.ArgoCd.{reconcile_argo_cd}
use kube_freeze_operator.GitOps.ArgoCd.Switch.{RoundTrips, HasPath}
use kube_freeze_operator.GitOps.ArgoCd.Run.{reconcile_argo_cd-frame}
use kube_freeze_operator.GitOps.Flux.{reconcile_flux}
use kube_freeze_operator.GitOps.Flux.Switch.{HasSpec}
use kube_freeze_operator.GitOps.Flux.Run.{reconcile_flux-frame}
use kube_freeze_operator.GitOps.Reconciler.{
  GitOpsStore, GitOpsApi, argocd_failed, flux_failed, errors_of, reconcile_providers,
  reconcile_git_ops,
}

-- The policy's GitOps behaviour is there, enabled, and lists a provider.
abbrev pub uses : (GitOpsSpec → Bool) → Option GitOpsSpec → Bool
uses provider none = false
uses provider (some g) = if g.enabled then provider g else false

abbrev pub uses_argocd : Option GitOpsSpec → Bool
uses_argocd = uses (λ g. any is_argocd g.providers)

abbrev pub uses_flux : Option GitOpsSpec → Bool
uses_flux = uses (λ g. any is_flux g.providers)

-- The objects of a provider after a run: as they were if the policy does not use it, else in place as
-- they were or moved.
abbrev pub Kept : {A : Type 0} → Bool → (A → A → Type 0) → List A → List A → Type 0
Kept false P xs ys = ys ≡ xs
Kept true P xs ys = All2 P xs ys

-- What is kept, in a list that is not used or that is.
pub Kept-All2 :
    {A : Type 0} (used : Bool) (R S : A → A → Type 0)
    → ((x : A) → S x x)
    → ((x y : A) → R x y → S x y)
    → (xs ys : List A) → Kept used R xs ys
    → All2 S xs ys
Kept-All2 false R S same f xs ys h = subst (All2 S xs) (sym h) (All2-refl S same xs)
Kept-All2 true R S same f xs ys h = All2-map R S f xs ys h

-- What a run owes: each object is kept or moved, and only by the providers in use.
abbrev pub KeepsObjects : String → Bool → GitOpsStore → Bool → Bool → GitOpsStore → Type 0
KeepsObjects policy_ref active store argo flux store' =
    Kept argo (SameOrMoved HasPath policy_ref active) store.applications store'.applications
    × Kept flux (SameOrMoved HasSpec policy_ref active) store.flux.kustomizations
        store'.flux.kustomizations
    × Kept flux (SameOrMoved HasSpec policy_ref active) store.flux.helm_releases
        store'.flux.helm_releases

module _ (lib : Library) (reader : Reader) (api : GitOpsApi) (trips : RoundTrips api.codec)
    (now : ℕ) (policy_ref : String) (active : Bool) (store : GitOpsStore) where
  providers_keep :
      (g : GitOpsSpec) (argo flux : Bool)
      → any is_argocd g.providers ≡ argo
      → any is_flux g.providers ≡ flux
      → KeepsObjects policy_ref active store argo flux
          (reconcile_providers lib reader api now g policy_ref active store).store
  unfolding reconcile_providers
  providers_keep g true true a f =
      let k = reconcile_flux-frame lib policy_ref reader api.flux_api g.flux active store.flux in
      rw (reconcile_providers, a, f)
        (
          reconcile_argo_cd-frame lib reader api.application_api api.codec trips policy_ref g.argocd
              active store.applications,
          k.0,
          k.1,
        )
  providers_keep g true false a f =
      rw (reconcile_providers, a, f)
        (
          reconcile_argo_cd-frame lib reader api.application_api api.codec trips policy_ref g.argocd
              active store.applications,
          refl,
          refl,
        )
  providers_keep g false true a f =
      let k = reconcile_flux-frame lib policy_ref reader api.flux_api g.flux active store.flux in
      rw (reconcile_providers, a, f) (refl, k.0, k.1)
  providers_keep g false false a f = rw (reconcile_providers, a, f) (refl, refl, refl)

-- With a JSON codec that reads back what it writes, whatever happens, errors of either provider
-- included: a run of a policy changes the Applications only if its GitOps behaviour is enabled and lists
-- Argo CD, and the Kustomizations and HelmReleases only if it lists Flux; then each object stays in its
-- place, as it was or moved, by an active run into the policy's management, by another out of it.
pub reconcile_git_ops-frame :
    (lib : Library) (reader : Reader) (api : GitOpsApi) (trips : RoundTrips api.codec) (now : ℕ)
    (spec : Option GitOpsSpec) (policy_ref : String) (active : Bool) (store : GitOpsStore)
    → KeepsObjects policy_ref active store
        (uses_argocd spec)
        (uses_flux spec)
        (reconcile_git_ops lib reader api now spec policy_ref active store).store
unfolding reconcile_git_ops reconcile_providers
reconcile_git_ops-frame lib reader api trips now none policy_ref active store = (refl, refl, refl)
reconcile_git_ops-frame lib reader api trips now (some g) policy_ref active store =
    elim (Bool-cases g.enabled) [
      | inr e ↦ rw e (refl, refl, refl)
      | inl e ↦ rw e (
          providers_keep lib reader api trips now policy_ref active store g
            (any is_argocd g.providers) (any is_flux g.providers) refl refl)
    ]

-- A run counts the objects of both providers and reports the errors of both: an error of Argo CD does
-- not keep Flux from its run.
pub reconcile_git_ops-sums :
    (lib : Library) (reader : Reader) (api : GitOpsApi) (now : ℕ) (g : GitOpsSpec)
    (policy_ref : String) (active : Bool) (store : GitOpsStore)
    → g.enabled ≡ true
    → any is_argocd g.providers ≡ true
    → any is_flux g.providers ≡ true
    → let apps =
        reconcile_argo_cd lib reader api.application_api api.codec g.argocd policy_ref active
          store.applications in
      let objects = reconcile_flux lib reader api.flux_api g.flux policy_ref active store.flux in
      let r = reconcile_git_ops lib reader api now (some g) policy_ref active store in
      (r.paused_count ≡ apps.paused_count + objects.paused_count)
      × (r.errors ≡ errors_of argocd_failed apps.error ++ errors_of flux_failed objects.error)
      × (r.store.applications ≡ apps.objects)
      × (r.store.flux ≡ objects.store)
unfolding reconcile_git_ops reconcile_providers
reconcile_git_ops-sums lib reader api now g policy_ref active store e a f =
    rw (reconcile_git_ops, e, reconcile_providers, a, f) (omega arith, refl, refl, refl)
