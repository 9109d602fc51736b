-- ===== src/GitOps/ArgoCd/Run.antt =====
-- reconcileArgoCD of internal/gitops/argocd.go: a run over all Applications.
use kube_freeze_operator.Common.{
  ◌≡◌, refl, String, Bool, true, Option, none, some, List, inl, inr, All, All2, All2-refl, Some,
  ◌∙◌, arith, ◌&&◌,
}
use kube_freeze_operator.Common.Texts.{◌==◌}
use kube_freeze_operator.Common.Dict.{Dict}
use kube_freeze_operator.Common.Results.{ok, Result-cases}
use kube_freeze_operator.Api.Specs.{GitOpsArgoCdSpec}
use kube_freeze_operator.External.{Library, Reader}
use kube_freeze_operator.GitOps.{
  ObjectApi, listed, is_listed, managed_by_us, list_matching_namespaces, listing_selector,
  invalid_selector,
}
use kube_freeze_operator.GitOps.Frame.{SameOrMoved, visit_namespaces-Touched}
use kube_freeze_operator.GitOps.Scope.{scope_count, visit_namespaces-Placed, visit_namespaces-count}
use kube_freeze_operator.GitOps.ArgoCd.{
  Automated, Application, JsonCodec, reconcile_argo_cd_app, reconcile_argo_cd,
}
use kube_freeze_operator.GitOps.ArgoCd.Switch.{RoundTrips, HasPath, reconcile_argo_cd_app-Moves}

module _ (lib : Library) (reader : Reader) (api : ObjectApi Automated) (codec : JsonCodec)
    (trips : RoundTrips codec) (policy_ref : String) where
  -- Whatever happens, errors included, with a JSON codec that reads back what it writes: a run
  -- leaves every Application in its place as it was, or moves it, an active run from outside the
  -- policy's management into it, another run out of it. The name, namespace and labels stay.
  pub reconcile_argo_cd-frame :
      (spec : Option GitOpsArgoCdSpec) (active : Bool) (apps : List Application)
      → All2
          (SameOrMoved HasPath policy_ref active)
          apps
          (reconcile_argo_cd lib reader api codec spec policy_ref active apps).objects
  unfolding reconcile_argo_cd
  reconcile_argo_cd-frame none active apps =
      All2-refl (SameOrMoved HasPath policy_ref active) (λ _. inl refl) apps
  reconcile_argo_cd-frame (some spec) active apps =
      elim (Result-cases (list_matching_namespaces lib reader spec.namespace_selector)) [
        | inl (e, h) ↦
            rw (reconcile_argo_cd, h)
              (All2-refl (SameOrMoved HasPath policy_ref active) (λ _. inl refl) apps)
        | inr (nss, h) ↦
            elim (Result-cases (listing_selector lib spec.application_selector invalid_selector)) [
              | inl (e, k) ↦
                  rw (reconcile_argo_cd, h, k)
                    (All2-refl (SameOrMoved HasPath policy_ref active) (λ _. inl refl) apps)
              | inr (sel, k) ↦
                  rw (reconcile_argo_cd, h, k)
                    (visit_namespaces-Touched HasPath api sel
                      (reconcile_argo_cd_app codec policy_ref active) policy_ref active
                      (reconcile_argo_cd_app-Moves codec trips policy_ref active) nss 0 apps)
            ]
      ]

  -- With a JSON codec that reads back what it writes, a run of an active policy that finds its
  -- namespaces and its selector, whose listings and updates all succeed, and whose Applications have
  -- objects at spec and syncPolicy, counts every Application in scope, and each of them is then
  -- managed by the policy.
  pub reconcile_argo_cd_pauses :
      (spec : GitOpsArgoCdSpec) (apps : List Application) (nss : List String)
      → (sel : Option (Dict → Bool))
      → list_matching_namespaces lib reader spec.namespace_selector ≡ ok nss
      → listing_selector lib spec.application_selector invalid_selector ≡ ok sel
      → All (λ ns. api.lists ns ≡ listed) nss
      → ((app : Application) → api.takes app ≡ true)
      → All HasPath apps
      → ((reconcile_argo_cd lib reader api codec (some spec) policy_ref true apps).paused_count
          ≡ scope_count sel nss apps)
        × All
            (λ app.
              Some (λ ns. (app.namespace == ns && is_listed sel app.labels) ≡ true) nss
              → managed_by_us app policy_ref ≡ true)
            (reconcile_argo_cd lib reader api codec (some spec) policy_ref true apps).objects
  unfolding reconcile_argo_cd
  reconcile_argo_cd_pauses spec apps nss sel h k l t g =
      rw (reconcile_argo_cd, h, k)
        (
          visit_namespaces-count HasPath api sel (reconcile_argo_cd_app codec policy_ref true)
                policy_ref true (reconcile_argo_cd_app-Moves codec trips policy_ref true) t nss 0
                apps l g
              ∙ omega arith,
          visit_namespaces-Placed HasPath api sel (reconcile_argo_cd_app codec policy_ref true)
              policy_ref true (reconcile_argo_cd_app-Moves codec trips policy_ref true) t nss 0 apps
              l g,
        )
