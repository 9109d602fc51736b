-- ===== src/Examples/FluxRuns.antt =====
-- The theorems about Flux objects at the test data.
use kube_freeze_operator.Common.{◌≡◌, ◌≢◌, refl, String, true, false, none, [], ◌∷◌}
use kube_freeze_operator.Common.Texts.{eq_iff}
use kube_freeze_operator.Api.Specs.{GitOpsFluxSpec}
use kube_freeze_operator.GitOps.{
  listed, no_match, annotations_of, annotation_original_suspend, kept, written,
}
use kube_freeze_operator.GitOps.Marks.{Unmarked}
use kube_freeze_operator.GitOps.Flux.{
  absent, flag, FluxObject, FluxStore, FluxApi, reconcile_flux_object,
}
use kube_freeze_operator.GitOps.Flux.Switch.{HasSpec}
use kube_freeze_operator.GitOps.Flux.RoundTrip.{reconcile_flux_object-stays_suspended}
use kube_freeze_operator.Common.{◌⊎◌}
use kube_freeze_operator.GitOps.{managed_by_us}
use kube_freeze_operator.GitOps.Session.{after_run, Session, here, later, own_run}
use kube_freeze_operator.GitOps.Flux.Session.{Restored, reconcile_flux_object-Session}
use kube_freeze_operator.Examples.{labels}

abbrev flux_api : FluxApi
flux_api = record {
  kustomization_api = record { lists = λ ns. listed; takes = λ object. true };
  helm_release_api = record { lists = λ ns. no_match; takes = λ object. true };
}

abbrev flux_spec : GitOpsFluxSpec
flux_spec = record {
  kustomization_selector = none;
  helm_release_selector = none;
  namespace_selector = none;
}

abbrev apps : FluxObject
apps = record {
  namespace = "prod";
  name = "apps";
  labels = labels;
  annotations = none;
  state = absent;
}

abbrev store : FluxStore
store = record { kustomizations = apps ∷ []; helm_releases = [] }

apps-HasSpec : HasSpec apps
apps-HasSpec e = absurd (cc)

apps-Unmarked : Unmarked annotation_original_suspend (annotations_of apps)
apps-Unmarked = record { no_managed = refl; no_policy = refl; no_original = refl }

policies_differ : ◌≢◌ {A = String} "release" "audit"
policies_differ e = absurd (cc ((eq_iff "release" "audit").1 e))

reconcile_flux_object-stays_suspended_example :
    (paused : FluxObject) × (paused_twice : FluxObject) × (resumed : FluxObject)
    × (reconcile_flux_object "release" true apps ≡ written paused true)
    × (reconcile_flux_object "audit" true paused ≡ written paused_twice true)
    × (reconcile_flux_object "release" false paused_twice ≡ kept false)
    × (reconcile_flux_object "audit" false paused_twice ≡ written resumed false)
    × (resumed.state ≡ flag true)
reconcile_flux_object-stays_suspended_example =
    reconcile_flux_object-stays_suspended "release" "audit" apps policies_differ apps-HasSpec
      apps-Unmarked

-- The policy suspends the object, and its end is not taken.
abbrev suspended : FluxObject
suspended =
    after_run
      (reconcile_flux_object "release" false
        (after_run (reconcile_flux_object "release" true apps) true apps))
      false (after_run (reconcile_flux_object "release" true apps) true apps)

in-Session : Session reconcile_flux_object "release" apps suspended
in-Session = later (later here (own_run true true)) (own_run false false)

reconcile_flux_object-Session_example :
    (Restored apps suspended
      ⊎ ((managed_by_us suspended "release" ≡ true) × (suspended.state ≡ flag true)))
    × Restored apps (after_run (reconcile_flux_object "release" false suspended) true suspended)
reconcile_flux_object-Session_example =
    reconcile_flux_object-Session "release" apps apps-HasSpec apps-Unmarked suspended in-Session
