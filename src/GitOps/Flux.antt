-- ===== src/GitOps/Flux.antt =====
-- internal/gitops/flux.go: suspending and resuming Flux Kustomizations and HelmReleases.
pub mod Switch
pub mod Run
pub mod RoundTrip
pub mod Session
use kube_freeze_operator.Common.{
  ℕ, ◌+◌, String, Bool, true, false, not, ◌&&◌, Option, none, some, List, [], ◌∷◌, if◌then◌else◌,
}
use kube_freeze_operator.Common.Texts.{contains}
use kube_freeze_operator.Common.Dict.{get}
use kube_freeze_operator.Common.Results.{err, ok}
use kube_freeze_operator.Api.Specs.{GitOpsFluxSpec, LabelSelector}
use kube_freeze_operator.External.{Library, Reader}
use kube_freeze_operator.GitOps.{
  GitOpsObject, ObjectApi, GitOpsError, invalid_selector, Outcome, kept, written, refused,
  Reconciled, annotation_original_suspend, annotations_of, managed_by_us, paused_annotations,
  resumed_annotations, visit_namespaces, listing_selector, list_matching_namespaces,
}
use kube_freeze_operator.GitOps.ArgoCd.{unchanged}

-- What stands at spec.suspend: nothing, a Boolean, another value; or spec is no object.
pub data Suspension : Type 0 where
  absent : Suspension
  flag : Bool → Suspension
  other_value : Suspension
  no_path : Suspension

abbrev pub FluxObject : Type 0
FluxObject = GitOpsObject Suspension

-- unstructured.NestedBool, its error ignored.
abbrev pub nested_suspend : Suspension → Bool
nested_suspend (flag b) = b
nested_suspend _ = false

-- unstructured.SetNestedField; `none` is its error.
abbrev pub set_suspend : Bool → Suspension → Option Suspension
set_suspend b no_path = none
set_suspend b _ = some (flag b)

-- strconv.FormatBool.
abbrev pub format_bool : Bool → String
format_bool true = "true"
format_bool false = "false"

-- strconv.ParseBool.
abbrev pub parse_bool : String → Option Bool
parse_bool s =
    if contains ("1" ∷ "t" ∷ "T" ∷ "TRUE" ∷ "true" ∷ "True" ∷ []) s
    then some true
    else if contains ("0" ∷ "f" ∷ "F" ∷ "FALSE" ∷ "false" ∷ "False" ∷ []) s
    then some false
    else none

-- The value to restore, false if the annotation does not parse.
abbrev pub original_suspend : String → Bool
original_suspend s = elim (parse_bool s) [ none ↦ false | some b ↦ b ]

abbrev pub pause_object : String → FluxObject → Outcome Suspension
pause_object policy_ref object = elim (set_suspend true object.state) [
  | none ↦ refused
  | some suspension ↦
      written
        (record object {
          annotations = some (
              paused_annotations annotation_original_suspend
                (format_bool (nested_suspend object.state)) policy_ref (annotations_of object));
          state = suspension;
        })
        true
]

abbrev pub resume_object : FluxObject → Outcome Suspension
resume_object object =
    elim (set_suspend (original_suspend (get annotation_original_suspend (annotations_of object)))
      object.state) [
        | none ↦ refused
        | some suspension ↦
            written
              (record object {
                annotations =
                    some (resumed_annotations annotation_original_suspend (annotations_of object));
                state = suspension;
              })
              false
      ]

unfoldable pub reconcile_flux_object : String → Bool → FluxObject → Outcome Suspension
reconcile_flux_object policy_ref active object =
    if active && not (managed_by_us object policy_ref)
    then pause_object policy_ref object
    else if not active && managed_by_us object policy_ref
    then resume_object object
    else if active && managed_by_us object policy_ref
    then kept true
    else kept false

unfoldable pub reconcile_flux_resources :
    Library
    → ObjectApi Suspension
    → Option LabelSelector
    → List String
    → String
    → Bool
    → List FluxObject
    → Reconciled Suspension
reconcile_flux_resources lib api selector namespaces policy_ref active objects =
    elim (listing_selector lib selector invalid_selector) [
      | err e ↦ unchanged objects (some e)
      | ok matches ↦
          visit_namespaces api matches (reconcile_flux_object policy_ref active) namespaces 0
            objects
    ]

-- The Flux objects of the cluster, by kind.
pub record FluxStore : Type 0 where
  pub kustomizations : List FluxObject
  pub helm_releases : List FluxObject

pub record FluxApi : Type 0 where
  pub kustomization_api : ObjectApi Suspension
  pub helm_release_api : ObjectApi Suspension

pub record FluxReconciled : Type 0 where
  pub store : FluxStore
  pub paused_count : ℕ
  pub error : Option GitOpsError

-- A run that ends before the HelmReleases, with the Kustomizations that it leaves: the count is 0.
abbrev pub ended : FluxStore → List FluxObject → GitOpsError → FluxReconciled
ended store kustomizations e = record {
  store = record store { kustomizations = kustomizations };
  paused_count = 0;
  error = some e;
}

-- The HelmReleases, after the Kustomizations; an error leaves the count of the Kustomizations.
abbrev pub with_helm_releases :
    FluxStore → Reconciled Suspension → Reconciled Suspension → FluxReconciled
with_helm_releases store ks hs = elim ks.error [
  | some e ↦ ended store ks.objects e
  | none ↦ record {
    store = record { kustomizations = ks.objects; helm_releases = hs.objects };
    paused_count = elim hs.error [
      | none ↦ ks.paused_count + hs.paused_count
      | some e ↦ ks.paused_count
    ];
    error = hs.error;
  }
]

unfoldable pub reconcile_flux :
    Library → Reader → FluxApi → Option GitOpsFluxSpec → String → Bool → FluxStore → FluxReconciled
reconcile_flux lib reader api none policy_ref active store = record {
  store = store;
  paused_count = 0;
  error = none;
}
reconcile_flux lib reader api (some spec) policy_ref active store =
    elim (list_matching_namespaces lib reader spec.namespace_selector) [
      | err e ↦ record { store = store; paused_count = 0; error = some e }
      | ok namespaces ↦
          with_helm_releases store
            (reconcile_flux_resources lib api.kustomization_api spec.kustomization_selector
              namespaces policy_ref active store.kustomizations)
            (reconcile_flux_resources lib api.helm_release_api spec.helm_release_selector namespaces
              policy_ref active store.helm_releases)
    ]
