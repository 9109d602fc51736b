-- ===== src/GitOps/ArgoCd.antt =====
-- internal/gitops/argocd.go: pausing and resuming Argo CD Applications.
pub mod Switch
pub mod Run
pub mod RoundTrip
pub mod Session
pub mod Edits
use kube_freeze_operator.Common.{
  String, Bool, true, false, not, ◌&&◌, Option, none, some, List, if◌then◌else◌,
}
use kube_freeze_operator.Common.Texts.{◌==◌}
use kube_freeze_operator.Common.Dict.{get}
use kube_freeze_operator.Common.Results.{err, ok}
use kube_freeze_operator.Api.Specs.{GitOpsArgoCdSpec}
use kube_freeze_operator.External.{Library, Reader}
use kube_freeze_operator.GitOps.{
  GitOpsObject, ObjectApi, GitOpsError, invalid_selector, Outcome, kept, written, refused,
  Reconciled, annotation_original_auto_sync, annotations_of, managed_by_us, paused_annotations,
  resumed_annotations, visit_namespaces, listing_selector, list_matching_namespaces,
}

-- A JSON object (a Go map of JSON values), by a text that stands for it.
abbrev pub Json : Type 0
Json = String

-- What stands at spec.syncPolicy.automated: nothing, an object, another value; or spec or its syncPolicy
-- is no object.
pub data Automated : Type 0 where
  absent : Automated
  object : Json → Automated
  other_value : Automated
  no_path : Automated

abbrev pub Application : Type 0
Application = GitOpsObject Automated

-- encoding/json's Marshal and Unmarshal on such objects.
pub record JsonCodec : Type 0 where
  pub marshal : Json → Option String
  pub unmarshal : String → Option Json

-- The text that records the state before the pause.
abbrev pub original_auto_sync : JsonCodec → Automated → Option String
original_auto_sync codec (object j) = codec.marshal j
original_auto_sync codec _ = some "null"

-- unstructured.RemoveNestedField.
abbrev pub remove_automated : Automated → Automated
remove_automated no_path = no_path
remove_automated _ = absent

-- unstructured.SetNestedMap; `none` is its error.
abbrev pub set_automated : Json → Automated → Option Automated
set_automated j no_path = none
set_automated j _ = some (object j)

-- The state after the switch's restoring case, if SetNestedMap reports no error.
unfoldable pub restored_automated : JsonCodec → String → Automated → Option Automated
restored_automated codec original_json automated =
    if not (original_json == "") && not (original_json == "null")
    then elim (codec.unmarshal original_json) [
      | none ↦ some automated
      | some j ↦ set_automated j automated
    ]
    else some automated

abbrev pub pause_app : JsonCodec → String → Application → Outcome Automated
pause_app codec policy_ref app = elim (original_auto_sync codec app.state) [
  | none ↦ refused
  | some original ↦
      written
        (record app {
          annotations = some (
              paused_annotations annotation_original_auto_sync original policy_ref
                (annotations_of app));
          state = remove_automated app.state;
        })
        true
]

abbrev pub resume_app : JsonCodec → Application → Outcome Automated
resume_app codec app =
    elim (restored_automated codec (get annotation_original_auto_sync (annotations_of app))
      app.state) [
        | none ↦ refused
        | some automated ↦
            written
              (record app {
                annotations =
                    some (resumed_annotations annotation_original_auto_sync (annotations_of app));
                state = automated;
              })
              false
      ]

unfoldable pub reconcile_argo_cd_app : JsonCodec → String → Bool → Application → Outcome Automated
reconcile_argo_cd_app codec policy_ref active app =
    if active && not (managed_by_us app policy_ref)
    then pause_app codec policy_ref app
    else if not active && managed_by_us app policy_ref
    then resume_app codec app
    else if active && managed_by_us app policy_ref
    then kept true
    else kept false

-- A run that ends before any object is seen.
abbrev pub unchanged : {S : Type 0} → List (GitOpsObject S) → Option GitOpsError → Reconciled S
unchanged objects e = record { objects = objects; paused_count = 0; error = e }

unfoldable pub reconcile_argo_cd :
    Library
    → Reader
    → ObjectApi Automated
    → JsonCodec
    → Option GitOpsArgoCdSpec
    → String
    → Bool
    → List Application
    → Reconciled Automated
reconcile_argo_cd lib reader api codec none policy_ref active apps = unchanged apps none
reconcile_argo_cd lib reader api codec (some spec) policy_ref active apps =
    elim (list_matching_namespaces lib reader spec.namespace_selector) [
      | err e ↦ unchanged apps (some e)
      | ok namespaces ↦ elim (listing_selector lib spec.application_selector invalid_selector) [
        | err e ↦ unchanged apps (some e)
        | ok selector ↦
            visit_namespaces api selector (reconcile_argo_cd_app codec policy_ref active) namespaces
              0 apps
      ]
    ]
