-- ===== src/GitOps.antt =====
-- internal/gitops: the annotations (annotations.go), the objects that the operator pauses, and the loop
-- over namespaces and objects that argocd.go and flux.go both have. `S` is the part of an object's spec
-- that pausing changes.
pub mod ArgoCd
pub mod Flux
pub mod Reconciler
pub mod Frame
pub mod Marks
pub mod Scope
pub mod Session
use kube_freeze_operator.Common.{
  ℕ, ◌+◌, String, Bool, true, false, not, ◌&&◌, Option, none, some, List, [], ◌∷◌, if◌then◌else◌,
}
use kube_freeze_operator.Common.Texts.{◌==◌}
use kube_freeze_operator.Common.Dict.{Dict, get, put, delete}
use kube_freeze_operator.Common.Results.{Result, ok, err}
use kube_freeze_operator.Api.Specs.{LabelSelector}
use kube_freeze_operator.Api.Objects.{Namespace}
use kube_freeze_operator.External.{Library, Reader}
use kube_freeze_operator.Policy.Selectors.{label_set}

abbrev pub annotation_managed : String
annotation_managed = "freeze-operator.io/managed"

abbrev pub annotation_managed_by_policy : String
annotation_managed_by_policy = "freeze-operator.io/managed-by-policy"

abbrev pub annotation_original_auto_sync : String
annotation_original_auto_sync = "freeze-operator.io/original-autosync"

abbrev pub annotation_original_suspend : String
annotation_original_suspend = "freeze-operator.io/original-suspend"

abbrev pub annotation_managed_value : String
annotation_managed_value = "true"

pub record GitOpsObject (S : Type 0) : Type 0 where
  pub namespace : String
  pub name : String
  pub labels : Option Dict
  pub annotations : Option Dict
  pub state : S

-- What a listing of a kind in a namespace answers: its objects, that the kind is not installed, or
-- another error.
pub data ListAnswer : Type 0 where
  listed : ListAnswer
  no_match : ListAnswer
  list_failed : ListAnswer

-- What the API server does with a listing, and whether it takes an update.
pub record ObjectApi (S : Type 0) : Type 0 where
  pub lists : String → ListAnswer
  pub takes : GitOpsObject S → Bool

pub data GitOpsError : Type 0 where
  invalid_namespace_selector : GitOpsError
  list_namespaces_failed : GitOpsError
  invalid_selector : GitOpsError
  list_objects_failed : String → GitOpsError

-- The switch for one object: nothing is written, an update is sent, or an error comes before that. The
-- flag tells whether the object is then counted as paused.
pub data Outcome (S : Type 0) : Type 0 where
  kept : Bool → Outcome S
  written : GitOpsObject S → Bool → Outcome S
  refused : Outcome S

-- What a run leaves: the objects, the count and the error.
pub record Reconciled (S : Type 0) : Type 0 where
  pub objects : List (GitOpsObject S)
  pub paused_count : ℕ
  pub error : Option GitOpsError

abbrev pub annotations_of : {S : Type 0} → GitOpsObject S → Dict
annotations_of object = label_set object.annotations

abbrev pub managed_by_us : {S : Type 0} → GitOpsObject S → String → Bool
managed_by_us object policy_ref =
    get annotation_managed (annotations_of object) == annotation_managed_value
    && get annotation_managed_by_policy (annotations_of object) == policy_ref

-- The annotations of an object that is paused, with its original value under the key.
abbrev pub paused_annotations : String → String → String → Dict → Dict
paused_annotations key original policy_ref annotations =
    put annotation_managed_by_policy policy_ref
      (put annotation_managed annotation_managed_value (put key original annotations))

-- The annotations of an object that is resumed.
abbrev pub resumed_annotations : String → Dict → Dict
resumed_annotations key annotations =
    delete key (delete annotation_managed_by_policy (delete annotation_managed annotations))

abbrev pub count : Bool → ℕ
count true = 1
count false = 0

-- An object's selection by the label selector of the listing; no selector selects everything.
abbrev pub is_listed : Option (Dict → Bool) → Option Dict → Bool
is_listed none labels = true
is_listed (some matches) labels = matches (label_set labels)

-- One object after the loop's body, in front of the rest. An update that fails is logged, and the loop
-- goes on.
abbrev pub settle :
    {S : Type 0}
    → ObjectApi S
    → GitOpsObject S
    → Outcome S
    → List (GitOpsObject S) × ℕ
    → List (GitOpsObject S) × ℕ
settle api object (kept paused) (objects, n) = (object ∷ objects, count paused + n)
settle api object (written object' paused) (objects, n) =
    if api.takes object' then (object' ∷ objects, count paused + n) else (object ∷ objects, n)
settle api object refused (objects, n) = (object ∷ objects, n)

-- The loop over the objects that are listed in a namespace, along all objects of the kind.
unfoldable pub visit_objects :
    {S : Type 0}
    → ObjectApi S
    → Option (Dict → Bool)
    → (GitOpsObject S → Outcome S)
    → String
    → List (GitOpsObject S)
    → List (GitOpsObject S) × ℕ
visit_objects api selector step ns [] = ([], 0)
visit_objects api selector step ns (object ∷ objects) =
    let rest = visit_objects api selector step ns objects in
    if object.namespace == ns && is_listed selector object.labels
    then settle api object (step object) rest
    else (object ∷ rest.0, rest.1)

-- The loop over the namespaces, with the count so far. A kind that is not installed ends it with the
-- count 0, another error with the count so far.
unfoldable pub visit_namespaces :
    {S : Type 0}
    → ObjectApi S
    → Option (Dict → Bool)
    → (GitOpsObject S → Outcome S)
    → List String
    → ℕ
    → List (GitOpsObject S)
    → Reconciled S
visit_namespaces api selector step [] total objects = record {
  objects = objects;
  paused_count = total;
  error = none;
}
visit_namespaces api selector step (ns ∷ nss) total objects =
    let here = visit_objects api selector step ns objects in
    elim (api.lists ns) [
      | listed ↦ visit_namespaces api selector step nss (total + here.1) here.0
      | no_match ↦ record { objects = objects; paused_count = 0; error = none }
      | list_failed ↦ record {
        objects = objects;
        paused_count = total;
        error = some (list_objects_failed ns);
      }
    ]

-- The selector of a listing: none without a selector in the spec, an error if it does not parse.
abbrev pub listing_selector :
    Library → Option LabelSelector → GitOpsError → Result GitOpsError (Option (Dict → Bool))
listing_selector lib none e = ok none
listing_selector lib (some sel) e = elim (lib.as_selector sel) [
  | none ↦ err e
  | some matches ↦ ok (some matches)
]

-- The names of the namespaces that a listing with the selector answers.
unfoldable pub selected_names : Option (Dict → Bool) → List Namespace → List String
selected_names selector [] = []
selected_names selector (ns ∷ nss) =
    let rest = selected_names selector nss in
    if is_listed selector ns.labels then ns.name ∷ rest else rest

unfoldable pub list_matching_namespaces :
    Library → Reader → Option LabelSelector → Result GitOpsError (List String)
list_matching_namespaces lib reader selector =
    elim (listing_selector lib selector invalid_namespace_selector) [
      | err e ↦ err e
      | ok matches ↦ elim reader.list_namespaces [
        | none ↦ err list_namespaces_failed
        | some items ↦ ok (selected_names matches items)
      ]
    ]
