-- ===== src/Controller/CronJobs.antt =====
-- internal/controller/cronjob_helper.go: suspending and resuming the CronJobs of a policy. The store
-- lists the cluster's CronJobs; a listing answers its entries of one namespace, in order, and an update
-- writes the entry that was read.
pub mod Visit
pub mod Frame
pub mod Convergence
pub mod Again
pub mod Enforce
pub mod Restore
pub mod SharedName
use kube_freeze_operator.Common.{
  String, Bool, true, false, not, Option, none, some, List, [], ◌∷◌, any, if◌then◌else◌,
}
use kube_freeze_operator.Common.Texts.{◌==◌}
use kube_freeze_operator.Common.Dict.{Dict, get, put}
use kube_freeze_operator.Api.Kinds.{cron_job, kind_eq}
use kube_freeze_operator.Api.Specs.{LabelSelector, TargetSpec}
use kube_freeze_operator.Api.Objects.{Namespace}
use kube_freeze_operator.External.{Library, Reader}
use kube_freeze_operator.Policy.Selectors.{label_set}

pub record CronJob : Type 0 where
  pub namespace : String
  pub name : String
  pub labels : Option Dict
  pub annotations : Option Dict
  pub suspend : Option Bool

-- Whether the API server lists the CronJobs of a namespace, and whether it takes an update.
pub record CronApi : Type 0 where
  pub lists : String → Bool
  pub takes : CronJob → Bool

pub data CronError : Type 0 where
  list_namespaces_failed : CronError
  list_cron_jobs_failed : String → CronError
  update_failed : String → String → CronError

abbrev pub annotation_original_suspend : String
annotation_original_suspend = "freeze-operator.io/original-suspend"

abbrev pub annotation_managed_by : String
annotation_managed_by = "freeze-operator.io/managed-by"

-- matchesNamespaceSelector, and matchesObjectSelector, which has the same body.
unfoldable pub matches_selector : Library → Option LabelSelector → Option Dict → Bool
matches_selector lib none labels = true
matches_selector lib (some sel) labels = elim (lib.as_selector sel) [
  | none ↦ false
  | some matches ↦ matches (label_set labels)
]

-- `suspend != nil && *suspend`.
abbrev pub is_suspended : Option Bool → Bool
is_suspended none = false
is_suspended (some b) = b

-- `fmt.Sprintf("%v", b)`.
abbrev pub bool_text : Bool → String
bool_text true = "true"
bool_text false = "false"

abbrev pub differs : Option Bool → Bool → Bool
differs none b = true
differs (some true) b = not b
differs (some false) b = b

abbrev pub annotations_of : CronJob → Dict
annotations_of cron = label_set cron.annotations

-- The policy that manages a CronJob, empty for none.
abbrev pub managed_by : CronJob → String
managed_by cron = get annotation_managed_by (annotations_of cron)

-- The annotations after the first management.
abbrev pub managed_annotations : CronJob → String → Dict
managed_annotations cron policy_name =
    put annotation_managed_by policy_name (
      put annotation_original_suspend (bool_text (is_suspended cron.suspend)) (annotations_of cron))

-- The update of the suspend field, if it has to change.
abbrev pub with_suspend : CronJob → Dict → Bool → Option CronJob
with_suspend cron annotations should_suspend =
    if differs cron.suspend should_suspend
    then some (record cron { annotations = some annotations; suspend = some should_suspend })
    else none

-- The body of the loop over the CronJobs: what is written, if anything.
unfoldable pub visit : Library → TargetSpec → String → Bool → CronJob → Option CronJob
visit lib target policy_name should_suspend cron =
    if not (matches_selector lib target.object_selector cron.labels)
    then none
    else if managed_by cron == ""
    then with_suspend cron (managed_annotations cron policy_name) should_suspend
    else if not (managed_by cron == policy_name)
    then none
    else with_suspend cron (annotations_of cron) should_suspend

-- Puts an entry in front of what the rest of a loop gives.
abbrev pub prepend {ℓ κ} : {A : Type ℓ} {B : Type κ} → A → List A × B → List A × B
prepend a (xs, b) = (a ∷ xs, b)

-- What becomes of one entry, with the outcome of the rest of the loop: an update that fails ends it.
abbrev pub write_back :
    CronApi
    → Option CronJob
    → CronJob
    → List CronJob
    → List CronJob × Option CronError
    → List CronJob × Option CronError
write_back api none cron crons rest = prepend cron rest
write_back api (some cron') cron crons rest =
    if api.takes cron'
    then prepend cron' rest
    else (cron ∷ crons, some (update_failed cron.namespace cron.name))

-- The loop over the CronJobs of a namespace, along the store.
unfoldable pub visit_namespace :
    Library
    → CronApi
    → TargetSpec
    → String
    → Bool
    → String
    → List CronJob
    → List CronJob × Option CronError
visit_namespace lib api target policy_name should_suspend ns [] = ([], none)
visit_namespace lib api target policy_name should_suspend ns (cron ∷ crons) =
    let rest = visit_namespace lib api target policy_name should_suspend ns crons in
    if not (cron.namespace == ns)
    then prepend cron rest
    else write_back api (visit lib target policy_name should_suspend cron) cron crons rest

-- What a namespace's loop leaves, with what the remaining namespaces do to it.
abbrev pub and_then :
    List CronJob × Option CronError
    → (List CronJob → List CronJob × Option CronError)
    → List CronJob × Option CronError
and_then (store, none) next = next store
and_then (store, some e) next = (store, some e)

-- The loop over the matching namespaces.
unfoldable pub visit_namespaces :
    Library
    → CronApi
    → TargetSpec
    → String
    → Bool
    → List String
    → List CronJob
    → List CronJob × Option CronError
visit_namespaces lib api target policy_name should_suspend [] store = (store, none)
visit_namespaces lib api target policy_name should_suspend (ns ∷ nss) store =
    if not (api.lists ns)
    then (store, some (list_cron_jobs_failed ns))
    else and_then (visit_namespace lib api target policy_name should_suspend ns store)
        (visit_namespaces lib api target policy_name should_suspend nss)

-- The names of the namespaces that the selector matches.
unfoldable pub matching_namespaces : Library → Option LabelSelector → List Namespace → List String
matching_namespaces lib sel [] = []
matching_namespaces lib sel (ns ∷ nss) =
    let rest = matching_namespaces lib sel nss in
    if matches_selector lib sel ns.labels then ns.name ∷ rest else rest

-- updateCronJobsForPolicy; the ChangeFreeze controller has a copy of it with the same body.
unfoldable pub update_cron_jobs_for_policy :
    Library
    → Reader
    → CronApi
    → TargetSpec
    → String
    → Bool
    → List CronJob
    → List CronJob × Option CronError
update_cron_jobs_for_policy lib reader api target policy_name should_suspend store =
    elim reader.list_namespaces [
      | none ↦ (store, some list_namespaces_failed)
      | some items ↦
          if not (any (λ k. kind_eq k cron_job) target.kinds)
          then (store, none)
          else visit_namespaces lib api target policy_name should_suspend
              (matching_namespaces lib target.namespace_selector items) store
    ]

-- The copy of it in the ChangeFreeze controller.
unfoldable pub update_cron_jobs_for_change_freeze :
    Library
    → Reader
    → CronApi
    → TargetSpec
    → String
    → Bool
    → List CronJob
    → List CronJob × Option CronError
update_cron_jobs_for_change_freeze lib reader api target policy_name should_suspend store =
    update_cron_jobs_for_policy lib reader api target policy_name should_suspend store
