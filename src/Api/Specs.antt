-- ===== src/Api/Specs.antt =====
-- The specs of api/v1alpha1. Instants and durations count nanoseconds; a pointer is an option, and so
-- is a slice or map whose nil the code tells from an empty one. A label selector is only ever handed
-- to the Kubernetes library, so it is kept as its text.
use kube_freeze_operator.Common.{ℕ, String, Bool, List, Option}
use kube_freeze_operator.Common.Int.{ℤ}
use kube_freeze_operator.Common.Dict.{Dict}
use kube_freeze_operator.Api.Kinds.{Action, TargetKind, MaintenanceWindowMode, GitOpsProvider}

abbrev pub LabelSelector : Type 0
LabelSelector = String

pub record TargetSpec : Type 0 where
  pub namespace_selector : Option LabelSelector
  pub object_selector : Option LabelSelector
  pub kinds : List TargetKind

pub record MessageSpec : Type 0 where
  pub reason : String
  pub docs_url : String
  pub contact : String

pub record GitOpsArgoCdSpec : Type 0 where
  pub application_selector : Option LabelSelector
  pub namespace_selector : Option LabelSelector

pub record GitOpsFluxSpec : Type 0 where
  pub kustomization_selector : Option LabelSelector
  pub helm_release_selector : Option LabelSelector
  pub namespace_selector : Option LabelSelector

pub record GitOpsSpec : Type 0 where
  pub enabled : Bool
  pub providers : List GitOpsProvider
  pub argocd : Option GitOpsArgoCdSpec
  pub flux : Option GitOpsFluxSpec

pub record PolicyBehaviorSpec : Type 0 where
  pub suspend_cron_jobs : Bool
  pub gitops : Option GitOpsSpec

pub record ChangeFreezeSpec : Type 0 where
  pub start_time : ℕ
  pub end_time : ℕ
  pub timezone : Option String
  pub target : TargetSpec
  pub deny : List Action
  pub behavior : PolicyBehaviorSpec
  pub message : MessageSpec

pub record WindowSpec : Type 0 where
  pub name : String
  pub schedule : String
  pub duration : ℤ

pub record MaintenanceWindowSpec : Type 0 where
  pub timezone : String
  pub window_mode : MaintenanceWindowMode
  pub windows : List WindowSpec
  pub target : TargetSpec
  pub deny : List Action
  pub behavior : PolicyBehaviorSpec
  pub message : MessageSpec

pub record ConstraintsSpec : Type 0 where
  pub require_labels : Dict
  pub allowed_users : List String
  pub allowed_groups : List String

pub record FreezeExceptionSpec : Type 0 where
  pub active_from : ℕ
  pub active_to : ℕ
  pub target : TargetSpec
  pub allow : List Action
  pub constraints : Option ConstraintsSpec
  pub reason : String
  pub ticket_url : String
  pub approved_by : String
