-- ===== src/Api/Kinds.antt =====
-- The string enums of api/v1alpha1/common_types.go and internal/policy/types.go. A Go string type
-- holds any text, so each enum keeps the other texts in a constructor of their own.
use kube_freeze_operator.Common.{String, Bool, true, false}
use kube_freeze_operator.Common.Texts.{◌==◌}

pub data Action : Type 0 where
  create delete rollout scale : Action
  other_action : String → Action

pub data TargetKind : Type 0 where
  deployment stateful_set daemon_set cron_job : TargetKind
  other_kind : String → TargetKind

pub data MaintenanceWindowMode : Type 0 where
  deny_outside_windows : MaintenanceWindowMode
  other_mode : String → MaintenanceWindowMode

pub data GitOpsProvider : Type 0 where
  argocd flux : GitOpsProvider
  other_provider : String → GitOpsProvider

pub data PolicyKind : Type 0 where
  freeze_exception change_freeze maintenance_window : PolicyKind

-- Equality of strings, read on the constructors.
abbrev pub action_eq : Action → Action → Bool
action_eq create create = true
action_eq delete delete = true
action_eq rollout rollout = true
action_eq scale scale = true
action_eq (other_action s) (other_action t) = s == t
action_eq _ _ = false

abbrev pub kind_eq : TargetKind → TargetKind → Bool
kind_eq deployment deployment = true
kind_eq stateful_set stateful_set = true
kind_eq daemon_set daemon_set = true
kind_eq cron_job cron_job = true
kind_eq (other_kind s) (other_kind t) = s == t
kind_eq _ _ = false

abbrev pub is_argocd : GitOpsProvider → Bool
is_argocd argocd = true
is_argocd _ = false

abbrev pub is_flux : GitOpsProvider → Bool
is_flux flux = true
is_flux _ = false

abbrev pub is_deny_outside : MaintenanceWindowMode → Bool
is_deny_outside deny_outside_windows = true
is_deny_outside (other_mode s) = false

abbrev pub kind_name : TargetKind → String
kind_name deployment = "Deployment"
kind_name stateful_set = "StatefulSet"
kind_name daemon_set = "DaemonSet"
kind_name cron_job = "CronJob"
kind_name (other_kind s) = s

abbrev pub action_name : Action → String
action_name create = "CREATE"
action_name delete = "DELETE"
action_name rollout = "ROLL_OUT"
action_name scale = "SCALE"
action_name (other_action s) = s

abbrev pub policy_kind_name : PolicyKind → String
policy_kind_name freeze_exception = "FreezeException"
policy_kind_name change_freeze = "ChangeFreeze"
policy_kind_name maintenance_window = "MaintenanceWindow"
