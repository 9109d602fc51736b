-- ===== src/Api/Objects.antt =====
-- The objects of api/v1alpha1 with the parts of their metadata and status that the program reads or
-- writes.
use kube_freeze_operator.Common.{ℕ, String, Bool, List, Option}
use kube_freeze_operator.Common.Int.{ℤ}
use kube_freeze_operator.Common.Dict.{Dict}
use kube_freeze_operator.Api.Specs.{ChangeFreezeSpec, MaintenanceWindowSpec, FreezeExceptionSpec}

-- A status condition (metav1.Condition), without its transition time.
pub record Condition : Type 0 where
  pub condition_type : String
  pub status : Bool
  pub observed_generation : ℕ
  pub reason : String
  pub message : String

pub record WindowStatus : Type 0 where
  pub name : String
  pub start_time : ℕ
  pub end_time : ℕ

pub record ChangeFreezeStatus : Type 0 where
  pub active : Bool
  pub time_remaining : Option ℤ
  pub observed_generation : ℕ
  pub gitops_paused_count : ℕ
  pub gitops_last_reconcile_time : Option ℕ
  pub conditions : List Condition

pub record MaintenanceWindowStatus : Type 0 where
  pub active : Bool
  pub active_window : Option WindowStatus
  pub next_window : Option WindowStatus
  pub observed_generation : ℕ
  pub gitops_paused_count : ℕ
  pub gitops_last_reconcile_time : Option ℕ
  pub conditions : List Condition

pub record FreezeExceptionStatus : Type 0 where
  pub active : Bool
  pub observed_generation : ℕ
  pub conditions : List Condition

pub record ChangeFreeze : Type 0 where
  pub name : String
  pub generation : ℕ
  pub spec : ChangeFreezeSpec
  pub status : ChangeFreezeStatus

pub record MaintenanceWindow : Type 0 where
  pub name : String
  pub generation : ℕ
  pub spec : MaintenanceWindowSpec
  pub status : MaintenanceWindowStatus

pub record FreezeException : Type 0 where
  pub name : String
  pub generation : ℕ
  pub spec : FreezeExceptionSpec
  pub status : FreezeExceptionStatus

-- The parts of a core/v1 Namespace that the program reads.
pub record Namespace : Type 0 where
  pub name : String
  pub labels : Option Dict
  pub is_terminating : Bool
