-- ===== src/Policy/Types.antt =====
-- internal/policy/types.go, and the errors of evaluator.go.
use kube_freeze_operator.Common.{ℕ, String, Bool, Option, List}
use kube_freeze_operator.Common.Dict.{Dict}
use kube_freeze_operator.Api.Kinds.{Action, TargetKind, PolicyKind}

pub record PolicyRef : Type 0 where
  pub kind : PolicyKind
  pub name : String

pub record Input : Type 0 where
  pub now : ℕ
  pub namespace : String
  pub namespace_tags : Option Dict
  pub kind : TargetKind
  pub action : Action
  pub object_labels : Option Dict
  pub username : String
  pub groups : List String

pub record Decision : Type 0 where
  pub allowed : Bool
  pub matched_policy : Option PolicyRef
  pub matched_override : Option PolicyRef
  pub reason : String
  pub next_allowed_time : Option ℕ
  pub freeze_end_time : Option ℕ
  pub evaluation_time : ℕ
  pub evaluated_ns : String
  pub evaluated_kind : TargetKind
  pub evaluated_action : Action

pub data EvalError : Type 0 where
  client_required namespace_required : EvalError
  get_namespace_failed : String → EvalError
  list_change_freezes_failed list_windows_failed : EvalError
