-- ===== src/External.antt =====
-- What the program calls and does not implement: parameters of every definition that uses them.
use kube_freeze_operator.Common.{ℕ, ◌+◌, ◌-◌, suc, String, Bool, Option, List, eqb}
use kube_freeze_operator.Common.Int.{ℤ, pos, negsuc, sub_ℕ, saturate}
use kube_freeze_operator.Common.Dict.{Dict}
use kube_freeze_operator.Api.Specs.{LabelSelector}
use kube_freeze_operator.Api.Objects.{
  Condition, ChangeFreeze, MaintenanceWindow, FreezeException, Namespace,
}

-- Libraries: apimachinery's label selectors (`none` is a selector that does not parse), the time zone
-- database, robfig/cron's parser with the schedule's Next in a zone, the text of an instant, and
-- apimachinery's meta.SetStatusCondition.
pub record Library : Type 0 where
  pub as_selector : LabelSelector → Option (Dict → Bool)
  pub load_location : String → Bool
  pub parse_schedule : String → Option (String → ℕ → ℕ)
  pub format_rfc3339 : ℕ → String
  pub set_status_condition : List Condition → Condition → List Condition

-- What the API server answers to reads; `none` is an error.
pub record Reader : Type 0 where
  pub get_namespace : String → Option Namespace
  pub list_namespaces : Option (List Namespace)
  pub list_change_freezes : Option (List ChangeFreeze)
  pub list_maintenance_windows : Option (List MaintenanceWindow)
  pub list_freeze_exceptions : Option (List FreezeException)
  pub get_deployment_labels : String → String → Option (Option Dict)
  pub get_stateful_set_labels : String → String → Option (Option Dict)

-- apimachinery's Semantic.DeepEqual, at the three types at which it is called.
pub record DeepEqual : Type 0 where
  pub same_template : String → String → Bool
  pub same_replicas : Option ℤ → Option ℤ → Bool
  pub same_cron_job_spec : String → String → Bool

-- Instants are nanoseconds from an origin 365 days before Go's zero time, so that stepping back
-- fourteen days from any instant after the zero time is exact.
abbrev pub zero_time : ℕ
zero_time = 31536000000000000

abbrev pub is_zero_time : ℕ → Bool
is_zero_time t = eqb t zero_time

-- time.Time's Add, on instants in range.
abbrev pub add_duration : ℕ → ℤ → ℕ
add_duration t (pos n) = t + n
add_duration t (negsuc n) = t - suc n

-- time.Time's Sub: the difference, cut off at the ends of int64.
abbrev pub sub_time : ℕ → ℕ → ℤ
sub_time t u = saturate (sub_ℕ t u)

abbrev pub one_second : ℕ
one_second = 1000000000

abbrev pub one_minute : ℕ
one_minute = 60000000000

abbrev pub fourteen_days : ℕ
fourteen_days = 1209600000000000
