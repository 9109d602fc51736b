-- ===== src/Controller/Status.antt =====
-- What the three controllers of internal/controller share: the conditions and events that they write, and
-- what a call of Reconcile sees and leaves.
use kube_freeze_operator.Common.{ℕ, String, Bool, true, false, Option, none, List, [], ◌∷◌}
use kube_freeze_operator.Common.Int.{ℤ, pos}
use kube_freeze_operator.Api.Objects.{Condition}
use kube_freeze_operator.External.{Library, Reader}
use kube_freeze_operator.Policy.Window.{WindowError}
use kube_freeze_operator.Controller.CronJobs.{CronJob, CronApi, CronError}
use kube_freeze_operator.GitOps.Reconciler.{GitOpsStore, GitOpsApi, ProviderError}

abbrev pub condition_type_ready : String
condition_type_ready = "Ready"

abbrev pub condition_type_active : String
condition_type_active = "Active"

abbrev pub reason_evaluated : String
reason_evaluated = "Evaluated"

abbrev pub reason_evaluation_failed : String
reason_evaluation_failed = "EvaluationFailed"

abbrev pub reason_activated : String
reason_activated = "Activated"

abbrev pub reason_deactivated : String
reason_deactivated = "Deactivated"

abbrev pub reason_cron_jobs_updated : String
reason_cron_jobs_updated = "CronJobsUpdated"

abbrev pub reason_cron_job_update_fail : String
reason_cron_job_update_fail = "CronJobUpdateFailed"

pub data EventType : Type 0 where
  normal warning : EventType

-- evaluateWindows fails at the mode, or at a window, by its name.
pub data WindowsError : Type 0 where
  unsupported_mode : WindowsError
  window_failed : String → WindowError → WindowsError

-- The message of an event: a text, or an error.
pub data Message : Type 0 where
  text : String → Message
  of_cron_jobs : CronError → Message
  of_git_ops : List ProviderError → Message
  of_windows : WindowsError → Message

pub record Event : Type 0 where
  pub event_type : EventType
  pub reason : String
  pub message : Message

-- What the request's Get answers.
pub data Fetched (A : Type 0) : Type 0 where
  found : A → Fetched A
  not_found : Fetched A
  fetch_failed : Fetched A

-- What a call of Reconcile sees: the libraries and the API server, the time, the time of the GitOps run,
-- and whether there is an event recorder.
pub record Surroundings : Type 0 where
  pub lib : Library
  pub reader : Reader
  pub cron_api : CronApi
  pub git_ops_api : GitOpsApi
  pub now : ℕ
  pub git_ops_now : ℕ
  pub has_recorder : Bool

-- The objects of the cluster that the controllers change.
pub record Cluster : Type 0 where
  pub cron_jobs : List CronJob
  pub git_ops : GitOpsStore

-- What a call of Reconcile leaves: the cluster, the object whose status it sends, the events, the value of
-- the gauge of active policies if it is set, and the controller's result.
pub record Outcome (A : Type 0) : Type 0 where
  pub cluster : Cluster
  pub sent : Option A
  pub events : List Event
  pub gauge : Option Bool
  pub requeue_after : ℤ
  pub is_failed : Bool

-- Reconcile without an object.
abbrev pub fetched_nothing : {A : Type 0} → Cluster → Bool → Outcome A
fetched_nothing cluster is_failed = record {
  cluster = cluster;
  sent = none;
  events = [];
  gauge = none;
  requeue_after = pos 0;
  is_failed = is_failed;
}

-- `r.Recorder != nil` and the event.
abbrev pub emit : Bool → EventType → String → Message → List Event
emit true event_type reason message =
    record { event_type = event_type; reason = reason; message = message } ∷ []
emit false event_type reason message = []

abbrev pub condition : String → Bool → ℕ → String → String → Condition
condition condition_type status generation reason message = record {
  condition_type = condition_type;
  status = status;
  observed_generation = generation;
  reason = reason;
  message = message;
}

-- The two conditions of a policy that could be evaluated: Active, then Ready.
abbrev pub set_conditions : Library → List Condition → ℕ → Bool → String → String → List Condition
set_conditions lib conditions generation true message ready =
    lib.set_status_condition
      (lib.set_status_condition conditions
        (condition condition_type_active true generation reason_activated message))
      (condition condition_type_ready true generation reason_evaluated ready)
set_conditions lib conditions generation false message ready =
    lib.set_status_condition
      (lib.set_status_condition conditions
        (condition condition_type_active false generation reason_deactivated message))
      (condition condition_type_ready true generation reason_evaluated ready)
