-- ===== src/Controller/FreezeException.antt =====
-- internal/controller/freezeexception_controller.go: the status of a FreezeException.
use Prim.Native.String.{◌++◌}
use kube_freeze_operator.Common.{
  String, Bool, true, false, not, ◌&&◌, some, none, List, [], if◌then◌else◌,
}
use kube_freeze_operator.Common.Int.{pos}
use kube_freeze_operator.Api.Objects.{FreezeException}
use kube_freeze_operator.External.{Library}
use kube_freeze_operator.Controller.Interval.{interval_active, requeue_after}
use kube_freeze_operator.Controller.Status.{
  Event, normal, text, Fetched, found, not_found, fetch_failed, Surroundings, Cluster, Outcome,
  fetched_nothing, emit, set_conditions, reason_activated, reason_deactivated,
}

abbrev pub exception_message : Library → FreezeException → Bool → String
exception_message lib ex true = "Exception active until " ++ lib.format_rfc3339 ex.spec.active_to
exception_message lib ex false = "Exception not active"

-- The events of a change of state.
abbrev pub exception_events : Bool → FreezeException → Bool → List Event
exception_events has_recorder ex active =
    if active && not ex.status.active
    then emit has_recorder normal reason_activated (
        text (
          "Exception activated: "
          ++ (ex.spec.reason ++ (" (approved by: " ++ (ex.spec.approved_by ++ ")")))))
    else if not active && ex.status.active
    then emit has_recorder normal reason_deactivated (text "Exception expired")
    else []

abbrev pub exception_evaluated : Library → FreezeException → Bool → FreezeException
exception_evaluated lib ex active = record ex {
  status = record {
    active = active;
    observed_generation = ex.generation;
    conditions =
        set_conditions lib ex.status.conditions ex.generation active
          (exception_message lib ex active) "Successfully evaluated exception period";
  };
}

unfoldable pub reconcile_freeze_exception :
    Surroundings
    → (FreezeException → Bool)
    → Fetched FreezeException
    → Cluster
    → Outcome FreezeException
reconcile_freeze_exception s takes not_found cluster = fetched_nothing cluster false
reconcile_freeze_exception s takes fetch_failed cluster = fetched_nothing cluster true
reconcile_freeze_exception s takes (found ex) cluster =
    let active = interval_active ex.spec.active_from ex.spec.active_to s.now in
    let ex' = exception_evaluated s.lib ex active in
    record {
      cluster = cluster;
      sent = some ex';
      events = exception_events s.has_recorder ex active;
      gauge = if takes ex' then some active else none;
      requeue_after =
          if takes ex' then requeue_after ex.spec.active_from ex.spec.active_to s.now else pos 0;
      is_failed = not (takes ex');
    }
