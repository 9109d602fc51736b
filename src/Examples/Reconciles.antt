-- ===== src/Examples/Reconciles.antt =====
-- The theorems about the controllers at the test data.
use kube_freeze_operator.Common.{◌≡◌, refl, true, not, some, [], is_some}
use kube_freeze_operator.Api.Kinds.{scale, create}
use kube_freeze_operator.Api.Objects.{ChangeFreeze, MaintenanceWindow, FreezeException}
use kube_freeze_operator.Policy.Types.{Input}
use kube_freeze_operator.Policy.Candidates.{freeze_candidate, window_candidate}
use kube_freeze_operator.Policy.Evaluator.{exception_applies}
use kube_freeze_operator.GitOps.{listed}
use kube_freeze_operator.GitOps.Reconciler.{GitOpsApi}
use kube_freeze_operator.Controller.Status.{Surroundings, Cluster, found}
use kube_freeze_operator.Controller.ChangeFreeze.{reconcile_change_freeze}
use kube_freeze_operator.Controller.FreezeException.{reconcile_freeze_exception}
use kube_freeze_operator.Controller.MaintenanceWindow.{reconcile_maintenance_window}
use kube_freeze_operator.Controller.Agreement.{
  reconcile_change_freeze-agrees, reconcile_freeze_exception-agrees,
  reconcile_maintenance_window-agrees,
}
use kube_freeze_operator.Examples.{library, reader, now, input, freeze, exception, window}
use kube_freeze_operator.Examples.CronRuns.{cron_api, crons}
use kube_freeze_operator.Examples.Windows.{soon, evaluation, evaluation_lem}

abbrev git_ops_api : GitOpsApi
git_ops_api = record {
  application_api = record { lists = λ ns. listed; takes = λ app. true };
  flux_api = record {
    kustomization_api = record { lists = λ ns. listed; takes = λ object. true };
    helm_release_api = record { lists = λ ns. listed; takes = λ object. true };
  };
  codec = record { marshal = λ j. some j; unmarshal = λ t. some t };
}

abbrev pub surroundings : Surroundings
surroundings = record {
  lib = library;
  reader = reader;
  cron_api = cron_api;
  git_ops_api = git_ops_api;
  now = now;
  git_ops_now = now;
  has_recorder = true;
}

abbrev pub in_window : Surroundings
in_window = record surroundings { now = soon }

abbrev cluster : Cluster
cluster = record {
  cron_jobs = crons;
  git_ops = record { applications = []; flux = record { kustomizations = []; helm_releases = [] } };
}

reconcile_change_freeze-agrees_example :
    (cf' : ChangeFreeze) × ((reconcile_change_freeze surroundings
        (λ cf. true)
        (found freeze)
        cluster).sent
      ≡ some cf')
    × (cf'.status.active ≡ is_some (freeze_candidate library input (some []) freeze))
unfolding kube_freeze_operator.Policy.Selectors.target_matches
    kube_freeze_operator.Policy.Selectors.match_label_selector
    kube_freeze_operator.Policy.Selectors.action_in
reconcile_change_freeze-agrees_example =
    reconcile_change_freeze-agrees surroundings (λ cf. true) freeze cluster input (some []) refl
      refl refl

abbrev creation_input : Input
creation_input = record input { action = create }

reconcile_freeze_exception-agrees_example :
    (ex' : FreezeException) × ((reconcile_freeze_exception surroundings
        (λ ex. true)
        (found exception)
        cluster).sent
      ≡ some ex')
    × (ex'.status.active ≡ exception_applies library creation_input (some []) exception)
unfolding kube_freeze_operator.Policy.Selectors.target_matches
    kube_freeze_operator.Policy.Selectors.match_label_selector
    kube_freeze_operator.Policy.Selectors.action_in
    kube_freeze_operator.Policy.Selectors.constraints_pass
reconcile_freeze_exception-agrees_example =
    reconcile_freeze_exception-agrees surroundings (λ ex. true) exception cluster creation_input
      (some []) refl refl refl refl

abbrev scale_input : Input
scale_input = record input { action = scale; now = soon }

reconcile_maintenance_window-agrees_example :
    (mw' : MaintenanceWindow) × ((reconcile_maintenance_window in_window
        (λ e. "")
        (λ mw. true)
        (found window)
        cluster).sent
      ≡ some mw')
    × (mw'.status.active ≡ not (is_some (window_candidate library scale_input (some []) window)))
unfolding kube_freeze_operator.Policy.Selectors.target_matches
    kube_freeze_operator.Policy.Selectors.match_label_selector
    kube_freeze_operator.Policy.Selectors.action_in
reconcile_maintenance_window-agrees_example =
    reconcile_maintenance_window-agrees in_window (λ e. "") (λ mw. true) window cluster evaluation
      scale_input (some []) refl evaluation_lem refl refl
