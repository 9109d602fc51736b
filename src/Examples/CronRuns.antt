-- ===== src/Examples/CronRuns.antt =====
-- The theorems about CronJobs at the test data.
use kube_freeze_operator.Common.{◌≡◌, refl, true, false, none, some, List, [], ◌∷◌}
use kube_freeze_operator.Common.Dict.{get}
use kube_freeze_operator.Controller.CronJobs.{
  CronJob, CronApi, annotation_original_suspend, annotations_of, managed_annotations, visit,
  update_cron_jobs_for_policy,
}
use kube_freeze_operator.Controller.CronJobs.Again.{update_cron_jobs_idempotent}
use kube_freeze_operator.Controller.CronJobs.Restore.{resume-visit_forgets}
use kube_freeze_operator.Api.Objects.{MaintenanceWindow}
use kube_freeze_operator.Examples.{library, reader, target, labels, window}

abbrev pub cron_api : CronApi
cron_api = record { lists = λ ns. true; takes = λ cron. true }

abbrev pub report : CronJob
report = record {
  namespace = "prod";
  name = "report";
  labels = labels;
  annotations = none;
  suspend = none;
}

-- Suspended by its owner.
abbrev pub backup : CronJob
backup = record report { name = "backup"; suspend = some true }

abbrev pub crons : List CronJob
crons = report ∷ backup ∷ []

run_lem : (update_cron_jobs_for_policy library reader cron_api target "release" true crons).1 ≡ none
unfolding update_cron_jobs_for_policy kube_freeze_operator.Controller.CronJobs.visit_namespaces
    kube_freeze_operator.Controller.CronJobs.matching_namespaces
    kube_freeze_operator.Controller.CronJobs.matches_selector
    kube_freeze_operator.Controller.CronJobs.visit_namespace visit
run_lem = refl

update_cron_jobs_idempotent_example :
    update_cron_jobs_for_policy library reader cron_api target "release" true
      (update_cron_jobs_for_policy library reader cron_api target "release" true crons).0
    ≡ ((update_cron_jobs_for_policy library reader cron_api target "release" true crons).0, none)
update_cron_jobs_idempotent_example =
    update_cron_jobs_idempotent library cron_api target "release" true reader crons run_lem

resume-visit_forgets_example :
    (visit library target "release" true backup ≡ none)
    × (cron' : CronJob) × (visit library target "release" false backup ≡ some cron')
    × (cron'.suspend ≡ some false)
    × (get annotation_original_suspend (annotations_of cron') ≡ "true")
unfolding kube_freeze_operator.Controller.CronJobs.matches_selector
resume-visit_forgets_example = resume-visit_forgets library target "release" backup refl refl refl

-- A CronJob that a freeze named "release" holds, and a window of that name.
abbrev held : CronJob
held = record report {
  annotations = some (managed_annotations report "release");
  suspend = some true;
}

abbrev namesake : MaintenanceWindow
namesake = record window { name = "release" }
