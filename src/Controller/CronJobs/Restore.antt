-- ===== src/Controller/CronJobs/Restore.antt =====
-- What internal/controller/cronjob_helper.go keeps of a CronJob's suspend state before a policy.
use kube_freeze_operator.Common.{◌≢◌, Option}
use kube_freeze_operator.Common.{◌≡◌, refl, String, Bool, true, false, some, none, arith, ◌∙◌}
use kube_freeze_operator.Common.Texts.{eq_iff, eq_refl, ◌==◌}
use kube_freeze_operator.Common.Dict.{get, put, get-put}
use kube_freeze_operator.Api.Specs.{TargetSpec}
use kube_freeze_operator.External.{Library}
use kube_freeze_operator.Controller.CronJobs.{differs}
use kube_freeze_operator.Controller.CronJobs.{
  CronJob, annotation_managed_by, annotation_original_suspend, matches_selector, is_suspended,
  bool_text, annotations_of, managed_by, managed_annotations, visit,
}

original-managed_annotations :
    (cron : CronJob) (policy_name : String)
    → get annotation_original_suspend (managed_annotations cron policy_name)
      ≡ bool_text (is_suspended cron.suspend)
original-managed_annotations cron policy_name =
    get-put annotation_managed_by annotation_original_suspend policy_name (
      put annotation_original_suspend (bool_text (is_suspended cron.suspend)) (annotations_of cron))
    ∙ get-put annotation_original_suspend annotation_original_suspend
        (bool_text (is_suspended cron.suspend)) (annotations_of cron)

-- A selected CronJob that no policy manages and that its owner has suspended: a run that suspends
-- writes nothing, so no trace of the state before the policy is kept, and a run that resumes, the
-- policy's window over, sets suspend to false, with the state before, "true", in an annotation.
pub resume-visit_forgets :
    (lib : Library) (target : TargetSpec) (policy_name : String) (cron : CronJob)
    → matches_selector lib target.object_selector cron.labels ≡ true
    → managed_by cron ≡ ""
    → cron.suspend ≡ some true
    → (visit lib target policy_name true cron ≡ none)
      × (cron' : CronJob) × (visit lib target policy_name false cron ≡ some cron')
      × (cron'.suspend ≡ some false)
      × (get annotation_original_suspend (annotations_of cron') ≡ "true")
unfolding visit
resume-visit_forgets lib target policy_name cron h m q = (
  rw (h, m, q),
  record cron { annotations = some (managed_annotations cron policy_name); suspend = some false },
  rw (h, m, q),
  refl,
  rw (original-managed_annotations cron policy_name, q),
)

not_suspended-differs : (s : Option Bool) → is_suspended s ≡ false → differs s true ≡ true
not_suspended-differs none h = refl
not_suspended-differs (some b) h = rw h

not_empty : (a : String) → a ≢ "" → (a == "") ≡ false
not_empty a h = ground (arith, eq_iff a "")

-- A selected CronJob that runs (is not suspended) and that no policy manages: the run of a policy
-- with a name that suspends it writes it as suspended, and the run after that resumes it writes it
-- as not suspended, with the policy's two annotations and all else as it was.
pub suspend-visit_resume :
    (lib : Library) (target : TargetSpec) (policy_name : String) (cron : CronJob)
    → matches_selector lib target.object_selector cron.labels ≡ true
    → managed_by cron ≡ ""
    → policy_name ≢ ""
    → is_suspended cron.suspend ≡ false
    → (cron' : CronJob) × (visit lib target policy_name true cron ≡ some cron')
      × (cron'.suspend ≡ some true)
      × (visit lib target policy_name false cron'
          ≡ some (record cron {
            annotations = some (managed_annotations cron policy_name);
            suspend = some false;
          }))
unfolding visit
suspend-visit_resume lib target policy_name cron h m p q = (
  record cron { annotations = some (managed_annotations cron policy_name); suspend = some true },
  rw (h, m, not_suspended-differs cron.suspend q),
  refl,
  rw (
    h,
    get-put annotation_managed_by annotation_managed_by policy_name (
        put annotation_original_suspend (bool_text (is_suspended cron.suspend))
          (annotations_of cron)),
    not_empty policy_name p,
    eq_refl policy_name,
  ),
)
