-- ===== src/Controller/Agreement.antt =====
-- The status that the controllers of internal/controller write, against the decisions of
-- internal/policy/evaluator.go.
use kube_freeze_operator.Common.{
  String, ◌≡◌, ◌↔◌, refl, ◌∙◌, Bool, true, false, not, Option, some, none, is_some, arith,
}
use kube_freeze_operator.Common.Dict.{Dict}
use kube_freeze_operator.Common.Results.{ok}
use kube_freeze_operator.Api.Objects.{ChangeFreeze, MaintenanceWindow, FreezeException}
use kube_freeze_operator.Policy.Types.{Input}
use kube_freeze_operator.Policy.Selectors.{target_matches, action_in, constraints_pass}
use kube_freeze_operator.Policy.Candidates.{freeze_candidate, window_candidate}
use kube_freeze_operator.Policy.Candidates.Laws.{HasOpenWindow, window_candidate_iff}
use kube_freeze_operator.Policy.Evaluator.{exception_applies}
use kube_freeze_operator.GitOps.Reconciler.{GitOpsResult}
use kube_freeze_operator.Controller.Interval.{interval_active}
use kube_freeze_operator.Controller.Status.{Surroundings, Cluster, found, WindowsError}
use kube_freeze_operator.Controller.ChangeFreeze.{
  freeze_evaluated, freeze_with_git_ops, git_ops_run, reconcile_change_freeze,
}
use kube_freeze_operator.Controller.FreezeException.{
  exception_evaluated, reconcile_freeze_exception,
}
use kube_freeze_operator.Controller.Windows.{EvaluationResult, evaluate_windows}
use kube_freeze_operator.Controller.Windows.Laws.{noted_of_ok, evaluate_windows-active}
use kube_freeze_operator.Controller.MaintenanceWindow.{
  window_evaluated, window_with_git_ops, window_success, reconcile_maintenance_window,
}

-- A ChangeFreeze that covers a request by its target and its rules: the status that its controller
-- sends is active exactly if the webhook, at the same time, has a denial from it.
pub reconcile_change_freeze-agrees :
    (s : Surroundings) (takes : ChangeFreeze → Bool) (cf : ChangeFreeze) (cluster : Cluster)
    → (i : Input) (ns_labels : Option Dict) → i.now ≡ s.now
    → target_matches s.lib (some cf.spec.target) ns_labels i.object_labels i.kind ≡ true
    → action_in i.action cf.spec.deny ≡ true
    → (cf' : ChangeFreeze) × ((reconcile_change_freeze s takes (found cf) cluster).sent ≡ some cf')
      × (cf'.status.active ≡ is_some (freeze_candidate s.lib i ns_labels cf))
unfolding reconcile_change_freeze freeze_candidate
reconcile_change_freeze-agrees s takes cf cluster i ns_labels e t a =
    let active = interval_active cf.spec.start_time cf.spec.end_time s.now in
    let run = git_ops_run s cf.spec.behavior.gitops cf.name active cluster.git_ops in
    (
      freeze_with_git_ops (freeze_evaluated s cf active) run,
      refl,
      with_run-active (freeze_evaluated s cf active) run ∙ rw (t, a, e) (ground arith),
    )
  where
    with_run-active :
        (c : ChangeFreeze) (run : Option GitOpsResult)
        → (freeze_with_git_ops c run).status.active ≡ c.status.active
    with_run-active c none = refl
    with_run-active c (some r) = refl

-- The time part of a FreezeException's effect: one that applies to a request is active by the status
-- that its controller sends at the same time.
pub reconcile_freeze_exception-agrees :
    (s : Surroundings) (takes : FreezeException → Bool) (ex : FreezeException) (cluster : Cluster)
    → (i : Input) (ns_labels : Option Dict) → i.now ≡ s.now
    → target_matches s.lib (some ex.spec.target) ns_labels i.object_labels i.kind ≡ true
    → action_in i.action ex.spec.allow ≡ true
    → constraints_pass ex.spec.constraints i.object_labels i.username i.groups ≡ true
    → (ex' : FreezeException) × ((reconcile_freeze_exception s takes (found ex) cluster).sent
        ≡ some ex')
      × (ex'.status.active ≡ exception_applies s.lib i ns_labels ex)
unfolding reconcile_freeze_exception exception_applies
reconcile_freeze_exception-agrees s takes ex cluster i ns_labels e t a c = (
  exception_evaluated s.lib ex (interval_active ex.spec.active_from ex.spec.active_to s.now),
  refl,
  rw (t, a, c, e) (ground arith),
)

opposite :
    (b c : Bool) (P : Type 0) → (b ≡ true) ↔ P → (c ≡ true → ¬ P) → (¬ P → c ≡ true) → b ≡ not c
opposite true false P f g h = refl
opposite false true P f g h = refl
opposite true true P f g h = absurd (g refl (f.0 refl))
opposite false false P f g h = absurd (cc (h (λ p. cc (f.1 p))))

-- A MaintenanceWindow that covers a request by its target and its rules, and that evaluates: the status
-- that its controller sends is active exactly if the webhook, at the same time, has no denial from it.
pub reconcile_maintenance_window-agrees :
    (s : Surroundings) (error_text : WindowsError → String) (takes : MaintenanceWindow → Bool)
    → (mw : MaintenanceWindow) (cluster : Cluster) (result : EvaluationResult)
    → (i : Input) (ns_labels : Option Dict) → i.now ≡ s.now
    → evaluate_windows s.lib s.now mw ≡ ok result
    → target_matches s.lib (some mw.spec.target) ns_labels i.object_labels i.kind ≡ true
    → action_in i.action mw.spec.deny ≡ true
    → (mw' : MaintenanceWindow) × ((reconcile_maintenance_window s error_text takes
          (found mw)
          cluster).sent
        ≡ some mw')
      × (mw'.status.active ≡ not (is_some (window_candidate s.lib i ns_labels mw)))
unfolding reconcile_maintenance_window window_success
reconcile_maintenance_window-agrees s error_text takes mw cluster result i ns_labels e h t a =
    let run = git_ops_run s mw.spec.behavior.gitops mw.name (not result.active) cluster.git_ops in
    (
      window_with_git_ops (window_evaluated s mw result) run,
      rw (reconcile_maintenance_window, h),
      with_run-active (window_evaluated s mw result) run
          ∙ opposite result.active (is_some (window_candidate s.lib i ns_labels mw))
              (HasOpenWindow s.lib i.now mw.spec.timezone mw.spec.windows)
              (rw e (evaluate_windows-active s.lib s.now mw result h))
              (λ k. ((window_candidate_iff s.lib i ns_labels mw).0 k).3)
              (λ k.
                (window_candidate_iff s.lib i ns_labels mw).1
                  (t, a, (noted_of_ok s.lib s.now mw result h).0, k)),
    )
  where
    with_run-active :
        (c : MaintenanceWindow) (run : Option GitOpsResult)
        → (window_with_git_ops c run).status.active ≡ c.status.active
    with_run-active c none = refl
    with_run-active c (some r) = refl
