-- ===== src/Diff/Laws.antt =====
-- How updates are classified: by the template before the replicas.
use kube_freeze_operator.Common.{Bool, true, false, ◌≡◌}
use kube_freeze_operator.Api.Kinds.{TargetKind, deployment, stateful_set, daemon_set, cron_job}
use kube_freeze_operator.External.{DeepEqual}
use kube_freeze_operator.Diff.{
  Object, deployment_object, stateful_set_object, daemon_set_object, cron_job_object,
}

-- The object's Go type is the one of the kind.
abbrev pub is_of_kind : TargetKind → Object → Bool
is_of_kind deployment (deployment_object w) = true
is_of_kind stateful_set (stateful_set_object w) = true
is_of_kind daemon_set (daemon_set_object w) = true
is_of_kind cron_job (cron_job_object w) = true
is_of_kind _ _ = false

-- Only the replicas changed, of a kind that has them.
abbrev pub IsScaling : DeepEqual → Object → Object → Type 0
IsScaling eq (deployment_object old) (deployment_object new) =
    (eq.same_template old.template new.template ≡ true)
    × (eq.same_replicas old.replicas new.replicas ≡ false)
IsScaling eq (stateful_set_object old) (stateful_set_object new) =
    (eq.same_template old.template new.template ≡ true)
    × (eq.same_replicas old.replicas new.replicas ≡ false)
IsScaling eq _ _ = ⊥
