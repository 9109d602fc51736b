-- ===== src/Controller/Calls/Identity.antt =====
-- internal/controller over time: which objects there are.
use kube_freeze_operator.Common.{
  ◌≡◌, refl, ◌∙◌, ap, inl, inr, String, Bool, All2, All2-refl, All2-trans,
}
use kube_freeze_operator.Api.Specs.{TargetSpec, PolicyBehaviorSpec}
use kube_freeze_operator.Api.Objects.{ChangeFreeze, MaintenanceWindow}
use kube_freeze_operator.GitOps.{GitOpsObject}
use kube_freeze_operator.GitOps.Frame.{SameOrMoved}
use kube_freeze_operator.GitOps.ArgoCd.Switch.{HasPath}
use kube_freeze_operator.GitOps.Flux.Switch.{HasSpec}
use kube_freeze_operator.GitOps.Reconciler.Frame.{Kept-All2, uses_argocd, uses_flux}
use kube_freeze_operator.Controller.CronJobs.{CronJob}
use kube_freeze_operator.Controller.CronJobs.Frame.{Touched}
use kube_freeze_operator.Controller.Status.{Surroundings, Cluster}
use kube_freeze_operator.Controller.Footprint.{Footprint}
use kube_freeze_operator.Controller.Calls.{Calls, Calls-keep}

-- The same CronJob: its namespace, its name and its labels.
abbrev pub SameCronJob : CronJob → CronJob → Type 0
SameCronJob a b = (b.namespace ≡ a.namespace) × (b.name ≡ a.name) × (b.labels ≡ a.labels)

abbrev pub SameObject : {S : Type 0} → GitOpsObject S → GitOpsObject S → Type 0
SameObject a b = (b.namespace ≡ a.namespace) × (b.name ≡ a.name) × (b.labels ≡ a.labels)

-- Two clusters with the same objects, in order.
pub record SameObjects (a b : Cluster) : Type 0 where
  pub cron_jobs : All2 SameCronJob a.cron_jobs b.cron_jobs
  pub applications : All2 SameObject a.git_ops.applications b.git_ops.applications
  pub kustomizations : All2 SameObject a.git_ops.flux.kustomizations b.git_ops.flux.kustomizations
  pub helm_releases : All2 SameObject a.git_ops.flux.helm_releases b.git_ops.flux.helm_releases

SameCronJob-trans : (a b c : CronJob) → SameCronJob a b → SameCronJob b c → SameCronJob a c
SameCronJob-trans a b c h k = (k.0 ∙ h.0, k.1 ∙ h.1, k.2 ∙ h.2)

SameObject-trans :
    {S : Type 0} (a b c : GitOpsObject S) → SameObject a b → SameObject b c → SameObject a c
SameObject-trans a b c h k = (k.0 ∙ h.0, k.1 ∙ h.1, k.2 ∙ h.2)

SameObjects-refl : (c : Cluster) → SameObjects c c
SameObjects-refl c = record {
  cron_jobs = All2-refl SameCronJob (λ _. (refl, refl, refl)) c.cron_jobs;
  applications = All2-refl SameObject (λ _. (refl, refl, refl)) c.git_ops.applications;
  kustomizations = All2-refl SameObject (λ _. (refl, refl, refl)) c.git_ops.flux.kustomizations;
  helm_releases = All2-refl SameObject (λ _. (refl, refl, refl)) c.git_ops.flux.helm_releases;
}

SameObjects-trans : (a b c : Cluster) → SameObjects a b → SameObjects b c → SameObjects a c
SameObjects-trans a b c h k = record {
  cron_jobs = All2-trans SameCronJob SameCronJob-trans _ _ _ h.cron_jobs k.cron_jobs;
  applications = All2-trans SameObject SameObject-trans _ _ _ h.applications k.applications;
  kustomizations = All2-trans SameObject SameObject-trans _ _ _ h.kustomizations k.kustomizations;
  helm_releases = All2-trans SameObject SameObject-trans _ _ _ h.helm_releases k.helm_releases;
}

SameOrMoved-SameObject :
    {S : Type 0} (Good : GitOpsObject S → Type 0) (name : String) (active : Bool)
    (a b : GitOpsObject S)
    → SameOrMoved Good name active a b
    → SameObject a b
SameOrMoved-SameObject Good name active a b (inl e) =
    (ap (λ o. o.namespace) e, ap (λ o. o.name) e, ap (λ o. o.labels) e)
SameOrMoved-SameObject Good name active a b (inr m) = (m.same_namespace, m.same_name, m.same_labels)

Touched-SameCronJob :
    (s : Surroundings) (target : TargetSpec) (name : String) (active : Bool) (a b : CronJob)
    → Touched s.lib s.cron_api target name active a b
    → SameCronJob a b
Touched-SameCronJob s target name active a b (inl e) =
    (ap (λ o. o.namespace) e, ap (λ o. o.name) e, ap (λ o. o.labels) e)
Touched-SameCronJob s target name active a b (inr c) =
    (c.same_namespace, c.same_name, c.same_labels)

Footprint-SameObjects :
    (s : Surroundings) (target : TargetSpec) (behavior : PolicyBehaviorSpec) (name : String)
    (active : Bool) (a b : Cluster)
    → Footprint s target behavior name active a b
    → SameObjects a b
Footprint-SameObjects s target behavior name active a b f = record {
  cron_jobs =
      Kept-All2 behavior.suspend_cron_jobs (Touched s.lib s.cron_api target name active) SameCronJob
        (λ _. (refl, refl, refl)) (Touched-SameCronJob s target name active) _ _ f.on_cron_jobs;
  applications =
      Kept-All2 (uses_argocd behavior.gitops) (SameOrMoved HasPath name active) SameObject
        (λ _. (refl, refl, refl)) (SameOrMoved-SameObject HasPath name active) _ _ f.on_git_ops.0;
  kustomizations =
      Kept-All2 (uses_flux behavior.gitops) (SameOrMoved HasSpec name active) SameObject
        (λ _. (refl, refl, refl)) (SameOrMoved-SameObject HasSpec name active) _ _ f.on_git_ops.1;
  helm_releases =
      Kept-All2 (uses_flux behavior.gitops) (SameOrMoved HasSpec name active) SameObject
        (λ _. (refl, refl, refl)) (SameOrMoved-SameObject HasSpec name active) _ _ f.on_git_ops.2;
}

-- With JSON codecs that read back what they write, however many calls of the two controllers there are,
-- for whatever policies, the cluster keeps its CronJobs and its GitOps objects: none is created,
-- deleted, moved to another namespace or renamed, and none has its labels changed.
pub Calls-SameObjects :
    (MayFreeze : ChangeFreeze → Type 0) (MayWindow : MaintenanceWindow → Type 0) (start : Cluster)
    {after : Cluster}
    → Calls MayFreeze MayWindow start after
    → SameObjects start after
Calls-SameObjects MayFreeze MayWindow start calls =
    Calls-keep SameObjects start SameObjects-refl SameObjects-trans
      (λ s cf active a b _.
        Footprint-SameObjects s cf.spec.target cf.spec.behavior cf.name active a b)
      (λ s mw active a b _.
        Footprint-SameObjects s mw.spec.target mw.spec.behavior mw.name active a b)
      calls
