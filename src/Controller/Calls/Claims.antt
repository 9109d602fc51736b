-- ===== src/Controller/Calls/Claims.antt =====
-- internal/controller over time: the CronJobs that a policy has claimed.
use kube_freeze_operator.Common.{
  ◌≡◌, ◌≢◌, refl, sym, ◌∙◌, ap, inl, inr, String, Bool, All2, All2-refl, All2-trans,
}
use kube_freeze_operator.Api.Specs.{TargetSpec}
use kube_freeze_operator.Controller.CronJobs.{CronJob, managed_by}
use kube_freeze_operator.Controller.CronJobs.Frame.{Touched}
use kube_freeze_operator.Controller.Status.{Surroundings, Cluster}
use kube_freeze_operator.GitOps.Reconciler.Frame.{Kept-All2}
use kube_freeze_operator.Controller.Calls.{Calls, Calls-keep}

-- A CronJob that the policy manages is as it was.
abbrev pub KeepsClaim : String → CronJob → CronJob → Type 0
KeepsClaim p cron cron' = managed_by cron ≡ p → cron' ≡ cron

abbrev pub KeepsClaims : String → Cluster → Cluster → Type 0
KeepsClaims p a b = All2 (KeepsClaim p) a.cron_jobs b.cron_jobs

module _ (p : String) (named : p ≢ "") where
  KeepsClaim-trans : (a b c : CronJob) → KeepsClaim p a b → KeepsClaim p b c → KeepsClaim p a c
  KeepsClaim-trans a b c k l = λ m. l (ap managed_by (k m) ∙ m) ∙ k m

  Touched-KeepsClaim :
      (s : Surroundings) (target : TargetSpec) (q : String) (active : Bool) (cron cron' : CronJob)
      → q ≢ p
      → Touched s.lib s.cron_api target q active cron cron'
      → KeepsClaim p cron cron'
  Touched-KeepsClaim s target q active cron cron' n (inl e) = λ m. e
  Touched-KeepsClaim s target q active cron cron' n (inr c) =
      λ m. elim c.in_scope.1 [ inl k ↦ absurd (named (sym m ∙ k)) | inr k ↦ absurd (n (sym k ∙ m)) ]

-- A policy's claim on a CronJob outlives the policy: with JSON codecs that read back what they write, a
-- CronJob that a policy with a name manages is left as it is, suspended or not, by every sequence of
-- calls of the two controllers for policies of other names, also for ones that are gone, whatever they
-- select and want.
pub Calls-KeepsClaims :
    (p : String) (start : Cluster) {after : Cluster}
    → p ≢ ""
    → Calls (λ cf. cf.name ≢ p) (λ mw. mw.name ≢ p) start after
    → KeepsClaims p start after
Calls-KeepsClaims p start named calls =
    Calls-keep (KeepsClaims p) start (λ c. All2-refl (KeepsClaim p) (λ cron m. refl) c.cron_jobs)
      (λ a b c.
        All2-trans (KeepsClaim p) (KeepsClaim-trans p named) a.cron_jobs b.cron_jobs c.cron_jobs)
      (λ s cf active a b n f.
        Kept-All2 cf.spec.behavior.suspend_cron_jobs
          (Touched s.lib s.cron_api cf.spec.target cf.name active) (KeepsClaim p) (λ cron m. refl)
          (λ x y. Touched-KeepsClaim p named s cf.spec.target cf.name active x y n) a.cron_jobs
          b.cron_jobs f.on_cron_jobs)
      (λ s mw active a b n f.
        Kept-All2 mw.spec.behavior.suspend_cron_jobs
          (Touched s.lib s.cron_api mw.spec.target mw.name active) (KeepsClaim p) (λ cron m. refl)
          (λ x y. Touched-KeepsClaim p named s mw.spec.target mw.name active x y n) a.cron_jobs
          b.cron_jobs f.on_cron_jobs)
      calls
