-- ===== src/Controller/Enforcement.antt =====
-- What the calls of Reconcile of internal/controller/changefreeze_controller.go make of the CronJobs,
-- where the API server answers.
use kube_freeze_operator.Common.{
  ◌≤◌, ◌<◌, ℕ, ◌≡◌, inl, inr, subst, sym, ap, String, Bool, true, false, some, List, [], ◌∷◌, All2,
  any, arith,
}
use kube_freeze_operator.Api.Kinds.{cron_job, kind_eq}
use kube_freeze_operator.Api.Specs.{TargetSpec}
use kube_freeze_operator.Api.Objects.{ChangeFreeze, ChangeFreezeStatus, Namespace}
use kube_freeze_operator.External.{Library}
use kube_freeze_operator.Controller.CronJobs.{CronJob, CronApi}
use kube_freeze_operator.Controller.CronJobs.Visit.{InScope}
use kube_freeze_operator.Controller.CronJobs.Frame.{Touched}
use kube_freeze_operator.Controller.CronJobs.Enforce.{
  IsAnswering, Enforced, update_cron_jobs-Enforced,
}
use kube_freeze_operator.Controller.Interval.{interval_active}
use kube_freeze_operator.Controller.Status.{Surroundings, Cluster, found}
use kube_freeze_operator.Controller.ChangeFreeze.{freeze_cron_jobs, reconcile_change_freeze}
use kube_freeze_operator.Controller.Effects.{reconcile_change_freeze-cron_jobs}

-- The namespaces are listed, the API server lists the CronJobs and takes every update, and the freeze
-- suspends CronJobs.
pub record Enforces (s : Surroundings) (cf : ChangeFreeze) (items : List Namespace) : Type 0 where
  pub answering : IsAnswering s.cron_api
  pub listed : s.reader.list_namespaces ≡ some items
  pub suspends : cf.spec.behavior.suspend_cron_jobs ≡ true
  pub covers : any (λ k. kind_eq k cron_job) cf.spec.target.kinds ≡ true

pub reconcile_change_freeze-Enforced :
    (s : Surroundings) (takes : ChangeFreeze → Bool) (cf : ChangeFreeze) (cluster : Cluster)
    (items : List Namespace)
    → Enforces s cf items
    → All2
        (Enforced s.lib s.cron_api cf.spec.target cf.name
          (interval_active cf.spec.start_time cf.spec.end_time s.now)
          items)
        cluster.cron_jobs
        (reconcile_change_freeze s takes (found cf) cluster).cluster.cron_jobs
unfolding reconcile_change_freeze freeze_cron_jobs
    kube_freeze_operator.Controller.CronJobs.update_cron_jobs_for_change_freeze
reconcile_change_freeze-Enforced s takes cf cluster items e = rw e.suspends (
    update_cron_jobs-Enforced s.lib s.cron_api e.answering cf.spec.target cf.name
      (interval_active cf.spec.start_time cf.spec.end_time s.now) s.reader items cluster.cron_jobs
      e.listed e.covers)

All2-comp :
    {A : Type 0} (R S T : A → A → Type 0)
    → ((x y z : A) → R x y → S y z → T x z)
    → (xs ys zs : List A) → All2 R xs ys
    → All2 S ys zs
    → All2 T xs zs
All2-comp R S T f [] [] [] h k = tt
All2-comp R S T f (x ∷ xs) (y ∷ ys) (z ∷ zs) h k =
    (f x y z h.0 k.0, All2-comp R S T f xs ys zs h.1 k.1)
All2-comp R S T f [] [] (z ∷ zs) h k = absurd k
All2-comp R S T f [] (y ∷ ys) zs h k = absurd h
All2-comp R S T f (x ∷ xs) [] zs h k = absurd h
All2-comp R S T f (x ∷ xs) (y ∷ ys) [] h k = absurd k

module _ (lib : Library) (api : CronApi) (target : TargetSpec) (name : String) where
  -- What a run leaves is in the same namespace, and in scope if it was before.
  Touched-InScope :
      (s b : Bool) (cron cron' : CronJob)
      → Touched lib api target name s cron cron'
      → InScope lib target name b cron
      → InScope lib target name b cron'
  Touched-InScope s b cron cron' (inl e) i = subst (InScope lib target name b) (sym e) i
  Touched-InScope s b cron cron' (inr c) i = (rw c.same_labels i.0, inr c.manages)

  Touched-namespace :
      (s : Bool) (cron cron' : CronJob)
      → Touched lib api target name s cron cron'
      → cron'.namespace ≡ cron.namespace
  Touched-namespace s cron cron' (inl e) = ap (λ c. c.namespace) e
  Touched-namespace s cron cron' (inr c) = c.same_namespace

  Touched-then_Enforced :
      (s b : Bool) (items : List Namespace) (x y z : CronJob)
      → Touched lib api target name s x y
      → Enforced lib api target name b items y z
      → Enforced lib api target name b items x z
  Touched-then_Enforced s b items x y z t e =
      λ m i. e (rw (Touched-namespace s x y t) m) (Touched-InScope s b x y t i)

interval_active-within :
    (start end now : ℕ) → start ≤ now → now < end → interval_active start end now ≡ true
interval_active-within start end now h k = ground arith

interval_active-after : (start end now : ℕ) → end ≤ now → interval_active start end now ≡ false
interval_active-after start end now h = ground arith

-- A freeze that suspends CronJobs, on a cluster that answers, in two calls of its controller: one within
-- the freeze and a later one at its end or after it, in which the freeze has the same spec and any
-- status. A CronJob that the freeze selects in a matching namespace, and that no other policy manages
-- before the first call, is suspended after the first call and not suspended after the second.
pub reconcile_change_freeze_lifecycle :
    (s : Surroundings) (takes takes' : ChangeFreeze → Bool) (cf : ChangeFreeze)
    (status : ChangeFreezeStatus) (cluster : Cluster) (items : List Namespace) (later : ℕ)
    → Enforces s cf items
    → cf.spec.start_time ≤ s.now
    → s.now < cf.spec.end_time
    → cf.spec.end_time ≤ later
    → let during = (reconcile_change_freeze s takes (found cf) cluster).cluster in
      let after =
        (reconcile_change_freeze
          (record s { now = later })
          takes'
          (found (record cf { status = status }))
          during).cluster in
      All2
        (Enforced s.lib s.cron_api cf.spec.target cf.name true items)
        cluster.cron_jobs
        during.cron_jobs
      × All2
          (Enforced s.lib s.cron_api cf.spec.target cf.name false items)
          cluster.cron_jobs
          after.cron_jobs
reconcile_change_freeze_lifecycle s takes takes' cf status cluster items later e begun lasts ended =
    let during = (reconcile_change_freeze s takes (found cf) cluster).cluster in
    let target = cf.spec.target in
    let on = interval_active-within cf.spec.start_time cf.spec.end_time s.now begun lasts in
    let off = interval_active-after cf.spec.start_time cf.spec.end_time later ended in
    let again : Enforces (record s { now = later }) (record cf { status = status }) items = record {
      answering = e.answering;
      listed = e.listed;
      suspends = e.suspends;
      covers = e.covers;
    } in
    let first = reconcile_change_freeze-Enforced s takes cf cluster items e in
    let second =
      reconcile_change_freeze-Enforced (record s { now = later }) takes'
        (record cf { status = status }) during items again in
    (
      rw on at first,
      All2-comp (Touched s.lib s.cron_api target cf.name true)
          (Enforced s.lib s.cron_api target cf.name false items)
          (Enforced s.lib s.cron_api target cf.name false items)
          (Touched-then_Enforced s.lib s.cron_api target cf.name true false items) cluster.cron_jobs
          during.cron_jobs
          (reconcile_change_freeze (record s { now = later }) takes'
            (found (record cf { status = status })) during).cluster.cron_jobs
          (rw on at (reconcile_change_freeze-cron_jobs s takes cf cluster)) (rw off at second),
    )
