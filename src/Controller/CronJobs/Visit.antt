-- ===== src/Controller/CronJobs/Visit.antt =====
-- One CronJob under the loop's body.
use kube_freeze_operator.Common.{
  ◌≡◌, subst, ◌≢◌, ◌⊎◌, inl, inr, refl, String, Bool, true, false, Option, none, some, arith,
  Bool-cases,
}
use kube_freeze_operator.Common.Texts.{◌==◌, eq_iff}
use kube_freeze_operator.Common.Dict.{Dict, get, put, get-put}
use kube_freeze_operator.Api.Specs.{TargetSpec}
use kube_freeze_operator.External.{Library}
use kube_freeze_operator.Controller.CronJobs.{
  CronJob, annotation_managed_by, annotation_original_suspend, matches_selector, is_suspended,
  bool_text, differs, annotations_of, managed_by, managed_annotations, with_suspend, visit,
}

module _ (lib : Library) (target : TargetSpec) (policy_name : String) (should_suspend : Bool) where
  -- The CronJob is selected, and no other policy manages it.
  abbrev pub InScope : CronJob → Type 0
  InScope cron =
      (matches_selector lib target.object_selector cron.labels ≡ true)
      × ((managed_by cron ≡ "") ⊎ (managed_by cron ≡ policy_name))

  -- What an update does to a CronJob.
  pub record Changed (cron cron' : CronJob) : Type 0 where
    pub in_scope : InScope cron
    pub suspends : cron'.suspend ≡ some should_suspend
    pub manages : managed_by cron' ≡ policy_name
    pub same_namespace : cron'.namespace ≡ cron.namespace
    pub same_name : cron'.name ≡ cron.name
    pub same_labels : cron'.labels ≡ cron.labels

  differs-settled : (s : Option Bool) → differs s should_suspend ≡ false → s ≡ some should_suspend
  differs-settled none h = cc
  differs-settled (some true) h = ground arith
  differs-settled (some false) h = ground arith

  managed_by-managed_annotations :
      (cron : CronJob)
      → get annotation_managed_by (managed_annotations cron policy_name) ≡ policy_name
  managed_by-managed_annotations cron =
      get-put annotation_managed_by annotation_managed_by policy_name (
        put annotation_original_suspend (bool_text (is_suspended cron.suspend))
          (annotations_of cron))

  with_suspend-Changed :
      (cron cron' : CronJob) (annotations : Dict)
      → InScope cron
      → get annotation_managed_by annotations ≡ policy_name
      → with_suspend cron annotations should_suspend ≡ some cron'
      → Changed cron cron'
  with_suspend-Changed cron cron' annotations s m h =
      elim (Bool-cases (differs cron.suspend should_suspend)) [
        | inr e ↦ absurd (cc (rw e at h))
        | inl e ↦
            let p : record cron { annotations = some annotations; suspend = some should_suspend }
                ≡ cron' =
              cc (rw e at h) in
            subst (Changed cron) p (record {
              in_scope = s;
              suspends = refl;
              manages = m;
              same_namespace = refl;
              same_name = refl;
              same_labels = refl;
            })
      ]

  -- Which of the four ways the loop's body goes.
  data Way (cron : CronJob) : Option CronJob → Type 0 where
    unselected : matches_selector lib target.object_selector cron.labels ≡ false → Way cron none
    foreign : managed_by cron ≢ "" → managed_by cron ≢ policy_name → Way cron none
    new :
        InScope cron
        → Way cron (with_suspend cron (managed_annotations cron policy_name) should_suspend)
    known :
        InScope cron
        → managed_by cron ≡ policy_name
        → Way cron (with_suspend cron (annotations_of cron) should_suspend)

  visit-Way : (cron : CronJob) → Way cron (visit lib target policy_name should_suspend cron)
  unfolding visit
  visit-Way cron = elim (Bool-cases (matches_selector lib target.object_selector cron.labels)) [
    | inr e ↦ rw e (unselected e)
    | inl e ↦ elim (Bool-cases (managed_by cron == "")) [
      | inl u ↦ rw (e, u) (new (e, inl ((eq_iff (managed_by cron) "").0 u)))
      | inr u ↦ elim (Bool-cases (managed_by cron == policy_name)) [
        | inl v ↦
            rw (e, u, v)
              (known (e, inr ((eq_iff (managed_by cron) policy_name).0 v))
                ((eq_iff (managed_by cron) policy_name).0 v))
        | inr v ↦
            rw (e, u, v)
              (foreign (λ p. cc (u, (eq_iff (managed_by cron) "").1 p))
                (λ p. cc (v, (eq_iff (managed_by cron) policy_name).1 p)))
      ]
    ]
  ]

  with_suspend-none :
      (cron : CronJob) (annotations : Dict)
      → with_suspend cron annotations should_suspend ≡ none
      → cron.suspend ≡ some should_suspend
  with_suspend-none cron annotations h = elim (Bool-cases (differs cron.suspend should_suspend)) [
    | inl e ↦ absurd (cc (rw e at h))
    | inr e ↦ differs-settled cron.suspend e
  ]

  pub visit-Changed :
      (cron cron' : CronJob)
      → visit lib target policy_name should_suspend cron ≡ some cron'
      → Changed cron cron'
  visit-Changed cron cron' h =
      go (visit lib target policy_name should_suspend cron) (visit-Way cron) h
    where
      go : (o : Option CronJob) → Way cron o → o ≡ some cron' → Changed cron cron'
      go _ (unselected e) h = absurd (cc)
      go _ (foreign e f) h = absurd (cc)
      go _ (new s) h =
          with_suspend-Changed cron cron' (managed_annotations cron policy_name) s
            (managed_by-managed_annotations cron) h
      go _ (known s m) h = with_suspend-Changed cron cron' (annotations_of cron) s m h

  -- What is in scope and not written has the suspend state that is wanted.
  pub visit-settled :
      (cron : CronJob)
      → visit lib target policy_name should_suspend cron ≡ none
      → InScope cron
      → cron.suspend ≡ some should_suspend
  visit-settled cron h s = go (visit lib target policy_name should_suspend cron) (visit-Way cron) h
    where
      go : (o : Option CronJob) → Way cron o → o ≡ none → cron.suspend ≡ some should_suspend
      go _ (unselected e) h = absurd (cc (e, s.0))
      go _ (foreign e f) h = elim s.1 [ inl k ↦ absurd (e k) | inr k ↦ absurd (f k) ]
      go _ (new _) h = with_suspend-none cron (managed_annotations cron policy_name) h
      go _ (known _ _) h = with_suspend-none cron (annotations_of cron) h

  differs_settled_back :
      (s : Option Bool) → s ≡ some should_suspend → differs s should_suspend ≡ false
  differs_settled_back none h = absurd (cc)
  differs_settled_back (some true) h = ground arith
  differs_settled_back (some false) h = ground arith

  pub visit-none :
      (cron : CronJob)
      → cron.suspend ≡ some should_suspend
      → visit lib target policy_name should_suspend cron ≡ none
  visit-none cron h = go (visit lib target policy_name should_suspend cron) (visit-Way cron)
    where
      go : (o : Option CronJob) → Way cron o → o ≡ none
      go _ (unselected e) = refl
      go _ (foreign e f) = refl
      go _ (new _) = rw (differs_settled_back cron.suspend h)
      go _ (known _ _) = rw (differs_settled_back cron.suspend h)
