-- ===== src/GitOps/Flux/Switch.antt =====
-- reconcileFluxObject of internal/gitops/flux.go: the switch for one object.
use kube_freeze_operator.Common.{
  ◌≡◌, ◌≢◌, ◌⊎◌, refl, ◌∙◌, String, Bool, true, false, some, none, Bool-cases, inl, inr,
}
use kube_freeze_operator.Common.Texts.{eq_refl}
use kube_freeze_operator.Common.Dict.{get}
use kube_freeze_operator.GitOps.{
  annotation_original_suspend, annotations_of, managed_by_us, paused_annotations,
  resumed_annotations,
}
use kube_freeze_operator.GitOps.Frame.{Moves, kept_as_is, moved, failed}
use kube_freeze_operator.GitOps.Marks.{marks-paused, marks-resumed}
use kube_freeze_operator.GitOps.Flux.{
  Suspension, absent, flag, other_value, no_path, FluxObject, nested_suspend, set_suspend,
  format_bool, original_suspend, pause_object, resume_object, reconcile_flux_object,
}

-- spec is an object.
abbrev pub HasSpec : FluxObject → Type 0
HasSpec object = object.state ≢ no_path

pub set_suspend_cases :
    (b : Bool) (s : Suspension)
    → ((set_suspend b s ≡ none) × (s ≡ no_path)) ⊎ (set_suspend b s ≡ some (flag b))
set_suspend_cases b absent = inr refl
set_suspend_cases b (flag c) = inr refl
set_suspend_cases b other_value = inr refl
set_suspend_cases b no_path = inl (refl, refl)

flag-HasSpec : (b : Bool) → flag b ≢ no_path
flag-HasSpec b = λ e. absurd (cc)

module _ (policy_ref : String) where
  pause_object-Moves :
      (object : FluxObject)
      → managed_by_us object policy_ref ≡ false
      → Moves HasSpec policy_ref true object (pause_object policy_ref object)
  pause_object-Moves object m = elim (set_suspend_cases true object.state) [
    | inl (e, p) ↦ rw (pause_object, e) (failed (λ g. g p))
    | inr e ↦
        rw (pause_object, e)
          (moved
            (record object {
              annotations = some (
                  paused_annotations annotation_original_suspend
                    (format_bool (nested_suspend object.state)) policy_ref (annotations_of object));
              state = flag true;
            })
            (record {
              was_managed = m;
              is_managed =
                  marks-paused annotation_original_suspend
                    (format_bool (nested_suspend object.state)) policy_ref policy_ref
                    (annotations_of object)
                  ∙ eq_refl policy_ref;
              same_namespace = refl;
              same_name = refl;
              same_labels = refl;
              stays_good = λ _. flag-HasSpec true;
            }))
  ]

  resume_object-Moves :
      (object : FluxObject)
      → managed_by_us object policy_ref ≡ true
      → Moves HasSpec policy_ref false object (resume_object object)
  resume_object-Moves object m =
      let b = original_suspend (get annotation_original_suspend (annotations_of object)) in
      elim (set_suspend_cases b object.state) [
        | inl (e, p) ↦ rw (resume_object, e) (failed (λ g. g p))
        | inr e ↦
            rw (resume_object, e)
              (moved
                (record object {
                  annotations =
                      some
                        (resumed_annotations annotation_original_suspend (annotations_of object));
                  state = flag b;
                })
                (record {
                  was_managed = m;
                  is_managed =
                      marks-resumed annotation_original_suspend policy_ref (annotations_of object);
                  same_namespace = refl;
                  same_name = refl;
                  same_labels = refl;
                  stays_good = λ _. flag-HasSpec b;
                }))
      ]

  pub reconcile_flux_object-Moves :
      (active : Bool) (object : FluxObject)
      → Moves HasSpec policy_ref active object (reconcile_flux_object policy_ref active object)
  unfolding reconcile_flux_object
  reconcile_flux_object-Moves true object = elim (Bool-cases (managed_by_us object policy_ref)) [
    | inl e ↦ rw e (kept_as_is e)
    | inr e ↦ rw e (pause_object-Moves object e)
  ]
  reconcile_flux_object-Moves false object = elim (Bool-cases (managed_by_us object policy_ref)) [
    | inl e ↦ rw e (resume_object-Moves object e)
    | inr e ↦ rw e (kept_as_is e)
  ]
