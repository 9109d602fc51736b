-- ===== src/GitOps/Flux/Session.antt =====
-- A Flux object of internal/gitops/flux.go over time.
use kube_freeze_operator.Common.{◌≡◌, ◌≢◌, refl, ◌∙◌, ◌⊎◌, inl, inr, String, Bool, true, false}
use kube_freeze_operator.Common.Texts.{eq_iff, eq_refl}
use kube_freeze_operator.Common.Dict.{get}
use kube_freeze_operator.GitOps.{
  annotation_managed, annotation_managed_by_policy, annotation_original_suspend, annotations_of,
  managed_by_us, kept,
}
use kube_freeze_operator.GitOps.Marks.{Unmarked}
use kube_freeze_operator.GitOps.Session.{after_run, Session, Free, Switches}
use kube_freeze_operator.GitOps.Session.Laws.{Session-InSession, end-Free, Free-annotations}
use kube_freeze_operator.GitOps.Flux.{
  Suspension, flag, no_path, FluxObject, nested_suspend, format_bool, pause_object, resume_object,
  reconcile_flux_object,
}
use kube_freeze_operator.GitOps.Flux.Switch.{HasSpec}
use kube_freeze_operator.GitOps.Flux.RoundTrip.{original_suspend-format_bool, set_true}

-- What is the same after a session as before it: spec.suspend reads as it did.
pub record Restored (start ended : FluxObject) : Type 0 where
  pub same_suspend : nested_suspend ended.state ≡ nested_suspend start.state
  pub same_annotations : (k : String) → get k (annotations_of ended) ≡ get k (annotations_of start)
  pub same_namespace : ended.namespace ≡ start.namespace
  pub same_name : ended.name ≡ start.name
  pub same_labels : ended.labels ≡ start.labels

-- The states that read as the one at the start.
abbrev pub ReadsAs : Suspension → Suspension → Type 0
ReadsAs start s = (nested_suspend s ≡ nested_suspend start) × (s ≢ no_path)

stays_as_is :
    (p : String) (active : Bool) (o : FluxObject)
    → managed_by_us o p ≡ active
    → reconcile_flux_object p active o ≡ kept active
unfolding reconcile_flux_object
stays_as_is p true o m = rw m
stays_as_is p false o m = rw m

switches :
    (start : Suspension)
    → Switches reconcile_flux_object annotation_original_suspend
        (format_bool (nested_suspend start))
        (flag true)
        (ReadsAs start)
unfolding reconcile_flux_object
switches start = record {
  own_key = λ p. absurd (cc ((eq_iff annotation_original_suspend annotation_managed).1 p));
  own_key_too =
      λ p. absurd (cc ((eq_iff annotation_original_suspend annotation_managed_by_policy).1 p));
  pauses = λ p o m s. rw (m, pause_object, set_true o.state s.1, s.0);
  back = flag (nested_suspend start);
  back_original = (refl, λ e. absurd (cc));
  resumes =
      λ p o m k s. rw (m, resume_object, s, k, original_suspend-format_bool (nested_suspend start));
  stays = stays_as_is;
}

module _ (policy_ref : String) (start : FluxObject) (has_spec : HasSpec start)
    (u : Unmarked annotation_original_suspend (annotations_of start)) where
  Free-start : Free annotation_original_suspend (ReadsAs start.state) start start
  Free-start = record {
    same = record {
      same_namespace = refl;
      same_name = refl;
      same_labels = refl;
      same_elsewhere = λ k other. refl;
    };
    unmarked = u;
    original = (refl, has_spec);
  }

  Free-Restored :
      (o : FluxObject)
      → Free annotation_original_suspend (ReadsAs start.state) start o
      → Restored start o
  Free-Restored o f = record {
    same_suspend = f.original.0;
    same_annotations =
        λ k. Free-annotations annotation_original_suspend (ReadsAs start.state) start o k u f;
    same_namespace = f.same.same_namespace;
    same_name = f.same.same_name;
    same_labels = f.same.same_labels;
  }

  -- A Flux object with an object at spec and none of the operator's annotations, after any sequence of
  -- runs of a policy, active or not, and of runs of other policies that are not active, each update
  -- taken by the API server or not: spec.suspend, every annotation, and the name, namespace and labels
  -- read as at the start, or the policy manages it and it is suspended; and after the next run of the
  -- policy when it is not active, its update taken, all of them read as at the start.
  pub reconcile_flux_object-Session :
      (o : FluxObject)
      → Session reconcile_flux_object policy_ref start o
      → (Restored start o ⊎ ((managed_by_us o policy_ref ≡ true) × (o.state ≡ flag true)))
        × Restored start (after_run (reconcile_flux_object policy_ref false o) true o)
  reconcile_flux_object-Session o session =
      let s =
        Session-InSession reconcile_flux_object annotation_original_suspend
          (format_bool (nested_suspend start.state)) (flag true) (ReadsAs start.state)
          (switches start.state) policy_ref start session (inl Free-start) in
      (
        elim s [
          | inl f ↦ inl (Free-Restored o f)
          | inr h ↦ inr (h.managed policy_ref ∙ eq_refl policy_ref, h.is_paused)
        ],
        Free-Restored _ (
            end-Free reconcile_flux_object annotation_original_suspend
              (format_bool (nested_suspend start.state)) (flag true) (ReadsAs start.state)
              (switches start.state) policy_ref start o s),
      )
