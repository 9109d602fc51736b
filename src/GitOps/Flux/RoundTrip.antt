-- ===== src/GitOps/Flux/RoundTrip.antt =====
-- Suspending and resuming one Flux object, internal/gitops/flux.go.
use kube_freeze_operator.Common.{
  ◌≡◌, ◌≢◌, refl, sym, ◌∙◌, String, Bool, true, false, some, arith, inl, inr,
}
use kube_freeze_operator.Common.Texts.{◌==◌, eq_iff, eq_refl}
use kube_freeze_operator.Common.Dict.{get}
use kube_freeze_operator.GitOps.{
  kept, written, annotation_managed, annotation_managed_by_policy, annotation_original_suspend,
  annotations_of, managed_by_us, paused_annotations, resumed_annotations,
}
use kube_freeze_operator.GitOps.Marks.{marks-paused, original-paused, Unmarked, get-resumed_paused}
use kube_freeze_operator.GitOps.Flux.{
  Suspension, flag, no_path, FluxObject, nested_suspend, set_suspend, format_bool, original_suspend,
  pause_object, resume_object, reconcile_flux_object,
}
use kube_freeze_operator.GitOps.Flux.Switch.{HasSpec, set_suspend_cases}

-- What a pause that records a text leaves of an object.
abbrev pub paused_object : String → String → FluxObject → FluxObject
paused_object policy_ref t object = record object {
  annotations =
      some (paused_annotations annotation_original_suspend t policy_ref (annotations_of object));
  state = flag true;
}

paused_object-managed_by :
    (policy_ref t other : String) (object : FluxObject)
    → managed_by_us (paused_object policy_ref t object) other ≡ (policy_ref == other)
paused_object-managed_by policy_ref t other object =
    marks-paused annotation_original_suspend t policy_ref other (annotations_of object)

paused_object-managed :
    (policy_ref t : String) (object : FluxObject)
    → managed_by_us (paused_object policy_ref t object) policy_ref ≡ true
paused_object-managed policy_ref t object =
    paused_object-managed_by policy_ref t policy_ref object ∙ eq_refl policy_ref

original_paused_object :
    (policy_ref t : String) (object : FluxObject)
    → get annotation_original_suspend (annotations_of (paused_object policy_ref t object)) ≡ t
original_paused_object policy_ref t object =
    original-paused annotation_original_suspend t policy_ref (annotations_of object)
      (λ p. absurd (cc ((eq_iff annotation_original_suspend annotation_managed).1 p)))
      (λ p. absurd (cc ((eq_iff annotation_original_suspend annotation_managed_by_policy).1 p)))

not_same : (a b : String) → a ≢ b → (a == b) ≡ false
not_same a b h = ground (arith, eq_iff a b)

pub original_suspend-format_bool : (b : Bool) → original_suspend (format_bool b) ≡ b
original_suspend-format_bool true = refl
original_suspend-format_bool false = refl

pub set_true : (s : Suspension) → s ≢ no_path → set_suspend true s ≡ some (flag true)
set_true s h = elim (set_suspend_cases true s) [ inl (e, p) ↦ absurd (h p) | inr e ↦ e ]

pub record Back (policy_ref : String) (object : FluxObject) : Type 0 where
  pub paused : FluxObject
  pub resumed : FluxObject
  pub pauses : reconcile_flux_object policy_ref true object ≡ written paused true
  pub suspended : paused.state ≡ flag true
  pub stays : reconcile_flux_object policy_ref true paused ≡ kept true
  pub resumes : reconcile_flux_object policy_ref false paused ≡ written resumed false
  pub same_suspend : resumed.state ≡ flag (nested_suspend object.state)
  pub same_annotations :
      (k : String) → get k (annotations_of resumed) ≡ get k (annotations_of object)
  pub same_namespace : resumed.namespace ≡ object.namespace
  pub same_name : resumed.name ≡ object.name
  pub same_labels : resumed.labels ≡ object.labels

-- A Flux object with an object at spec and without the operator's annotations: pausing it is an update
-- that suspends it, a paused one is left alone while the policy is active, and resuming it is an update
-- after which spec.suspend is what it was, false if no Boolean was there, and every annotation, and
-- the name, namespace and labels are as they were.
pub reconcile_flux_object-round_trip :
    (policy_ref : String) (object : FluxObject)
    → HasSpec object
    → Unmarked annotation_original_suspend (annotations_of object)
    → Back policy_ref object
unfolding reconcile_flux_object
reconcile_flux_object-round_trip policy_ref object h u =
    let t = format_bool (nested_suspend object.state) in
    record {
      paused = paused_object policy_ref t object;
      resumed = record object {
        annotations = some (
            resumed_annotations annotation_original_suspend (
              paused_annotations annotation_original_suspend t policy_ref (annotations_of object)));
        state = flag (nested_suspend object.state);
      };
      pauses = rw (u.no_managed, pause_object, set_true object.state h);
      suspended = refl;
      stays = rw (paused_object-managed policy_ref t object);
      resumes = rw (
        paused_object-managed policy_ref t object,
        resume_object,
        original_paused_object policy_ref t object,
        original_suspend-format_bool (nested_suspend object.state),
      );
      same_suspend = refl;
      same_annotations = λ k.
          get-resumed_paused annotation_original_suspend t policy_ref k (annotations_of object) u;
      same_namespace = refl;
      same_name = refl;
      same_labels = refl;
    }

-- A Flux object with an object at spec and without the operator's annotations that two different
-- policies pause, one after the other: the end of the first policy changes nothing, and the end of
-- the second leaves the object suspended, whatever spec.suspend was before.
pub reconcile_flux_object-stays_suspended :
    (p q : String) (object : FluxObject)
    → p ≢ q
    → HasSpec object
    → Unmarked annotation_original_suspend (annotations_of object)
    → (paused : FluxObject) × (paused_twice : FluxObject) × (resumed : FluxObject)
      × (reconcile_flux_object p true object ≡ written paused true)
      × (reconcile_flux_object q true paused ≡ written paused_twice true)
      × (reconcile_flux_object p false paused_twice ≡ kept false)
      × (reconcile_flux_object q false paused_twice ≡ written resumed false)
      × (resumed.state ≡ flag true)
unfolding reconcile_flux_object
reconcile_flux_object-stays_suspended p q object n h u =
    let t = format_bool (nested_suspend object.state) in
    let once = paused_object p t object in
    let twice = paused_object q "true" once in
    (
      once,
      twice,
      record twice {
        annotations = some (resumed_annotations annotation_original_suspend (annotations_of twice));
      },
      rw (u.no_managed, pause_object, set_true object.state h),
      rw (paused_object-managed_by p t q object, not_same p q n, pause_object),
      rw (paused_object-managed_by q "true" p once, not_same q p (λ k. n (sym k))),
      rw (paused_object-managed q "true" once, resume_object, original_paused_object q "true" once),
      refl,
    )
