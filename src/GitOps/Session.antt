-- ===== src/GitOps/Session.antt =====
-- internal/gitops over time: one object under any sequence of runs. The switches of argocd.go and flux.go
-- fill the laws that a session is about.
pub mod Laws
use kube_freeze_operator.Common.{
  ◌≡◌, ◌≢◌, refl, sym, subst, ◌∙◌, ◌⊎◌, inl, inr, String, Bool, true, false, some, if◌then◌else◌,
  arith, Bool-cases,
}
use kube_freeze_operator.Common.Texts.{◌==◌, eq_iff, eq_refl}
use kube_freeze_operator.Common.Dict.{Dict, get}
use kube_freeze_operator.GitOps.{
  GitOpsObject, Outcome, kept, written, refused, annotation_managed, annotation_managed_by_policy,
  annotations_of, managed_by_us, paused_annotations, resumed_annotations,
}
use kube_freeze_operator.GitOps.Marks.{
  Unmarked, IsOther, marks-paused, original-paused, get-paused_other, get-resumed_other,
  resumed-Unmarked,
}

-- The object after a run that met it: the update counts if the API server takes it.
abbrev pub after_run : {S : Type 0} → Outcome S → Bool → GitOpsObject S → GitOpsObject S
after_run (kept paused) taken object = object
after_run (written object' paused) taken object = if taken then object' else object
after_run refused taken object = object

-- What happens to an object: a run of the policy, active or not, or a run of another policy that is not
-- active; each update is taken or not.
pub data Happens {S : Type 0} (step : String → Bool → GitOpsObject S → Outcome S)
    (policy_ref : String) (object : GitOpsObject S) : GitOpsObject S → Type 0 where
  own_run :
      (active taken : Bool)
      → Happens step policy_ref object (after_run (step policy_ref active object) taken object)
  other_ends :
      (other : String) (taken : Bool)
      → other ≢ policy_ref
      → Happens step policy_ref object (after_run (step other false object) taken object)

-- Any number of runs, one after the other.
pub data Session {S : Type 0} (step : String → Bool → GitOpsObject S → Outcome S)
    (policy_ref : String) (start : GitOpsObject S) : GitOpsObject S → Type 0 where
  here : Session step policy_ref start start
  later :
      {o o' : GitOpsObject S}
      → Session step policy_ref start o
      → Happens step policy_ref o o'
      → Session step policy_ref start o'

-- Another object is the one at the start, but for the operator's annotations and the state.
pub record SameObject {S : Type 0} (key : String) (start o : GitOpsObject S) : Type 0 where
  pub same_namespace : o.namespace ≡ start.namespace
  pub same_name : o.name ≡ start.name
  pub same_labels : o.labels ≡ start.labels
  pub same_elsewhere :
      (k : String) → IsOther key k → get k (annotations_of o) ≡ get k (annotations_of start)

-- The object is free: without the operator's annotations, its state an original one.
pub record Free {S : Type 0} (key : String) (IsOriginal : S → Type 0) (start o : GitOpsObject S)
    : Type 0 where
  pub same : SameObject key start o
  pub unmarked : Unmarked key (annotations_of o)
  pub original : IsOriginal o.state

-- The policy holds the object: it is paused, and the original state is recorded.
pub record Held {S : Type 0} (key policy_ref text : String) (paused : S) (start o : GitOpsObject S)
    : Type 0 where
  pub same : SameObject key start o
  pub managed : (q : String) → managed_by_us o q ≡ (policy_ref == q)
  pub recorded : get key (annotations_of o) ≡ text
  pub is_paused : o.state ≡ paused

-- What a switch does to an object whose original states are `IsOriginal`, which are recorded as `text`.
pub record Switches {S : Type 0} (step : String → Bool → GitOpsObject S → Outcome S)
    (key text : String) (paused : S) (IsOriginal : S → Type 0) : Type 0 where
  pub own_key : key ≢ annotation_managed
  pub own_key_too : key ≢ annotation_managed_by_policy
  pub pauses :
      (p : String) (o : GitOpsObject S)
      → managed_by_us o p ≡ false
      → IsOriginal o.state
      → step p true o
        ≡ written
            (record o {
              annotations = some (paused_annotations key text p (annotations_of o));
              state = paused;
            })
            true
  pub back : S
  pub back_original : IsOriginal back
  pub resumes :
      (p : String) (o : GitOpsObject S)
      → managed_by_us o p ≡ true
      → get key (annotations_of o) ≡ text
      → o.state ≡ paused
      → step p false o
        ≡ written
            (record o {
              annotations = some (resumed_annotations key (annotations_of o));
              state = back;
            })
            false
  pub stays :
      (p : String) (active : Bool) (o : GitOpsObject S)
      → managed_by_us o p ≡ active
      → step p active o ≡ kept active
