-- ===== src/GitOps/ArgoCd/Session.antt =====
-- An Application of internal/gitops/argocd.go over time.
use kube_freeze_operator.Common.{◌≡◌, refl, ◌∙◌, ◌⊎◌, inl, inr, String, Bool, true, false, some}
use kube_freeze_operator.Common.Texts.{eq_iff, eq_refl}
use kube_freeze_operator.Common.Dict.{get}
use kube_freeze_operator.GitOps.{
  annotation_managed, annotation_managed_by_policy, annotation_original_auto_sync, annotations_of,
  managed_by_us, kept,
}
use kube_freeze_operator.GitOps.Marks.{Unmarked}
use kube_freeze_operator.GitOps.Session.{after_run, Session, Free, Switches}
use kube_freeze_operator.GitOps.Session.Laws.{Session-InSession, end-Free, Free-annotations}
use kube_freeze_operator.GitOps.ArgoCd.{
  Automated, absent, Application, JsonCodec, original_auto_sync, remove_automated,
  restored_automated, pause_app, resume_app, reconcile_argo_cd_app,
}
use kube_freeze_operator.GitOps.ArgoCd.Switch.{RoundTrips}
use kube_freeze_operator.GitOps.ArgoCd.RoundTrip.{
  Restorable, object_there, nothing_there, restored, restored_null,
}

-- What is the same after a session as before it.
pub record Restored (start ended : Application) : Type 0 where
  pub same_state : ended.state ≡ start.state
  pub same_annotations : (k : String) → get k (annotations_of ended) ≡ get k (annotations_of start)
  pub same_namespace : ended.namespace ≡ start.namespace
  pub same_name : ended.name ≡ start.name
  pub same_labels : ended.labels ≡ start.labels

module _ (codec : JsonCodec) where
  switches :
      (start : Application) (t : String)
      → original_auto_sync codec start.state ≡ some t
      → remove_automated start.state ≡ absent
      → restored_automated codec t absent ≡ some start.state
      → Switches
          (reconcile_argo_cd_app codec)
          annotation_original_auto_sync
          t
          absent
          (λ s. s ≡ start.state)
  unfolding reconcile_argo_cd_app
  switches start t e a r = record {
    own_key = λ p. absurd (cc ((eq_iff annotation_original_auto_sync annotation_managed).1 p));
    own_key_too =
        λ p. absurd (cc ((eq_iff annotation_original_auto_sync annotation_managed_by_policy).1 p));
    pauses = λ p o m s. rw (m, pause_app, s, e, s, a);
    back = start.state;
    back_original = refl;
    resumes = λ p o m k s. rw (m, resume_app, k, s, r);
    stays = λ p active o m. stays_as_is p active o m;
  }
    where
      stays_as_is :
          (p : String) (active : Bool) (o : Application)
          → managed_by_us o p ≡ active
          → reconcile_argo_cd_app codec p active o ≡ kept active
      stays_as_is p true o m = rw m
      stays_as_is p false o m = rw m

  module _ (policy_ref : String) (start : Application)
      (u : Unmarked annotation_original_auto_sync (annotations_of start)) where
    Free-start : Free annotation_original_auto_sync (λ s. s ≡ start.state) start start
    Free-start = record {
      same = record {
        same_namespace = refl;
        same_name = refl;
        same_labels = refl;
        same_elsewhere = λ k other. refl;
      };
      unmarked = u;
      original = refl;
    }

    Free-Restored :
        (o : Application)
        → Free annotation_original_auto_sync (λ s. s ≡ start.state) start o
        → Restored start o
    Free-Restored o f = record {
      same_state = f.original;
      same_annotations =
          λ k. Free-annotations annotation_original_auto_sync (λ s. s ≡ start.state) start o k u f;
      same_namespace = f.same.same_namespace;
      same_name = f.same.same_name;
      same_labels = f.same.same_labels;
    }

    -- An Application in a session, and after it.
    abbrev pub Course : Application → Type 0
    Course o =
        (Restored start o ⊎ ((managed_by_us o policy_ref ≡ true) × (o.state ≡ absent)))
        × Restored start (after_run (reconcile_argo_cd_app codec policy_ref false o) true o)

    course :
        (t : String)
        → original_auto_sync codec start.state ≡ some t
        → remove_automated start.state ≡ absent
        → restored_automated codec t absent ≡ some start.state
        → (o : Application) → Session (reconcile_argo_cd_app codec) policy_ref start o
        → Course o
    course t e a r o session =
        let laws = switches start t e a r in
        let s =
          Session-InSession (reconcile_argo_cd_app codec) annotation_original_auto_sync t absent
            (λ s. s ≡ start.state) laws policy_ref start session (inl Free-start) in
        (
          elim s [
            | inl f ↦ inl (Free-Restored o f)
            | inr h ↦ inr (h.managed policy_ref ∙ eq_refl policy_ref, h.is_paused)
          ],
          Free-Restored _ (
              end-Free (reconcile_argo_cd_app codec) annotation_original_auto_sync t absent
                (λ s. s ≡ start.state) laws policy_ref start o s),
        )

-- With a JSON codec that reads back what it writes, an Application whose automated sync is an object or
-- not there and that has none of the operator's annotations, after any sequence of runs of a policy,
-- active or not, and of runs of other policies that are not active, each update taken by the API server
-- or not: it is as at the start, or the policy manages it and it has no automated sync; and the next
-- run of the policy when it is not active, its update taken, leaves automated sync, every annotation,
-- and the name, namespace and labels as at the start.
pub reconcile_argo_cd_app-Session :
    (codec : JsonCodec)
    → (trips : RoundTrips codec) (policy_ref : String) (start o : Application)
    → Restorable codec trips start.state
    → (u : Unmarked annotation_original_auto_sync (annotations_of start))
    → Session (reconcile_argo_cd_app codec) policy_ref start o
    → Course codec policy_ref start u o
reconcile_argo_cd_app-Session codec trips policy_ref start o h u session = go start.state h refl
  where
    go :
        (s : Automated)
        → Restorable codec trips s
        → start.state ≡ s
        → Course codec policy_ref start u o
    go _ (object_there j) e =
        let (t, m, p, q, d) = trips.marshals j in
        course codec policy_ref start u t (rw e m) (rw e) (rw e (restored codec trips j t p q d)) o
          session
    go _ nothing_there e =
        course codec policy_ref start u "null" (rw e) (rw e) (rw e (restored_null codec trips)) o
          session
