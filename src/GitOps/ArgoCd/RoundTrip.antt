-- ===== src/GitOps/ArgoCd/RoundTrip.antt =====
-- Pausing and resuming one Application, internal/gitops/argocd.go.
use kube_freeze_operator.Common.{◌≡◌, sym, ◌≢◌, refl, ◌∙◌, String, true, false, some, arith}
use kube_freeze_operator.Common.Texts.{◌==◌, eq_iff, eq_refl}
use kube_freeze_operator.Common.Dict.{get}
use kube_freeze_operator.GitOps.{
  annotation_managed, annotation_managed_by_policy, kept, written, annotation_original_auto_sync,
  annotations_of, managed_by_us, paused_annotations, resumed_annotations,
}
use kube_freeze_operator.GitOps.Marks.{marks-paused, original-paused, Unmarked, get-resumed_paused}
use kube_freeze_operator.GitOps.ArgoCd.{
  Json, Automated, absent, object, Application, JsonCodec, original_auto_sync, remove_automated,
  restored_automated, pause_app, resume_app, reconcile_argo_cd_app,
}
use kube_freeze_operator.GitOps.ArgoCd.Switch.{RoundTrips}

module _ (codec : JsonCodec) (trips : RoundTrips codec) where
  -- What a pause leaves of an Application with an object or nothing there.
  abbrev pub paused_app : String → String → Application → Application
  paused_app policy_ref t app = record app {
    annotations =
        some (paused_annotations annotation_original_auto_sync t policy_ref (annotations_of app));
    state = absent;
  }

  paused_app-managed_by :
      (policy_ref t other : String) (app : Application)
      → managed_by_us (paused_app policy_ref t app) other ≡ (policy_ref == other)
  paused_app-managed_by policy_ref t other app =
      marks-paused annotation_original_auto_sync t policy_ref other (annotations_of app)

  paused_app-managed :
      (policy_ref t : String) (app : Application)
      → managed_by_us (paused_app policy_ref t app) policy_ref ≡ true
  paused_app-managed policy_ref t app =
      paused_app-managed_by policy_ref t policy_ref app ∙ eq_refl policy_ref

  original_paused_app :
      (policy_ref t : String) (app : Application)
      → get annotation_original_auto_sync (annotations_of (paused_app policy_ref t app)) ≡ t
  original_paused_app policy_ref t app =
      original-paused annotation_original_auto_sync t policy_ref (annotations_of app)
        (λ p. absurd (cc ((eq_iff annotation_original_auto_sync annotation_managed).1 p)))
        (λ p. absurd (cc ((eq_iff annotation_original_auto_sync annotation_managed_by_policy).1 p)))

  pub not_empty : (a b : String) → a ≢ b → (a == b) ≡ false
  not_empty a b h = ground (arith, eq_iff a b)

  Unmarked-managed :
      (app : Application) (policy_ref : String)
      → Unmarked annotation_original_auto_sync (annotations_of app)
      → managed_by_us app policy_ref ≡ false
  Unmarked-managed app policy_ref u = rw u.no_managed

  pub restored :
      (j : Json) (t : String)
      → t ≢ ""
      → t ≢ "null"
      → codec.unmarshal t ≡ some j
      → restored_automated codec t absent ≡ some (object j)
  unfolding restored_automated
  restored j t h k e = rw (not_empty t "" h, not_empty t "null" k, e)

  pub restored_null : restored_automated codec "null" absent ≡ some absent
  unfolding restored_automated
  restored_null = refl

  -- The state that comes back after a pause: automated, if it is an object or not there.
  pub data Restorable : Automated → Type 0 where
    object_there : (j : Json) → Restorable (object j)
    nothing_there : Restorable absent

  pub record Back (policy_ref : String) (app : Application) : Type 0 where
    pub paused : Application
    pub resumed : Application
    pub pauses : reconcile_argo_cd_app codec policy_ref true app ≡ written paused true
    pub stops_syncing : paused.state ≡ absent
    pub stays : reconcile_argo_cd_app codec policy_ref true paused ≡ kept true
    pub resumes : reconcile_argo_cd_app codec policy_ref false paused ≡ written resumed false
    pub same_state : resumed.state ≡ app.state
    pub same_annotations :
        (k : String) → get k (annotations_of resumed) ≡ get k (annotations_of app)
    pub same_namespace : resumed.namespace ≡ app.namespace
    pub same_name : resumed.name ≡ app.name
    pub same_labels : resumed.labels ≡ app.labels

  Back-from :
      (policy_ref : String) (app : Application) (t : String)
      → original_auto_sync codec app.state ≡ some t
      → remove_automated app.state ≡ absent
      → restored_automated codec t absent ≡ some app.state
      → Unmarked annotation_original_auto_sync (annotations_of app)
      → Back policy_ref app
  unfolding reconcile_argo_cd_app
  Back-from policy_ref app t e a r u = record {
    paused = paused_app policy_ref t app;
    resumed = record app {
      annotations = some (
          resumed_annotations annotation_original_auto_sync
            (paused_annotations annotation_original_auto_sync t policy_ref (annotations_of app)));
    };
    pauses = rw (Unmarked-managed app policy_ref u, pause_app, e, a);
    stops_syncing = refl;
    stays = rw (paused_app-managed policy_ref t app);
    resumes =
        rw (
          paused_app-managed policy_ref t app,
          resume_app,
          original_paused_app policy_ref t app,
          r,
        );
    same_state = refl;
    same_annotations =
        λ k. get-resumed_paused annotation_original_auto_sync t policy_ref k (annotations_of app) u;
    same_namespace = refl;
    same_name = refl;
    same_labels = refl;
  }

  -- With a JSON codec that reads back what it writes, an Application without the operator's
  -- annotations whose automated sync is an object or not there: pausing it is an update that leaves
  -- no automated sync, a paused one is left alone while the policy is active, and resuming it is an
  -- update after which the automated sync, every annotation, and the name, namespace and labels are
  -- as they were.
  pub reconcile_argo_cd_app-round_trip :
      (policy_ref : String) (app : Application)
      → Restorable app.state
      → Unmarked annotation_original_auto_sync (annotations_of app)
      → Back policy_ref app
  reconcile_argo_cd_app-round_trip policy_ref app h u = go app.state h refl
    where
      go : (s : Automated) → Restorable s → app.state ≡ s → Back policy_ref app
      go _ (object_there j) e =
          let (t, m, p, q, d) = trips.marshals j in
          Back-from policy_ref app t (rw e m) (rw e) (rw e (restored j t p q d)) u
      go _ nothing_there e = Back-from policy_ref app "null" (rw e) (rw e) (rw e restored_null) u

  -- With a JSON codec that reads back what it writes, an Application without the operator's
  -- annotations that has automated sync and that two different policies pause, one after the other:
  -- the second pause writes over what the first recorded; the end of the first policy changes
  -- nothing, and the end of the second leaves the Application without automated sync.
  pub reconcile_argo_cd_app-loses_auto_sync :
      (p q : String) (app : Application) (j : Json)
      → p ≢ q
      → app.state ≡ object j
      → Unmarked annotation_original_auto_sync (annotations_of app)
      → (paused : Application) × (paused_twice : Application) × (resumed : Application)
        × (reconcile_argo_cd_app codec p true app ≡ written paused true)
        × (reconcile_argo_cd_app codec q true paused ≡ written paused_twice true)
        × (reconcile_argo_cd_app codec p false paused_twice ≡ kept false)
        × (reconcile_argo_cd_app codec q false paused_twice ≡ written resumed false)
        × (resumed.state ≡ absent)
  unfolding reconcile_argo_cd_app
  reconcile_argo_cd_app-loses_auto_sync p q app j n e u =
      let (t, m, _, _, _) = trips.marshals j in
      let once = paused_app p t app in
      let twice = paused_app q "null" once in
      (
        once,
        twice,
        record twice {
          annotations =
              some (resumed_annotations annotation_original_auto_sync (annotations_of twice));
        },
        rw (Unmarked-managed app p u, pause_app, e, m, e),
        rw (paused_app-managed_by p t q app, not_empty p q n, pause_app),
        rw (paused_app-managed_by q "null" p once, not_empty q p (λ k. n (sym k))),
        rw (
          paused_app-managed q "null" once,
          resume_app,
          original_paused_app q "null" once,
          restored_null,
        ),
        refl,
      )
