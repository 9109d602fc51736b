-- ===== src/GitOps/ArgoCd/Switch.antt =====
-- reconcileArgoCDApp of internal/gitops/argocd.go: the switch for one Application, and the loop with it.
use kube_freeze_operator.Common.{
  ◌≡◌, ◌≢◌, inl, inr, refl, ◌∙◌, String, Bool, true, false, not, ◌&&◌, none, some, Bool-cases,
  Option-cases,
}
use kube_freeze_operator.Common.Texts.{◌==◌, eq_refl}
use kube_freeze_operator.Common.Dict.{get}
use kube_freeze_operator.GitOps.{
  annotation_original_auto_sync, annotations_of, managed_by_us, paused_annotations,
  resumed_annotations,
}
use kube_freeze_operator.GitOps.Frame.{Moves, kept_as_is, moved, failed}
use kube_freeze_operator.GitOps.Marks.{marks-paused, marks-resumed}
use kube_freeze_operator.GitOps.ArgoCd.{
  Json, Automated, absent, object, other_value, no_path, Application, JsonCodec, original_auto_sync,
  remove_automated, restored_automated, set_automated, pause_app, resume_app, reconcile_argo_cd_app,
}

-- encoding/json writes every object, neither as the empty text nor as null, and reads it back.
pub record RoundTrips (codec : JsonCodec) : Type 0 where
  pub marshals :
      (j : Json)
      → (t : String) × (codec.marshal j ≡ some t)
        × (t ≢ "")
        × (t ≢ "null")
        × (codec.unmarshal t ≡ some j)

-- spec and its syncPolicy, where present, are objects.
abbrev pub HasPath : Application → Type 0
HasPath app = app.state ≢ no_path

module _ (codec : JsonCodec) (trips : RoundTrips codec) (policy_ref : String) where
  remove_automated-HasPath : (s : Automated) → s ≢ no_path → remove_automated s ≢ no_path
  remove_automated-HasPath absent h = λ e. absurd (cc)
  remove_automated-HasPath (object j) h = λ e. absurd (cc)
  remove_automated-HasPath other_value h = λ e. absurd (cc)
  remove_automated-HasPath no_path h = h

  original_total : (s : Automated) → (t : String) × (original_auto_sync codec s ≡ some t)
  original_total absent = ("null", refl)
  original_total (object j) = ((trips.marshals j).0, (trips.marshals j).1)
  original_total other_value = ("null", refl)
  original_total no_path = ("null", refl)

  set_none : (j : Json) (s : Automated) → set_automated j s ≡ none → s ≡ no_path
  set_none j absent h = absurd (cc)
  set_none j (object i) h = absurd (cc)
  set_none j other_value h = absurd (cc)
  set_none j no_path h = refl

  set_some :
      (j : Json) (s s' : Automated) → set_automated j s ≡ some s' → s ≢ no_path → s' ≢ no_path
  set_some j absent s' h g = λ e. absurd (cc)
  set_some j (object i) s' h g = λ e. absurd (cc)
  set_some j other_value s' h g = λ e. absurd (cc)
  set_some j no_path s' h g = absurd (g refl)

  restored_none : (t : String) (s : Automated) → restored_automated codec t s ≡ none → s ≡ no_path
  unfolding restored_automated
  restored_none t s h = elim (Bool-cases (not (t == "") && not (t == "null"))) [
    | inr e ↦ absurd (cc (rw e at h))
    | inl e ↦ elim (Option-cases (codec.unmarshal t)) [
      | inl f ↦ absurd (cc (rw (e, f) at h))
      | inr (j, f) ↦ set_none j s (rw (e, f) at h)
    ]
  ]

  restored_some :
      (t : String) (s s' : Automated)
      → restored_automated codec t s ≡ some s'
      → s ≢ no_path
      → s' ≢ no_path
  unfolding restored_automated
  restored_some t s s' h g = elim (Bool-cases (not (t == "") && not (t == "null"))) [
    | inr e ↦ λ k. g (cc (rw e at h))
    | inl e ↦ elim (Option-cases (codec.unmarshal t)) [
      | inl f ↦ λ k. g (cc (rw (e, f) at h))
      | inr (j, f) ↦ set_some j s s' (rw (e, f) at h) g
    ]
  ]

  pause_app-Moves :
      (app : Application)
      → managed_by_us app policy_ref ≡ false
      → Moves HasPath policy_ref true app (pause_app codec policy_ref app)
  pause_app-Moves app m =
      let (t, e) = original_total app.state in
      rw (pause_app, e)
        (moved
          (record app {
            annotations = some (
                paused_annotations annotation_original_auto_sync t policy_ref (annotations_of app));
            state = remove_automated app.state;
          })
          (record {
            was_managed = m;
            is_managed =
                marks-paused annotation_original_auto_sync t policy_ref policy_ref
                  (annotations_of app)
                ∙ eq_refl policy_ref;
            same_namespace = refl;
            same_name = refl;
            same_labels = refl;
            stays_good = remove_automated-HasPath app.state;
          }))

  resume_app-Moves :
      (app : Application)
      → managed_by_us app policy_ref ≡ true
      → Moves HasPath policy_ref false app (resume_app codec app)
  resume_app-Moves app m =
      elim (Option-cases (
        restored_automated codec (get annotation_original_auto_sync (annotations_of app))
          app.state)) [
            | inl e ↦
                rw (resume_app, e)
                  (failed (λ g. g (
                    restored_none (get annotation_original_auto_sync (annotations_of app)) app.state
                      e)))
            | inr (s, e) ↦
                rw (resume_app, e)
                  (moved
                    (record app {
                      annotations =
                          some (
                            resumed_annotations annotation_original_auto_sync (annotations_of app));
                      state = s;
                    })
                    (record {
                      was_managed = m;
                      is_managed =
                          marks-resumed annotation_original_auto_sync policy_ref
                            (annotations_of app);
                      same_namespace = refl;
                      same_name = refl;
                      same_labels = refl;
                      stays_good = λ g.
                          restored_some (get annotation_original_auto_sync (annotations_of app))
                            app.state s e g;
                    }))
          ]

  pub reconcile_argo_cd_app-Moves :
      (active : Bool) (app : Application)
      → Moves HasPath policy_ref active app (reconcile_argo_cd_app codec policy_ref active app)
  unfolding reconcile_argo_cd_app
  reconcile_argo_cd_app-Moves true app = elim (Bool-cases (managed_by_us app policy_ref)) [
    | inl e ↦ rw e (kept_as_is e)
    | inr e ↦ rw e (pause_app-Moves app e)
  ]
  reconcile_argo_cd_app-Moves false app = elim (Bool-cases (managed_by_us app policy_ref)) [
    | inl e ↦ rw e (resume_app-Moves app e)
    | inr e ↦ rw e (kept_as_is e)
  ]
